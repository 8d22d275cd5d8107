-- ===== src/Delegation/Isolation.antt =====
-- Two invocations on one response topic.
use ap2030_uns.Prelude.{
  ◌≡◌, ◌∙◌, refl, sym, ap, String, Bool, true, false, Option, none, some, List, [], ◌∷◌,
  if◌then◌else◌, str_eq, eq_iff, str_eq_comm, Option-cases, Bool-cases, inl, inr,
}
use ap2030_uns.Prelude.Dict.{lookup}
use ap2030_uns.Delegation.Values.{Text}
use ap2030_uns.Delegation.Bridge.{
  PendingOperation, Bridge, Event, invoke, command, failed, wait_ends, message, timed_out,
  ending_of, new_operation, begin, cleanup, end_wait, step, run,
}
use ap2030_uns.Delegation.Effects.{
  lookup-begin, lookup-cleanup, lookup-end_wait, lookup-on_message, heard, named, change_if,
}
use ap2030_uns.Delegation.Delivery.{IsConsistent, same_value, Removed}

-- Events of other invocations, with other IDs.
abbrev pub IsOther : String → Event → Type 0
IsOther id (invoke j topic is_async path) = str_eq id j ≡ false
IsOther id (failed j) = str_eq id j ≡ false
IsOther id (wait_ends j) = str_eq id j ≡ false
IsOther id _ = Unit

abbrev pub AllOther : String → List Event → Type 0
AllOther id [] = Unit
AllOther id (e ∷ es) = IsOther id e × AllOther id es

-- Nothing is subscribed for the operation.
record IsDeaf (id : String) (op : PendingOperation) (b : Bridge) : Type 0 where
  mine : lookup id b.pending_operations ≡ some op
  silent : (t : String) → named (lookup t b.response_subscriptions) id ≡ false

pub if_other {ℓ} : {A : Type ℓ} (c : Bool) (x y : A) → c ≡ false → (if c then x else y) ≡ y
if_other c x y h = rw h refl

Removed-IsDeaf :
    (id j : String) (op o : PendingOperation) (b n : Bridge)
    → str_eq id j ≡ false
    → Removed j o b n
    → IsDeaf id op b
    → IsDeaf id op n
Removed-IsDeaf id j op o b n h r d = record {
  mine =
      (r id).0
      ∙ if_other (str_eq j id) none (lookup id b.pending_operations) (str_eq_comm j id ∙ h)
      ∙ d.mine;
  silent = λ t.
      ap (λ s. named s id) (r t).1
      ∙ by_topic (str_eq o.response_topic t) (lookup t b.response_subscriptions) (d.silent t);
}
  where
    by_topic :
        (c : Bool) (s : Option String)
        → named s id ≡ false
        → named (if c then none else s) id ≡ false
    by_topic true s k = refl
    by_topic false s k = k

step-IsDeaf :
    (id : String) (op : PendingOperation) (e : Event) (b : Bridge)
    → IsOther id e
    → IsDeaf id op b
    → IsDeaf id op (step e b)
unfolding step
step-IsDeaf id op (invoke j topic is_async path) b h d = record {
  mine =
      (lookup-begin j topic id is_async path b).0
      ∙ if_other (str_eq j id) (some (new_operation topic is_async path))
          (lookup id b.pending_operations) (str_eq_comm j id ∙ h)
      ∙ d.mine;
  silent = λ t.
      ap (λ s. named s id) (lookup-begin j topic t is_async path b).1
      ∙ by_topic (str_eq topic t) (lookup t b.response_subscriptions) (d.silent t);
}
  where
    by_topic :
        (c : Bool) (s : Option String)
        → named s id ≡ false
        → named (if c then some j else s) id ≡ false
    by_topic true s k = str_eq_comm j id ∙ h
    by_topic false s k = k
step-IsDeaf id op (command topic m) b h d = record { mine = d.mine; silent = d.silent }
step-IsDeaf id op (failed j) b h d = elim (Option-cases (lookup j b.pending_operations)) [
  | inl e ↦ rw (e, step) d
  | inr (o, e) ↦
      rw (e, step)
        (Removed-IsDeaf id j op o b (cleanup j o.response_topic b) h
          (λ k. lookup-cleanup j o.response_topic k b) d)
]
step-IsDeaf id op (wait_ends j) b h d = elim (Option-cases (lookup j b.pending_operations)) [
  | inl e ↦ rw (e, step) d
  | inr (o, e) ↦
      rw (e, step) (Removed-IsDeaf id j op o b (end_wait j o b) h (λ k. lookup-end_wait j k o b) d)
]
step-IsDeaf id op (message topic payload) b h d =
    let told = lookup-on_message topic id payload b in
    record {
      mine =
          told.0
          ∙ ap (λ c. change_if c (heard payload) (lookup id b.pending_operations)) (d.silent topic)
          ∙ ap (change_if false (heard payload)) d.mine;
      silent = λ t. ap (λ s. named (lookup t s) id) told.1 ∙ d.silent t;
    }

run-IsDeaf :
    (id : String) (op : PendingOperation) (es : List Event) (b : Bridge)
    → AllOther id es
    → IsDeaf id op b
    → IsDeaf id op (run es b)
unfolding run
run-IsDeaf id op [] b h d = d
run-IsDeaf id op (e ∷ es) b h d = run-IsDeaf id op es (step e b) h.1 (step-IsDeaf id op e b h.0 d)

-- A second invocation on the response topic of a pending one takes its responses: whatever
-- messages come and whatever other invocations do, the first operation stays as it was, so that
-- its wait times out if it had no final response before.
pub second_invocation-silences :
    (id other : String) (op : PendingOperation) (is_async : Bool) (path : Option Text)
    (es : List Event) (b : Bridge)
    → IsConsistent b
    → lookup id b.pending_operations ≡ some op
    → str_eq id other ≡ false
    → AllOther id es
    → (lookup id (run es (begin other op.response_topic is_async path b)).pending_operations
        ≡ some op)
      × (op.response_received ≡ false → ending_of op ≡ timed_out)
second_invocation-silences id other op is_async path es b v e h a = (
  (run-IsDeaf id op es (begin other op.response_topic is_async path b) a deaf).mine,
  λ k. rw k refl,
)
  where
    clash : (c : Bool) → c ≡ true → c ≡ false → ⊥
    clash c h k = cc

    topic_only :
        (t : String) (c : Bool)
        → str_eq op.response_topic t ≡ c
        → (s : Option String) → lookup t b.response_subscriptions ≡ s
        → named (if c then some other else s) id ≡ false
    topic_only t true k s f = str_eq_comm other id ∙ h
    topic_only t false k none f = refl
    topic_only t false k (some j) f = elim (Bool-cases (str_eq j id)) [
      | inl q ↦
          let (o, m, waits) = v t j f in
          let mine : o ≡ op =
            same_value (lookup j b.pending_operations) o op m
              (ap (λ i. lookup i b.pending_operations) ((eq_iff j id).0 q) ∙ e) in
          absurd (
            clash (str_eq op.response_topic t)
              ((eq_iff op.response_topic t).1
                (ap (λ (x : PendingOperation). x.response_topic) (sym mine) ∙ waits))
              k)
      | inr q ↦ q
    ]

    deaf : IsDeaf id op (begin other op.response_topic is_async path b)
    deaf = record {
      mine =
          (lookup-begin other op.response_topic id is_async path b).0
          ∙ if_other (str_eq other id) (some (new_operation op.response_topic is_async path))
              (lookup id b.pending_operations) (str_eq_comm other id ∙ h)
          ∙ e;
      silent = λ t.
          ap (λ s. named s id) (lookup-begin other op.response_topic t is_async path b).1
          ∙ topic_only t (str_eq op.response_topic t) refl (lookup t b.response_subscriptions) refl;
    }
