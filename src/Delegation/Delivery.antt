-- ===== src/Delegation/Delivery.antt =====
-- Which invocation gets which messages, in any order of events.
use ap2030_uns.Prelude.{
  ◌≡◌, ◌∙◌, inl, inr, refl, sym, ap, String, Bool, true, false, Option, none, some, List, [], ◌∷◌,
  if◌then◌else◌, str_eq, eq_iff, arith, Option-cases, Bool-cases,
}
use ap2030_uns.Prelude.Dict.{lookup}
use ap2030_uns.Delegation.Values.{Text, Message}
use ap2030_uns.Delegation.Bridge.{
  PendingOperation, Bridge, Event, invoke, command, failed, wait_ends, message, new_operation,
  begin, cleanup, end_wait, on_message, state_of, respond, step, run, create,
}
use ap2030_uns.Delegation.Effects.{
  lookup-begin, lookup-cleanup, lookup-end_wait, lookup-on_message, heard, named, change_if,
}

-- Each subscription names a pending operation that waits on this topic.
abbrev pub IsConsistent : Bridge → Type 0
IsConsistent b =
    (topic id : String)
    → lookup topic b.response_subscriptions ≡ some id
    → (op : PendingOperation) × (lookup id b.pending_operations ≡ some op)
      × (op.response_topic ≡ topic)

-- An invocation's ID, a new UUID, is not in use.
abbrev pub IsFresh : Event → Bridge → Type 0
IsFresh (invoke id topic is_async path) b = lookup id b.pending_operations ≡ none
IsFresh _ b = Unit

abbrev pub AllFresh : List Event → Bridge → Type 0
AllFresh [] b = Unit
AllFresh (e ∷ es) b = IsFresh e b × AllFresh es (step e b)

-- The bridge without an operation and its topic's subscription.
abbrev pub Removed : String → PendingOperation → Bridge → Bridge → Type 0
Removed id op b n =
    (j : String)
    → (lookup j n.pending_operations
        ≡ (if str_eq id j then none else lookup j b.pending_operations))
      × (lookup j n.response_subscriptions
          ≡ (if str_eq op.response_topic j then none else lookup j b.response_subscriptions))

pub not_erased {ℓ} :
    {A : Type ℓ} (c : Bool) (x : Option A) (y : A)
    → (if c then none else x) ≡ some y
    → (c ≡ false) × (x ≡ some y)
not_erased true x y h = absurd cc
not_erased false x y h = (refl, h)

pub same_value {ℓ} : {A : Type ℓ} (o : Option A) (x y : A) → o ≡ some x → o ≡ some y → x ≡ y
same_value o x y h k = ground (arith, h, k)

Removed-IsConsistent :
    (id : String) (op : PendingOperation) (b n : Bridge)
    → lookup id b.pending_operations ≡ some op
    → Removed id op b n
    → IsConsistent b
    → IsConsistent n
Removed-IsConsistent id op b n e r v topic j h =
    let (apart, sub) =
      not_erased (str_eq op.response_topic topic) (lookup topic b.response_subscriptions) j
        (sym (r topic).1 ∙ h) in
    let (o, m, waits) = v topic j sub in
    elim (Bool-cases (str_eq id j)) [
      | inl k ↦
          let same : o ≡ op =
            same_value (lookup j b.pending_operations) o op m
              (ap (λ i. lookup i b.pending_operations) (sym ((eq_iff id j).0 k)) ∙ e) in
          let equal : str_eq op.response_topic topic ≡ true =
            (eq_iff op.response_topic topic).1
              (ap (λ (x : PendingOperation). x.response_topic) (sym same) ∙ waits) in
          absurd (clash (str_eq op.response_topic topic) equal apart)
      | inr k ↦
          (o, (r j).0 ∙ ap (λ c. if c then none else lookup j b.pending_operations) k ∙ m, waits)
    ]
  where
    clash : (c : Bool) → c ≡ true → c ≡ false → ⊥
    clash c h k = cc

begin-IsConsistent :
    (id topic : String) (is_async : Bool) (path : Option Text) (b : Bridge)
    → lookup id b.pending_operations ≡ none
    → IsConsistent b
    → IsConsistent (begin id topic is_async path b)
begin-IsConsistent id topic is_async path b f v t j h =
    let begun = lookup-begin id topic j is_async path b in
    let subs = sym (lookup-begin id topic t is_async path b).1 ∙ h in
    elim (Bool-cases (str_eq topic t)) [
      | inl k ↦
          let mine : id ≡ j = ground (arith, k, subs) in
          (
            new_operation topic is_async path,
            begun.0
                ∙ ap
                    (λ c.
                      if c
                      then some (new_operation topic is_async path)
                      else lookup j b.pending_operations)
                    ((eq_iff id j).1 mine),
            (eq_iff topic t).0 k,
          )
      | inr k ↦
          let (o, m, waits) = v t j (ground (arith, k, subs)) in
          let apart : str_eq id j ≡ false = ground (arith, f, m, eq_iff id j) in
          (
            o,
            begun.0
                ∙ ap
                    (λ c.
                      if c
                      then some (new_operation topic is_async path)
                      else lookup j b.pending_operations)
                    apart
                ∙ m,
            waits,
          )
    ]

pub topic-heard :
    (payload : Option Message) (op : PendingOperation)
    → (heard payload op).response_topic ≡ op.response_topic
topic-heard none op = refl
topic-heard (some m) op = by_state (state_of (lookup "State" m))
  where
    by_state :
        (o : Option Text)
        → (elim o as (λ x. PendingOperation) [
          | none ↦ op
          | some state ↦ respond m state op
        ]).response_topic
          ≡ op.response_topic
    by_state none = refl
    by_state (some state) = refl

message-IsConsistent :
    (topic : String) (payload : Option Message) (b : Bridge)
    → IsConsistent b
    → IsConsistent (on_message topic payload b)
message-IsConsistent topic payload b v t j h =
    let told = lookup-on_message topic j payload b in
    let (o, m, waits) = v t j (ap (lookup t) (sym told.1) ∙ h) in
    let c = named (lookup topic b.response_subscriptions) j in
    let changed : (op : PendingOperation) × (change_if c (heard payload) (some o) ≡ some op)
        × (op.response_topic ≡ t) =
      by_flag c o waits in
    (changed.0, told.0 ∙ ap (change_if c (heard payload)) m ∙ changed.1, changed.2)
  where
    by_flag :
        (c : Bool) (o : PendingOperation)
        → o.response_topic ≡ t
        → (op : PendingOperation) × (change_if c (heard payload) (some o) ≡ some op)
          × (op.response_topic ≡ t)
    by_flag true o w = (heard payload o, refl, topic-heard payload o ∙ w)
    by_flag false o w = (o, refl, w)

step-IsConsistent :
    (e : Event) (b : Bridge) → IsFresh e b → IsConsistent b → IsConsistent (step e b)
unfolding step
step-IsConsistent (invoke id topic is_async path) b f v =
    begin-IsConsistent id topic is_async path b f v
step-IsConsistent (command topic m) b f v = v
step-IsConsistent (failed id) b f v = elim (Option-cases (lookup id b.pending_operations)) [
  | inl e ↦ rw (e, step) v
  | inr (op, e) ↦
      rw (e, step)
        (Removed-IsConsistent id op b (cleanup id op.response_topic b) e
          (λ j. lookup-cleanup id op.response_topic j b) v)
]
step-IsConsistent (wait_ends id) b f v = elim (Option-cases (lookup id b.pending_operations)) [
  | inl e ↦ rw (e, step) v
  | inr (op, e) ↦
      rw (e, step)
        (Removed-IsConsistent id op b (end_wait id op b) e (λ j. lookup-end_wait id j op b) v)
]
step-IsConsistent (message topic payload) b f v = message-IsConsistent topic payload b v

run_from-IsConsistent :
    (es : List Event) (b : Bridge) → AllFresh es b → IsConsistent b → IsConsistent (run es b)
unfolding run
run_from-IsConsistent [] b f v = v
run_from-IsConsistent (e ∷ es) b f v =
    run_from-IsConsistent es (step e b) f.1 (step-IsConsistent e b f.0 v)

-- After any invocations with new IDs, messages, failures and ends of waits, in any order, each
-- subscription of a response topic names a pending operation that waits on this topic.
pub run-IsConsistent :
    (has_updater : Bool) (es : List Event)
    → AllFresh es (create has_updater)
    → IsConsistent (run es (create has_updater))
unfolding create
run-IsConsistent has_updater es f =
    run_from-IsConsistent es (create has_updater) f (λ topic id h. absurd cc)
