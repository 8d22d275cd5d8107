-- ===== src/Delegation/Owning.antt =====
-- An operation that alone is subscribed to its response topic, through the steps of the bridge.
use ap2030_uns.Prelude.{
  ◌≡◌, ◌∙◌, refl, sym, ap, String, Bool, true, false, Option, none, some, List, [], ◌∷◌,
  if◌then◌else◌, str_eq, eq_iff, str_eq_comm, arith, Option-cases, inl, inr,
}
use ap2030_uns.Prelude.Dict.{lookup}
use ap2030_uns.Delegation.Values.{Text, Message}
use ap2030_uns.Delegation.Bridge.{
  PendingOperation, Bridge, Event, invoke, command, failed, wait_ends, message, new_operation,
  begin, cleanup, end_wait, on_message, step,
}
use ap2030_uns.Delegation.Effects.{
  lookup-begin, lookup-cleanup, lookup-end_wait, lookup-on_message, heard, named, change_if,
}
use ap2030_uns.Delegation.Delivery.{topic-heard, not_erased, same_value, Removed}
use ap2030_uns.Delegation.Isolation.{if_other}

-- The operation after one event.
abbrev pub after : String → Event → PendingOperation → PendingOperation
after topic (message t payload) op = if str_eq topic t then heard payload op else op
after topic _ op = op

-- Events of other invocations, with other IDs on other topics.
abbrev pub IsApart : String → String → Event → Type 0
IsApart id topic (invoke j t is_async path) = (str_eq id j ≡ false) × (str_eq topic t ≡ false)
IsApart id topic (failed j) = str_eq id j ≡ false
IsApart id topic (wait_ends j) = str_eq id j ≡ false
IsApart id topic _ = Unit

abbrev pub AllApart : String → String → List Event → Type 0
AllApart id topic [] = Unit
AllApart id topic (e ∷ es) = IsApart id topic e × AllApart id topic es

abbrev pub IsAlone : String → String → Bridge → Type 0
IsAlone id topic b =
    (j : String) (o : PendingOperation)
    → str_eq id j ≡ false
    → lookup j b.pending_operations ≡ some o
    → str_eq topic o.response_topic ≡ false

-- The operation is subscribed to its topic only, and no other one waits on it.
pub record Owns (id topic : String) (op : PendingOperation) (b : Bridge) : Type 0 where
  pub mine : lookup id b.pending_operations ≡ some op
  pub subscribed : lookup topic b.response_subscriptions ≡ some id
  pub nowhere_else :
      (t : String) → lookup t b.response_subscriptions ≡ some id → str_eq topic t ≡ true
  pub alone : IsAlone id topic b

pub Removed-Owns :
    (id topic j : String) (op o : PendingOperation) (b n : Bridge)
    → str_eq id j ≡ false
    → lookup j b.pending_operations ≡ some o
    → Removed j o b n
    → Owns id topic op b
    → Owns id topic op n
Removed-Owns id topic j op o b n h e r d = record {
  mine =
      (r id).0
      ∙ if_other (str_eq j id) none (lookup id b.pending_operations) (str_eq_comm j id ∙ h)
      ∙ d.mine;
  subscribed =
      (r topic).1
      ∙ if_other (str_eq o.response_topic topic) none (lookup topic b.response_subscriptions)
          (str_eq_comm o.response_topic topic ∙ d.alone j o h e)
      ∙ d.subscribed;
  nowhere_else = λ t k.
      d.nowhere_else t
        (not_erased (str_eq o.response_topic t) (lookup t b.response_subscriptions) id
          (sym (r t).1 ∙ k)).1;
  alone = λ i p q k.
      d.alone i p q (not_erased (str_eq j i) (lookup i b.pending_operations) p (sym (r i).0 ∙ k)).1;
}

pub begin-Owns_other :
    (id topic j t : String) (op : PendingOperation) (is_async : Bool) (path : Option Text)
    (b : Bridge)
    → str_eq id j ≡ false
    → str_eq topic t ≡ false
    → Owns id topic op b
    → Owns id topic op (begin j t is_async path b)
begin-Owns_other id topic j t op is_async path b h k d =
    let new = new_operation t is_async path in
    record {
      mine =
          (lookup-begin j t id is_async path b).0
          ∙ if_other (str_eq j id) (some new) (lookup id b.pending_operations)
              (str_eq_comm j id ∙ h)
          ∙ d.mine;
      subscribed =
          (lookup-begin j t topic is_async path b).1
          ∙ if_other (str_eq t topic) (some j) (lookup topic b.response_subscriptions)
              (str_eq_comm t topic ∙ k)
          ∙ d.subscribed;
      nowhere_else =
          λ s f. by_topic s (str_eq t s) (sym (lookup-begin j t s is_async path b).1 ∙ f);
      alone = λ i o q f. by_id i o q (str_eq j i) (sym (lookup-begin j t i is_async path b).0 ∙ f);
    }
  where
    by_topic :
        (s : String) (c : Bool)
        → (if c then some j else lookup s b.response_subscriptions) ≡ some id
        → str_eq topic s ≡ true
    by_topic s true f = absurd ground (arith, h, f, eq_iff id j)
    by_topic s false f = d.nowhere_else s f

    by_id :
        (i : String) (o : PendingOperation)
        → str_eq id i ≡ false
        → (c : Bool)
        → (if c then some (new_operation t is_async path) else lookup i b.pending_operations)
          ≡ some o
        → str_eq topic o.response_topic ≡ false
    by_id i o q true f =
        let same : o ≡ new_operation t is_async path =
          same_value (some o) o (new_operation t is_async path) refl (sym f) in
        ap (λ (x : PendingOperation). str_eq topic x.response_topic) same ∙ k
    by_id i o q false f = d.alone i o q f

pub message-Owns :
    (id topic t : String) (op : PendingOperation) (payload : Option Message) (b : Bridge)
    → Owns id topic op b
    → Owns id topic (if str_eq topic t then heard payload op else op) (on_message t payload b)
message-Owns id topic t op payload b d =
    let subs = (lookup-on_message t id payload b).1 in
    record {
      mine =
          (lookup-on_message t id payload b).0
          ∙ ap (change_if (named (lookup t b.response_subscriptions) id) (heard payload)) d.mine
          ∙ by_topic (str_eq topic t) refl (named (lookup t b.response_subscriptions) id) refl;
      subscribed = ap (lookup topic) subs ∙ d.subscribed;
      nowhere_else = λ s k. d.nowhere_else s (ap (lookup s) (sym subs) ∙ k);
      alone = λ j o q k.
          by_operation j o q (named (lookup t b.response_subscriptions) j)
            (lookup j b.pending_operations) refl (sym (lookup-on_message t j payload b).0 ∙ k);
    }
  where
    clash : (c : Bool) → c ≡ true → c ≡ false → ⊥
    clash c h k = cc

    is_named : (s : Option String) → named s id ≡ true → s ≡ some id
    is_named none k = absurd cc
    is_named (some j) k = ap some ((eq_iff j id).0 k)

    by_topic :
        (c : Bool)
        → str_eq topic t ≡ c
        → (n : Bool) → named (lookup t b.response_subscriptions) id ≡ n
        → change_if n (heard payload) (some op) ≡ some (if c then heard payload op else op)
    by_topic true e true k = refl
    by_topic false e false k = refl
    by_topic true e false k =
        let found =
          ap (λ i. lookup i b.response_subscriptions) (sym ((eq_iff topic t).0 e)) ∙ d.subscribed in
        absurd (
          clash (named (lookup t b.response_subscriptions) id)
            (ap (λ s. named s id) found ∙ (eq_iff id id).1 refl) k)
    by_topic false e true k =
        absurd ground (arith, d.nowhere_else t (is_named (lookup t b.response_subscriptions) k), e)

    by_operation :
        (j : String) (o : PendingOperation)
        → str_eq id j ≡ false
        → (c : Bool) (p : Option PendingOperation) → lookup j b.pending_operations ≡ p
        → change_if c (heard payload) p ≡ some o
        → str_eq topic o.response_topic ≡ false
    by_operation j o q c none e k = absurd cc
    by_operation j o q false (some p) e k = d.alone j o q (e ∙ k)
    by_operation j o q true (some p) e k =
        let same : o ≡ heard payload p = same_value (some o) o (heard payload p) refl (sym k) in
        ap (λ (x : PendingOperation). str_eq topic x.response_topic) same
        ∙ ap (str_eq topic) (topic-heard payload p)
        ∙ d.alone j p q e

pub step-Owns :
    (id topic : String) (op : PendingOperation) (e : Event) (b : Bridge)
    → IsApart id topic e
    → Owns id topic op b
    → Owns id topic (after topic e op) (step e b)
unfolding step
step-Owns id topic op (invoke j t is_async path) b h d =
    begin-Owns_other id topic j t op is_async path b h.0 h.1 d
step-Owns id topic op (command t m) b h d = record {
  mine = d.mine;
  subscribed = d.subscribed;
  nowhere_else = d.nowhere_else;
  alone = d.alone;
}
step-Owns id topic op (failed j) b h d = elim (Option-cases (lookup j b.pending_operations)) [
  | inl e ↦ rw (e, step) d
  | inr (o, e) ↦
      rw (e, step)
        (Removed-Owns id topic j op o b (cleanup j o.response_topic b) h e
          (λ k. lookup-cleanup j o.response_topic k b) d)
]
step-Owns id topic op (wait_ends j) b h d = elim (Option-cases (lookup j b.pending_operations)) [
  | inl e ↦ rw (e, step) d
  | inr (o, e) ↦
      rw (e, step)
        (Removed-Owns id topic j op o b (end_wait j o b) h e (λ k. lookup-end_wait j k o b) d)
]
step-Owns id topic op (message t payload) b h d = message-Owns id topic t op payload b d
