-- ===== src/Delegation/Alone.antt =====
-- One invocation that is alone on its response topic, among others.
use ap2030_uns.Prelude.{
  ◌≡◌, ◌∙◌, refl, sym, ap, String, Bool, true, false, Option, none, some, List, [], ◌∷◌,
  if◌then◌else◌, str_eq, eq_iff, arith,
}
use ap2030_uns.Prelude.Dict.{lookup}
use ap2030_uns.Delegation.Values.{Text}
use ap2030_uns.Delegation.Bridge.{PendingOperation, Bridge, Event, new_operation, begin, step, run}
use ap2030_uns.Delegation.Effects.{lookup-begin}
use ap2030_uns.Delegation.Delivery.{IsConsistent}
use ap2030_uns.Delegation.Isolation.{if_other}
use ap2030_uns.Delegation.Owning.{after, AllApart, IsAlone, Owns, step-Owns}

-- The operation after the messages on its topic, in their order.
abbrev pub responses : String → List Event → PendingOperation → PendingOperation
responses topic [] op = op
responses topic (e ∷ es) op = responses topic es (after topic e op)

run-Owns :
    (id topic : String) (op : PendingOperation) (es : List Event) (b : Bridge)
    → AllApart id topic es
    → Owns id topic op b
    → Owns id topic (responses topic es op) (run es b)
unfolding run
run-Owns id topic op [] b h d = d
run-Owns id topic op (e ∷ es) b h d =
    run-Owns id topic (after topic e op) es (step e b) h.1 (step-Owns id topic op e b h.0 d)

begin-Owns :
    (id topic : String) (is_async : Bool) (path : Option Text) (b : Bridge)
    → IsConsistent b
    → lookup id b.pending_operations ≡ none
    → IsAlone id topic b
    → Owns id topic (new_operation topic is_async path) (begin id topic is_async path b)
begin-Owns id topic is_async path b v f a = record {
  mine =
      (lookup-begin id topic id is_async path b).0
      ∙ ap
          (λ c.
            if c then some (new_operation topic is_async path) else lookup id b.pending_operations)
          ((eq_iff id id).1 refl);
  subscribed =
      (lookup-begin id topic topic is_async path b).1
      ∙ ap (λ c. if c then some id else lookup topic b.response_subscriptions)
          ((eq_iff topic topic).1 refl);
  nowhere_else =
      λ s k. by_topic s (str_eq topic s) (sym (lookup-begin id topic s is_async path b).1 ∙ k);
  alone = λ j o q k. a j o q (
      sym (
        if_other (str_eq id j) (some (new_operation topic is_async path))
          (lookup j b.pending_operations) q)
      ∙ sym (lookup-begin id topic j is_async path b).0
      ∙ k);
}
  where
    by_topic :
        (s : String) (c : Bool)
        → (if c then some id else lookup s b.response_subscriptions) ≡ some id
        → c ≡ true
    by_topic s true k = refl
    by_topic s false k = let (o, m, w) = v s id k in absurd ground (arith, f, m)

-- An invocation with a new ID, on a response topic that no pending operation waits on: after any
-- messages and any steps of other invocations on other topics, its operation has got the messages
-- on its topic, all of them in their order, and no other.
pub invocation-responses :
    (id topic : String) (is_async : Bool) (path : Option Text) (es : List Event) (b : Bridge)
    → IsConsistent b
    → lookup id b.pending_operations ≡ none
    → IsAlone id topic b
    → AllApart id topic es
    → lookup id (run es (begin id topic is_async path b)).pending_operations
      ≡ some (responses topic es (new_operation topic is_async path))
invocation-responses id topic is_async path es b v f a h =
    (run-Owns id topic (new_operation topic is_async path) es (begin id topic is_async path b) h
      (begin-Owns id topic is_async path b v f a)).mine
