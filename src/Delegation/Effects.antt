-- ===== src/Delegation/Effects.antt =====
-- What each event does to the pending operations and to the subscriptions.
use ap2030_uns.Prelude.{
  ◌≡◌, ◌∙◌, refl, sym, ap, String, Bool, true, false, Option, none, some, List, [], ◌∷◌,
  if◌then◌else◌, codes, str_eq, eq_iff,
}
use ap2030_uns.Prelude.Dict.{lookup, insert, lookup-insert, lookup-erase}
use ap2030_uns.Delegation.Values.{Text, split_bar, Message}
use ap2030_uns.Delegation.Bridge.{
  PendingOperation, Bridge, update_parts, update_aas_state_async, async_path, update_if_async,
  state_of, respond, subscribed, deliver, on_message, new_operation, begin, cleanup, end_wait,
}

-- Only the log differs.
abbrev pub SameState : Bridge → Bridge → Type 0
SameState b c =
    (b.pending_operations ≡ c.pending_operations)
    × (b.response_subscriptions ≡ c.response_subscriptions)

update_parts-same :
    (parts : List Text) (state : Text) (b : Bridge) → SameState (update_parts parts state b) b
update_parts-same [] state b = (refl, refl)
update_parts-same (p ∷ []) state b = (refl, refl)
update_parts-same (p ∷ q ∷ []) state b = (refl, refl)
update_parts-same (p ∷ q ∷ r ∷ rest) state b = (refl, refl)

update_by-same :
    (o : Option Text) (state : Text) (b : Bridge)
    → SameState (elim o [ none ↦ b | some path ↦ update_aas_state_async path state b ]) b
unfolding update_aas_state_async
update_by-same none state b = (refl, refl)
update_by-same (some path) state b = by_updater b.has_updater
  where
    by_updater : (u : Bool) → SameState (if u then update_parts (split_bar path) state b else b) b
    by_updater true = update_parts-same (split_bar path) state b
    by_updater false = (refl, refl)

pub update_if_async-same :
    (op : PendingOperation) (state : Text) (b : Bridge) → SameState (update_if_async op state b) b
unfolding update_if_async
update_if_async-same op state b =
    update_by-same (async_path op.is_async op.state_property_path) state b

pub lookup-begin :
    (id topic j : String) (is_async : Bool) (path : Option Text) (b : Bridge)
    → let n = begin id topic is_async path b in
      (lookup j n.pending_operations ≡ (
        if str_eq id j
        then some (new_operation topic is_async path)
        else lookup j b.pending_operations))
      × (lookup j n.response_subscriptions
          ≡ (if str_eq topic j then some id else lookup j b.response_subscriptions))
unfolding begin
lookup-begin id topic j is_async path b =
    let op = new_operation topic is_async path in
    let same = update_if_async-same op (codes "RUNNING") b in
    (
      lookup-insert id j op (update_if_async op (codes "RUNNING") b).pending_operations
          ∙ ap (λ d. if str_eq id j then some op else lookup j d) same.0,
      lookup-insert topic j id (update_if_async op (codes "RUNNING") b).response_subscriptions
          ∙ ap (λ d. if str_eq topic j then some id else lookup j d) same.1,
    )

pub lookup-cleanup :
    (id topic j : String) (b : Bridge)
    → let n = cleanup id topic b in
      (lookup j n.pending_operations
        ≡ (if str_eq id j then none else lookup j b.pending_operations))
      × (lookup j n.response_subscriptions
          ≡ (if str_eq topic j then none else lookup j b.response_subscriptions))
unfolding cleanup
lookup-cleanup id topic j b =
    (lookup-erase id j b.pending_operations, lookup-erase topic j b.response_subscriptions)

pub lookup-end_wait :
    (id j : String) (op : PendingOperation) (b : Bridge)
    → let n = end_wait id op b in
      (lookup j n.pending_operations
        ≡ (if str_eq id j then none else lookup j b.pending_operations))
      × (lookup j n.response_subscriptions
          ≡ (if str_eq op.response_topic j then none else lookup j b.response_subscriptions))
unfolding end_wait
lookup-end_wait id j op b =
    let state : Text = if op.response_received then codes "IDLE" else codes "TIMEOUT" in
    let same = update_if_async-same op state b in
    let cleaned = lookup-cleanup id op.response_topic j (update_if_async op state b) in
    (
      cleaned.0 ∙ ap (λ d. if str_eq id j then none else lookup j d) same.0,
      cleaned.1 ∙ ap (λ d. if str_eq op.response_topic j then none else lookup j d) same.1,
    )

-- The operation after a message on a topic, if the topic's subscription names it.
abbrev pub heard : Option Message → PendingOperation → PendingOperation
heard none op = op
heard (some payload) op = elim (state_of (lookup "State" payload)) [
  | none ↦ op
  | some state ↦ respond payload state op
]

abbrev pub named : Option String → String → Bool
named none j = false
named (some id) j = str_eq id j

abbrev pub change_if :
    Bool → (PendingOperation → PendingOperation) → Option PendingOperation → Option PendingOperation
change_if b f none = none
change_if true f (some op) = some (f op)
change_if false f (some op) = some op

change_if-false :
    (f : PendingOperation → PendingOperation) (o : Option PendingOperation)
    → o ≡ change_if false f o
change_if-false f none = refl
change_if-false f (some op) = refl

change_if-same :
    (c : Bool) (f : PendingOperation → PendingOperation) (o : Option PendingOperation)
    → ((op : PendingOperation) → f op ≡ op)
    → o ≡ change_if c f o
change_if-same c f none h = refl
change_if-same true f (some op) h = ap some (sym (h op))
change_if-same false f (some op) h = refl

change_if-some :
    (c : Bool) (f : PendingOperation → PendingOperation) (o : Option PendingOperation)
    (op : PendingOperation)
    → (c ≡ true → o ≡ some op)
    → (if c then some (f op) else o) ≡ change_if c f o
change_if-some true f o op h = rw (h refl) refl
change_if-some false f o op h = change_if-false f o

change_if-none :
    (c : Bool) (f : PendingOperation → PendingOperation) (o : Option PendingOperation)
    → (c ≡ true → o ≡ none)
    → o ≡ change_if c f o
change_if-none true f o h = rw (h refl) refl
change_if-none false f o h = change_if-false f o

module _ (j : String) (payload : Message) (state : Text) (b : Bridge) where
  delivered : Option String → Bridge
  delivered sub = deliver payload state (subscribed sub b) b

  by_operation :
      (id : String) (o : Option PendingOperation)
      → lookup id b.pending_operations ≡ o
      → let n = deliver payload state (elim o [ none ↦ none | some op ↦ some (id, op) ]) b in
        (lookup j n.pending_operations
          ≡ change_if (str_eq id j) (respond payload state) (lookup j b.pending_operations))
        × (n.response_subscriptions ≡ b.response_subscriptions)
  by_operation id none e = (
    change_if-none (str_eq id j) (respond payload state) (lookup j b.pending_operations)
        (λ k. ap (λ i. lookup i b.pending_operations) (sym ((eq_iff id j).0 k)) ∙ e),
    refl,
  )
  by_operation id (some op) e =
      let new = respond payload state op in
      let same =
        update_if_async-same op state
          (record b { pending_operations = insert id new b.pending_operations }) in
      (
        ap (lookup j) same.0
            ∙ lookup-insert id j new b.pending_operations
            ∙ change_if-some (str_eq id j) (respond payload state) (lookup j b.pending_operations)
                op (λ k. ap (λ i. lookup i b.pending_operations) (sym ((eq_iff id j).0 k)) ∙ e),
        same.1,
      )

  by_subscription :
      (sub : Option String)
      → (lookup j (delivered sub).pending_operations
          ≡ change_if (named sub j) (respond payload state) (lookup j b.pending_operations))
        × ((delivered sub).response_subscriptions ≡ b.response_subscriptions)
  unfolding delivered
  by_subscription none =
      (change_if-false (respond payload state) (lookup j b.pending_operations), refl)
  by_subscription (some id) = by_operation id (lookup id b.pending_operations) refl

-- A message reaches the operation that its topic's subscription names, and no other.
pub lookup-on_message :
    (topic j : String) (payload : Option Message) (b : Bridge)
    → let n = on_message topic payload b in
      (lookup j n.pending_operations
        ≡ change_if
            (named (lookup topic b.response_subscriptions) j)
            (heard payload)
            (lookup j b.pending_operations))
      × (n.response_subscriptions ≡ b.response_subscriptions)
unfolding on_message delivered
lookup-on_message topic j none b = (
  change_if-same (named (lookup topic b.response_subscriptions) j) (λ op. op)
      (lookup j b.pending_operations) (λ op. refl),
  refl,
)
lookup-on_message topic j (some payload) b = by_state (state_of (lookup "State" payload))
  where
    by_state :
        (o : Option Text)
        → let n : Bridge = elim o [
          | none ↦ b
          | some state ↦
              deliver payload state (subscribed (lookup topic b.response_subscriptions) b) b
        ] in
          (lookup j n.pending_operations
            ≡ change_if
                (named (lookup topic b.response_subscriptions) j)
                (λ op. elim o [ none ↦ op | some state ↦ respond payload state op ])
                (lookup j b.pending_operations))
          × (n.response_subscriptions ≡ b.response_subscriptions)
    by_state none = (
      change_if-same (named (lookup topic b.response_subscriptions) j) (λ op. op)
          (lookup j b.pending_operations) (λ op. refl),
      refl,
    )
    by_state (some state) =
        by_subscription j payload state b (lookup topic b.response_subscriptions)
