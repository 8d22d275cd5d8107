-- ===== src/Delegation/Keys.antt =====
-- What a message has under a key, after the values and the simple mappings of a command.
use ap2030_uns.Prelude.{
  ◌≡◌, ◌∙◌, refl, sym, ap, subst, String, Bool, true, false, ◌||◌, Option, none, some, List, [],
  ◌∷◌, if◌then◌else◌, contains, str_eq, eq_iff, str_eq_comm, Distinct, arith,
}
use ap2030_uns.Prelude.Dict.{Dict, lookup, insert, lookup-insert}
use ap2030_uns.Delegation.Values.{Value, Field, single, Message}
use ap2030_uns.Delegation.Schema.{or_else, SimpleMapping}
use ap2030_uns.Delegation.Command.{Variable, convert, field_values, keys, add_simple, pass_through}

pub contains-keys-insert {ℓ} :
    {V : Type ℓ} (j k : String) (v : V) (d : Dict V)
    → contains j (keys (insert k v d)) ≡ (contains j (keys d) || str_eq k j)
contains-keys-insert j k v [] = ground arith
contains-keys-insert j k v ((i, w) ∷ d) =
    ground (arith, contains-keys-insert j k v d, eq_iff i k, eq_iff i j, eq_iff k j)

pub Distinct-keys-insert {ℓ} :
    {V : Type ℓ} (k : String) (v : V) (d : Dict V)
    → Distinct (keys d)
    → Distinct (keys (insert k v d))
Distinct-keys-insert k v [] h = (refl, tt)
Distinct-keys-insert k v ((i, w) ∷ d) h = by_key (str_eq i k) refl (Distinct-keys-insert k v d h.1)
  where
    by_key :
        (c : Bool)
        → str_eq i k ≡ c
        → Distinct (keys (insert k v d))
        → Distinct (keys (if c then (i, v) ∷ d else (i, w) ∷ insert k v d))
    by_key true e r = h
    by_key false e r = (contains-keys-insert i k v d ∙ ground (arith, h.0, e, str_eq_comm i k), r)

pub Distinct-field_values :
    (variables : List (Option Variable)) (d values : Dict Value)
    → Distinct (keys d)
    → field_values variables d ≡ some values
    → Distinct (keys values)
unfolding field_values
Distinct-field_values [] d values h e = subst (λ z. Distinct (keys z)) (some_inj d values e) h
  where
    some_inj : (a b : Dict Value) → some a ≡ some b → a ≡ b
    some_inj a b q = ground (arith, q)
Distinct-field_values (none ∷ vs) d values h e = Distinct-field_values vs d values h e
Distinct-field_values (some v ∷ vs) d values h e =
    by_value (convert (or_else v.value_type "xs:string") v.value)
      (λ x q.
        Distinct-field_values vs (insert (or_else v.id_short "") x d) values
          (Distinct-keys-insert (or_else v.id_short "") x d h) q)
      e
  where
    by_value :
        (o : Option Value)
        → ((x : Value)
            → field_values vs (insert (or_else v.id_short "") x d) ≡ some values
            → Distinct (keys values))
        → (elim o as (λ y. Option (Dict Value)) [
          | none ↦ none
          | some x ↦ field_values vs (insert (or_else v.id_short "") x d)
        ])
          ≡ some values
        → Distinct (keys values)
    by_value none r q = absurd cc
    by_value (some x) r q = r x q

pub lookup-missing {ℓ} :
    {V : Type ℓ} (k : String) (d : Dict V) → contains k (keys d) ≡ false → lookup k d ≡ none
lookup-missing k [] h = refl
lookup-missing k ((j, v) ∷ d) h = ground (arith, h, lookup-missing k d)

pub lookup-pass_through :
    (k : String) (values : Dict Value) (c : Message)
    → Distinct (keys values)
    → lookup k (pass_through values c)
      ≡ (elim (lookup k values) [ none ↦ lookup k c | some v ↦ some (single v) ])
unfolding pass_through
lookup-pass_through k [] c h = refl
lookup-pass_through k ((j, v) ∷ rest) c h =
    lookup-pass_through k rest (insert j (single v) c) h.1
    ∙ by_key (str_eq j k) (lookup k rest)
        (λ e. missing (ap (λ z. contains z (keys rest)) (sym ((eq_iff j k).0 e)) ∙ h.0))
        (lookup-insert j k (single v) c)
  where
    no_value : (w : Value) → some w ≡ none → ⊥
    no_value w q = cc

    missing : contains k (keys rest) ≡ false → lookup k rest ≡ none
    missing e = lookup-missing k rest e

    by_key :
        (b : Bool) (o : Option Value)
        → (b ≡ true → o ≡ none)
        → lookup k (insert j (single v) c) ≡ (if b then some (single v) else lookup k c)
        → (elim o as (λ x. Option Field) [
          | none ↦ lookup k (insert j (single v) c)
          | some w ↦ some (single w)
        ])
          ≡ (elim (if b then some v else o) as (λ x. Option Field) [
            | none ↦ lookup k c
            | some w ↦ some (single w)
          ])
    by_key true none q r = r
    by_key true (some w) q r = absurd (no_value w (q refl))
    by_key false none q r = r
    by_key false (some w) q r = refl

pub lookup-add_simple :
    (k : String) (simple : Dict SimpleMapping) (values : Dict Value) (c : Message)
    → contains k (keys simple) ≡ false
    → lookup k (add_simple simple values c) ≡ lookup k c
unfolding add_simple
lookup-add_simple k [] values c h = refl
lookup-add_simple k ((name, m) ∷ ms) values c h =
    lookup-add_simple k ms values
      (elim (lookup m.aas_field values) as (λ x. Message) [
        | none ↦ c
        | some v ↦ insert name (single v) c
      ])
      (ground (arith, h))
    ∙ by_value (lookup m.aas_field values) (str_eq name k) refl (ground (arith, h))
  where
    by_value :
        (o : Option Value) (b : Bool)
        → str_eq name k ≡ b
        → b ≡ false
        → lookup k (elim o as (λ x. Message) [ none ↦ c | some v ↦ insert name (single v) c ])
          ≡ lookup k c
    by_value none b e q = refl
    by_value (some v) b e q =
        lookup-insert name k (single v) c
        ∙ ap (λ z. if z then some (single v) else lookup k c) (e ∙ q)
