-- ===== src/Delegation/RoundTrip.antt =====
-- The arrays of a command, unpacked again with the same mappings.
use ap2030_uns.Prelude.{
  ◌≡◌, ◌≢◌, ◌∙◌, refl, sym, ap, String, Bool, true, false, ◌||◌, Option, none, some, List, [], ◌∷◌,
  All, if◌then◌else◌, length, codes, contains, contains-append, str_eq, eq_iff, arith,
}
use ap2030_uns.Prelude.Dict.{Dict, lookup, insert, lookup-insert}
use ap2030_uns.Delegation.Values.{Value, text, single, Message}
use ap2030_uns.Delegation.Schema.{Schema, ArrayMapping, item_fields, array_mapped_fields}
use ap2030_uns.Delegation.Command.{
  Variable, field_values, keys, pack_arrays, add_simple, mappings_for, build_command_message,
}
use ap2030_uns.Delegation.Response.{
  nth, put_item, unpack, items_of, unpack_arrays, is_unpacked, add_remaining, flatten,
}
use ap2030_uns.Delegation.Packing.{AllPresent}
use ap2030_uns.Delegation.Items.{
  AreArrays, HasItems, single_of, lookup-pack_arrays, IsCarried, pack_arrays-IsCarried,
}

lookup-unpack :
    (values : Dict Value) (f : String) (ms : List ArrayMapping) (vs : List Value) (d : Message)
    → HasItems values vs ms
    → AllPresent values ms
    → lookup f (unpack ms vs d)
      ≡ (if contains f (item_fields ms) then single_of (lookup f values) else lookup f d)
lookup-unpack values f [] vs d h a = refl
lookup-unpack values f (m ∷ ms) vs d h a =
    let (v, e) = a.0 in
    lookup-unpack values f ms vs (put_item m.aas_field (nth m.index vs) d) h.1 a.1
    ∙ ap (λ o. if contains f (item_fields ms) then single_of (lookup f values) else o)
        (ap (λ o. lookup f (put_item m.aas_field o d)) (h.0 ∙ e)
          ∙ lookup-insert m.aas_field f (single v) d)
    ∙ by_flags (str_eq m.aas_field f) (contains f (item_fields ms)) v
        (λ k. ap (λ g. lookup g values) (sym ((eq_iff m.aas_field f).0 k)) ∙ e)
  where
    by_flags :
        (c k : Bool) (v : Value)
        → (c ≡ true → lookup f values ≡ some v)
        → (if k then single_of (lookup f values) else if c then some (single v) else lookup f d)
          ≡ (if c || k then single_of (lookup f values) else lookup f d)
    by_flags true true v q = refl
    by_flags true false v q = sym (ap single_of (q refl))
    by_flags false true v q = refl
    by_flags false false v q = refl

lookup-unpack_arrays :
    (values : Dict Value) (f : String) (arrays : Dict (List ArrayMapping)) (c d : Message)
    → All (IsCarried values c) arrays
    → lookup f (unpack_arrays arrays c d) ≡ (
        if contains f (array_mapped_fields arrays) then single_of (lookup f values) else lookup f d)
unfolding unpack_arrays
lookup-unpack_arrays values f [] c d h = refl
lookup-unpack_arrays values f ((parent, ms) ∷ rest) c d ((vs, e, n, items, a), h) =
    lookup-unpack_arrays values f rest c
      (elim (items_of (lookup parent c)) as (λ x. Message) [
        | [] ↦ d
        | v ∷ ws ↦ unpack ms (v ∷ ws) d
      ])
      h
    ∙ ap (λ o. if contains f (array_mapped_fields rest) then single_of (lookup f values) else o)
        (ap (lookup f) (unpacked (items_of (lookup parent c)) e n)
          ∙ lookup-unpack values f ms vs d items a)
    ∙ by_flags (contains f (item_fields ms)) (contains f (array_mapped_fields rest))
    ∙ ap (λ b. if b then single_of (lookup f values) else lookup f d)
        (sym (contains-append f (item_fields ms) (array_mapped_fields rest)))
  where
    unpacked :
        (ws : List Value)
        → ws ≡ vs
        → length vs ≢ 0
        → (elim ws as (λ x. Message) [ [] ↦ d | v ∷ us ↦ unpack ms (v ∷ us) d ]) ≡ unpack ms vs d
    unpacked [] q k = absurd (k (ap length (sym q)))
    unpacked (w ∷ ws) q k = ap (λ z. unpack ms z d) q

    by_flags :
        (b k : Bool)
        → (if k
            then single_of (lookup f values)
            else if b
            then single_of (lookup f values)
            else lookup f d)
          ≡ (if b || k then single_of (lookup f values) else lookup f d)
    by_flags true true = refl
    by_flags true false = refl
    by_flags false true = refl
    by_flags false false = refl

lookup-add_remaining :
    (f : String) (arrays : Dict (List ArrayMapping)) (response rest d : Message)
    → lookup f rest ≡ none
    → lookup f (add_remaining arrays response rest d) ≡ lookup f d
unfolding add_remaining
lookup-add_remaining f arrays response [] d h = refl
lookup-add_remaining f arrays response ((name, field) ∷ rest) d h =
    let (apart, later) = not_here (str_eq name f) refl h in
    lookup-add_remaining f arrays response rest
      (if is_unpacked name arrays response then d else insert name field d) later
    ∙ by_flag (is_unpacked name arrays response) apart
  where
    not_here :
        (c : Bool)
        → str_eq name f ≡ c
        → (if c then some field else lookup f rest) ≡ none
        → (str_eq name f ≡ false) × (lookup f rest ≡ none)
    not_here true e k = absurd cc
    not_here false e k = (e, k)

    by_flag :
        (c : Bool)
        → str_eq name f ≡ false
        → lookup f (if c then d else insert name field d) ≡ lookup f d
    by_flag true e = refl
    by_flag false e =
        lookup-insert name f field d ∙ ap (λ b. if b then some field else lookup f d) e

-- Packing and unpacking: where the mappings of each configured array have the indexes 0, 1, 2 and
-- so on, in this order and without a gap, for fields with values, a command is built, and
-- unpacked as a response with the same mappings it gives each field of an array that is not
-- itself named as an array or `Uuid` its value back.
pub build_command_message-flatten :
    (schema_of : String → Option Schema) (id : String) (variables : List (Option Variable))
    (url : Option String) (x : String × List ArrayMapping) (rest : Dict (List ArrayMapping))
    (values : Dict Value)
    → field_values variables [] ≡ some values
    → AreArrays values (x ∷ rest)
    → (c : Message) × (build_command_message schema_of id variables (x ∷ rest) url ≡ some c)
      × ((f : String)
          → contains f (array_mapped_fields (x ∷ rest)) ≡ true
          → contains f ("Uuid" ∷ keys (x ∷ rest)) ≡ false
          → lookup f (flatten (x ∷ rest) c) ≡ single_of (lookup f values))
unfolding build_command_message mappings_for flatten add_simple
build_command_message-flatten schema_of id variables url x rest values e h = (
  c,
  rw (e, build_command_message) refl,
  λ f listed other.
      lookup-add_remaining f (x ∷ rest) c c (unpack_arrays (x ∷ rest) c []) (
        lookup-pack_arrays f (x ∷ rest) values start (ground (arith, other))
        ∙ not_id f (str_eq "Uuid" f) refl other)
      ∙ lookup-unpack_arrays values f (x ∷ rest) c []
          (pack_arrays-IsCarried values (x ∷ rest) start h)
      ∙ ap (λ b. if b then single_of (lookup f values) else none) listed,
)
  where
    start : Message
    start = ("Uuid", single (text (codes id))) ∷ []

    c : Message
    c = pack_arrays (x ∷ rest) values start

    not_id :
        (f : String) (b : Bool)
        → str_eq "Uuid" f ≡ b
        → b || contains f (keys (x ∷ rest)) ≡ false
        → (if b then some (single (text (codes id))) else none) ≡ none
    not_id f true q k = absurd cc
    not_id f false q k = refl
