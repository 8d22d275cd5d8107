-- ===== src/Delegation/Extract.antt =====
-- schema_parser.py: the fields and arrays that are extracted from a schema, by its properties.
use ap2030_uns.Prelude.{
  ◌≡◌, ◌∙◌, refl, ap, String, Bool, true, false, ◌&&◌, ◌||◌, Option, none, some, List, [], ◌∷◌,
  if◌then◌else◌, ltb, contains, Distinct, str_eq, eq_iff, arith,
}
use ap2030_uns.Prelude.Dict.{Dict, insert}
use ap2030_uns.Delegation.Schema.{
  ItemDef, PropDef, Schema, Structure, ArrayInfo, item_infos, array_info, is_named, add_array_field,
  add_property, add_properties, extract_from_schema, or_else,
}
use ap2030_uns.Delegation.Command.{keys}
use ap2030_uns.Delegation.Found.{found_items, some_found}

-- The property is an array with a found item.
abbrev pub property_found : List String → PropDef → Bool
property_found fields p = elim p.prefix_items [
  | none ↦ false
  | some items ↦ is_named "array" p.json_type && ltb 0 (found_items fields (item_infos 0 items))
]

abbrev pub properties_found : List String → Dict PropDef → Bool
properties_found fields [] = false
properties_found fields ((name, p) ∷ rest) = property_found fields p || properties_found fields rest

abbrev pub schema_properties : Schema → Dict PropDef
schema_properties schema = or_else schema.properties []

keys-insert {ℓ} :
    {V : Type ℓ} (k j : String) (v : V) (d : Dict V)
    → contains j (keys (insert k v d)) ≡ (str_eq k j || contains j (keys d))
keys-insert k j v [] = refl
keys-insert k j v ((i, w) ∷ d) =
    ground (arith, eq_iff i k, eq_iff i j, eq_iff k j, keys-insert k j v d)

some_found-insert :
    (fields : List String) (name : String) (a : ArrayInfo) (d : Dict ArrayInfo)
    → contains name (keys d) ≡ false
    → some_found fields (insert name a d)
      ≡ (some_found fields d || ltb 0 (found_items fields a.items))
some_found-insert fields name a [] h = by_flag (ltb 0 (found_items fields a.items))
  where
    by_flag : (b : Bool) → (b || false) ≡ b
    by_flag true = refl
    by_flag false = refl
some_found-insert fields name a ((i, b) ∷ d) h =
    by_key (str_eq i name) h (ltb 0 (found_items fields b.items))
      (λ k. some_found-insert fields name a d k)
  where
    by_key :
        (c : Bool)
        → (c || contains name (keys d)) ≡ false
        → (x : Bool)
        → (contains name (keys d) ≡ false
            → some_found fields (insert name a d)
              ≡ (some_found fields d || ltb 0 (found_items fields a.items)))
        → some_found fields (if c then (i, a) ∷ d else (i, b) ∷ insert name a d) ≡ (
            (ltb 0 (found_items fields b.items) || some_found fields d)
            || ltb 0 (found_items fields a.items))
    by_key true k x r = absurd cc
    by_key false k x r =
        ap (λ z. ltb 0 (found_items fields b.items) || z) (r k)
        ∙ assoc (ltb 0 (found_items fields b.items)) (some_found fields d)
            (ltb 0 (found_items fields a.items))
      where
        assoc : (x y z : Bool) → (x || (y || z)) ≡ ((x || y) || z)
        assoc true y z = refl
        assoc false y z = refl

-- The arrays behind one property.
some_found-add_property :
    (fields : List String) (name : String) (p : PropDef) (s : Structure)
    → contains name (keys s.array_fields) ≡ false
    → some_found fields (add_property name p s).array_fields
      ≡ (some_found fields s.array_fields || property_found fields p)
some_found-add_property fields name p s h = by_items p.prefix_items
  where
    same : (b : Bool) → b ≡ (b || false)
    same true = refl
    same false = refl

    with_type : Structure
    with_type = record s {
      field_types =
          insert name (record { json_type = p.json_type; format = p.format }) s.field_types;
    }

    by_flag :
        (items : List ItemDef) (b : Bool)
        → some_found fields
            (if b
              then record with_type {
                array_fields = insert name (array_info p items) s.array_fields;
              }
              else with_type).array_fields
          ≡ (some_found fields s.array_fields
              || b && ltb 0 (found_items fields (item_infos 0 items)))
    by_flag items true = some_found-insert fields name (array_info p items) s.array_fields h
    by_flag items false = same (some_found fields s.array_fields)

    by_items :
        (o : Option (List ItemDef))
        → some_found fields (add_array_field name p o with_type).array_fields ≡ (
            some_found fields s.array_fields || (elim o as (λ x. Bool) [
              | none ↦ false
              | some items ↦
                  is_named "array" p.json_type && ltb 0 (found_items fields (item_infos 0 items))
            ]))
    by_items none = same (some_found fields s.array_fields)
    by_items (some items) = by_flag items (is_named "array" p.json_type)

-- The names behind one property: its own is new among the types, and may be among the arrays.
keys-add_property :
    (k name : String) (p : PropDef) (s : Structure)
    → (contains k (keys (add_property name p s).field_types)
        ≡ (str_eq name k || contains k (keys s.field_types)))
      × (str_eq name k ≡ false
          → contains k (keys s.array_fields) ≡ false
          → contains k (keys (add_property name p s).array_fields) ≡ false)
keys-add_property k name p s = by_items p.prefix_items
  where
    with_type : Structure
    with_type = record s {
      field_types =
          insert name (record { json_type = p.json_type; format = p.format }) s.field_types;
    }

    types :
        contains k (keys with_type.field_types) ≡ (str_eq name k || contains k (keys s.field_types))
    types = keys-insert name k (record { json_type = p.json_type; format = p.format }) s.field_types

    Grown : Structure → Type 0
    Grown t =
        (contains k (keys t.field_types) ≡ (str_eq name k || contains k (keys s.field_types)))
        × (str_eq name k ≡ false
            → contains k (keys s.array_fields) ≡ false
            → contains k (keys t.array_fields) ≡ false)

    by_flag :
        (items : List ItemDef) (b : Bool)
        → Grown (
            if b
            then record with_type { array_fields = insert name (array_info p items) s.array_fields }
            else with_type)
    by_flag items true = (
      types,
      λ e h.
          keys-insert name k (array_info p items) s.array_fields
          ∙ ap (λ b. b || contains k (keys s.array_fields)) e
          ∙ h,
    )
    by_flag items false = (types, λ e h. h)

    by_items : (o : Option (List ItemDef)) → Grown (add_array_field name p o with_type)
    by_items none = (types, λ e h. h)
    by_items (some items) = by_flag items (is_named "array" p.json_type)

keys-add_properties :
    (k : String) (props : Dict PropDef) (s : Structure)
    → contains k (keys props) ≡ false
    → contains k (keys s.field_types) ≡ false
    → contains k (keys s.array_fields) ≡ false
    → (contains k (keys (add_properties props s).field_types) ≡ false)
      × (contains k (keys (add_properties props s).array_fields) ≡ false)
unfolding add_properties
keys-add_properties k [] s h t a = (t, a)
keys-add_properties k ((name, p) ∷ rest) s h t a =
    let g = keys-add_property k name p s in
    let q = parts (str_eq name k) (contains k (keys rest)) h in
    keys-add_properties k rest (add_property name p s) q.1
      (g.0 ∙ ap (λ b. b || contains k (keys s.field_types)) q.0 ∙ t) (g.1 q.0 a)
  where
    parts : (a b : Bool) → (a || b) ≡ false → (a ≡ false) × (b ≡ false)
    parts a b e = (ground (arith, e), ground (arith, e))

some_found-add_properties :
    (fields : List String) (props : Dict PropDef) (s : Structure)
    → Distinct (keys props)
    → ((k : String) → contains k (keys props) ≡ true → contains k (keys s.array_fields) ≡ false)
    → some_found fields (add_properties props s).array_fields
      ≡ (some_found fields s.array_fields || properties_found fields props)
unfolding add_properties
some_found-add_properties fields [] s d h = same (some_found fields s.array_fields)
  where
    same : (b : Bool) → b ≡ (b || false)
    same true = refl
    same false = refl
some_found-add_properties fields ((name, p) ∷ rest) s d h =
    some_found-add_properties fields rest (add_property name p s) d.1 (λ k e.
      (keys-add_property k name p s).1 (other k (str_eq name k) refl e)
        (h k (later (str_eq name k) (contains k (keys rest)) e)))
    ∙ ap (λ b. b || properties_found fields rest)
        (some_found-add_property fields name p s (h name own))
    ∙ assoc (some_found fields s.array_fields) (property_found fields p)
        (properties_found fields rest)
  where
    assoc : (x y z : Bool) → ((x || y) || z) ≡ (x || (y || z))
    assoc true y z = refl
    assoc false y z = refl

    own : (str_eq name name || contains name (keys rest)) ≡ true
    own = ap (λ b. b || contains name (keys rest)) ((eq_iff name name).1 refl)

    later : (a b : Bool) → b ≡ true → (a || b) ≡ true
    later a b e = ground (arith, e)

    other : (k : String) (b : Bool) → str_eq name k ≡ b → contains k (keys rest) ≡ true → b ≡ false
    other k false e f = refl
    other k true e f = absurd (clash (ap (λ z. contains z (keys rest)) ((eq_iff name k).0 e) ∙ f))
      where
        clash : contains name (keys rest) ≡ true → ⊥
        clash g = absurd (two (contains name (keys rest)) g d.0)
          where
            two : (b : Bool) → b ≡ true → b ≡ false → ⊥
            two b x y = cc

pub some_found-extract_from_schema :
    (fields : List String) (schema : Schema)
    → Distinct (keys (schema_properties schema))
    → some_found fields (extract_from_schema schema).array_fields
      ≡ properties_found fields (schema_properties schema)
unfolding extract_from_schema
some_found-extract_from_schema fields schema d =
    some_found-add_properties fields (schema_properties schema)
      (record { required_fields = or_else schema.required []; field_types = []; array_fields = [] })
      d (λ k e. refl)

pub keys-extract_from_schema :
    (k : String) (schema : Schema)
    → contains k (keys (schema_properties schema)) ≡ false
    → (contains k (keys (extract_from_schema schema).field_types) ≡ false)
      × (contains k (keys (extract_from_schema schema).array_fields) ≡ false)
unfolding extract_from_schema
keys-extract_from_schema k schema h =
    keys-add_properties k (schema_properties schema)
      (record { required_fields = or_else schema.required []; field_types = []; array_fields = [] })
      h refl refl
