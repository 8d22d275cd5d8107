-- ===== src/Delegation/Fields.antt =====
-- The fields of a command whose structure comes from a schema.
use ap2030_uns.Prelude.{
  ◌≡◌, ◌∙◌, refl, ap, String, Bool, true, false, not, Option, none, some, List, [], ◌∷◌,
  if◌then◌else◌, codes, contains, str_eq, Distinct, arith,
}
use ap2030_uns.Prelude.Dict.{Dict, lookup}
use ap2030_uns.Delegation.Values.{Value, text, single, Message}
use ap2030_uns.Delegation.Schema.{
  Schema, Structure, FieldType, ArrayInfo, ArrayMapping, FieldMappings, find_field, is_missing,
  map_simple, map_items, keep_mapped, map_arrays, extract_from_schema, determine_field_mappings,
}
use ap2030_uns.Delegation.Command.{
  Variable, field_values, keys, add_simple, pack_arrays, pass_through, mappings_for, fill,
  build_command_message,
}
use ap2030_uns.Delegation.Values.{Field}
use ap2030_uns.Delegation.Found.{is_nil, is_nil-map_arrays}
use ap2030_uns.Delegation.Extract.{
  schema_properties, properties_found, some_found-extract_from_schema, keys-extract_from_schema,
}
use ap2030_uns.Delegation.Items.{single_of, lookup-pack_arrays}
use ap2030_uns.Delegation.Keys.{Distinct-field_values, lookup-pass_through, lookup-add_simple}

keys-map_simple :
    (k : String) (fields : List String) (arrays : Dict ArrayInfo) (types : Dict FieldType)
    → contains k (keys types) ≡ false
    → contains k (keys (map_simple fields arrays types)) ≡ false
unfolding map_simple
keys-map_simple k fields arrays [] h = refl
keys-map_simple k fields arrays ((name, info) ∷ rest) h =
    by_case (not (is_missing (lookup name arrays))) (find_field name fields)
      (keys-map_simple k fields arrays rest (ground (arith, h)))
  where
    by_case :
        (c : Bool) (o : Option String)
        → contains k (keys (map_simple fields arrays rest)) ≡ false
        → contains k (
            keys (
              if c then map_simple fields arrays rest else elim o [
                | none ↦ map_simple fields arrays rest
                | some f ↦
                    (
                      name,
                      record { aas_field = f; json_type = info.json_type; format = info.format },
                    )
                    ∷ map_simple fields arrays rest
              ]))
          ≡ false
    by_case true o r = r
    by_case false none r = r
    by_case false (some f) r = ground (arith, h, r)

keys-keep_mapped :
    (k name : String) (ms : List ArrayMapping) (rest : Dict (List ArrayMapping))
    → str_eq name k ≡ false
    → contains k (keys rest) ≡ false
    → contains k (keys (keep_mapped name ms rest)) ≡ false
keys-keep_mapped k name [] rest h r = r
keys-keep_mapped k name (m ∷ ms) rest h r = ground (arith, h, r)

keys-map_arrays :
    (k : String) (fields : List String) (arrays : Dict ArrayInfo)
    → contains k (keys arrays) ≡ false
    → contains k (keys (map_arrays fields arrays)) ≡ false
unfolding map_arrays
keys-map_arrays k fields [] h = refl
keys-map_arrays k fields ((name, info) ∷ rest) h =
    keys-keep_mapped k name (map_items fields info.min_items info.items) (map_arrays fields rest)
      (ground (arith, h)) (keys-map_arrays k fields rest (ground (arith, h)))

lookup-fill :
    (k : String) (f : FieldMappings) (values : Dict Value) (c : Message)
    → Distinct (keys values)
    → contains k (keys f.simple_mappings) ≡ false
    → contains k (keys f.array_mappings) ≡ false
    → lookup k c ≡ none
    → lookup k (fill f values c)
      ≡ (if is_nil f.array_mappings then single_of (lookup k values) else none)
lookup-fill k f values c d s a h = by_arrays f.array_mappings a
  where
    simple : Message
    simple = add_simple f.simple_mappings values c

    lookup-simple : lookup k simple ≡ none
    lookup-simple = lookup-add_simple k f.simple_mappings values c s ∙ h

    by_value :
        (o : Option Value)
        → lookup k simple ≡ none
        → (elim o [ none ↦ lookup k simple | some v ↦ some (single v) ]) ≡ single_of o
    by_value none r = r
    by_value (some v) r = refl

    by_arrays :
        (arrays : Dict (List ArrayMapping))
        → contains k (keys arrays) ≡ false
        → lookup k (elim arrays as (λ x. Message) [
          | [] ↦ pass_through values simple
          | x ∷ xs ↦ pack_arrays arrays values simple
        ])
          ≡ (if is_nil arrays then single_of (lookup k values) else none)
    by_arrays [] r =
        lookup-pass_through k values simple d ∙ by_value (lookup k values) lookup-simple
    by_arrays (x ∷ xs) r = lookup-pack_arrays k (x ∷ xs) values simple r ∙ lookup-simple

-- Where a command's structure comes from a schema with distinct properties, a command is built,
-- and a field that is no property of the schema is left out of it if some property is an array of
-- which an item has a field of its name among the operation's, up to letter case; otherwise it is
-- sent as it is.
pub lookup-build_command_message :
    (schema_of : String → Option Schema) (id url : String) (variables : List (Option Variable))
    (schema : Schema) (values : Dict Value)
    → str_eq url "" ≡ false
    → schema_of url ≡ some schema
    → Distinct (keys (schema_properties schema))
    → field_values variables [] ≡ some values
    → (c : Message) × (build_command_message schema_of id variables [] (some url) ≡ some c)
      × ((k : String)
          → contains k ("Uuid" ∷ keys (schema_properties schema)) ≡ false
          → lookup k c ≡ (
              if properties_found (keys values) (schema_properties schema)
              then none
              else single_of (lookup k values)))
unfolding build_command_message mappings_for determine_field_mappings
lookup-build_command_message schema_of id url variables schema values u e p g = (
  fill f values start,
  rw (g, u, e, build_command_message, mappings_for) refl,
  λ k h.
      let parts = name_parts k h in
      let extracted = keys-extract_from_schema k schema parts.1 in
      lookup-fill k f values start (Distinct-field_values variables [] values tt g)
        (keys-map_simple k (keys values) s.array_fields s.field_types extracted.0)
        (keys-map_arrays k (keys values) s.array_fields extracted.1)
        (ap (λ b. if b then some (single (text (codes id))) else none) parts.0)
      ∙ flip (is_nil f.array_mappings) (properties_found (keys values) (schema_properties schema))
          (is_nil-map_arrays (keys values) s.array_fields
            ∙ ap not (some_found-extract_from_schema (keys values) schema p))
          (single_of (lookup k values)),
)
  where
    s : Structure
    s = extract_from_schema schema

    f : FieldMappings
    f = determine_field_mappings (keys values) s

    start : Message
    start = ("Uuid", single (text (codes id))) ∷ []

    name_parts :
        (k : String)
        → contains k ("Uuid" ∷ keys (schema_properties schema)) ≡ false
        → (str_eq "Uuid" k ≡ false) × (contains k (keys (schema_properties schema)) ≡ false)
    name_parts k h = (ground (arith, h), ground (arith, h))

    flip :
        (a b : Bool)
        → a ≡ not b
        → (o : Option Field) → (if a then o else none) ≡ (if b then none else o)
    flip a true e o = ap (λ c. if c then o else none) e
    flip a false e o = ap (λ c. if c then o else none) e
