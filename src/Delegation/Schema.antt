-- ===== src/Delegation/Schema.antt =====
-- schema_parser.py: the structure of a message's schema, and how the fields of an AAS operation map
-- to it. A schema is taken with its references resolved, and as records of the keys that the code
-- reads; the descriptions, which are only passed on, are left out.
use ap2030_uns.Prelude.{
  ℕ, zero, suc, ◌/◌, ◌%◌, String, Bool, true, false, not, ◌||◌, Option, none, some,
}
use ap2030_uns.Prelude.{
  List, [], ◌∷◌, ◌++◌, if◌then◌else◌, ◌==◌, ltb, leb, length, codes, codes_eq, lower, str_eq,
  contains,
}
use ap2030_uns.Prelude.Dict.{Dict, lookup, insert}
use ap2030_uns.Delegation.Values.{Value, float}
use Prim.Native.String.{◌++◌ as concat}

pub record ItemDef : Type 0 where
  pub title : Option String
  pub json_type : Option String

pub record PropDef : Type 0 where
  pub json_type : Option String
  pub format : Option String
  pub prefix_items : Option (List ItemDef)
  pub min_items : Option ℕ
  pub max_items : Option ℕ

pub record Schema : Type 0 where
  pub required : Option (List String)
  pub properties : Option (Dict PropDef)

pub record FieldType : Type 0 where
  pub json_type : Option String
  pub format : Option String

pub record Item : Type 0 where
  pub index : ℕ
  pub title : String
  pub json_type : Option String

pub record ArrayInfo : Type 0 where
  pub items : List Item
  pub min_items : ℕ
  pub max_items : ℕ

pub record Structure : Type 0 where
  pub required_fields : List String
  pub field_types : Dict FieldType
  pub array_fields : Dict ArrayInfo

abbrev pub or_else {ℓ} : {A : Type ℓ} → Option A → A → A
or_else none a = a
or_else (some b) a = b

abbrev digit : ℕ → String
digit d =
    if d == 0
    then "0"
    else if d == 1
    then "1"
    else if d == 2
    then "2"
    else if d == 3
    then "3"
    else if d == 4
    then "4"
    else if d == 5
    then "5"
    else if d == 6
    then "6"
    else if d == 7
    then "7"
    else if d == 8
    then "8"
    else "9"

-- `str(n)`, for which `n` digits are enough.
abbrev decimal : ℕ → ℕ → String
decimal zero n = digit n
decimal (suc fuel) n =
    let rest = decimal fuel (n / 10) in if ltb n 10 then digit n else concat rest (digit (n % 10))

abbrev pub item_infos : ℕ → List ItemDef → List Item
item_infos idx [] = []
item_infos idx (d ∷ ds) =
    record {
      index = idx;
      title = or_else d.title (concat "item" (decimal idx idx));
      json_type = d.json_type;
    }
    ∷ item_infos (suc idx) ds

abbrev pub array_info : PropDef → List ItemDef → ArrayInfo
array_info p items = record {
  items = item_infos 0 items;
  min_items = or_else p.min_items (length items);
  max_items = or_else p.max_items (length items);
}

abbrev pub is_named : String → Option String → Bool
is_named t none = false
is_named t (some s) = str_eq s t

abbrev pub add_array_field : String → PropDef → Option (List ItemDef) → Structure → Structure
add_array_field name p none s = s
add_array_field name p (some items) s =
    if is_named "array" p.json_type
    then record s { array_fields = insert name (array_info p items) s.array_fields }
    else s

abbrev pub add_property : String → PropDef → Structure → Structure
add_property name p s = add_array_field name p p.prefix_items (record s {
  field_types = insert name (record { json_type = p.json_type; format = p.format }) s.field_types;
})

unfoldable pub add_properties : Dict PropDef → Structure → Structure
add_properties [] s = s
add_properties ((name, p) ∷ rest) s = add_properties rest (add_property name p s)

-- `extract_message_structure` of a resolved schema.
unfoldable pub extract_from_schema : Schema → Structure
unfolding add_properties
extract_from_schema schema =
    add_properties (or_else schema.properties [])
      (record { required_fields = or_else schema.required []; field_types = []; array_fields = [] })

-- The keys of a mapping that the program reads.
pub record ArrayMapping : Type 0 where
  pub aas_field : String
  pub index : ℕ
  pub optional : Bool
  pub default : Option Value

pub record SimpleMapping : Type 0 where
  pub aas_field : String
  pub json_type : Option String
  pub format : Option String

pub record FieldMappings : Type 0 where
  pub array_mappings : Dict (List ArrayMapping)
  pub simple_mappings : Dict SimpleMapping
  pub unmapped_fields : List String

-- The first field of this name, up to letter case.
abbrev pub same_name : String → String → Bool
same_name a b = str_eq a b || codes_eq (lower (codes a)) (lower (codes b))

abbrev pub find_field : String → List String → Option String
find_field name [] = none
find_field name (f ∷ fs) = if same_name f name then some f else find_field name fs

-- A field with the empty name is not taken, by `if matching_field`.
abbrev pub nonempty : Option String → Option String
nonempty none = none
nonempty (some f) = if str_eq f "" then none else some f

abbrev pub default_of : Option String → Option Value
default_of t = if is_named "number" t then some (float (codes "0.0")) else none

abbrev pub is_missing {ℓ} : {A : Type ℓ} → Option A → Bool
is_missing none = true
is_missing (some a) = false

-- An array without a mapped item gets no mapping.
abbrev pub keep_mapped :
    String → List ArrayMapping → Dict (List ArrayMapping) → Dict (List ArrayMapping)
keep_mapped name [] rest = rest
keep_mapped name (m ∷ ms) rest = (name, m ∷ ms) ∷ rest

module _ (aas_fields : List String) where
  -- The keys of a schema are distinct.
  unfoldable pub map_simple : Dict ArrayInfo → Dict FieldType → Dict SimpleMapping
  map_simple arrays [] = []
  map_simple arrays ((name, info) ∷ rest) =
      let others = map_simple arrays rest in
      if not (is_missing (lookup name arrays)) then others else elim (find_field name aas_fields) [
        | none ↦ others
        | some f ↦
            (name, record { aas_field = f; json_type = info.json_type; format = info.format })
            ∷ others
      ]

  unfoldable pub map_items : ℕ → List Item → List ArrayMapping
  map_items min_items [] = []
  map_items min_items (item ∷ items) =
      let others = map_items min_items items in
      elim (nonempty (find_field item.title aas_fields)) [
        | none ↦ others
        | some f ↦
            record {
              aas_field = f;
              index = item.index;
              optional = leb min_items item.index;
              default = default_of item.json_type;
            }
            ∷ others
      ]

  unfoldable pub map_arrays : Dict ArrayInfo → Dict (List ArrayMapping)
  unfolding map_items
  map_arrays [] = []
  map_arrays ((name, info) ∷ rest) =
      keep_mapped name (map_items info.min_items info.items) (map_arrays rest)

abbrev pub simple_fields : Dict SimpleMapping → List String
simple_fields [] = []
simple_fields ((name, m) ∷ rest) = m.aas_field ∷ simple_fields rest

abbrev pub item_fields : List ArrayMapping → List String
item_fields [] = []
item_fields (m ∷ ms) = m.aas_field ∷ item_fields ms

abbrev pub array_mapped_fields : Dict (List ArrayMapping) → List String
array_mapped_fields [] = []
array_mapped_fields ((name, ms) ∷ rest) = item_fields ms ++ array_mapped_fields rest

abbrev pub not_in : List String → List String → List String
not_in mapped [] = []
not_in mapped (f ∷ fs) =
    let others = not_in mapped fs in if contains f mapped then others else f ∷ others

unfoldable pub determine_field_mappings : List String → Structure → FieldMappings
unfolding map_simple map_arrays
determine_field_mappings aas_fields s =
    let simple = map_simple aas_fields s.array_fields s.field_types in
    let arrays = map_arrays aas_fields s.array_fields in
    record {
      array_mappings = arrays;
      simple_mappings = simple;
      unmapped_fields = not_in (simple_fields simple ++ array_mapped_fields arrays) aas_fields;
    }
