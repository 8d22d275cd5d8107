-- ===== src/Delegation/Command.antt =====
-- `_build_command_message` of operation_delegation_service.py: a command from the variables of an
-- AAS operation. A variable's value is a text or missing, as in the JSON form of AAS. A number is
-- kept as a text for it, an integer's without leading zeros; texts with underscores between
-- digits, and those for infinities, are no numbers here, where Python reads them too.
use ap2030_uns.Prelude.{ℕ, String, Bool, true, false, ◌&&◌, ◌||◌, Option, none, some, List, [], ◌∷◌}
use ap2030_uns.Prelude.{if◌then◌else◌, ◌==◌, leb, codes, codes_eq, lower, contains, str_eq}
use ap2030_uns.Prelude.Dict.{Dict, lookup, insert}
use ap2030_uns.Planning.Text.{strip}
use ap2030_uns.Delegation.Values.{
  Text, Value, null, boolean, integer, float, text, single, array, Message,
}
use ap2030_uns.Delegation.Schema.{
  Schema, ArrayMapping, SimpleMapping, FieldMappings, or_else, extract_from_schema,
  determine_field_mappings,
}

pub record Variable : Type 0 where
  pub id_short : Option String
  pub value : Option Text
  pub value_type : Option String

abbrev is_digit : ℕ → Bool
is_digit c = leb b'0' c && leb c b'9'

abbrev all_digits : Text → Bool
all_digits [] = true
all_digits (c ∷ s) = is_digit c && all_digits s

abbrev drop_zeros : Text → Text
drop_zeros [] = []
drop_zeros (c ∷ []) = c ∷ []
drop_zeros (c ∷ d ∷ s) = let rest = drop_zeros (d ∷ s) in if c == b'0' then rest else c ∷ d ∷ s

abbrev natural : Text → Option Text
natural [] = none
natural (c ∷ s) = if all_digits (c ∷ s) then some (drop_zeros (c ∷ s)) else none

abbrev negate : Option Text → Option Text
negate none = none
negate (some s) = some (if codes_eq s (codes "0") then s else b'-' ∷ s)

abbrev signed : Text → Option Text
signed [] = none
signed (c ∷ s) =
    if c == b'-' then negate (natural s) else if c == b'+' then natural s else natural (c ∷ s)

-- `int(s)`
unfoldable pub int_of : Text → Option Text
unfolding strip
int_of s = signed (strip s)

-- What has been read of a number: nothing, a sign, digits, a point with or without digits
-- before it, an exponent's letter, its sign, its digits.
pub data Reading : Type 0 where
  start after_sign whole bare_point fraction letter letter_sign exponent failed : Reading

abbrev read : ℕ → Reading → Reading
read c start =
    if is_digit c
    then whole
    else if c == b'.'
    then bare_point
    else if c == b'-' || c == b'+'
    then after_sign
    else failed
read c after_sign = if is_digit c then whole else if c == b'.' then bare_point else failed
read c whole =
    if is_digit c
    then whole
    else if c == b'.'
    then fraction
    else if c == b'e' || c == b'E'
    then letter
    else failed
read c bare_point = if is_digit c then fraction else failed
read c fraction = if is_digit c then fraction else if c == b'e' || c == b'E' then letter else failed
read c letter =
    if is_digit c then exponent else if c == b'-' || c == b'+' then letter_sign else failed
read c letter_sign = if is_digit c then exponent else failed
read c exponent = if is_digit c then exponent else failed
read c failed = failed

abbrev reads : Text → Reading → Bool
reads [] whole = true
reads [] fraction = true
reads [] exponent = true
reads [] _ = false
reads (c ∷ s) r = reads s (read c r)

-- `float(s)`
unfoldable pub float_of : Text → Option Text
unfolding strip
float_of s = let t = strip s in if reads t start then some t else none

abbrev as_number : (Text → Value) → Option Text → Option Value
as_number f none = none
as_number f (some s) = some (f s)

-- A missing value, or an empty text, is 0.
abbrev convert_number : (Text → Value) → (Text → Option Text) → Text → Option Text → Option Value
convert_number f parse zero none = some (f zero)
convert_number f parse zero (some []) = some (f zero)
convert_number f parse zero (some (c ∷ s)) = as_number f (parse (c ∷ s))

abbrev is_true : Option Text → Bool
is_true none = false
is_true (some s) = codes_eq (lower s) (codes "true")

abbrev plain : Option Text → Value
plain none = null
plain (some s) = text s

-- None where the conversion raises ValueError.
unfoldable pub convert : String → Option Text → Option Value
unfolding int_of float_of
convert value_type value =
    if contains value_type ("xs:int" ∷ "xs:integer" ∷ [])
    then convert_number integer int_of (codes "0") value
    else if contains value_type ("xs:double" ∷ "xs:float" ∷ "xs:decimal" ∷ [])
    then convert_number float float_of (codes "0.0") value
    else if str_eq value_type "xs:boolean"
    then some (boolean (is_true value))
    else some (plain value)

-- The values by field; a variable without `value` is passed over.
unfoldable pub field_values : List (Option Variable) → Dict Value → Option (Dict Value)
unfolding convert
field_values [] d = some d
field_values (none ∷ vs) d = field_values vs d
field_values (some v ∷ vs) d =
    let rest : Value → Option (Dict Value) =
      λ x. field_values vs (insert (or_else v.id_short "") x d) in
    elim (convert (or_else v.value_type "xs:string") v.value) [ none ↦ none | some x ↦ rest x ]

unfoldable pub add_simple : Dict SimpleMapping → Dict Value → Message → Message
add_simple [] values c = c
add_simple ((name, m) ∷ ms) values c =
    add_simple ms values
      (elim (lookup m.aas_field values) [ none ↦ c | some v ↦ insert name (single v) c ])

-- `sorted(mappings, key=index)`, Python's stable sort.
abbrev pub insert_mapping : ArrayMapping → List ArrayMapping → List ArrayMapping
insert_mapping m [] = m ∷ []
insert_mapping m (n ∷ ns) = if leb m.index n.index then m ∷ n ∷ ns else n ∷ insert_mapping m ns

unfoldable pub sort_mappings : List ArrayMapping → List ArrayMapping
sort_mappings [] = []
sort_mappings (m ∷ ms) = insert_mapping m (sort_mappings ms)

-- The values of one array, or none where a required one is missing. At a missing optional value
-- without a default the array ends.
abbrev pub put_value : Value → Option (List Value) → Option (List Value)
put_value v none = none
put_value v (some vs) = some (v ∷ vs)

abbrev pub pack_item : ArrayMapping → Option Value → Option (List Value) → Option (List Value)
pack_item m (some v) rest = put_value v rest
pack_item m none rest =
    if m.optional then elim m.default [ none ↦ some [] | some d ↦ put_value d rest ] else none

unfoldable pub pack : List ArrayMapping → Dict Value → Option (List Value)
pack [] values = some []
pack (m ∷ ms) values = pack_item m (lookup m.aas_field values) (pack ms values)

abbrev pub add_array : String → Option (List Value) → Message → Message
add_array parent none c = c
add_array parent (some []) c = c
add_array parent (some (v ∷ vs)) c = insert parent (array (v ∷ vs)) c

unfoldable pub pack_arrays : Dict (List ArrayMapping) → Dict Value → Message → Message
unfolding sort_mappings pack
pack_arrays [] values c = c
pack_arrays ((parent, ms) ∷ rest) values c =
    pack_arrays rest values (add_array parent (pack (sort_mappings ms) values) c)

-- `command.update(field_values)`
unfoldable pub pass_through : Dict Value → Message → Message
pass_through [] c = c
pass_through ((k, v) ∷ rest) c = pass_through rest (insert k (single v) c)

abbrev pub keys {ℓ} : {V : Type ℓ} → Dict V → List String
keys [] = []
keys ((k, v) ∷ d) = k ∷ keys d

abbrev pub no_mappings : Dict (List ArrayMapping) → FieldMappings
no_mappings arrays = record { array_mappings = arrays; simple_mappings = []; unmapped_fields = [] }

-- `schema_of` is `parse_schema`, and none where it raises. Mappings that are None are empty here.
abbrev pub mappings_from : Option Schema → List String → FieldMappings
mappings_from none fields = no_mappings []
mappings_from (some schema) fields = determine_field_mappings fields (extract_from_schema schema)

unfoldable pub mappings_for :
    (String → Option Schema)
    → Dict (List ArrayMapping)
    → Option String
    → List String
    → FieldMappings
unfolding determine_field_mappings extract_from_schema
mappings_for schema_of [] (some url) fields =
    if str_eq url "" then no_mappings [] else mappings_from (schema_of url) fields
mappings_for schema_of arrays _ fields = no_mappings arrays

abbrev pub fill : FieldMappings → Dict Value → Message → Message
fill f values c =
    let simple = add_simple f.simple_mappings values c in
    elim f.array_mappings [
      | [] ↦ pass_through values simple
      | _ ∷ _ ↦ pack_arrays f.array_mappings values simple
    ]

unfoldable pub build_command_message :
    (String → Option Schema)
    → String
    → List (Option Variable)
    → Dict (List ArrayMapping)
    → Option String
    → Option Message
unfolding field_values add_simple pack_arrays pass_through mappings_for
build_command_message schema_of correlation_id variables array_mappings schema_url =
    elim (field_values variables []) [
      | none ↦ none
      | some values ↦ some (
          fill (mappings_for schema_of array_mappings schema_url (keys values)) values
            (("Uuid", single (text (codes correlation_id))) ∷ []))
    ]
