-- ===== src/Delegation/Response.antt =====
-- `_build_response_variables` of operation_delegation_service.py: the variables of an operation
-- from a response. Of the escapes in Python's `repr` of a text, those of quotes, backslashes,
-- line ends and tabs are modelled.
use ap2030_uns.Prelude.{
  ℕ, zero, suc, String, Bool, true, false, not, ◌&&◌, ◌||◌, Option, none, some, List, [], ◌∷◌, ◌++◌,
}
use ap2030_uns.Prelude.{if◌then◌else◌, ◌==◌, codes, lower, str_eq}
use ap2030_uns.Prelude.Dict.{Dict, lookup, insert}
use ap2030_uns.Delegation.Values.{
  Text, Value, null, boolean, integer, float, text, Field, single, array, Message,
}
use ap2030_uns.Delegation.Schema.{ArrayMapping, SimpleMapping, is_named}

pub record Property : Type 0 where
  pub id_short : String
  pub value_type : String
  pub value : Text

-- `value[index]`, or none past the end.
abbrev pub nth : ℕ → List Value → Option Value
nth n [] = none
nth zero (v ∷ vs) = some v
nth (suc n) (v ∷ vs) = nth n vs

abbrev pub put_item : String → Option Value → Message → Message
put_item field none d = d
put_item field (some v) d = insert field (single v) d

abbrev pub unpack : List ArrayMapping → List Value → Message → Message
unpack [] vs d = d
unpack (m ∷ ms) vs d = unpack ms vs (put_item m.aas_field (nth m.index vs) d)

-- Only an array with an item is unpacked.
abbrev pub items_of : Option Field → List Value
items_of (some (array vs)) = vs
items_of _ = []

unfoldable pub unpack_arrays : Dict (List ArrayMapping) → Message → Message → Message
unpack_arrays [] response d = d
unpack_arrays ((parent, ms) ∷ rest) response d =
    unpack_arrays rest response
      (elim (items_of (lookup parent response)) [ [] ↦ d | v ∷ vs ↦ unpack ms (v ∷ vs) d ])

abbrev pub is_filled : List Value → Bool
is_filled [] = false
is_filled (v ∷ vs) = true

abbrev pub is_unpacked : String → Dict (List ArrayMapping) → Message → Bool
is_unpacked name [] response = false
is_unpacked name ((parent, ms) ∷ rest) response =
    (str_eq parent name && is_filled (items_of (lookup parent response)))
    || is_unpacked name rest response

unfoldable pub add_remaining : Dict (List ArrayMapping) → Message → Message → Message → Message
add_remaining mappings response [] d = d
add_remaining mappings response ((name, field) ∷ rest) d =
    add_remaining mappings response rest
      (if is_unpacked name mappings response then d else insert name field d)

unfoldable pub flatten : Dict (List ArrayMapping) → Message → Message
unfolding unpack_arrays add_remaining
flatten [] response = response
flatten mappings response =
    add_remaining mappings response response (unpack_arrays mappings response [])

-- `str` of a value.
abbrev str_of : Value → Text
str_of null = codes "None"
str_of (boolean true) = codes "True"
str_of (boolean false) = codes "False"
str_of (integer s) = s
str_of (float s) = s
str_of (text s) = s

abbrev has_code : ℕ → Text → Bool
has_code c [] = false
has_code c (d ∷ s) = c == d || has_code c s

abbrev escape : ℕ → Text → Text
escape q [] = []
escape q (c ∷ s) =
    let rest = escape q s in
    if c == q || c == 92
    then 92 ∷ c ∷ rest
    else if c == 10
    then 92 ∷ b'n' ∷ rest
    else if c == 13
    then 92 ∷ b'r' ∷ rest
    else if c == 9
    then 92 ∷ b't' ∷ rest
    else c ∷ rest

-- The quotes are single, unless the text has single ones and no double ones.
abbrev quoted : ℕ → Text → Text
quoted q s = q ∷ escape q s ++ q ∷ []

abbrev repr_of : Value → Text
repr_of (text s) = quoted (if has_code 39 s && not (has_code 34 s) then 34 else 39) s
repr_of v = str_of v

abbrev joined : List Value → Text
joined [] = codes "]"
joined (v ∷ []) = repr_of v ++ codes "]"
joined (v ∷ w ∷ vs) = repr_of v ++ codes ", " ++ joined (w ∷ vs)

unfoldable pub str_field : Field → Text
str_field (single v) = str_of v
str_field (array vs) = b'[' ∷ joined vs

-- The type that a Python value has by itself.
abbrev pub own_type : Field → String
own_type (single (boolean b)) = "xs:boolean"
own_type (single (integer s)) = "xs:int"
own_type (single (float s)) = "xs:double"
own_type _ = "xs:string"

unfoldable pub value_type_of : Option String → Option String → Field → String
value_type_of format json_type field =
    if is_named "date-time" format
    then "xs:dateTime"
    else if is_named "date" format
    then "xs:date"
    else if is_named "time" format
    then "xs:time"
    else if is_named "uri" format
    then "xs:anyURI"
    else if is_named "integer" json_type
    then "xs:int"
    else if is_named "number" json_type
    then "xs:double"
    else if is_named "boolean" json_type
    then "xs:boolean"
    else own_type field

-- The format and the type of the mapping for a field; a later mapping of the field replaces an
-- earlier one.
abbrev pub last_found :
    Option (Option String × Option String)
    → Option String × Option String
    → Option String × Option String
last_found none x = x
last_found (some y) x = y

abbrev pub format_lookup : String → Dict SimpleMapping → Option (Option String × Option String)
format_lookup key [] = none
format_lookup key ((name, m) ∷ ms) =
    let later = format_lookup key ms in
    if str_eq m.aas_field key then some (last_found later (m.format, m.json_type)) else later

abbrev pub property_of : String → Field → Option String × Option String → Property
property_of key field (format, json_type) =
    let t = value_type_of format json_type field in
    record {
      id_short = key;
      value_type = t;
      value = if str_eq t "xs:boolean" then lower (str_field field) else str_field field;
    }

unfoldable pub properties_of : Message → Dict SimpleMapping → List Property
unfolding str_field value_type_of
properties_of [] simple = []
properties_of ((key, field) ∷ rest) simple =
    property_of key field (last_found (format_lookup key simple) (none, none))
    ∷ properties_of rest simple

unfoldable pub build_response_variables :
    Message → Dict (List ArrayMapping) → Dict SimpleMapping → List Property
unfolding flatten properties_of
build_response_variables response mappings simple = properties_of (flatten mappings response) simple
