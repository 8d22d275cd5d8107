-- ===== src/Delegation/Values.antt =====
-- The values in messages. Texts are lists of code points, and numbers are the texts that Python
-- prints for them. Letter case is that of ASCII.
use ap2030_uns.Prelude.{ℕ, ◌-◌, Bool, false, ◌&&◌, ◌||◌, List, [], ◌∷◌}
use ap2030_uns.Prelude.{if◌then◌else◌, ◌==◌, leb, codes_eq}
use ap2030_uns.Prelude.Dict.{Dict}

abbrev pub Text : Type 0
Text = List ℕ

pub data Value : Type 0 where
  null : Value
  boolean : Bool → Value
  integer float text : Text → Value

-- A field of a message: a value, or an array of values.
pub data Field : Type 0 where
  single : Value → Field
  array : List Value → Field

abbrev pub Message : Type 0
Message = Dict Field

abbrev pub upper_code : ℕ → ℕ
upper_code c = if leb b'a' c && leb c b'z' then c - 32 else c

-- `s.upper()`
abbrev pub upper : Text → Text
upper [] = []
upper (c ∷ s) = upper_code c ∷ upper s

abbrev pub is_one_of : Text → List Text → Bool
is_one_of s [] = false
is_one_of s (t ∷ ts) = codes_eq t s || is_one_of s ts

abbrev pub put_first : ℕ → List Text → List Text
put_first c [] = (c ∷ []) ∷ []
put_first c (t ∷ ts) = (c ∷ t) ∷ ts

-- `s.split("|")`
abbrev pub split_bar : Text → List Text
split_bar [] = [] ∷ []
split_bar (c ∷ s) = let rest = split_bar s in if c == b'|' then [] ∷ rest else put_first c rest
