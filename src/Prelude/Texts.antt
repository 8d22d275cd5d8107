-- ===== src/Prelude/Texts.antt =====
-- Lists of texts: membership (Python's `in`), `list.remove`, and lists without repetition.
use Prim.Native.Nat.{ℕ, ◌+◌}
use Prim.Native.Char.{code}
use Prim.Native.String.{String}
use mathlib.Core.Path.{◌≡◌, refl}
use mathlib.Core.Bool.{Bool, true, false, ◌||◌, ◌&&◌}
use mathlib.Core.List.{List, [], ◌∷◌, ◌++◌}
use native.Mathlib.Omega.{arith}
use text.Mathlib.Text.{◌==◌ as str_eq}
use text.Mathlib.TextEquality.{eq_iff}
use ap2030_uns.Prelude.Tests.{if◌then◌else◌, leb, ◌==◌}
use mathlib.Core.Logic.{◌↔◌}

-- `a in xs`
abbrev pub contains : String → List String → Bool
contains a [] = false
contains a (x ∷ xs) = str_eq x a || contains a xs

-- `xs.remove(a)`, for an `a` that is in `xs`: the first occurrence goes.
abbrev pub remove : String → List String → List String
remove a [] = []
remove a (x ∷ xs) = if str_eq x a then xs else x ∷ remove a xs

abbrev pub Distinct : List String → Type 0
Distinct [] = Unit
Distinct (x ∷ xs) = (contains x xs ≡ false) × Distinct xs

pub contains-append :
    (a : String) (xs ys : List String) → contains a (xs ++ ys) ≡ (contains a xs || contains a ys)
contains-append a [] ys = refl
contains-append a (x ∷ xs) ys = ground (arith, contains-append a xs ys)

pub contains-snoc_ne :
    (a b : String) (xs : List String)
    → contains a xs ≡ false
    → str_eq b a ≡ false
    → contains a (xs ++ b ∷ []) ≡ false
contains-snoc_ne a b xs h k = ground (arith, contains-append a xs (b ∷ []))

pub str_eq_comm : (a b : String) → str_eq a b ≡ str_eq b a
str_eq_comm a b = ground (arith, eq_iff a b, eq_iff b a)

pub Distinct-snoc :
    (a : String) (xs : List String) → Distinct xs → contains a xs ≡ false → Distinct (xs ++ a ∷ [])
Distinct-snoc a [] d h = (refl, tt)
Distinct-snoc a (x ∷ xs) d h = (
  ground (arith, contains-append x xs (a ∷ []), str_eq_comm a x),
  Distinct-snoc a xs d.1 (ground arith),
)

pub contains-remove-false :
    (a b : String) (xs : List String) → contains a xs ≡ false → contains a (remove b xs) ≡ false
contains-remove-false a b [] h = refl
contains-remove-false a b (x ∷ xs) h = ground (arith, contains-remove-false a b xs)

pub Distinct-remove : (a : String) (xs : List String) → Distinct xs → Distinct (remove a xs)
Distinct-remove a [] d = tt
Distinct-remove a (x ∷ xs) d =
    ground (arith, contains-remove-false x a xs, Distinct-remove a xs d.1)

-- After the removal of its one occurrence a text is gone, and every other text stays.
pub contains-remove_self :
    (a : String) (xs : List String) → Distinct xs → contains a (remove a xs) ≡ false
contains-remove_self a [] d = refl
contains-remove_self a (x ∷ xs) d = ground (arith, eq_iff x a, contains-remove_self a xs d.1)

pub contains-remove_ne :
    (a b : String) (xs : List String)
    → str_eq a b ≡ false
    → contains a (remove b xs) ≡ contains a xs
contains-remove_ne a b [] h = refl
contains-remove_ne a b (x ∷ xs) h =
    ground (arith, eq_iff x a, eq_iff x b, eq_iff a b, contains-remove_ne a b xs h)

-- The code points of a text, and `str.lower` on them. Only ASCII letters have a case here.
abbrev pub codes : String → List ℕ
codes String.[] = []
codes (String.◌∷◌ c s) = code c ∷ codes s

abbrev pub lower_code : ℕ → ℕ
lower_code c = if leb b'A' c && leb c b'Z' then c + 32 else c

abbrev pub lower : List ℕ → List ℕ
lower [] = []
lower (c ∷ s) = lower_code c ∷ lower s

abbrev pub codes_eq : List ℕ → List ℕ → Bool
codes_eq [] [] = true
codes_eq [] (d ∷ t) = false
codes_eq (c ∷ s) [] = false
codes_eq (c ∷ s) (d ∷ t) = c == d && codes_eq s t

pub codes_eq_iff : (s t : List ℕ) → (codes_eq s t ≡ true) ↔ (s ≡ t)
codes_eq_iff [] [] = ground arith
codes_eq_iff [] (d ∷ t) = ground arith
codes_eq_iff (c ∷ s) [] = ground arith
codes_eq_iff (c ∷ s) (d ∷ t) = ground (arith, codes_eq_iff s t)
