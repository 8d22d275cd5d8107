-- ===== src/Planning/Text.antt =====
-- The `str` methods that the planner uses, on texts as lists of code points. Letter case and
-- white space are those of ASCII.
use ap2030_uns.Prelude.{ℕ, Bool, true, false, ◌&&◌, ◌||◌, List, [], ◌∷◌, if◌then◌else◌, ◌==◌, leb}
use ap2030_uns.Prelude.{codes_eq}

abbrev pub Text : Type 0
Text = List ℕ

abbrev pub is_empty : Text → Bool
is_empty [] = true
is_empty (c ∷ s) = false

abbrev pub is_space : ℕ → Bool
is_space c = (c == 32) || (leb 9 c && leb c 13) || (leb 28 c && leb c 31)

abbrev pub is_slash : ℕ → Bool
is_slash c = c == b'/'

-- `s.lstrip()` and `s.rstrip(...)` for a set of characters.
unfoldable pub lstrip : (ℕ → Bool) → Text → Text
lstrip p [] = []
lstrip p (c ∷ s) = let rest = lstrip p s in if p c then rest else c ∷ s

unfoldable pub rstrip : (ℕ → Bool) → Text → Text
rstrip p [] = []
rstrip p (c ∷ s) = let rest = rstrip p s in if p c && is_empty rest then [] else c ∷ rest

unfoldable pub strip : Text → Text
unfolding lstrip rstrip
strip s = rstrip is_space (lstrip is_space s)

abbrev pub has_slash : Text → Bool
has_slash [] = false
has_slash (c ∷ s) = is_slash c || has_slash s

-- `s.split('/')[-1]`: what follows the last slash.
unfoldable pub last_segment : Text → Text
last_segment [] = []
last_segment (c ∷ s) =
    let rest = last_segment s in if has_slash s then rest else if is_slash c then s else c ∷ s

abbrev pub is_prefix : Text → Text → Bool
is_prefix [] s = true
is_prefix (c ∷ p) [] = false
is_prefix (c ∷ p) (d ∷ s) = c == d && is_prefix p s

-- `p in s`
unfoldable pub is_infix : Text → Text → Bool
is_infix p [] = is_prefix p []
is_infix p (c ∷ s) = is_prefix p (c ∷ s) || is_infix p s

-- `s in l`
abbrev pub is_in : Text → List Text → Bool
is_in s [] = false
is_in s (t ∷ l) = codes_eq t s || is_in s l
