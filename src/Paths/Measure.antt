-- ===== src/Paths/Measure.antt =====
-- The work that a search has left: a bound for the scores that its cells may still get.
use ap2030_uns.Prelude.{
  ℕ, zero, suc, ◌+◌, ◌*◌, ◌≡◌, ◌≤◌, ◌<◌, ◌↔◌, inl, inr, refl, ap, ◌∙◌, Bool, true, false, ◌||◌,
  Option, none, some,
}
use ap2030_uns.Prelude.{List, [], ◌∷◌, ◌++◌, arith, Bool-cases, length, length-append}
use ap2030_uns.Paths.Grid.{Point, pt_eq, Grid, is_inside}
use ap2030_uns.Paths.Search.{set}

pub pt_eq_iff : (p q : Point) → (pt_eq p q ≡ true) ↔ (p ≡ q)
pt_eq_iff p q = ground arith

abbrev pub row : ℕ → ℕ → List Point
row zero y = []
row (suc x) y = (x, y) ∷ row x y

abbrev pub rows : ℕ → ℕ → List Point
rows w zero = []
rows w (suc y) = row w y ++ rows w y

abbrev pub is_cell : Point → List Point → Bool
is_cell p [] = false
is_cell p (q ∷ qs) = pt_eq p q || is_cell p qs

is_cell-append :
    (p : Point) (xs ys : List Point) → is_cell p (xs ++ ys) ≡ (is_cell p xs || is_cell p ys)
is_cell-append p [] ys = refl
is_cell-append p (x ∷ xs) ys = ground (arith, is_cell-append p xs ys)

is_cell-row : (w x y : ℕ) → x < w → is_cell (x, y) (row w y) ≡ true
is_cell-row zero x y h = absurd (omega arith)
is_cell-row (suc w) x y h = ground (arith, is_cell-row w x y)

is_cell-rows : (w h x y : ℕ) → x < w → y < h → is_cell (x, y) (rows w h) ≡ true
is_cell-rows w zero x y a b = absurd (omega arith)
is_cell-rows w (suc h) x y a b =
    ground (
      arith,
      is_cell-append (x, y) (row w h) (rows w h),
      is_cell-row w x h a,
      is_cell-rows w h x y a,
    )

length-row : (w y : ℕ) → length (row w y) ≡ w
length-row zero y = refl
length-row (suc w) y = ap suc (length-row w y)

length-rows : (w h : ℕ) → length (rows w h) ≡ w * h
length-rows w zero = omega arith
length-rows w (suc h) =
    length-append (row w h) (rows w h) ∙ grind (arith, length-row w h, length-rows w h)

-- What a score counts: an unknown one counts `top`.
abbrev pub weight : ℕ → Option ℕ → ℕ
weight top none = top
weight top (some v) = v

abbrev pub unknown : Option ℕ → ℕ
unknown none = 1
unknown (some v) = 0

abbrev pub total : (Option ℕ → ℕ) → List Point → (Point → Option ℕ) → ℕ
total f [] g = 0
total f (p ∷ ps) g = f (g p) + total f ps g

module _ (f : Option ℕ → ℕ) (g : Point → Option ℕ) (p : Point) (v : ℕ) where
  pub total-set_le :
      (ps : List Point) → f (some v) ≤ f (g p) → total f ps (set p v g) ≤ total f ps g
  total-set_le [] h = omega arith
  total-set_le (q ∷ qs) h = elim (Bool-cases (pt_eq p q)) [
    | inl e ↦ rw e (omega (arith, h, total-set_le qs h, ap (λ z. f (g z)) ((pt_eq_iff p q).0 e)))
    | inr e ↦ rw e (omega (arith, total-set_le qs h))
  ]

  pub total-set :
      (ps : List Point)
      → is_cell p ps ≡ true
      → f (some v) < f (g p)
      → total f ps (set p v g) + 1 ≤ total f ps g
  total-set [] h l = absurd cc
  total-set (q ∷ qs) h l = elim (Bool-cases (pt_eq p q)) [
    | inl e ↦
        rw e
          (omega (arith, l, total-set_le qs (omega arith), ap (λ z. f (g z)) ((pt_eq_iff p q).0 e)))
    | inr e ↦ rw e (omega (arith, total-set qs (ground arith) l))
  ]

pub total-none : (f : Option ℕ → ℕ) (ps : List Point) → total f ps (λ p. none) ≡ f none * length ps
total-none f [] = omega arith
total-none f (p ∷ ps) = grind (arith, total-none f ps)

pub total-start :
    (f : Option ℕ → ℕ) (ps : List Point) (p : Point)
    → f (some 0) ≤ f none
    → total f ps (set p 0 (λ q. none)) ≤ f none * length ps
total-start f ps p h = omega (arith, total-none f ps, total-set_le f (λ q. none) p 0 ps h)

abbrev pub cells : Grid → List Point
cells grid = rows grid.width grid.height

pub is_cell-cells :
    (grid : Grid) (p : Point) → is_inside grid p ≡ true → is_cell p (cells grid) ≡ true
is_cell-cells grid (x, y) h = is_cell-rows grid.width grid.height x y (ground arith) (ground arith)

pub length-cells : (grid : Grid) → length (cells grid) ≡ grid.width * grid.height
length-cells grid = length-rows grid.width grid.height
