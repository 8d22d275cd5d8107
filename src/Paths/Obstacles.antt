-- ===== src/Paths/Obstacles.antt =====
-- The cells that the loops of occupancy_grid.py mark as obstacles.
use ap2030_uns.Prelude.{
  ℕ, zero, suc, ◌+◌, ◌-◌, ◌*◌, ◌≡◌, ◌≤◌, ◌<◌, ◌⊎◌, inl, inr, refl, sym, ap, ◌∙◌, Bool, true, false,
  ◌&&◌, List, [], ◌∷◌, if◌then◌else◌, ◌==◌, ltb, arith, Bool-cases,
}
use ap2030_uns.Paths.Grid.{Point, Grid, is_inside}
use ap2030_uns.Paths.Occupancy.{
  mark, fill_column, fill_rectangle, add_hole, add_holes, add_xbot, add_xbots, meters_to_grid,
}

-- The later grid has the same bounds, and all the obstacles.
abbrev pub Extends : Grid → Grid → Type 0
Extends g n =
    (n.width ≡ g.width) × (n.height ≡ g.height) × ((u v : ℕ) → g.cell v u ≡ 1 → n.cell v u ≡ 1)

pub trans-Extends : (g h n : Grid) → Extends g h → Extends h n → Extends g n
trans-Extends g h n a b = (b.0 ∙ a.0, b.1 ∙ a.1, λ u v e. b.2 u v (a.2 u v e))

pub is_inside-Extends : (g n : Grid) (p : Point) → Extends g n → is_inside n p ≡ is_inside g p
is_inside-Extends g n p e =
    ap (λ w. ltb p.0 w && ltb p.1 n.height) e.0 ∙ ap (λ h. ltb p.0 g.width && ltb p.1 h) e.1

pub mark-Extends : (x y : ℕ) (g : Grid) → Extends g (mark x y g)
mark-Extends x y g = by_flag (is_inside g (x, y))
  where
    by_flag :
        (c : Bool)
        → Extends g
            (if c then record g { cell = λ v u. if v == y && u == x then 1 else g.cell v u } else g)
    by_flag true = (refl, refl, λ u v e. ground (arith, e))
    by_flag false = (refl, refl, λ u v e. e)

pub mark-marks : (x y : ℕ) (g : Grid) → is_inside g (x, y) ≡ true → (mark x y g).cell y x ≡ 1
mark-marks x y g h = by_flag (is_inside g (x, y)) h
  where
    by_flag :
        (c : Bool)
        → c ≡ true
        → (if c
              then record g { cell = λ v u. if v == y && u == x then 1 else g.cell v u }
              else g).cell
            y x
          ≡ 1
    by_flag true e = ground arith
    by_flag false e = absurd cc

pub fill_column-Extends : (x y n : ℕ) (g : Grid) → Extends g (fill_column x y n g)
unfolding fill_column
fill_column-Extends x y zero g = (refl, refl, λ u v e. e)
fill_column-Extends x y (suc n) g =
    trans-Extends g (mark x y g) (fill_column x (suc y) n (mark x y g)) (mark-Extends x y g)
      (fill_column-Extends x (suc y) n (mark x y g))

pub fill_column-marks :
    (x y n v : ℕ) (g : Grid)
    → y ≤ v
    → v < y + n
    → is_inside g (x, v) ≡ true
    → (fill_column x y n g).cell v x ≡ 1
unfolding fill_column
fill_column-marks x y zero v g a b h = absurd (omega arith)
fill_column-marks x y (suc n) v g a b h = elim (Bool-cases (v == y)) [
  | inl e ↦
      let same : v ≡ y = ground (arith, e) in
      (fill_column-Extends x (suc y) n (mark x y g)).2 x v (
        ap (λ z. (mark x y g).cell z x) same
        ∙ mark-marks x y g (ap (λ z. is_inside g (x, z)) (sym same) ∙ h))
  | inr e ↦
      fill_column-marks x (suc y) n v (mark x y g) (ground (arith, a, e)) (omega (arith, b))
        (is_inside-Extends g (mark x y g) (x, v) (mark-Extends x y g) ∙ h)
]

pub fill_rectangle-Extends : (x y m n : ℕ) (g : Grid) → Extends g (fill_rectangle x y m n g)
unfolding fill_rectangle
fill_rectangle-Extends x y zero n g = (refl, refl, λ u v e. e)
fill_rectangle-Extends x y (suc m) n g =
    trans-Extends g (fill_column x y n g) (fill_rectangle (suc x) y m n (fill_column x y n g))
      (fill_column-Extends x y n g) (fill_rectangle-Extends (suc x) y m n (fill_column x y n g))

pub fill_rectangle-marks :
    (x y m n u v : ℕ) (g : Grid)
    → x ≤ u
    → u < x + m
    → y ≤ v
    → v < y + n
    → is_inside g (u, v) ≡ true
    → (fill_rectangle x y m n g).cell v u ≡ 1
unfolding fill_rectangle
fill_rectangle-marks x y zero n u v g a b c d h = absurd (omega arith)
fill_rectangle-marks x y (suc m) n u v g a b c d h = elim (Bool-cases (u == x)) [
  | inl e ↦
      let same : u ≡ x = ground (arith, e) in
      (fill_rectangle-Extends (suc x) y m n (fill_column x y n g)).2 u v (
        ap (λ z. (fill_column x y n g).cell v z) same
        ∙ fill_column-marks x y n v g c d (ap (λ z. is_inside g (z, v)) (sym same) ∙ h))
  | inr e ↦
      fill_rectangle-marks (suc x) y m n u v (fill_column x y n g) (ground (arith, a, e))
        (omega (arith, b)) c d
        (is_inside-Extends g (fill_column x y n g) (u, v) (fill_column-Extends x y n g) ∙ h)
]

pub add_holes-Extends : (hs : List Point) (g : Grid) → Extends g (add_holes hs g)
unfolding add_holes
add_holes-Extends [] g = (refl, refl, λ u v e. e)
add_holes-Extends ((c, r) ∷ hs) g =
    trans-Extends g (add_hole (c, r) g) (add_holes hs (add_hole (c, r) g))
      (fill_rectangle-Extends (c * 48 + 2) (r * 48 + 2) 44 44 g)
      (add_holes-Extends hs (add_hole (c, r) g))

pub add_xbots-Extends : (xs : List Point) (g : Grid) → Extends g (add_xbots xs g)
unfolding add_xbots
add_xbots-Extends [] g = (refl, refl, λ u v e. e)
add_xbots-Extends ((x, y) ∷ xs) g =
    trans-Extends g (add_xbot (x, y) g) (add_xbots xs (add_xbot (x, y) g))
      (fill_rectangle-Extends (meters_to_grid (x - 60000)) (meters_to_grid (y - 60000))
        (meters_to_grid (x + 60000) + 1 - meters_to_grid (x - 60000))
        (meters_to_grid (y + 60000) + 1 - meters_to_grid (y - 60000)) g)
      (add_xbots-Extends xs (add_xbot (x, y) g))

abbrev pub IsAmong : Point → List Point → Type 0
IsAmong h [] = ⊥
IsAmong h (k ∷ ks) = (h ≡ k) ⊎ IsAmong h ks

pub add_holes-marks :
    (c r u v : ℕ) (hs : List Point) (g : Grid)
    → IsAmong (c, r) hs
    → c * 48 + 2 ≤ u
    → u < c * 48 + 46
    → r * 48 + 2 ≤ v
    → v < r * 48 + 46
    → is_inside g (u, v) ≡ true
    → (add_holes hs g).cell v u ≡ 1
unfolding add_holes
add_holes-marks c r u v [] g a p q s t h = absurd a
add_holes-marks c r u v ((x, y) ∷ hs) g (inl e) p q s t h =
    let same_x : c ≡ x = ap (λ (z : Point). z.0) e in
    let same_y : r ≡ y = ap (λ (z : Point). z.1) e in
    (add_holes-Extends hs (add_hole (x, y) g)).2 u v (
      fill_rectangle-marks (x * 48 + 2) (y * 48 + 2) 44 44 u v g (omega (arith, p, same_x))
        (omega (arith, q, same_x)) (omega (arith, s, same_y)) (omega (arith, t, same_y)) h)
add_holes-marks c r u v ((x, y) ∷ hs) g (inr a) p q s t h =
    add_holes-marks c r u v hs (add_hole (x, y) g) a p q s t (
      is_inside-Extends g (add_hole (x, y) g) (u, v)
        (fill_rectangle-Extends (x * 48 + 2) (y * 48 + 2) 44 44 g)
      ∙ h)
