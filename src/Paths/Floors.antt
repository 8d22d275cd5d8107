-- ===== src/Paths/Floors.antt =====
-- A workspace with a hole, a dilation that is computed, and the witness for the cleared paths.
use ap2030_uns.Prelude.{
  ℕ, zero, suc, ◌+◌, ◌-◌, ◌*◌, ◌/◌, ◌≡◌, ◌≢◌, ◌≤◌, ◌<◌, ◌∙◌, refl, sym, ap, Bool, true, false, not,
  ◌&&◌, ◌||◌, some, [], ◌∷◌, All, ◌==◌, leb, arith, Bool-cases, inl, inr,
}
use ap2030_uns.Paths.Grid.{pos, distance, Grid, is_inside, heuristic, neighbor}
use ap2030_uns.Paths.Search.{astar_search}
use ap2030_uns.Paths.Occupancy.{
  Workspace, fill_column, fill_rectangle, add_holes, create_occupancy_grid,
}
use ap2030_uns.Paths.Clearance.{IsDilation, IsInReach, create_occupancy_grid-astar_search}

unfoldable pub any_below : (ℕ → Bool) → ℕ → Bool
any_below p zero = false
any_below p (suc n) = p n || any_below p n

any_below-true : (p : ℕ → Bool) (n : ℕ) → any_below p n ≡ true → (k : ℕ) × (k < n) × (p k ≡ true)
unfolding any_below
any_below-true p zero h = absurd cc
any_below-true p (suc n) h = elim (Bool-cases (p n)) [
  | inl e ↦ (n, omega arith, e)
  | inr e ↦
      let (k, l, q) = any_below-true p n (ap (λ b. b || any_below p n) (sym e) ∙ h) in
      (k, omega (arith, l), q)
]

any_below-found : (p : ℕ → Bool) (n k : ℕ) → k < n → p k ≡ true → any_below p n ≡ true
unfolding any_below
any_below-found p zero k l h = absurd (omega (arith, l))
any_below-found p (suc n) k l h = elim (Bool-cases (k == n)) [
  | inl e ↦ ap (λ b. b || any_below p n) (ap p (sym (same k n e)) ∙ h)
  | inr e ↦ or_true (p n) (any_below p n) (any_below-found p n k (ground (arith, l, e)) h)
]
  where
    same : (a b : ℕ) → (a == b) ≡ true → a ≡ b
    same a b e = ground (arith, e)

    or_true : (a b : Bool) → b ≡ true → (a || b) ≡ true
    or_true a b e = ground (arith, e)

abbrev is_near : ℕ → ℕ → ℕ → Bool
is_near r a b = leb (distance a b) r

abbrev sets : ℕ → Grid → ℕ → ℕ → ℕ → ℕ → Bool
sets r g y x u v = is_near r x u && is_near r y v && not (g.cell v u == 0)

abbrev dilation_of : ℕ → Grid → ℕ → ℕ → Bool
dilation_of r g y x = any_below (λ u. any_below (λ v. sets r g y x u v) g.height) g.width

unfoldable pub dilation : ℕ → Grid → ℕ → ℕ → Bool
unfolding any_below
dilation size g y x = dilation_of ((size - 1) / 2) g y x

half : (r : ℕ) → (2 * r + 1 - 1) / 2 ≡ r
half r = omega arith

sets-parts :
    (r : ℕ) (g : Grid) (y x u v : ℕ)
    → sets r g y x u v ≡ true
    → (g.cell v u ≢ 0) × (distance x u ≤ r) × (distance y v ≤ r)
sets-parts r g y x u v h =
    ((λ e. absurd ground (arith, h, e)), ground (arith, h), ground (arith, h))

parts-sets :
    (r : ℕ) (g : Grid) (y x u v : ℕ)
    → g.cell v u ≢ 0
    → distance x u ≤ r
    → distance y v ≤ r
    → sets r g y x u v ≡ true
parts-sets r g y x u v n a b = ground (arith, n, a, b)

dilation_of-true :
    (r : ℕ) (g : Grid) (x y : ℕ)
    → dilation_of r g y x ≡ true
    → (u v : ℕ) × (is_inside g (u, v) ≡ true)
      × (g.cell v u ≢ 0)
      × (distance x u ≤ r)
      × (distance y v ≤ r)
dilation_of-true r g x y h =
    let (u, a, p) = any_below-true (λ u. any_below (λ v. sets r g y x u v) g.height) g.width h in
    let (v, b, q) = any_below-true (λ v. sets r g y x u v) g.height p in
    let parts = sets-parts r g y x u v q in (u, v, ground (arith, a, b), parts.0, parts.1, parts.2)

true-dilation_of :
    (r : ℕ) (g : Grid) (x y u v : ℕ)
    → is_inside g (u, v) ≡ true
    → g.cell v u ≢ 0
    → distance x u ≤ r
    → distance y v ≤ r
    → dilation_of r g y x ≡ true
true-dilation_of r g x y u v i n a b =
    any_below-found (λ u. any_below (λ v. sets r g y x u v) g.height) g.width u (ground (arith, i))
      (any_below-found (λ v. sets r g y x u v) g.height v (ground (arith, i))
        (parts-sets r g y x u v n a b))

pub dilation-IsDilation : IsDilation dilation
unfolding dilation
dilation-IsDilation radius g x y i = (
  (λ h. dilation_of-true radius g x y (ap (λ r. dilation_of r g y x) (sym (half radius)) ∙ h)),
  (λ (u, v, j, n, a, b).
      ap (λ r. dilation_of r g y x) (half radius) ∙ true-dilation_of radius g x y u v j n a b),
)

abbrev pub workspace : Workspace
workspace = record { width = 2; height = 1; holes = (1, 0) ∷ [] }

moves_right :
    astar_search (create_occupancy_grid dilation workspace []) (pos 5, pos 5) (pos 6, pos 5) 3
    ≡ some ((5, 5) ∷ (6, 5) ∷ [])
unfolding astar_search heuristic neighbor create_occupancy_grid dilation any_below add_holes
    fill_rectangle fill_column
moves_right = refl

create_occupancy_grid-astar_search_example : All (λ p. ¬ IsInReach (1, 0) p) ((5, 5) ∷ (6, 5) ∷ [])
create_occupancy_grid-astar_search_example =
    create_occupancy_grid-astar_search dilation workspace [] (pos 5, pos 5) (pos 6, pos 5) 3
      ((5, 5) ∷ (6, 5) ∷ []) (1, 0) dilation-IsDilation moves_right (inl refl) (omega arith)
      (omega arith)
