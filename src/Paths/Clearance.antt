-- ===== src/Paths/Clearance.antt =====
-- The cells that occupancy_grid.py blocks around a hole, and the paths that are found on its grids.
use ap2030_uns.Prelude.{
  ℕ, ◌+◌, ◌*◌, ◌≡◌, ◌≢◌, ◌≤◌, ◌<◌, ◌↔◌, inl, inr, ap, subst, ◌∙◌, Bool, true, Option, none, some,
  List, [], ◌∷◌, All, if◌then◌else◌, ltb, arith, Bool-cases,
}
use ap2030_uns.Paths.Grid.{ℤ, Point, distance, Grid, is_inside, value}
use ap2030_uns.Paths.Search.{astar_search}
use ap2030_uns.Paths.Route.{LeadsTo, IsRoute}
use ap2030_uns.Paths.Astar.{astar_search_correct}
use ap2030_uns.Paths.Occupancy.{Workspace, add_holes, add_xbots, empty_grid, create_occupancy_grid}
use ap2030_uns.Paths.Obstacles.{
  trans-Extends, is_inside-Extends, add_holes-Extends, add_xbots-Extends, IsAmong, add_holes-marks,
}

-- What scipy documents of binary_dilation with a square structure: a cell of the result is set
-- if and only if a set cell lies under the square around it.
abbrev pub IsDilation : (ℕ → Grid → ℕ → ℕ → Bool) → Type 0
IsDilation d =
    (radius : ℕ) (g : Grid) (x y : ℕ)
    → is_inside g (x, y) ≡ true
    → (d (2 * radius + 1) g y x ≡ true) ↔ (
        (u v : ℕ) × (is_inside g (u, v) ≡ true)
        × (g.cell v u ≢ 0)
        × (distance x u ≤ radius)
        × (distance y v ≤ radius))

-- The nearest cell of a hole without its border, along one axis.
nearest :
    (lo x : ℕ)
    → lo ≤ x + 12
    → x < lo + 56
    → (u : ℕ) × (lo ≤ u) × (u < lo + 44) × (distance x u ≤ 12)
nearest lo x a b = elim (Bool-cases (ltb x lo)) [
  | inl e ↦ (lo, omega arith, omega arith, ground (arith, a, e))
  | inr e ↦ elim (Bool-cases (ltb x (lo + 44))) [
    | inl k ↦ (x, ground (arith, e), ground (arith, k), omega arith)
    | inr k ↦ (lo + 43, omega arith, omega arith, ground (arith, b, k))
  ]
]

-- A cell in a hole or within 10 cells of it, 50 mm.
abbrev pub IsInReach : Point → Point → Type 0
IsInReach (c, r) (x, y) =
    (c * 48 ≤ x + 10) × (x < c * 48 + 58) × (r * 48 ≤ y + 10) × (y < r * 48 + 58)

blocked :
    (d : ℕ → Grid → ℕ → ℕ → Bool) (w : Workspace) (xbots : List Point) (h p : Point)
    → IsDilation d
    → IsAmong h w.holes
    → h.0 < w.width
    → h.1 < w.height
    → is_inside (create_occupancy_grid d w xbots) p ≡ true
    → IsInReach h p
    → value (create_occupancy_grid d w xbots) p ≡ 1
unfolding create_occupancy_grid
blocked d w xbots (c, r) (x, y) spec a in_x in_y i (l0, l1, l2, l3) =
    let (u, u0, u1, u2) = nearest (c * 48 + 2) x (omega (arith, l0)) (omega (arith, l1)) in
    let (v, v0, v1, v2) = nearest (r * 48 + 2) y (omega (arith, l2)) (omega (arith, l3)) in
    let start = empty_grid w in
    let holed = add_holes w.holes start in
    let full = add_xbots xbots holed in
    let inside_start : is_inside start (u, v) ≡ true =
      within u v (omega (arith, u1, in_x)) (omega (arith, v1, in_y)) in
    let whole =
      trans-Extends start holed full (add_holes-Extends w.holes start)
        (add_xbots-Extends xbots holed) in
    let marked : full.cell v u ≡ 1 = (add_xbots-Extends xbots holed).2 u v (
      add_holes-marks c r u v w.holes start a u0 (omega (arith, u1)) v0 (omega (arith, v1))
        inside_start) in
    ap (λ (b : Bool). if b then 1 else 0)
      ((spec 12 full x y i).1 (
        u,
        v,
        is_inside-Extends start full (u, v) whole ∙ inside_start,
        (λ e. absurd (omega (arith, e, marked))),
        u2,
        v2,
      ))
  where
    within :
        (u v : ℕ) → u < w.width * 48 → v < w.height * 48 → is_inside (empty_grid w) (u, v) ≡ true
    within u v a b = ground (arith, a, b)

LeadsTo-free :
    (grid : Grid) (goal p : Point) (path : List Point)
    → LeadsTo grid goal p path
    → All (λ q. (is_inside grid q ≡ true) × (value grid q ≢ 1)) path
LeadsTo-free grid goal p [] h = tt
LeadsTo-free grid goal p (q ∷ path) h =
    ((h.0.0, (λ e. absurd (omega (arith, e, h.0.1)))), LeadsTo-free grid goal q path h.1)

IsRoute-free :
    (grid : Grid) (p q : Point) (path : List Point)
    → IsRoute grid p q path
    → All (λ z. (is_inside grid z ≡ true) × (value grid z ≢ 1)) path
IsRoute-free grid p q [] h = absurd h
IsRoute-free grid p q (z ∷ path) (e, i, n, l) = ((i, n), LeadsTo-free grid q z path l)

All-map {ℓ κ μ} :
    {A : Type ℓ} (P : A → Type κ) (Q : A → Type μ)
    → ((a : A) → P a → Q a)
    → (xs : List A) → All P xs
    → All Q xs
All-map P Q f [] h = tt
All-map P Q f (x ∷ xs) h = (f x h.0, All-map P Q f xs h.1)

-- Every route on a grid of `create_occupancy_grid` stays away from each hole.
pub IsRoute-clear :
    (d : ℕ → Grid → ℕ → ℕ → Bool) (w : Workspace) (xbots : List Point) (p q : Point)
    (path : List Point) (h : Point)
    → IsDilation d
    → IsRoute (create_occupancy_grid d w xbots) p q path
    → IsAmong h w.holes
    → h.0 < w.width
    → h.1 < w.height
    → All (λ z. ¬ IsInReach h z) path
IsRoute-clear d w xbots p q path h spec route among in_x in_y =
    All-map
      (λ z.
        (is_inside (create_occupancy_grid d w xbots) z ≡ true)
        × (value (create_occupancy_grid d w xbots) z ≢ 1))
      (λ z. ¬ IsInReach h z) (λ z (i, n) r. n (blocked d w xbots h z spec among in_x in_y i r)) path
      (IsRoute-free (create_occupancy_grid d w xbots) p q path route)

-- A path that `astar_search` returns on a grid of `create_occupancy_grid` stays away from each hole
-- of the workspace: every cell of it is outside the hole and more than 10 cells from its edges in
-- one of the directions, whatever the other movers, the start, the goal and the turning cost are.
pub create_occupancy_grid-astar_search :
    (d : ℕ → Grid → ℕ → ℕ → Bool) (w : Workspace) (xbots : List Point) (s g : ℤ × ℤ)
    (turning_cost : ℕ) (path : List Point) (h : Point)
    → IsDilation d
    → astar_search (create_occupancy_grid d w xbots) s g turning_cost ≡ some path
    → IsAmong h w.holes
    → h.0 < w.width
    → h.1 < w.height
    → All (λ p. ¬ IsInReach h p) path
create_occupancy_grid-astar_search d w xbots s g turning_cost path h spec found among in_x in_y =
    elim (astar_search_correct (create_occupancy_grid d w xbots) s g turning_cost) [
      | inl (other, e, (p, q, at_p, at_q, route)) ↦
          let same : other ≡ path =
            same_value (astar_search (create_occupancy_grid d w xbots) s g turning_cost) other path
              e found in
          IsRoute-clear d w xbots p q path h spec
            (subst (λ z. IsRoute (create_occupancy_grid d w xbots) p q z) same route) among in_x
            in_y
      | inr (e, none_there) ↦
          absurd
            (none_found (astar_search (create_occupancy_grid d w xbots) s g turning_cost) e found)
    ]
  where
    same_value : (o : Option (List Point)) (x y : List Point) → o ≡ some x → o ≡ some y → x ≡ y
    same_value o x y h k = ground (arith, h, k)

    none_found : (o : Option (List Point)) → o ≡ none → o ≡ some path → ⊥
    none_found o h k = ground (arith, h, k)
