-- ===== src/Planar/Routes.antt =====
-- Planar_Controller/xbot_planner.py: the paths that `plan_path` sets come from routes on its grid.
use ap2030_uns.Prelude.{
  ℕ, ◌≡◌, ◌⊎◌, inl, inr, refl, sym, ap, subst, Bool, true, false, Option, none, some, List, [], ◌∷◌,
  ◌++◌, if◌then◌else◌,
}
use ap2030_uns.Paths.Grid.{ℤ, pos, negsuc, Point, Grid}
use ap2030_uns.Paths.Route.{LeadsTo, IsRoute}
use ap2030_uns.Paths.Search.{astar_search}
use ap2030_uns.Paths.Astar.{astar_search_correct}
use ap2030_uns.Paths.Occupancy.{Workspace}
use ap2030_uns.Paths.Simplify.{simplify_path, expand, IsWalk, expand-simplify_path}
use ap2030_uns.Paths.Merge.{merge_collinear_segments}
use ap2030_uns.Planar.Mover.{to_cell, Mover, is_at, grid_path_to_meters}
use ap2030_uns.Planar.Plan.{
  turning_cost, tail, nonempty, combine, simplified, merged, rotation_route, path_for, route,
}

LeadsTo-append :
    (grid : Grid) (r q p : Point) (xs ys : List Point)
    → LeadsTo grid r p xs
    → LeadsTo grid q r ys
    → LeadsTo grid q p (xs ++ ys)
LeadsTo-append grid r q p [] ys h k = subst (λ z. LeadsTo grid q z ys) (sym h) k
LeadsTo-append grid r q p (x ∷ xs) ys h k = (h.0, LeadsTo-append grid r q x xs ys h.1 k)

IsRoute-append :
    (grid : Grid) (s r g : Point) (xs ys : List Point)
    → IsRoute grid s r xs
    → IsRoute grid r g ys
    → IsRoute grid s g (xs ++ tail ys)
IsRoute-append grid s r g [] ys h k = absurd h
IsRoute-append grid s r g (x ∷ xs) [] h k = absurd k
IsRoute-append grid s r g (x ∷ xs) (y ∷ ys) (e, i, n, l) (f, j, m, o) =
    (e, i, n, LeadsTo-append grid r g x xs ys l (subst (λ z. LeadsTo grid g z ys) f o))

LeadsTo-IsWalk :
    (grid : Grid) (goal p : Point) (path : List Point) → LeadsTo grid goal p path → IsWalk p path
LeadsTo-IsWalk grid goal p [] h = tt
LeadsTo-IsWalk grid goal p (q ∷ path) h = (h.0.2, LeadsTo-IsWalk grid goal q path h.1)

-- A route is got back from its simplification.
pub IsRoute-expand :
    (grid : Grid) (s g : Point) (path : List Point)
    → IsRoute grid s g path
    → expand (simplify_path path) ≡ path
IsRoute-expand grid s g [] h = absurd h
IsRoute-expand grid s g (p ∷ path) (e, i, n, l) =
    expand-simplify_path p path (LeadsTo-IsWalk grid g p path l)

abbrev AreRoutes : Grid → Point → Point → Option (List Point) → Type 0
AreRoutes grid s g none = Unit
AreRoutes grid s g (some path) = IsRoute grid s g path

nonempty-AreRoutes :
    (grid : Grid) (s g : Point) (o : Option (List Point))
    → AreRoutes grid s g o
    → AreRoutes grid s g (nonempty o)
nonempty-AreRoutes grid s g none h = tt
nonempty-AreRoutes grid s g (some []) h = tt
nonempty-AreRoutes grid s g (some (p ∷ ps)) h = h

combine-AreRoutes :
    (grid : Grid) (s r g : Point) (a b : Option (List Point))
    → AreRoutes grid s r a
    → AreRoutes grid r g b
    → AreRoutes grid s g (combine a b)
combine-AreRoutes grid s r g none b h k = tt
combine-AreRoutes grid s r g (some x) none h k = tt
combine-AreRoutes grid s r g (some x) (some y) h k = IsRoute-append grid s r g x y h k

abbrev cell_of : ℤ → ℕ
cell_of (pos n) = n
cell_of (negsuc n) = 0

search-AreRoutes :
    (grid : Grid) (p q : Point) (turns : ℕ)
    → AreRoutes grid p q (astar_search grid (pos p.0, pos p.1) (pos q.0, pos q.1) turns)
search-AreRoutes grid p q turns =
    elim (astar_search_correct grid (pos p.0, pos p.1) (pos q.0, pos q.1) turns) [
      | inl (path, e, (x, y, a, b, r)) ↦ subst (AreRoutes grid p q) (sym e) (
          subst (λ z. IsRoute grid z q path) (sym (ap (λ z. (cell_of z.0, cell_of z.1)) a))
            (subst (λ z. IsRoute grid x z path) (sym (ap (λ z. (cell_of z.0, cell_of z.1)) b)) r))
      | inr (e, n) ↦ subst (AreRoutes grid p q) (sym e) tt
    ]

module _ (dilation : ℕ → Grid → ℕ → ℕ → Bool) (workspace : Workspace) where
  route-AreRoutes :
      (grid : Grid) (p q : Point)
      → AreRoutes grid (to_cell p) (to_cell q) (route dilation workspace grid p q)
  unfolding route
  route-AreRoutes grid p q =
      nonempty-AreRoutes grid (to_cell p) (to_cell q)
        (astar_search grid (pos (to_cell p).0, pos (to_cell p).1)
          (pos (to_cell q).0, pos (to_cell q).1) turning_cost)
        (search-AreRoutes grid (to_cell p) (to_cell q) turning_cost)

  -- A way in metres that comes from a path over cells: simplified, and merged without obstacles.
  abbrev pub ComesFrom : List Point → List Point → List Point → Type 0
  ComesFrom obstacles path way =
      (way ≡ grid_path_to_meters (simplify_path path))
      ⊎ ((obstacles ≡ [])
          × (merge_collinear_segments workspace.holes (grid_path_to_meters (simplify_path path))
              ≡ some way))

  -- The cell where a path begins: that of the position, or that of a rotation point at the
  -- position.
  abbrev pub StartsAt : Point → Option Point → Point → Type 0
  StartsAt position point start =
      (start ≡ to_cell position)
      ⊎ ((c : Point) × (point ≡ some c) × (is_at position c ≡ true) × (start ≡ to_cell c))

  abbrev pub Follows : List Point → Grid → Point → Point → Option Point → List Point → Type 0
  Follows obstacles grid position goal point way =
      (start : Point) × (path : List Point) × StartsAt position point start
      × IsRoute grid start (to_cell goal) path
      × ComesFrom obstacles path way

  abbrev AllFollow : List Point → Grid → Point → Point → Option Point → Option (List Point) → Type 0
  AllFollow obstacles grid position goal point none = Unit
  AllFollow obstacles grid position goal point (some way) =
      Follows obstacles grid position goal point way

  simplified-AllFollow :
      (obstacles : List Point) (grid : Grid) (position goal start : Point) (point : Option Point)
      (o : Option (List Point))
      → StartsAt position point start
      → AreRoutes grid start (to_cell goal) o
      → AllFollow obstacles grid position goal point (simplified o)
  simplified-AllFollow obstacles grid position goal start point none s h = tt
  simplified-AllFollow obstacles grid position goal start point (some path) s h =
      (start, path, s, h, inl refl)

  merged-AllFollow :
      (obstacles : List Point) (grid : Grid) (position goal start : Point) (point : Option Point)
      (o : Option (List Point))
      → StartsAt position point start
      → AreRoutes grid start (to_cell goal) o
      → AllFollow obstacles grid position goal point
          (merged dilation workspace obstacles (simplified o))
  merged-AllFollow obstacles grid position goal start point none s h = tt
  merged-AllFollow (x ∷ obstacles) grid position goal start point (some path) s h =
      (start, path, s, h, inl refl)
  merged-AllFollow [] grid position goal start point (some path) s h =
      by_merged
        (merge_collinear_segments workspace.holes (grid_path_to_meters (simplify_path path))) refl
    where
      by_merged :
          (o : Option (List Point))
          → merge_collinear_segments workspace.holes (grid_path_to_meters (simplify_path path)) ≡ o
          → AllFollow [] grid position goal point o
      by_merged none e = tt
      by_merged (some way) e = (start, path, s, h, inr (refl, e))

  pub path_for-AllFollow :
      (obstacles : List Point) (grid : Grid) (position : Point) (m : Mover)
      → AllFollow obstacles grid position m.goal_pos m.rotation_point
          (path_for dilation workspace obstacles grid position m)
  path_for-AllFollow obstacles grid position m = by_point m.rotation_point
    where
      over :
          (c : Point) (b : Bool)
          → is_at position c ≡ b
          → (d : Bool)
          → AllFollow obstacles grid position m.goal_pos (some c) (
              simplified (
                if b
                then route dilation workspace grid c m.goal_pos
                else if d
                then route dilation workspace grid position m.goal_pos
                else combine
                    (route dilation workspace grid position c)
                    (route dilation workspace grid c m.goal_pos)))
      over c true e d =
          simplified-AllFollow obstacles grid position m.goal_pos (to_cell c) (some c)
            (route dilation workspace grid c m.goal_pos) (inr (c, refl, e, refl))
            (route-AreRoutes grid c m.goal_pos)
      over c false e true =
          simplified-AllFollow obstacles grid position m.goal_pos (to_cell position) (some c)
            (route dilation workspace grid position m.goal_pos) (inl refl)
            (route-AreRoutes grid position m.goal_pos)
      over c false e false =
          simplified-AllFollow obstacles grid position m.goal_pos (to_cell position) (some c)
            (combine (route dilation workspace grid position c)
              (route dilation workspace grid c m.goal_pos))
            (inl refl)
            (combine-AreRoutes grid (to_cell position) (to_cell c) (to_cell m.goal_pos)
              (route dilation workspace grid position c)
              (route dilation workspace grid c m.goal_pos) (route-AreRoutes grid position c)
              (route-AreRoutes grid c m.goal_pos))

      by_point :
          (o : Option Point)
          → AllFollow obstacles grid position m.goal_pos o (elim o as (λ x. Option (List Point)) [
            | some point ↦
                simplified (rotation_route dilation workspace grid position point m.goal_pos)
            | none ↦
                merged dilation workspace obstacles
                  (simplified (route dilation workspace grid position m.goal_pos))
          ])
      by_point none =
          merged-AllFollow obstacles grid position m.goal_pos (to_cell position) none
            (route dilation workspace grid position m.goal_pos) (inl refl)
            (route-AreRoutes grid position m.goal_pos)
      by_point (some c) = over c (is_at position c) refl (is_at c m.goal_pos)
