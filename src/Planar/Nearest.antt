-- ===== src/Planar/Nearest.antt =====
-- Planar_Controller/xbot_planner.py: what `find_nearest_valid_position` finds.
use ap2030_uns.Prelude.{
  ◌≡◌, ◌⊎◌, ◌≤◌, ◌<◌, inl, inr, refl, sym, subst, Bool, true, false, Option, none, some,
  if◌then◌else◌, leb, arith, Bool-cases,
}
use ap2030_uns.Paths.Grid.{Point, Grid}
use ap2030_uns.Planar.Mover.{
  to_cell, grid_to_meters, is_free, search_rings, max_search_radius, find_nearest_valid_position,
}
use ap2030_uns.Planar.Rings.{chebyshev, AllNearest, search_rings_lem}

abbrev pub IsNearest : Grid → Point → Option Point → Type 0
IsNearest grid position none =
    (q : Point) → chebyshev (to_cell position) q ≤ 20 → is_free grid (some q) ≡ false
IsNearest grid position (some p) =
    ((p ≡ position)
      ⊎ ((c : Point) × (p ≡ grid_to_meters c)
          × (to_cell p ≡ c)
          × (chebyshev (to_cell position) c ≤ 20)))
    × (is_free grid (some (to_cell p)) ≡ true)
    × ((q : Point)
        → chebyshev (to_cell position) q < chebyshev (to_cell position) (to_cell p)
        → is_free grid (some q) ≡ false)

cell_of_meters : (c : Point) → to_cell (grid_to_meters c) ≡ c
cell_of_meters (x, y) = ground arith

-- The search for a position gives the one that was given, if its cell is free, or else the corner
-- of a free cell of the grid, at most 20 cells away, whose cell is read back from it. No free
-- cell is nearer, in squares around the position's cell; if none is found, none is within 20
-- cells.
pub find_nearest_valid_position-IsNearest :
    (position : Point) (grid : Grid)
    → IsNearest grid position (find_nearest_valid_position position grid)
unfolding find_nearest_valid_position
find_nearest_valid_position-IsNearest position grid =
    by_flag (is_free grid (some (to_cell position))) refl
  where
    s : Point
    s = to_cell position

    zero_distance : (p : Point) → chebyshev p p ≡ 0
    zero_distance p = ground arith

    own : (p q : Point) → chebyshev p q < 1 → p ≡ q
    own (a, b) (c, d) h = ground (arith, h)

    here :
        is_free grid (some s) ≡ false
        → (q : Point) → chebyshev s q < 1
        → is_free grid (some q) ≡ false
    here e q h = subst (λ z. is_free grid (some z) ≡ false) (own s q h) e

    by_rings :
        is_free grid (some s) ≡ false
        → (o : Option Point) → AllNearest grid s 1 20 o
        → IsNearest grid position
            (elim o as (λ x. Option Point) [ none ↦ none | some p ↦ some (grid_to_meters p) ])
    by_rings e none h = λ q l. elim (Bool-cases (leb 1 (chebyshev s q))) [
      | inl k ↦ h q (ground (arith, k)) (omega (arith, l))
      | inr k ↦ here e q (ground (arith, k))
    ]
    by_rings e (some p) (l, f, h) = (
      inr (p, refl, cell_of_meters p, omega (arith, l)),
      subst (λ z. is_free grid (some z) ≡ true) (sym (cell_of_meters p)) f,
      λ q k. elim (Bool-cases (leb 1 (chebyshev s q))) [
        | inl u ↦
            h q (ground (arith, u))
              (subst (λ z. chebyshev s q < chebyshev s z) (cell_of_meters p) k)
        | inr u ↦ here e q (ground (arith, u))
      ],
    )

    by_flag :
        (b : Bool)
        → is_free grid (some s) ≡ b
        → IsNearest grid position (
            if b
            then some position
            else elim (search_rings grid s 1 max_search_radius) as (λ x. Option Point) [
              | none ↦ none
              | some p ↦ some (grid_to_meters p)
            ])
    by_flag true e = (inl refl, e, λ q h. absurd (omega (arith, h, zero_distance s)))
    by_flag false e =
        by_rings e (search_rings grid s 1 max_search_radius)
          (search_rings_lem grid s 1 max_search_radius)
