-- ===== src/Paths/Merge.antt =====
-- `merge_collinear_segments` of path_simplifier.py. Positions are in micrometres, and a bound
-- that the source computes below 0 is compared by adding the margin on the other side; the points
-- of a diagonal are compared at twenty times their coordinates.
use ap2030_uns.Prelude.{
  ℕ, zero, suc, ◌+◌, ◌-◌, ◌*◌, min, max, Bool, true, false, not, ◌&&◌, ◌||◌, Option, none, some,
  List, [], ◌∷◌, if◌then◌else◌, ltb, length,
}
use ap2030_uns.Paths.Grid.{Point, distance}

-- The last segment and the new one are both horizontal or both vertical.
abbrev pub goes_on : Point → Point → Point → Bool
goes_on before prev curr =
    let dx = distance curr.0 prev.0 in
    let dy = distance curr.1 prev.1 in
    let prev_dx = distance prev.0 before.0 in
    let prev_dy = distance prev.1 before.1 in
    (ltb 1000 dx && ltb dy 1000 && ltb 1000 prev_dx && ltb prev_dy 1000)
    || (ltb 1000 dy && ltb dx 1000 && ltb 1000 prev_dy && ltb prev_dx 1000)

-- Pass 1, after `before` and `prev`, the last two points of `merged`.
abbrev pub merge_from : Point → Point → List Point → List Point
merge_from before prev [] = prev ∷ []
merge_from before prev (curr ∷ rest) =
    let replaced = merge_from before curr rest in
    let kept = merge_from prev curr rest in
    if goes_on before prev curr then replaced else prev ∷ kept

-- The margins around a hole: half of the mover's size, 1.414 times that on a diagonal, and 20 mm.
abbrev pub straight_margin : ℕ
straight_margin = 80000

abbrev pub diagonal_margin : ℕ
diagonal_margin = 104840

abbrev pub flyway_size : ℕ
flyway_size = 240000

abbrev pub is_diagonal : Point → Point → Bool
is_diagonal start end = ltb 1000 (distance end.0 start.0) && ltb 1000 (distance end.1 start.1)

-- A sample point of a diagonal, the `i`-th of 20, is in the hole with its margin.
abbrev pub sample_overlaps : Point → Point → Point → ℕ → Bool
sample_overlaps start end (hole_col, hole_row) i =
    let sample_x = start.0 * (20 - i) + end.0 * i in
    let sample_y = start.1 * (20 - i) + end.1 * i in
    ltb (20 * (hole_col * flyway_size)) (sample_x + 20 * diagonal_margin)
    && ltb sample_x (20 * ((hole_col + 1) * flyway_size + diagonal_margin))
    && ltb (20 * (hole_row * flyway_size)) (sample_y + 20 * diagonal_margin)
    && ltb sample_y (20 * ((hole_row + 1) * flyway_size + diagonal_margin))

abbrev pub some_sample : (ℕ → Bool) → ℕ → Bool
some_sample p zero = false
some_sample p (suc n) = some_sample p n || p n

abbrev pub box_overlaps : Point → Point → Point → Bool
box_overlaps start end (hole_col, hole_row) = not (
    ltb (max start.0 end.0 + straight_margin) (hole_col * flyway_size)
    || ltb ((hole_col + 1) * flyway_size + straight_margin) (min start.0 end.0)
    || ltb (max start.1 end.1 + straight_margin) (hole_row * flyway_size)
    || ltb ((hole_row + 1) * flyway_size + straight_margin) (min start.1 end.1))

abbrev pub overlaps : Point → Point → Point → Bool
overlaps start end hole =
    if is_diagonal start end
    then some_sample (sample_overlaps start end hole) 21
    else box_overlaps start end hole

unfoldable pub is_direct_path_safe : List Point → Point → Point → Bool
is_direct_path_safe [] start end = true
is_direct_path_safe (h ∷ holes) start end =
    let rest = is_direct_path_safe holes start end in if overlaps start end h then false else rest

abbrev pub add_point : Point → Option (List Point) → Option (List Point)
add_point p none = none
add_point p (some ps) = some (p ∷ ps)

module _ (holes : List Point) where
  -- The last point that can be reached directly, and the points after it.
  unfoldable pub furthest_safe : Point → List Point → Option (Point × List Point)
  unfolding is_direct_path_safe
  furthest_safe start [] = none
  furthest_safe start (q ∷ qs) = elim (furthest_safe start qs) [
    | some x ↦ some x
    | none ↦ if is_direct_path_safe holes start q then some (q, qs) else none
  ]

  -- Without such a point it is the next one.
  abbrev pub furthest : Point → Point → List Point → Point × List Point
  furthest start q qs = elim (furthest_safe start (q ∷ qs)) [ none ↦ (q, qs) | some x ↦ x ]

  -- Pass 2; each turn of the loop takes a point at least. None is a spent fuel.
  unfoldable pub skip_turns : ℕ → Point → List Point → Option (List Point)
  unfolding furthest_safe
  skip_turns fuel start [] = some []
  skip_turns zero start (q ∷ qs) = none
  skip_turns (suc fuel) start (q ∷ qs) =
      let next = furthest start q qs in add_point next.0 (skip_turns fuel next.0 next.1)

  unfoldable pub merge_collinear_segments : List Point → Option (List Point)
  unfolding skip_turns
  merge_collinear_segments (p ∷ q ∷ r ∷ rest) =
      let merged = merge_from p q (r ∷ rest) in add_point p (skip_turns (length merged) p merged)
  merge_collinear_segments path = some path
