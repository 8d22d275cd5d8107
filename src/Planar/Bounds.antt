-- ===== src/Planar/Bounds.antt =====
-- The waypoint index of a task's execution stays in its path.
use ap2030_uns.Prelude.{
  ℕ, ◌<◌, ◌∙◌, ap, Bool, true, false, Option, none, some, List, [], ◌∷◌, if◌then◌else◌, length,
  arith,
}
use ap2030_uns.Paths.Grid.{pos, Point, Grid}
use ap2030_uns.Paths.Occupancy.{Workspace, create_occupancy_grid}
use ap2030_uns.Paths.Search.{astar_search}
use ap2030_uns.Paths.Simplify.{simplify_path}
use ap2030_uns.Paths.Merge.{merge_collinear_segments, add_point, merge_from, skip_turns}
use ap2030_uns.Planar.Mover.{to_cell, Mover, Execution, is_at, without_rotation}
use ap2030_uns.Planar.Track.{
  SameTrack, without_rotation-same, HasTrack, with_rotation_point-HasTrack,
}
use ap2030_uns.Planar.Plan.{
  turning_cost, start_position, Feedback, nonempty, combine, simplified, merged, rotation_route,
  path_for, plan_from, with_rotation_point, finish, plan_path, route,
}

abbrev pub InBounds : Mover → Type 0
InBounds m = m.current_waypoint_index < length m.current_path

-- A path that is given has a point.
abbrev IsFilled : Option (List Point) → Type 0
IsFilled none = Unit
IsFilled (some path) = 0 < length path

nonempty-IsFilled : (o : Option (List Point)) → IsFilled (nonempty o)
nonempty-IsFilled none = tt
nonempty-IsFilled (some []) = tt
nonempty-IsFilled (some (p ∷ ps)) = omega arith

combine-IsFilled : (a b : Option (List Point)) → IsFilled a → IsFilled (combine a b)
combine-IsFilled none b h = tt
combine-IsFilled (some a) none h = tt
combine-IsFilled (some []) (some b) h = absurd (omega (arith, h))
combine-IsFilled (some (p ∷ ps)) (some b) h = omega arith

simplified-IsFilled : (o : Option (List Point)) → IsFilled o → IsFilled (simplified o)
unfolding simplify_path
simplified-IsFilled none h = tt
simplified-IsFilled (some []) h = h
simplified-IsFilled (some (p ∷ [])) h = omega arith
simplified-IsFilled (some (p ∷ q ∷ [])) h = omega arith
simplified-IsFilled (some (p ∷ q ∷ r ∷ rest)) h = omega arith

merge-IsFilled :
    (holes path : List Point) → 0 < length path → IsFilled (merge_collinear_segments holes path)
unfolding merge_collinear_segments
merge-IsFilled holes [] h = h
merge-IsFilled holes (p ∷ []) h = h
merge-IsFilled holes (p ∷ q ∷ []) h = h
merge-IsFilled holes (p ∷ q ∷ r ∷ rest) h =
    by_rest (skip_turns holes (length (merge_from p q (r ∷ rest))) p (merge_from p q (r ∷ rest)))
  where
    by_rest : (o : Option (List Point)) → IsFilled (add_point p o)
    by_rest none = tt
    by_rest (some ps) = omega arith

module _ (dilation : ℕ → Grid → ℕ → ℕ → Bool) (workspace : Workspace) where
  merged-IsFilled :
      (obstacles : List Point) (o : Option (List Point))
      → IsFilled o
      → IsFilled (merged dilation workspace obstacles o)
  merged-IsFilled obstacles none h = tt
  merged-IsFilled [] (some path) h = merge-IsFilled workspace.holes path h
  merged-IsFilled (o ∷ os) (some path) h = h

  route-IsFilled : (grid : Grid) (p q : Point) → IsFilled (route dilation workspace grid p q)
  unfolding route
  route-IsFilled grid p q = nonempty-IsFilled (
      astar_search grid (pos (to_cell p).0, pos (to_cell p).1)
        (pos (to_cell q).0, pos (to_cell q).1) turning_cost)

  path_for-IsFilled :
      (obstacles : List Point) (grid : Grid) (current : Point) (m : Mover)
      → IsFilled (path_for dilation workspace obstacles grid current m)
  path_for-IsFilled obstacles grid current m = by_point m.rotation_point
    where
      by_route :
          (point : Point) (c d : Bool)
          → IsFilled (
              if c
              then route dilation workspace grid point m.goal_pos
              else if d
              then route dilation workspace grid current m.goal_pos
              else combine
                  (route dilation workspace grid current point)
                  (route dilation workspace grid point m.goal_pos))
      by_route point true d = route-IsFilled grid point m.goal_pos
      by_route point false true = route-IsFilled grid current m.goal_pos
      by_route point false false =
          combine-IsFilled (route dilation workspace grid current point)
            (route dilation workspace grid point m.goal_pos) (route-IsFilled grid current point)

      by_point :
          (o : Option Point)
          → IsFilled (elim o as (λ x. Option (List Point)) [
            | some point ↦
                simplified (rotation_route dilation workspace grid current point m.goal_pos)
            | none ↦
                merged dilation workspace obstacles
                  (simplified (route dilation workspace grid current m.goal_pos))
          ])
      by_point none =
          merged-IsFilled obstacles (simplified (route dilation workspace grid current m.goal_pos))
            (simplified-IsFilled (route dilation workspace grid current m.goal_pos)
              (route-IsFilled grid current m.goal_pos))
      by_point (some point) =
          simplified-IsFilled (rotation_route dilation workspace grid current point m.goal_pos)
            (by_route point (is_at current point) (is_at point m.goal_pos))

  same-InBounds : (m n : Mover) → SameTrack m n → InBounds m → InBounds n
  same-InBounds m n s h = omega (arith, h, s.1, ap length s.0)

  abbrev AllInBounds : Option Mover → Type 0
  AllInBounds none = Unit
  AllInBounds (some n) = InBounds n

  plan_from-InBounds :
      (obstacles : List Point) (grid : Grid) (start : Option Point) (m : Mover)
      → AllInBounds (plan_from dilation workspace obstacles grid start m)
  plan_from-InBounds obstacles grid none m = tt
  plan_from-InBounds obstacles grid (some current) m =
      by_path (path_for dilation workspace obstacles grid current m)
        (path_for-IsFilled obstacles grid current m)
    where
      by_path :
          (o : Option (List Point))
          → IsFilled o
          → AllInBounds (elim o as (λ x. Option Mover) [
            | none ↦ none
            | some path ↦ some (record m { current_path = path; current_waypoint_index = 0 })
          ])
      by_path none h = tt
      by_path (some path) h = h

  -- The bounds hold after a planning that succeeds, and are kept by one that fails.
  abbrev pub Keeps : Mover → Bool × Execution → Type 0
  Keeps m (true, n) = InBounds n.mover
  Keeps m (false, n) = InBounds m → InBounds n.mover

  finish-Keeps :
      (l m : Mover) (o : Option Mover) (e : Execution)
      → SameTrack l m
      → AllInBounds o
      → Keeps l (finish dilation workspace m o e)
  finish-Keeps l m none e s k = same-InBounds l m s
  finish-Keeps l m (some n) e s k = k

  pub plan_path-Keeps :
      (feedback : Feedback) (obstacles : List Point) (e : Execution)
      → Keeps e.mover (plan_path dilation workspace feedback obstacles e)
  unfolding plan_path
  plan_path-Keeps feedback obstacles e = by_position feedback.position
    where
      m : Mover
      m = without_rotation feedback.rotation e.mover

      same : SameTrack e.mover m
      same = without_rotation-same feedback.rotation e.mover

      grid : Grid
      grid = create_occupancy_grid dilation workspace obstacles

      planned : Point → Mover → Bool × Execution
      planned current n =
          finish dilation workspace n
            (plan_from dilation workspace obstacles grid
              (start_position dilation workspace grid current) n)
            e

      by_point :
          (current : Point) (o : Option Mover)
          → HasTrack m o
          → Keeps e.mover (elim o as (λ x. Bool × Execution) [
            | none ↦ finish dilation workspace m none e
            | some n ↦ planned current n
          ])
      by_point current none k = same-InBounds e.mover m same
      by_point current (some n) k =
          finish-Keeps e.mover n
            (plan_from dilation workspace obstacles grid
              (start_position dilation workspace grid current) n)
            e (k.0 ∙ same.0, k.1 ∙ same.1, k.2 ∙ same.2)
            (plan_from-InBounds obstacles grid (start_position dilation workspace grid current) n)

      by_position :
          (o : Option Point)
          → Keeps e.mover (elim o as (λ x. Bool × Execution) [
            | none ↦ (false, e)
            | some current ↦
                elim (with_rotation_point dilation workspace current m) as (λ x. Bool × Execution) [
                  | none ↦ finish dilation workspace m none e
                  | some n ↦ planned current n
                ]
          ])
      by_position none = λ h. h
      by_position (some current) =
          by_point current (with_rotation_point dilation workspace current m)
            (with_rotation_point-HasTrack dilation workspace current m)

  -- Planning keeps the bounds, whether it succeeds or not.
  pub plan_path-InBounds :
      (feedback : Feedback) (obstacles : List Point) (e : Execution)
      → InBounds e.mover
      → InBounds (plan_path dilation workspace feedback obstacles e).1.mover
  plan_path-InBounds feedback obstacles e h =
      by_result (plan_path dilation workspace feedback obstacles e)
        (plan_path-Keeps feedback obstacles e)
    where
      by_result : (r : Bool × Execution) → Keeps e.mover r → InBounds r.1.mover
      by_result (true, n) k = k
      by_result (false, n) k = k h
