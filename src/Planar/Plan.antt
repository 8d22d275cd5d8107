-- ===== src/Planar/Plan.antt =====
-- Planar_Controller/xbot_planner.py: `plan_path`. What the mover's position and rotation read is an
-- input; the position is none where it cannot be read.
use ap2030_uns.Prelude.{
  ℕ, Bool, true, false, ◌&&◌, Option, none, some, List, [], ◌∷◌, ◌++◌, if◌then◌else◌, ◌==◌,
}
use ap2030_uns.Paths.Grid.{pos, Point, Grid, is_inside, value}
use ap2030_uns.Paths.Search.{astar_search}
use ap2030_uns.Paths.Occupancy.{Workspace, create_occupancy_grid}
use ap2030_uns.Paths.Simplify.{simplify_path}
use ap2030_uns.Paths.Merge.{merge_collinear_segments}
use ap2030_uns.Planar.Mover.{
  Mover, publish_state, Execution, call, set_mover, to_cell, grid_path_to_meters, is_at,
  get_flyway_centers, best_center, point_of, center_at, without_rotation,
  find_nearest_valid_position,
}

pub record Feedback : Type 0 where
  pub position : Option Point
  pub rotation : Option ℕ

-- The default `turning_cost`, in tenths.
abbrev pub turning_cost : ℕ
turning_cost = 3

-- `if not goal_path`: an empty path counts as none.
abbrev pub nonempty : Option (List Point) → Option (List Point)
nonempty none = none
nonempty (some []) = none
nonempty (some (p ∷ ps)) = some (p ∷ ps)

abbrev pub tail : List Point → List Point
tail [] = []
tail (p ∷ ps) = ps

-- `path1 + path2[1:]`
abbrev pub combine : Option (List Point) → Option (List Point) → Option (List Point)
combine none b = none
combine (some a) none = none
combine (some a) (some b) = some (a ++ tail b)

abbrev pub simplified : Option (List Point) → Option (List Point)
simplified none = none
simplified (some p) = some (grid_path_to_meters (simplify_path p))

abbrev pub or_first : Option Point → Option Point → Option Point
or_first none b = b
or_first (some a) b = some a

abbrev pub is_none {ℓ} : {A : Type ℓ} → Option A → Bool
is_none none = true
is_none (some a) = false

abbrev pub is_nil {ℓ} : {A : Type ℓ} → List A → Bool
is_nil [] = true
is_nil (x ∷ xs) = false

module _ (dilation : ℕ → Grid → ℕ → ℕ → Bool) (workspace : Workspace) where
  -- Without obstacles, as the call passes none.
  unfoldable pub select_rotation_point : Point → Point → Option Point
  unfolding create_occupancy_grid get_flyway_centers
  select_rotation_point current goal = point_of (
      best_center (create_occupancy_grid dilation workspace []) current goal
        (get_flyway_centers workspace) none)

  -- The rotation point: the center at the position, or that at the goal, or the best one.
  unfoldable pub choose_rotation_point : Point → Point → Option Point
  unfolding select_rotation_point
  choose_rotation_point current goal = or_first (center_at current (get_flyway_centers workspace)) (
      or_first (center_at goal (get_flyway_centers workspace)) (select_rotation_point current goal))

  -- A mover whose rotation is required gets a rotation point; it fails without one.
  abbrev pub with_rotation_point : Point → Mover → Option Mover
  with_rotation_point current m = elim m.goal_rotation [
    | none ↦ some m
    | some g ↦ elim (choose_rotation_point current m.goal_pos) [
      | none ↦ none
      | some c ↦ some (record m { rotation_point = some c })
    ]
  ]

  -- The start: a position in an obstacle's zone is replaced by the nearest one that is not.
  abbrev pub start_position : Grid → Point → Option Point
  start_position grid current =
      if is_inside grid (to_cell current) && value grid (to_cell current) == 1
      then find_nearest_valid_position current grid
      else some current

  unfoldable pub route : Grid → Point → Point → Option (List Point)
  unfolding astar_search
  route grid p q = nonempty (
      astar_search grid (pos (to_cell p).0, pos (to_cell p).1)
        (pos (to_cell q).0, pos (to_cell q).1) turning_cost)

  -- Over the rotation point.
  abbrev pub rotation_route : Grid → Point → Point → Point → Option (List Point)
  rotation_route grid current point goal =
      if is_at current point
      then route grid point goal
      else if is_at point goal
      then route grid current goal
      else combine (route grid current point) (route grid point goal)

  -- Segments are merged without obstacles only.
  abbrev pub merged : List Point → Option (List Point) → Option (List Point)
  merged obstacles none = none
  merged obstacles (some path) =
      if is_nil obstacles then merge_collinear_segments workspace.holes path else some path

  abbrev pub path_for : List Point → Grid → Point → Mover → Option (List Point)
  path_for obstacles grid current m = elim m.rotation_point [
    | some point ↦ simplified (rotation_route grid current point m.goal_pos)
    | none ↦ merged obstacles (simplified (route grid current m.goal_pos))
  ]

  abbrev pub plan_from : List Point → Grid → Option Point → Mover → Option Mover
  plan_from obstacles grid none m = none
  plan_from obstacles grid (some current) m = elim (path_for obstacles grid current m) [
    | none ↦ none
    | some path ↦ some (record m { current_path = path; current_waypoint_index = 0 })
  ]

  -- A failure is reported, and leaves what was set before it.
  abbrev pub finish : Mover → Option Mover → Execution → Bool × Execution
  finish m none e = (false, call (publish_state "Aborted") (set_mover m e))
  finish m (some n) e = (true, set_mover n e)

  unfoldable pub plan_path : Feedback → List Point → Execution → Bool × Execution
  unfolding choose_rotation_point create_occupancy_grid find_nearest_valid_position route
      simplify_path merge_collinear_segments
  plan_path feedback obstacles e = elim feedback.position [
    | none ↦ (false, e)
    | some current ↦
        let m = without_rotation feedback.rotation e.mover in
        let grid = create_occupancy_grid dilation workspace obstacles in
        elim (with_rotation_point current m) [
          | none ↦ finish m none e
          | some n ↦ finish n (plan_from obstacles grid (start_position grid current) n) e
        ]
  ]
