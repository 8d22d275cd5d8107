-- ===== src/Planar/Floors.antt =====
-- The planning of a mover's path on a floor with a hole.
use ap2030_uns.Prelude.{
  if◌then◌else◌, ◌==◌, ◌&&◌, ◌≡◌, ◌<◌, refl, true, false, none, some, List, [], ◌∷◌, All,
}
use ap2030_uns.Paths.Grid.{Point, Grid, heuristic, neighbor}
use ap2030_uns.Paths.Search.{astar_search}
use ap2030_uns.Paths.Route.{IsRoute}
use ap2030_uns.Paths.Occupancy.{fill_column, fill_rectangle, add_holes, create_occupancy_grid}
use ap2030_uns.Paths.Obstacles.{IsAmong}
use ap2030_uns.Paths.Clearance.{IsInReach}
use ap2030_uns.Paths.Simplify.{simplify_path, expand}
use ap2030_uns.Paths.Merge.{merge_collinear_segments}
use ap2030_uns.Paths.Floors.{workspace, dilation, any_below, dilation-IsDilation}
use ap2030_uns.Planar.Mover.{find_nearest_valid_position, Mover, Execution}
use ap2030_uns.Planar.Plan.{start_position, Feedback, route, plan_path}
use ap2030_uns.Planar.Routes.{StartsAt, ComesFrom}
use ap2030_uns.Planar.Clear.{plan_path-IsRoute}
use ap2030_uns.Planar.Nearest.{IsNearest, find_nearest_valid_position-IsNearest}

abbrev mover : Mover
mover = record {
  goal_pos = (30000, 25000);
  goal_rotation = none;
  current_path = [];
  rotation_point = none;
  current_waypoint_index = 3;
  reached_goal = false;
}

abbrev execution : Execution
execution = record { mover = mover; log = [] }

abbrev feedback : Feedback
feedback = record { position = some (25000, 25000); rotation = none }

abbrev other : List Point
other = (400000, 400000) ∷ []

abbrev planned : Execution
planned = record {
  mover = record mover {
    current_path = (25000, 25000) ∷ (30000, 25000) ∷ [];
    current_waypoint_index = 0;
  };
  log = [];
}

plan_path-planned : plan_path dilation workspace feedback other execution ≡ (true, planned)
unfolding plan_path route simplify_path merge_collinear_segments astar_search heuristic neighbor
    create_occupancy_grid dilation any_below add_holes fill_rectangle fill_column
plan_path-planned = refl

plan_path-IsRoute_example :
    (current s start : Point) × (path : List Point) × (some (25000, 25000) ≡ some current)
    × (start_position dilation workspace (create_occupancy_grid dilation workspace other) current
        ≡ some s)
    × (planned.mover.goal_pos ≡ mover.goal_pos)
    × StartsAt dilation workspace s none start
    × IsRoute (create_occupancy_grid dilation workspace other) start (6, 5) path
    × ComesFrom dilation workspace other path ((25000, 25000) ∷ (30000, 25000) ∷ [])
    × (expand (simplify_path path) ≡ path)
    × ((h : Point) → IsAmong h ((1, 0) ∷ []) → h.0 < 2 → h.1 < 1 → All (λ p. ¬ IsInReach h p) path)
plan_path-IsRoute_example =
    plan_path-IsRoute dilation workspace feedback other execution planned dilation-IsDilation
      plan_path-planned

-- A grid of three columns and rows with a blocked cell in the middle.
abbrev blocked : Grid
blocked = record { width = 3; height = 3; cell = λ v u. if u == 1 && v == 1 then 1 else 0 }

corner : find_nearest_valid_position (5000, 5000) blocked ≡ some (0, 0)
unfolding find_nearest_valid_position
corner = refl

find_nearest_valid_position-IsNearest_example :
    IsNearest blocked (5000, 5000) (find_nearest_valid_position (5000, 5000) blocked)
find_nearest_valid_position-IsNearest_example =
    find_nearest_valid_position-IsNearest (5000, 5000) blocked
