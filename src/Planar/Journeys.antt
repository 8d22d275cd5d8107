-- ===== src/Planar/Journeys.antt =====
-- Executions of tasks of movers, and the theorems at them.
use ap2030_uns.Prelude.{ℕ, ◌≡◌, refl, Bool, true, false, none, some, List, [], ◌∷◌, arith}
use ap2030_uns.Paths.Grid.{Point, Grid}
use ap2030_uns.Paths.Occupancy.{Workspace}
use ap2030_uns.Paths.Merge.{merge_collinear_segments}
use ap2030_uns.Planar.Mover.{Call, Mover, Execution, publish_state, linear_motion}
use ap2030_uns.Planar.Controller.{execute}
use ap2030_uns.Planar.Execute.{at, Rotation, Turn, moved, move_to}
use ap2030_uns.Planar.Task.{Outcome, returned, Arrival, loop, reach_goal, execute_xbot}
use ap2030_uns.Planar.Handle.{Handling, handle_single_task}
use ap2030_uns.Planar.Plan.{plan_path, route}
use ap2030_uns.Paths.Simplify.{simplify_path}
use ap2030_uns.Paths.Search.{astar_search}
use ap2030_uns.Paths.Occupancy.{create_occupancy_grid}
use ap2030_uns.Paths.Grid.{heuristic, neighbor}
use ap2030_uns.Planar.Mover.{stop_motion}
use ap2030_uns.Planar.Level.{loop-level_lem, rotations}

-- One flyway in three, without holes, and a dilation that leaves a grid as it is.
abbrev floor : Workspace
floor = record { width = 3; height = 1; holes = [] }

abbrev no_dilation : ℕ → Grid → ℕ → ℕ → Bool
no_dilation n g y x = false

-- From the first flyway over the second to the third, with a rotation by a quarter at the second.
abbrev mover : Mover
mover = record {
  goal_pos = (600000, 120000);
  goal_rotation = some 1570796;
  current_path = (120000, 120000) ∷ (360000, 120000) ∷ (600000, 120000) ∷ [];
  rotation_point = some (360000, 120000);
  current_waypoint_index = 0;
  reached_goal = false;
}

abbrev execution : Execution
execution = record { mover = mover; log = [] }

abbrev no_rotation : Rotation
no_rotation = record { first_reads = true; statuses = [] }

abbrev move_along_x : Point → Point → Turn
move_along_x p q = record {
  waits = (true, execute) ∷ [];
  position = some p;
  x_statuses = at p ∷ at q ∷ [];
  y_position = none;
  y_statuses = [];
  rotation = no_rotation;
  collision_position = none;
  other_positions = [];
  feedback = record { position = some p; rotation = some 0 };
}

abbrev turns : List Turn
turns =
    move_along_x (120000, 120000) (360000, 120000)
    ∷ move_along_x (360000, 120000) (600000, 120000)
    ∷ []

abbrev arrival : Arrival
arrival = record { position = some (600000, 120000); rotation = no_rotation }

abbrev ended : Outcome
ended = execute_xbot no_dilation floor ((true, execute) ∷ []) arrival none turns arrival execution

-- The task is complete, and no rotation is in the log, though one is required at the second flyway.
ended_complete :
    ended
    ≡ returned true (record {
      mover = record mover { current_waypoint_index = 2; reached_goal = true };
      log =
          publish_state "Complete"
          ∷ linear_motion (600000, 120000)
          ∷ linear_motion (360000, 120000)
          ∷ publish_state "Execute"
          ∷ [];
    })
unfolding execute_xbot loop reach_goal
ended_complete = refl

-- A short way as a task that is handled.
abbrev handling : Handling
handling = record {
  position = some (120000, 120000);
  reconnects = false;
  is_active = false;
  activates = true;
  feedback = record { position = some (120000, 120000); rotation = none };
  waits = (true, execute) ∷ [];
  start = arrival;
  single_position = none;
  turns = move_along_x (120000, 120000) (125000, 120000) ∷ [];
  arrival = arrival;
}

handled :
    handle_single_task no_dilation floor (125000, 120000) none handling execution
    ≡ returned true (record {
      mover = record {
        goal_pos = (125000, 120000);
        goal_rotation = none;
        current_path = (120000, 120000) ∷ (125000, 120000) ∷ [];
        rotation_point = none;
        current_waypoint_index = 1;
        reached_goal = true;
      };
      log =
          publish_state "Idle"
          ∷ publish_state "Complete"
          ∷ linear_motion (125000, 120000)
          ∷ publish_state "Execute"
          ∷ publish_state "Idle"
          ∷ stop_motion
          ∷ [];
    })
unfolding handle_single_task execute_xbot loop reach_goal plan_path route simplify_path
    merge_collinear_segments astar_search heuristic neighbor create_occupancy_grid
handled = refl

loop-level_lem_example :
    (n : Execution) × (loop no_dilation floor turns arrival
        (record { execution = execution; obstacles = []; replan_count = 0 })
      ≡ returned true n)
    × (n.mover.reached_goal ≡ true)
    × (rotations n.log ≡ 0)
    × ((rest : List Call) × (n.log ≡ publish_state "Complete" ∷ rest))
loop-level_lem_example =
    loop-level_lem no_dilation floor turns arrival
      (record { execution = execution; obstacles = []; replan_count = 0 }) (600000, 120000)
      (360000, 120000)
      (
        (refl, ((120000, 120000), refl, omega arith), tt),
        ((refl, ((360000, 120000), refl, omega arith), tt), tt),
      )
      (omega arith) refl refl refl

-- A merged segment past a hole at (240000, 0) to (480000, 240000): its direct way is farther from
-- the hole than the first move, along x only, which ends at 10 mm from the hole's edge.
merged_corner :
    merge_collinear_segments
      ((1, 0) ∷ [])
      ((100000, 250000) ∷ (100000, 1000000) ∷ (350000, 1000000) ∷ [])
    ≡ some ((100000, 250000) ∷ (350000, 1000000) ∷ [])
unfolding merge_collinear_segments
merged_corner = refl

first_move :
    move_to
      (record (move_along_x (100000, 250000) (350000, 250000)) {
        y_position = some (350000, 250000);
      })
      (350000, 1000000)
      execution
    ≡ moved (record execution {
      log = linear_motion (350000, 1000000) ∷ linear_motion (350000, 250000) ∷ [];
    })
first_move = refl
