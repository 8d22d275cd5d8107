-- ===== src/Planar/Execute.antt =====
-- Planar_Controller/xbot_planner.py: `execute_xbot` and `execute_rotation`. What the mover's status
-- reads while the code waits is a list of readings; its end is the time-out. Interruption by the
-- keyboard is left out.
use ap2030_uns.Prelude.{
  ℕ, ◌+◌, ◌*◌, Bool, true, false, Option, none, some, List, [], ◌∷◌, ◌++◌, if◌then◌else◌, ltb,
}
use ap2030_uns.Paths.Grid.{Point, distance}
use ap2030_uns.Planar.Controller.{
  ControllerState, stopping, stopped, aborting, aborted, resetting, is_among,
}
use ap2030_uns.Planar.Mover.{
  publish_state, linear_motion, rotary_motion, Execution, call, set_mover, is_at, squared,
  is_listed, one_degree,
}
use ap2030_uns.Planar.Plan.{Feedback}

pub data Status : Type 0 where
  at : Point → Status
  obstacle_detected raised : Status

pub data RotationStatus : Type 0 where
  angle : ℕ → RotationStatus
  motion_error exception : RotationStatus

-- The first reading is that before the motion command; without it the call raised.
pub record Rotation : Type 0 where
  pub first_reads : Bool
  pub statuses : List RotationStatus

abbrev pub rotated : ℕ → List RotationStatus → Bool
rotated target [] = false
rotated target (angle rz ∷ rest) =
    if ltb (distance rz target) one_degree then true else rotated target rest
rotated target (_ ∷ rest) = false

abbrev pub execute_rotation : ℕ → Rotation → Execution → Bool × Execution
execute_rotation target r e =
    if r.first_reads then (rotated target r.statuses, call (rotary_motion target) e) else (false, e)

-- The loop over `pause_event` and the system's state: whether it ends with the event set, or with
-- the task aborted. None is a wait without an end.
abbrev pub may_go : List (Bool × ControllerState) → Option Bool
may_go [] = none
may_go ((true, s) ∷ rest) = some true
may_go ((false, s) ∷ rest) =
    if is_among s (stopping ∷ stopped ∷ aborting ∷ aborted ∷ resetting ∷ [])
    then some false
    else may_go rest

abbrev pub position_tolerance : ℕ
position_tolerance = 5000

-- How a wait for a move ends.
pub data MoveEnd : Type 0 where
  arrived : Point → MoveEnd
  held failed timed_out : MoveEnd

abbrev pub wait_x : Point → List Status → MoveEnd
wait_x target [] = timed_out
wait_x target (at p ∷ rest) =
    if ltb (distance p.0 target.0) position_tolerance then arrived p else wait_x target rest
wait_x target (obstacle_detected ∷ rest) = held
wait_x target (raised ∷ rest) = failed

abbrev pub wait_y : Point → List Status → MoveEnd
wait_y target [] = timed_out
wait_y target (at p ∷ rest) =
    if ltb (squared p target) (position_tolerance * position_tolerance)
    then arrived p
    else wait_y target rest
wait_y target (obstacle_detected ∷ rest) = held
wait_y target (raised ∷ rest) = failed

-- What one turn of the loop over the waypoints reads.
pub record Turn : Type 0 where
  pub waits : List (Bool × ControllerState)
  pub position : Option Point
  pub x_statuses : List Status
  pub y_position : Option Point
  pub y_statuses : List Status
  pub rotation : Rotation
  pub collision_position : Option Point
  pub other_positions : List (Option Point)
  pub feedback : Feedback

-- How far a turn has come: it goes on, after a collision or not, or the task ends.
pub data Progress : Type 0 where
  moved collided ended : Execution → Progress

abbrev pub abort : Execution → Progress
abort e = ended (call (publish_state "Aborted") e)

abbrev pub next_waypoint : Execution → Execution
next_waypoint e =
    set_mover (record e.mover { current_waypoint_index = e.mover.current_waypoint_index + 1 }) e

abbrev pub after_move : MoveEnd → (Point → Execution → Progress) → Execution → Progress
after_move (arrived p) f e = f p e
after_move held f e = collided (call (publish_state "Held") e)
after_move failed f e = collided (call (publish_state "Aborted") e)
after_move timed_out f e = moved e

-- The rotation at a waypoint, after a move along y.
abbrev pub turned : Bool × Execution → Progress
turned (false, e) = abort e
turned (true, e) =
    moved (call (publish_state "Execute") (set_mover (record e.mover { rotation_point = none }) e))

abbrev pub rotate_at : Point → Rotation → Execution → Option Point → Option ℕ → Progress
rotate_at p r e (some c) (some g) =
    if is_at p c then turned (execute_rotation g r e) else moved (call (publish_state "Execute") e)
rotate_at p r e _ _ = moved (call (publish_state "Execute") e)

abbrev pub reach : Rotation → Point → Execution → Progress
reach r p e =
    let n = next_waypoint e in rotate_at p r n n.mover.rotation_point n.mover.goal_rotation

-- The move along y, if there is one.
abbrev pub move_y : Turn → Point → ℕ → Execution → Progress
move_y t target dy e =
    if ltb 1000 dy
    then elim t.y_position [
      | none ↦ abort e
      | some p ↦
          after_move (wait_y target t.y_statuses) (reach t.rotation) (call (linear_motion target) e)
    ]
    else moved (next_waypoint e)

abbrev pub after_x : Turn → Point → ℕ → Progress → Progress
after_x t target dy (moved e) = move_y t target dy e
after_x t target dy p = p

-- The move along x, if there is one; a time-out goes on as an arrival does.
abbrev pub move_x : Turn → Point → Point → Execution → Progress
move_x t target current e =
    if ltb 1000 (distance target.0 current.0)
    then after_move (wait_x target t.x_statuses) (λ p. moved)
        (call (linear_motion (target.0, current.1)) e)
    else moved e

abbrev pub move_to : Turn → Point → Execution → Progress
move_to t target e = elim t.position [
  | none ↦ abort e
  | some current ↦ after_x t target (distance target.1 current.1) (move_x t target current e)
]

-- The other movers whose positions are read, without repetition.
abbrev pub add_obstacles : List (Option Point) → List Point → List Point
add_obstacles [] obstacles = obstacles
add_obstacles (none ∷ ps) obstacles = add_obstacles ps obstacles
add_obstacles (some p ∷ ps) obstacles =
    add_obstacles ps (if is_listed p obstacles then obstacles else obstacles ++ p ∷ [])
