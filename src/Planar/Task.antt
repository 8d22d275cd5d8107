-- ===== src/Planar/Task.antt =====
-- Planar_Controller/xbot_planner.py: the loop of `execute_xbot` over the waypoints, with its
-- replanning after collisions, and the whole execution of a task.
use ap2030_uns.Prelude.{
  ℕ, zero, suc, Bool, true, false, Option, none, some, List, [], ◌∷◌, if◌then◌else◌, ◌==◌, leb,
  length,
}
use ap2030_uns.Paths.Grid.{Point, Grid}
use ap2030_uns.Paths.Occupancy.{Workspace}
use ap2030_uns.Planar.Controller.{ControllerState}
use ap2030_uns.Planar.Mover.{publish_state, stop_motion, Execution, call, set_mover, is_at}
use ap2030_uns.Planar.Plan.{plan_path}
use ap2030_uns.Planar.Execute.{
  Rotation, execute_rotation, may_go, Turn, Progress, moved, collided, ended, move_to,
  add_obstacles,
}

abbrev pub max_replans : ℕ
max_replans = 5

-- The local variables of the loop.
pub record Run : Type 0 where
  pub execution : Execution
  pub obstacles : List Point
  pub replan_count : ℕ

-- `path[index]`
abbrev pub waypoint : ℕ → List Point → Option Point
waypoint i [] = none
waypoint zero (p ∷ ps) = some p
waypoint (suc i) (p ∷ ps) = waypoint i ps

pub data Outcome : Type 0 where
  returned : Bool → Execution → Outcome
  running : Run → Outcome

-- What is read at the goal, and before the loop.
pub record Arrival : Type 0 where
  pub position : Option Point
  pub rotation : Rotation

abbrev pub completed : Execution → Outcome
completed e =
    returned true
      (call (publish_state "Complete") (set_mover (record e.mover { reached_goal = true }) e))

abbrev pub aborted_with : Execution → Outcome
aborted_with e = returned false (call (publish_state "Aborted") e)

abbrev pub turned_at_goal : Bool × Execution → Outcome
turned_at_goal (true, e) = completed e
turned_at_goal (false, e) = aborted_with e

-- Behind the loop: a rotation at the goal, if its point is there.
abbrev pub at_goal : Arrival → Execution → Option Point → Option Point → Option ℕ → Outcome
at_goal a e (some p) (some c) (some g) =
    if is_at p c then turned_at_goal (execute_rotation g a.rotation e) else completed e
at_goal a e _ _ _ = completed e

unfoldable pub reach_goal : Arrival → Execution → Outcome
reach_goal a e = at_goal a e a.position e.mover.rotation_point e.mover.goal_rotation

pub data Step : Type 0 where
  next : Run → Step
  stop : Outcome → Step

module _ (dilation : ℕ → Grid → ℕ → ℕ → Bool) (workspace : Workspace) where
  abbrev pub replanned : List Point → ℕ → Bool × Execution → Step
  replanned obstacles count (false, e) = stop (aborted_with e)
  replanned obstacles count (true, e) = next (record {
    execution = call (publish_state "Execute") e;
    obstacles = obstacles;
    replan_count = suc count;
  })

  -- The handling of a collision.
  unfoldable pub replan : Turn → List Point → ℕ → Execution → Step
  unfolding plan_path
  replan t obstacles count e =
      let stopped = call stop_motion e in
      let seen = add_obstacles t.other_positions obstacles in
      let planned = replanned seen count (plan_path dilation workspace t.feedback seen stopped) in
      if leb max_replans count
      then stop (aborted_with e)
      else elim t.collision_position [ none ↦ stop (aborted_with stopped) | some p ↦ planned ]

  abbrev pub proceed : Turn → Run → Progress → Step
  proceed t r (moved e) = next (record r { execution = e })
  proceed t r (collided e) = replan t r.obstacles r.replan_count e
  proceed t r (ended e) = stop (returned false e)

  -- One turn, to a target. A command to stop the system ends the task.
  abbrev pub turn : Turn → Point → Run → Step
  turn t target r = elim (may_go t.waits) [
    | none ↦ stop (running r)
    | some false ↦ stop (aborted_with (call stop_motion r.execution))
    | some true ↦ proceed t r (move_to t target r.execution)
  ]

  -- The point after the current one; there is none where the loop's condition fails.
  abbrev pub target_of : Run → Option Point
  target_of r =
      waypoint (suc r.execution.mover.current_waypoint_index) r.execution.mover.current_path

  -- The loop, as long as there are readings for a turn.
  unfoldable pub loop : List Turn → Arrival → Run → Outcome
  unfolding replan reach_goal
  loop [] a r = elim (target_of r) [ none ↦ reach_goal a r.execution | some p ↦ running r ]
  loop (t ∷ ts) a r = elim (target_of r) [
    | none ↦ reach_goal a r.execution
    | some p ↦ elim (turn t p r) [ next n ↦ loop ts a n | stop o ↦ o ]
  ]

  abbrev pub begin : List Turn → Arrival → Execution → Outcome
  begin ts a e = loop ts a (record { execution = e; obstacles = []; replan_count = 0 })

  -- A path of one point: the task is complete if the mover is at the goal.
  abbrev pub check_single : Option Point → List Turn → Arrival → Execution → Outcome
  check_single position ts a e = elim position [
    | none ↦ begin ts a e
    | some p ↦ if is_at p e.mover.goal_pos then completed e else begin ts a e
  ]

  abbrev pub travel : Option Point → List Turn → Arrival → Execution → Outcome
  travel position ts a e =
      if length e.mover.current_path == 1 then check_single position ts a e else begin ts a e

  abbrev pub turned_at_start : Option Point → List Turn → Arrival → Bool × Execution → Outcome
  turned_at_start position ts a (false, e) = aborted_with e
  turned_at_start position ts a (true, e) =
      travel position ts a
        (set_mover (record e.mover { rotation_point = none; goal_rotation = none }) e)

  abbrev pub rotate_at_start :
      Arrival
      → Option Point
      → List Turn
      → Arrival
      → Execution
      → Option Point
      → Option Point
      → Option ℕ
      → Outcome
  rotate_at_start s position ts a e (some p) (some c) (some g) =
      if is_at p c
      then turned_at_start position ts a (execute_rotation g s.rotation e)
      else travel position ts a e
  rotate_at_start s position ts a e _ _ _ = travel position ts a e

  -- `waits` are the readings of the system's state before the start, `s` those for the rotation
  -- there and `position` that for a path of one point.
  unfoldable pub execute_xbot :
      List (Bool × ControllerState)
      → Arrival
      → Option Point
      → List Turn
      → Arrival
      → Execution
      → Outcome
  unfolding loop
  execute_xbot waits s position ts a e =
      let started = call (publish_state "Execute") e in
      elim (may_go waits) [
        | none ↦ running (record { execution = started; obstacles = []; replan_count = 0 })
        | some false ↦ aborted_with started
        | some true ↦
            rotate_at_start s position ts a started s.position started.mover.rotation_point
              started.mover.goal_rotation
      ]
