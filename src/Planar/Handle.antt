-- ===== src/Planar/Handle.antt =====
-- Planar_Controller/xbot_planner.py: `handle_single_task`, from the check of the connection to
-- the end of the execution. The set of the active movers is given for this one, and the calls
-- that connect to the controller and activate movers are left out.
use ap2030_uns.Prelude.{
  ℕ, Bool, true, false, not, ◌&&◌, ◌||◌, Option, none, List, [], if◌then◌else◌,
}
use ap2030_uns.Paths.Grid.{Point, Grid}
use ap2030_uns.Paths.Occupancy.{Workspace}
use ap2030_uns.Planar.Controller.{ControllerState}
use ap2030_uns.Planar.Mover.{Mover, publish_state, stop_motion, Execution, call, set_mover}
use ap2030_uns.Planar.Plan.{Feedback, is_none, plan_path}
use ap2030_uns.Planar.Execute.{Turn}
use ap2030_uns.Planar.Task.{Arrival, Outcome, returned, execute_xbot}
use ap2030_uns.Prelude.{◌||◌}

-- What is read while a task is handled.
pub record Handling : Type 0 where
  pub position : Option Point
  pub reconnects : Bool
  pub is_active : Bool
  pub activates : Bool
  pub feedback : Feedback
  pub waits : List (Bool × ControllerState)
  pub start : Arrival
  pub single_position : Option Point
  pub turns : List Turn
  pub arrival : Arrival

-- `XBotTask.__init__`
abbrev pub new_task : Point → Option ℕ → Mover
new_task goal_pos goal_rotation = record {
  goal_pos = goal_pos;
  goal_rotation = goal_rotation;
  current_path = [];
  rotation_point = none;
  current_waypoint_index = 0;
  reached_goal = false;
}

abbrev pub add_xbot_task : Point → Option ℕ → Execution → Execution
add_xbot_task goal_pos goal_rotation e =
    call (publish_state "Idle") (set_mover (new_task goal_pos goal_rotation) e)

-- Behind the lock: the connection and the activation. False is a task that is given up.
abbrev pub prepared : Handling → Execution → Bool × Execution
prepared h e =
    let active = h.is_active && not (is_none h.position) in
    let stopped = if active then e else call stop_motion e in
    if is_none h.position && not h.reconnects
    then (false, call (publish_state "Aborted") e)
    else if active || h.activates
    then (true, stopped)
    else (false, call (publish_state "Aborted") stopped)

abbrev pub idle_again : Outcome → Outcome
idle_again (returned true e) = returned true (call (publish_state "Idle") e)
idle_again o = o

module _ (dilation : ℕ → Grid → ℕ → ℕ → Bool) (workspace : Workspace) where
  -- The execution, if the planning succeeded. A task that is given up counts as failed.
  abbrev pub carried_out : Handling → Bool × Execution → Outcome
  carried_out h (false, e) = returned false (call (publish_state "Aborted") e)
  carried_out h (true, e) =
      idle_again
        (execute_xbot dilation workspace h.waits h.start h.single_position h.turns h.arrival e)

  abbrev pub planned : Point → Option ℕ → Handling → Bool × Execution → Outcome
  planned goal_pos goal_rotation h (false, e) = returned false e
  planned goal_pos goal_rotation h (true, e) =
      carried_out h
        (plan_path dilation workspace h.feedback [] (add_xbot_task goal_pos goal_rotation e))

  unfoldable pub handle_single_task : Point → Option ℕ → Handling → Execution → Outcome
  unfolding plan_path execute_xbot
  handle_single_task goal_pos goal_rotation h e = planned goal_pos goal_rotation h (prepared h e)
