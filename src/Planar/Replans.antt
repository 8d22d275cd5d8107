-- ===== src/Planar/Replans.antt =====
-- Planar_Controller/xbot_planner.py: how often the execution of a task stops its mover. Every
-- planning of a new path comes behind a stop.
use ap2030_uns.Prelude.{
  ℕ, suc, ◌+◌, ◌≡◌, ◌≤◌, refl, Bool, true, false, Option, none, some, List, [], ◌∷◌, if◌then◌else◌,
  ◌==◌, leb, length, arith,
}
use ap2030_uns.Paths.Grid.{Point, Grid}
use ap2030_uns.Paths.Occupancy.{Workspace}
use ap2030_uns.Planar.Controller.{ControllerState}
use ap2030_uns.Planar.Mover.{publish_state, stop_motion, set_mover, call, Execution, is_at}
use ap2030_uns.Planar.Plan.{plan_path}
use ap2030_uns.Planar.Execute.{
  may_go, add_obstacles, execute_rotation, Turn, Progress, moved, collided, ended, move_to,
}
use ap2030_uns.Planar.Task.{
  max_replans, completed, aborted_with, turned_at_goal, target_of, Run, Outcome, returned, running,
  Arrival, Step, next, stop, replan, replanned, proceed, turn, loop, begin, check_single, travel,
  turned_at_start, rotate_at_start, execute_xbot, reach_goal, at_goal,
}
use ap2030_uns.Planar.Stops.{
  stops, HasStops, stops-execute_rotation, move_to-HasStops, stops-plan_path,
}

-- Of a count of `k` at the start: a stop for each replanning, and none besides.
abbrev pub HasReplanned : ℕ → Run → Type 0
HasReplanned k r = (stops r.execution.log ≤ k + r.replan_count) × (r.replan_count ≤ 5)

-- At the end a command to stop the system may have added one.
abbrev pub StopsFew : ℕ → Outcome → Type 0
StopsFew k (running r) = HasReplanned k r
StopsFew k (returned b e) = stops e.log ≤ k + 6

abbrev StepsFew : ℕ → Step → Type 0
StepsFew k (next r) = HasReplanned k r
StepsFew k (stop o) = StopsFew k o

reach_goal-StopsFew :
    (k : ℕ) (a : Arrival) (e : Execution) → stops e.log ≤ k + 6 → StopsFew k (reach_goal a e)
unfolding reach_goal
reach_goal-StopsFew k a e h = by_goal a.position e.mover.rotation_point e.mover.goal_rotation
  where
    by_result : (x : Bool × Execution) → stops x.1.log ≡ stops e.log → StopsFew k (turned_at_goal x)
    by_result (true, n) q = omega (arith, h, q)
    by_result (false, n) q = omega (arith, h, q)

    by_flag :
        (g : ℕ) (b : Bool)
        → StopsFew k (if b then turned_at_goal (execute_rotation g a.rotation e) else completed e)
    by_flag g true =
        by_result (execute_rotation g a.rotation e) (stops-execute_rotation g a.rotation e)
    by_flag g false = h

    by_goal : (p c : Option Point) (g : Option ℕ) → StopsFew k (at_goal a e p c g)
    by_goal none c g = h
    by_goal (some p) none g = h
    by_goal (some p) (some c) none = h
    by_goal (some p) (some c) (some g) = by_flag g (is_at p c)

module _ (dilation : ℕ → Grid → ℕ → ℕ → Bool) (workspace : Workspace) where
  replan-StepsFew :
      (k : ℕ) (t : Turn) (obstacles : List Point) (count : ℕ) (e : Execution)
      → stops e.log ≤ k + count
      → count ≤ 5
      → StepsFew k (replan dilation workspace t obstacles count e)
  unfolding replan
  replan-StepsFew k t obstacles count e h few =
      by_count (leb max_replans count) refl t.collision_position
    where
      seen : List Point
      seen = add_obstacles t.other_positions obstacles

      by_plan :
          (x : Bool × Execution)
          → stops x.1.log ≡ suc (stops e.log)
          → leb max_replans count ≡ false
          → StepsFew k (replanned dilation workspace seen count x)
      by_plan (false, n) q l = omega (arith, h, few, q)
      by_plan (true, n) q l = (omega (arith, h, q), ground (arith, l))

      by_count :
          (c : Bool)
          → leb max_replans count ≡ c
          → (o : Option Point)
          → StepsFew k (
              if c then stop (aborted_with e) else elim o as (λ x. Step) [
                | none ↦ stop (aborted_with (call stop_motion e))
                | some p ↦
                    replanned dilation workspace seen count
                      (plan_path dilation workspace t.feedback seen (call stop_motion e))
              ])
      by_count true l o = omega (arith, h, few)
      by_count false l none = omega (arith, h, few)
      by_count false l (some p) =
          by_plan (plan_path dilation workspace t.feedback seen (call stop_motion e))
            (stops-plan_path dilation workspace t.feedback seen (call stop_motion e)) l

  turn-StepsFew :
      (k : ℕ) (t : Turn) (p : Point) (r : Run)
      → HasReplanned k r
      → StepsFew k (turn dilation workspace t p r)
  turn-StepsFew k t p r h = by_wait (may_go t.waits)
    where
      by_progress :
          (q : Progress)
          → HasStops (stops r.execution.log) q
          → StepsFew k (proceed dilation workspace t r q)
      by_progress (moved n) l = (omega (arith, h.0, l), h.1)
      by_progress (collided n) l =
          replan-StepsFew k t r.obstacles r.replan_count n (omega (arith, h.0, l)) h.1
      by_progress (ended n) l = omega (arith, h.0, h.1, l)

      by_wait :
          (o : Option Bool)
          → StepsFew k (elim o as (λ x. Step) [
            | none ↦ stop (running r)
            | some false ↦ stop (aborted_with (call stop_motion r.execution))
            | some true ↦ proceed dilation workspace t r (move_to t p r.execution)
          ])
      by_wait none = h
      by_wait (some false) = omega (arith, h.0, h.1)
      by_wait (some true) = by_progress (move_to t p r.execution) (move_to-HasStops t p r.execution)

  loop-StopsFew :
      (k : ℕ) (ts : List Turn) (a : Arrival) (r : Run)
      → HasReplanned k r
      → StopsFew k (loop dilation workspace ts a r)
  unfolding loop
  loop-StopsFew k [] a r h = by_target (target_of dilation workspace r)
    where
      by_target :
          (o : Option Point)
          → StopsFew k
              (elim o as (λ x. Outcome) [ none ↦ reach_goal a r.execution | some p ↦ running r ])
      by_target none = reach_goal-StopsFew k a r.execution (omega (arith, h.0, h.1))
      by_target (some p) = h
  loop-StopsFew k (t ∷ ts) a r h =
      by_target (target_of dilation workspace r) (λ n q. loop-StopsFew k ts a n q)
    where
      by_step :
          (x : Step)
          → ((n : Run) → HasReplanned k n → StopsFew k (loop dilation workspace ts a n))
          → StepsFew k x
          → StopsFew k
              (elim x as (λ y. Outcome) [ next n ↦ loop dilation workspace ts a n | stop o ↦ o ])
      by_step (next n) rest q = rest n q
      by_step (stop o) rest q = q

      by_target :
          (o : Option Point)
          → ((n : Run) → HasReplanned k n → StopsFew k (loop dilation workspace ts a n))
          → StopsFew k (elim o as (λ x. Outcome) [
            | none ↦ reach_goal a r.execution
            | some p ↦ elim (turn dilation workspace t p r) as (λ y. Outcome) [
              | next n ↦ loop dilation workspace ts a n
              | stop q ↦ q
            ]
          ])
      by_target none rest = reach_goal-StopsFew k a r.execution (omega (arith, h.0, h.1))
      by_target (some p) rest =
          by_step (turn dilation workspace t p r) rest (turn-StepsFew k t p r h)

  travel-StopsFew :
      (k : ℕ) (position : Option Point) (ts : List Turn) (a : Arrival) (e : Execution)
      → stops e.log ≤ k
      → StopsFew k (travel dilation workspace position ts a e)
  travel-StopsFew k position ts a e h = by_length (length e.mover.current_path == 1) position
    where
      begun : StopsFew k (begin dilation workspace ts a e)
      begun =
          loop-StopsFew k ts a (record { execution = e; obstacles = []; replan_count = 0 })
            (omega (arith, h), omega arith)

      by_place :
          (c : Bool) → StopsFew k (if c then completed e else begin dilation workspace ts a e)
      by_place true = omega (arith, h)
      by_place false = begun

      by_length :
          (c : Bool) (o : Option Point)
          → StopsFew k (
              if c
              then check_single dilation workspace o ts a e
              else begin dilation workspace ts a e)
      by_length false o = begun
      by_length true none = begun
      by_length true (some p) = by_place (is_at p e.mover.goal_pos)

  rotate_at_start-StopsFew :
      (k : ℕ) (s : Arrival) (position : Option Point) (ts : List Turn) (a : Arrival) (e : Execution)
      (p c : Option Point) (g : Option ℕ)
      → stops e.log ≤ k
      → StopsFew k (rotate_at_start dilation workspace s position ts a e p c g)
  rotate_at_start-StopsFew k s position ts a e none c g h = travel-StopsFew k position ts a e h
  rotate_at_start-StopsFew k s position ts a e (some p) none g h =
      travel-StopsFew k position ts a e h
  rotate_at_start-StopsFew k s position ts a e (some p) (some c) none h =
      travel-StopsFew k position ts a e h
  rotate_at_start-StopsFew k s position ts a e (some p) (some c) (some g) h = by_flag (is_at p c)
    where
      by_result :
          (x : Bool × Execution)
          → stops x.1.log ≡ stops e.log
          → StopsFew k (turned_at_start dilation workspace position ts a x)
      by_result (true, n) q =
          travel-StopsFew k position ts a
            (set_mover (record n.mover { rotation_point = none; goal_rotation = none }) n)
            (omega (arith, h, q))
      by_result (false, n) q = omega (arith, h, q)

      by_flag :
          (b : Bool)
          → StopsFew k (
              if b
              then turned_at_start dilation workspace position ts a
                  (execute_rotation g s.rotation e)
              else travel dilation workspace position ts a e)
      by_flag true =
          by_result (execute_rotation g s.rotation e) (stops-execute_rotation g s.rotation e)
      by_flag false = travel-StopsFew k position ts a e h

  pub execute_xbot-StopsFew :
      (waits : List (Bool × ControllerState)) (s : Arrival) (position : Option Point)
      (ts : List Turn) (a : Arrival) (e : Execution)
      → StopsFew (stops e.log) (execute_xbot dilation workspace waits s position ts a e)
  unfolding execute_xbot
  execute_xbot-StopsFew waits s position ts a e = by_wait (may_go waits)
    where
      started : Execution
      started = call (publish_state "Execute") e

      by_wait :
          (o : Option Bool)
          → StopsFew (stops e.log) (elim o as (λ x. Outcome) [
            | none ↦ running (record { execution = started; obstacles = []; replan_count = 0 })
            | some false ↦ aborted_with started
            | some true ↦
                rotate_at_start dilation workspace s position ts a started s.position
                  started.mover.rotation_point started.mover.goal_rotation
          ])
      by_wait none = (omega arith, omega arith)
      by_wait (some false) = omega arith
      by_wait (some true) =
          rotate_at_start-StopsFew (stops e.log) s position ts a started s.position
            started.mover.rotation_point started.mover.goal_rotation (omega arith)
