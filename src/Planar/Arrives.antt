-- ===== src/Planar/Arrives.antt =====
-- The waypoint index, and the number of replans, through the execution of a task.
use ap2030_uns.Prelude.{
  ℕ, zero, suc, ◌≡◌, ◌≤◌, ◌<◌, refl, sym, subst, Bool, true, false, Option, none, some, List, [],
  ◌∷◌, if◌then◌else◌, ◌==◌, leb, length, arith,
}
use ap2030_uns.Paths.Grid.{Point, Grid}
use ap2030_uns.Paths.Occupancy.{Workspace}
use ap2030_uns.Planar.Controller.{ControllerState}
use ap2030_uns.Planar.Mover.{Mover, publish_state, stop_motion, set_mover, call, Execution, is_at}
use ap2030_uns.Planar.Plan.{plan_path}
use ap2030_uns.Planar.Execute.{
  may_go, add_obstacles, execute_rotation, Turn, Progress, moved, collided, ended, move_to,
}
use ap2030_uns.Planar.Task.{
  max_replans, completed, aborted_with, turned_at_goal, target_of, Run, waypoint, Outcome, returned,
  running, Arrival, Step, next, stop, replan, replanned, proceed, turn, loop, begin, check_single,
  travel, turned_at_start, rotate_at_start, execute_xbot, reach_goal, at_goal,
}
use ap2030_uns.Planar.Bounds.{InBounds, plan_path-InBounds}
use ap2030_uns.Planar.Moves.{execute_rotation-mover, HasNext, Stays, move_to-Stays}

pub waypoint-some : (i : ℕ) (ps : List Point) (p : Point) → waypoint i ps ≡ some p → i < length ps
waypoint-some i [] p h = absurd cc
waypoint-some zero (q ∷ ps) p h = omega arith
waypoint-some (suc i) (q ∷ ps) p h = omega (arith, waypoint-some i ps p h)

pub waypoint-none : (i : ℕ) (ps : List Point) → waypoint i ps ≡ none → length ps ≤ i
waypoint-none i [] h = omega arith
waypoint-none zero (q ∷ ps) h = absurd cc
waypoint-none (suc i) (q ∷ ps) h = omega (arith, waypoint-none i ps h)

-- A task that is running is within its bounds; one that is complete is at its last waypoint.
abbrev pub IsBounded : Run → Type 0
IsBounded r = InBounds r.execution.mover × (r.replan_count ≤ 5)

abbrev pub EndsWell : Outcome → Type 0
EndsWell (running r) = IsBounded r
EndsWell (returned true e) =
    (suc e.mover.current_waypoint_index ≡ length e.mover.current_path)
    × (e.mover.reached_goal ≡ true)
EndsWell (returned false e) = Unit

abbrev StepsWell : Step → Type 0
StepsWell (next r) = IsBounded r
StepsWell (stop o) = EndsWell o

abbrev AtEnd : Mover → Type 0
AtEnd m = suc m.current_waypoint_index ≡ length m.current_path

at_goal-EndsWell :
    (a : Arrival) (e : Execution) (p c : Option Point) (g : Option ℕ)
    → AtEnd e.mover
    → EndsWell (at_goal a e p c g)
at_goal-EndsWell a e none c g h = (h, refl)
at_goal-EndsWell a e (some p) none g h = (h, refl)
at_goal-EndsWell a e (some p) (some c) none h = (h, refl)
at_goal-EndsWell a e (some p) (some c) (some g) h = by_flag (is_at p c)
  where
    by_result : (b : Bool) (n : Execution) → AtEnd n.mover → EndsWell (turned_at_goal (b, n))
    by_result true n k = (k, refl)
    by_result false n k = tt

    by_flag :
        (b : Bool)
        → EndsWell (if b then turned_at_goal (execute_rotation g a.rotation e) else completed e)
    by_flag true =
        by_result (execute_rotation g a.rotation e).0 (execute_rotation g a.rotation e).1
          (subst AtEnd (sym (execute_rotation-mover g a.rotation e)) h)
    by_flag false = (h, refl)

reach_goal-EndsWell :
    (a : Arrival) (e : Execution)
    → InBounds e.mover
    → waypoint (suc e.mover.current_waypoint_index) e.mover.current_path ≡ none
    → EndsWell (reach_goal a e)
unfolding reach_goal
reach_goal-EndsWell a e h k =
    at_goal-EndsWell a e a.position e.mover.rotation_point e.mover.goal_rotation
      (omega (arith, h, waypoint-none (suc e.mover.current_waypoint_index) e.mover.current_path k))

module _ (dilation : ℕ → Grid → ℕ → ℕ → Bool) (workspace : Workspace) where
  replan-StepsWell :
      (t : Turn) (obstacles : List Point) (count : ℕ) (e : Execution)
      → InBounds e.mover
      → StepsWell (replan dilation workspace t obstacles count e)
  unfolding replan
  replan-StepsWell t obstacles count e h =
      by_count (leb max_replans count) refl t.collision_position
    where
      seen : List Point
      seen = add_obstacles t.other_positions obstacles

      stopped : Execution
      stopped = call stop_motion e

      by_plan :
          (b : Bool) (n : Execution)
          → InBounds n.mover
          → leb max_replans count ≡ false
          → StepsWell (replanned dilation workspace seen count (b, n))
      by_plan false n k l = tt
      by_plan true n k l = (k, ground (arith, l))

      by_count :
          (c : Bool)
          → leb max_replans count ≡ c
          → (o : Option Point)
          → StepsWell (
              if c then stop (aborted_with e) else elim o as (λ x. Step) [
                | none ↦ stop (aborted_with stopped)
                | some p ↦
                    replanned dilation workspace seen count
                      (plan_path dilation workspace t.feedback seen stopped)
              ])
      by_count true l o = tt
      by_count false l none = tt
      by_count false l (some p) =
          by_plan (plan_path dilation workspace t.feedback seen stopped).0
            (plan_path dilation workspace t.feedback seen stopped).1
            (plan_path-InBounds dilation workspace t.feedback seen stopped h) l

  turn-StepsWell :
      (t : Turn) (p : Point) (r : Run)
      → IsBounded r
      → HasNext r.execution.mover
      → StepsWell (turn dilation workspace t p r)
  turn-StepsWell t p r h k = by_wait (may_go t.waits)
    where
      by_progress : (q : Progress) → Stays q → StepsWell (proceed dilation workspace t r q)
      by_progress (moved n) l = (l, h.1)
      by_progress (collided n) l = replan-StepsWell t r.obstacles r.replan_count n l
      by_progress (ended n) l = tt

      by_wait :
          (o : Option Bool)
          → StepsWell (elim o as (λ x. Step) [
            | none ↦ stop (running r)
            | some false ↦ stop (aborted_with (call stop_motion r.execution))
            | some true ↦ proceed dilation workspace t r (move_to t p r.execution)
          ])
      by_wait none = h
      by_wait (some false) = tt
      by_wait (some true) = by_progress (move_to t p r.execution) (move_to-Stays t p r.execution k)

  loop-EndsWell :
      (ts : List Turn) (a : Arrival) (r : Run)
      → IsBounded r
      → EndsWell (loop dilation workspace ts a r)
  unfolding loop
  loop-EndsWell [] a r h = by_target (target_of dilation workspace r) refl
    where
      by_target :
          (o : Option Point)
          → target_of dilation workspace r ≡ o
          → EndsWell
              (elim o as (λ x. Outcome) [ none ↦ reach_goal a r.execution | some p ↦ running r ])
      by_target none k = reach_goal-EndsWell a r.execution h.0 k
      by_target (some p) k = h
  loop-EndsWell (t ∷ ts) a r h =
      by_target (target_of dilation workspace r) refl (λ n k. loop-EndsWell ts a n k)
    where
      by_step :
          (x : Step)
          → ((n : Run) → IsBounded n → EndsWell (loop dilation workspace ts a n))
          → StepsWell x
          → EndsWell
              (elim x as (λ y. Outcome) [ next n ↦ loop dilation workspace ts a n | stop o ↦ o ])
      by_step (next n) rest k = rest n k
      by_step (stop o) rest k = k

      by_target :
          (o : Option Point)
          → target_of dilation workspace r ≡ o
          → ((n : Run) → IsBounded n → EndsWell (loop dilation workspace ts a n))
          → EndsWell (elim o as (λ x. Outcome) [
            | none ↦ reach_goal a r.execution
            | some p ↦ elim (turn dilation workspace t p r) as (λ y. Outcome) [
              | next n ↦ loop dilation workspace ts a n
              | stop q ↦ q
            ]
          ])
      by_target none k rest = reach_goal-EndsWell a r.execution h.0 k
      by_target (some p) k rest = by_step (turn dilation workspace t p r) rest (
          turn-StepsWell t p r h (
            waypoint-some (suc r.execution.mover.current_waypoint_index)
              r.execution.mover.current_path p k))

  begin-EndsWell :
      (ts : List Turn) (a : Arrival) (e : Execution)
      → InBounds e.mover
      → EndsWell (begin dilation workspace ts a e)
  begin-EndsWell ts a e h =
      loop-EndsWell ts a (record { execution = e; obstacles = []; replan_count = 0 })
        (h, omega arith)

  travel-EndsWell :
      (position : Option Point) (ts : List Turn) (a : Arrival) (e : Execution)
      → InBounds e.mover
      → EndsWell (travel dilation workspace position ts a e)
  travel-EndsWell position ts a e h = by_length (length e.mover.current_path == 1) refl position
    where
      by_place :
          (p : Point) (c : Bool)
          → (length e.mover.current_path == 1) ≡ true
          → EndsWell (if c then completed e else begin dilation workspace ts a e)
      by_place p true l = (ground (arith, h, l), refl)
      by_place p false l = begin-EndsWell ts a e h

      by_length :
          (c : Bool)
          → (length e.mover.current_path == 1) ≡ c
          → (o : Option Point)
          → EndsWell (
              if c
              then check_single dilation workspace o ts a e
              else begin dilation workspace ts a e)
      by_length false l o = begin-EndsWell ts a e h
      by_length true l none = begin-EndsWell ts a e h
      by_length true l (some p) = by_place p (is_at p e.mover.goal_pos) l

  rotate_at_start-EndsWell :
      (s : Arrival) (position : Option Point) (ts : List Turn) (a : Arrival) (e : Execution)
      (p c : Option Point) (g : Option ℕ)
      → InBounds e.mover
      → EndsWell (rotate_at_start dilation workspace s position ts a e p c g)
  rotate_at_start-EndsWell s position ts a e none c g h = travel-EndsWell position ts a e h
  rotate_at_start-EndsWell s position ts a e (some p) none g h = travel-EndsWell position ts a e h
  rotate_at_start-EndsWell s position ts a e (some p) (some c) none h =
      travel-EndsWell position ts a e h
  rotate_at_start-EndsWell s position ts a e (some p) (some c) (some g) h = by_flag (is_at p c)
    where
      by_result :
          (b : Bool) (n : Execution)
          → InBounds n.mover
          → EndsWell (turned_at_start dilation workspace position ts a (b, n))
      by_result true n k =
          travel-EndsWell position ts a
            (set_mover (record n.mover { rotation_point = none; goal_rotation = none }) n) k
      by_result false n k = tt

      by_flag :
          (b : Bool)
          → EndsWell (
              if b
              then turned_at_start dilation workspace position ts a
                  (execute_rotation g s.rotation e)
              else travel dilation workspace position ts a e)
      by_flag true =
          by_result (execute_rotation g s.rotation e).0 (execute_rotation g s.rotation e).1
            (subst InBounds (sym (execute_rotation-mover g s.rotation e)) h)
      by_flag false = travel-EndsWell position ts a e h

  -- From a waypoint index within the path, a task's execution keeps it so, through every planning
  -- of a new path, and plans at most five times; when it reports success, the index is that of
  -- the last waypoint and the task is marked as complete.
  pub execute_xbot-EndsWell :
      (waits : List (Bool × ControllerState)) (s : Arrival) (position : Option Point)
      (ts : List Turn) (a : Arrival) (e : Execution)
      → InBounds e.mover
      → EndsWell (execute_xbot dilation workspace waits s position ts a e)
  unfolding execute_xbot
  execute_xbot-EndsWell waits s position ts a e h = by_wait (may_go waits)
    where
      started : Execution
      started = call (publish_state "Execute") e

      by_wait :
          (o : Option Bool)
          → EndsWell (elim o as (λ x. Outcome) [
            | none ↦ running (record { execution = started; obstacles = []; replan_count = 0 })
            | some false ↦ aborted_with started
            | some true ↦
                rotate_at_start dilation workspace s position ts a started s.position
                  started.mover.rotation_point started.mover.goal_rotation
          ])
      by_wait none = (h, omega arith)
      by_wait (some false) = tt
      by_wait (some true) =
          rotate_at_start-EndsWell s position ts a started s.position started.mover.rotation_point
            started.mover.goal_rotation h
