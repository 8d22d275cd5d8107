-- ===== src/Planar/Stops.antt =====
-- Planar_Controller/xbot_planner.py: the commands to stop a mover, in the log of its execution.
use ap2030_uns.Prelude.{
  ℕ, suc, ◌≡◌, ◌∙◌, refl, Bool, true, false, Option, none, some, List, [], ◌∷◌, if◌then◌else◌, ltb,
}
use ap2030_uns.Paths.Grid.{Point, distance, Grid}
use ap2030_uns.Paths.Occupancy.{Workspace, create_occupancy_grid}
use ap2030_uns.Planar.Mover.{
  Mover, Call, publish_state, linear_motion, rotary_motion, stop_motion, call, Execution, is_at,
  without_rotation,
}
use ap2030_uns.Planar.Plan.{
  Feedback, start_position, plan_from, with_rotation_point, finish, plan_path,
}
use ap2030_uns.Planar.Execute.{
  abort, rotated, wait_x, wait_y, Rotation, execute_rotation, Turn, Progress, moved, collided,
  ended, MoveEnd, arrived, held, failed, timed_out, after_move, rotate_at, reach, turned, move_x,
  move_y, after_x, move_to, next_waypoint,
}

abbrev pub stops : List Call → ℕ
stops [] = 0
stops (stop_motion ∷ log) = suc (stops log)
stops (_ ∷ log) = stops log

abbrev pub execution_of : Progress → Execution
execution_of (moved e) = e
execution_of (collided e) = e
execution_of (ended e) = e

-- No stop is commanded.
abbrev pub HasStops : ℕ → Progress → Type 0
HasStops k q = stops (execution_of q).log ≡ k

pub stops-execute_rotation :
    (g : ℕ) (r : Rotation) (e : Execution) → stops (execute_rotation g r e).1.log ≡ stops e.log
stops-execute_rotation g r e = by_flag r.first_reads
  where
    by_flag :
        (c : Bool)
        → let x : Bool × Execution =
            if c then (rotated g r.statuses, call (rotary_motion g) e) else (false, e) in
          stops x.1.log ≡ stops e.log
    by_flag true = refl
    by_flag false = refl

rotate_at-HasStops :
    (p : Point) (r : Rotation) (e : Execution) (c : Option Point) (g : Option ℕ)
    → HasStops (stops e.log) (rotate_at p r e c g)
rotate_at-HasStops p r e none g = refl
rotate_at-HasStops p r e (some c) none = refl
rotate_at-HasStops p r e (some c) (some g) = by_flag (is_at p c)
  where
    by_turn : (x : Bool × Execution) → HasStops (stops x.1.log) (turned x)
    by_turn (true, n) = refl
    by_turn (false, n) = refl

    by_flag :
        (b : Bool)
        → HasStops (stops e.log) (
            if b then turned (execute_rotation g r e) else moved (call (publish_state "Execute") e))
    by_flag true = by_turn (execute_rotation g r e) ∙ stops-execute_rotation g r e
    by_flag false = refl

reach-HasStops : (r : Rotation) (p : Point) (e : Execution) → HasStops (stops e.log) (reach r p e)
reach-HasStops r p e =
    rotate_at-HasStops p r (next_waypoint e) e.mover.rotation_point e.mover.goal_rotation

after_move-HasStops :
    (m : MoveEnd) (f : Point → Execution → Progress) (e : Execution)
    → ((p : Point) → HasStops (stops e.log) (f p e))
    → HasStops (stops e.log) (after_move m f e)
after_move-HasStops (arrived p) f e h = h p
after_move-HasStops held f e h = refl
after_move-HasStops failed f e h = refl
after_move-HasStops timed_out f e h = refl

move_y-HasStops :
    (t : Turn) (target : Point) (dy : ℕ) (e : Execution)
    → HasStops (stops e.log) (move_y t target dy e)
move_y-HasStops t target dy e = by_flag (ltb 1000 dy)
  where
    by_position :
        (o : Option Point)
        → HasStops (stops e.log) (elim o as (λ x. Progress) [
          | none ↦ abort e
          | some p ↦
              after_move
                (wait_y target t.y_statuses)
                (reach t.rotation)
                (call (linear_motion target) e)
        ])
    by_position none = refl
    by_position (some p) =
        after_move-HasStops (wait_y target t.y_statuses) (reach t.rotation)
          (call (linear_motion target) e)
          (λ q. reach-HasStops t.rotation q (call (linear_motion target) e))

    by_flag :
        (c : Bool)
        → HasStops (stops e.log) (
            if c
            then elim t.y_position as (λ x. Progress) [
              | none ↦ abort e
              | some p ↦
                  after_move
                    (wait_y target t.y_statuses)
                    (reach t.rotation)
                    (call (linear_motion target) e)
            ]
            else moved (next_waypoint e))
    by_flag true = by_position t.y_position
    by_flag false = refl

pub move_to-HasStops :
    (t : Turn) (target : Point) (e : Execution) → HasStops (stops e.log) (move_to t target e)
move_to-HasStops t target e = by_position t.position
  where
    go_on :
        (m : MoveEnd) (dy : ℕ) (n : Execution)
        → HasStops (stops n.log) (after_x t target dy (after_move m (λ p. moved) n))
    go_on (arrived p) dy n = move_y-HasStops t target dy n
    go_on held dy n = refl
    go_on failed dy n = refl
    go_on timed_out dy n = move_y-HasStops t target dy n

    by_flag :
        (c : Bool) (x : Point)
        → HasStops (stops e.log) (
            after_x t target (distance target.1 x.1) (
              if c
              then after_move
                  (wait_x target t.x_statuses)
                  (λ p. moved)
                  (call (linear_motion (target.0, x.1)) e)
              else moved e))
    by_flag true x =
        go_on (wait_x target t.x_statuses) (distance target.1 x.1)
          (call (linear_motion (target.0, x.1)) e)
    by_flag false x = move_y-HasStops t target (distance target.1 x.1) e

    by_position :
        (o : Option Point)
        → HasStops (stops e.log) (elim o as (λ x. Progress) [
          | none ↦ abort e
          | some current ↦
              after_x t target (distance target.1 current.1) (move_x t target current e)
        ])
    by_position none = refl
    by_position (some x) = by_flag (ltb 1000 (distance target.0 x.0)) x

module _ (dilation : ℕ → Grid → ℕ → ℕ → Bool) (workspace : Workspace) where
  stops-finish :
      (m : Mover) (o : Option Mover) (e : Execution)
      → stops (finish dilation workspace m o e).1.log ≡ stops e.log
  stops-finish m none e = refl
  stops-finish m (some n) e = refl

  pub stops-plan_path :
      (feedback : Feedback) (obstacles : List Point) (e : Execution)
      → stops (plan_path dilation workspace feedback obstacles e).1.log ≡ stops e.log
  unfolding plan_path
  stops-plan_path feedback obstacles e = by_position feedback.position
    where
      m : Mover
      m = without_rotation feedback.rotation e.mover

      planned : Point → Mover → Bool × Execution
      planned current n =
          finish dilation workspace n
            (plan_from dilation workspace obstacles
              (create_occupancy_grid dilation workspace obstacles)
              (start_position dilation workspace
                (create_occupancy_grid dilation workspace obstacles) current)
              n)
            e

      by_point :
          (current : Point) (o : Option Mover)
          → stops
              (elim o as (λ x. Bool × Execution) [
                | none ↦ finish dilation workspace m none e
                | some n ↦ planned current n
              ]).1.log
            ≡ stops e.log
      by_point current none = refl
      by_point current (some n) =
          stops-finish n
            (plan_from dilation workspace obstacles
              (create_occupancy_grid dilation workspace obstacles)
              (start_position dilation workspace
                (create_occupancy_grid dilation workspace obstacles) current)
              n)
            e

      by_position :
          (o : Option Point)
          → stops
              (elim o as (λ x. Bool × Execution) [
                | none ↦ (false, e)
                | some current ↦
                    elim (with_rotation_point dilation workspace current m)
                      as (λ x. Bool × Execution) [
                        | none ↦ finish dilation workspace m none e
                        | some n ↦ planned current n
                      ]
              ]).1.log
            ≡ stops e.log
      by_position none = refl
      by_position (some current) =
          by_point current (with_rotation_point dilation workspace current m)
