-- ===== src/Planar/Moves.antt =====
-- The waypoint index through the moves of one turn.
use ap2030_uns.Prelude.{
  ℕ, suc, ◌≡◌, ◌<◌, refl, sym, subst, Bool, true, false, Option, none, some, if◌then◌else◌, ltb,
  length, arith,
}
use ap2030_uns.Paths.Grid.{Point, distance}
use ap2030_uns.Planar.Mover.{
  Mover, publish_state, linear_motion, rotary_motion, call, Execution, is_at,
}
use ap2030_uns.Planar.Execute.{
  abort, rotated, wait_x, wait_y, Rotation, execute_rotation, Turn, Progress, moved, collided,
  ended, MoveEnd, arrived, held, failed, timed_out, after_move, rotate_at, reach, turned, move_x,
  move_y, after_x, move_to, next_waypoint,
}
use ap2030_uns.Planar.Bounds.{InBounds}

-- How a move leaves the mover.
abbrev pub Stays : Progress → Type 0
Stays (moved e) = InBounds e.mover
Stays (collided e) = InBounds e.mover
Stays (ended e) = Unit

abbrev pub HasNext : Mover → Type 0
HasNext m = suc m.current_waypoint_index < length m.current_path

pub execute_rotation-mover :
    (g : ℕ) (r : Rotation) (e : Execution) → (execute_rotation g r e).1.mover ≡ e.mover
execute_rotation-mover g r e = by_flag r.first_reads
  where
    by_flag :
        (c : Bool)
        → let x : Bool × Execution =
            if c then (rotated g r.statuses, call (rotary_motion g) e) else (false, e) in
          x.1.mover ≡ e.mover
    by_flag true = refl
    by_flag false = refl

turned-Stays : (b : Bool) (e : Execution) → InBounds e.mover → Stays (turned (b, e))
turned-Stays true e h = h
turned-Stays false e h = tt

rotate_at-Stays :
    (p : Point) (r : Rotation) (e : Execution) (c : Option Point) (g : Option ℕ)
    → InBounds e.mover
    → Stays (rotate_at p r e c g)
rotate_at-Stays p r e none g h = h
rotate_at-Stays p r e (some c) none h = h
rotate_at-Stays p r e (some c) (some g) h = by_flag (is_at p c)
  where
    by_flag :
        (b : Bool)
        → Stays (
            if b then turned (execute_rotation g r e) else moved (call (publish_state "Execute") e))
    by_flag true =
        turned-Stays (execute_rotation g r e).0 (execute_rotation g r e).1
          (subst InBounds (sym (execute_rotation-mover g r e)) h)
    by_flag false = h

after_move-Stays :
    (m : MoveEnd) (f : Point → Execution → Progress) (e : Execution)
    → ((p : Point) → Stays (f p e))
    → InBounds e.mover
    → Stays (after_move m f e)
after_move-Stays (arrived p) f e h b = h p
after_move-Stays held f e h b = b
after_move-Stays failed f e h b = b
after_move-Stays timed_out f e h b = b

reach-Stays : (r : Rotation) (e : Execution) (p : Point) → HasNext e.mover → Stays (reach r p e)
reach-Stays r e p h =
    rotate_at-Stays p r (next_waypoint e) e.mover.rotation_point e.mover.goal_rotation
      (omega (arith, h))

move_y-Stays :
    (t : Turn) (target : Point) (dy : ℕ) (e : Execution)
    → HasNext e.mover
    → Stays (move_y t target dy e)
move_y-Stays t target dy e h = by_flag (ltb 1000 dy)
  where
    by_position :
        (o : Option Point)
        → Stays (elim o as (λ x. Progress) [
          | none ↦ abort e
          | some p ↦
              after_move
                (wait_y target t.y_statuses)
                (reach t.rotation)
                (call (linear_motion target) e)
        ])
    by_position none = tt
    by_position (some p) =
        after_move-Stays (wait_y target t.y_statuses) (reach t.rotation)
          (call (linear_motion target) e)
          (λ q. reach-Stays t.rotation (call (linear_motion target) e) q h) (omega (arith, h))

    by_flag :
        (c : Bool)
        → Stays (
            if c
            then elim t.y_position as (λ x. Progress) [
              | none ↦ abort e
              | some p ↦
                  after_move
                    (wait_y target t.y_statuses)
                    (reach t.rotation)
                    (call (linear_motion target) e)
            ]
            else moved (next_waypoint e))
    by_flag true = by_position t.y_position
    by_flag false = omega (arith, h)

pub move_to-Stays :
    (t : Turn) (target : Point) (e : Execution) → HasNext e.mover → Stays (move_to t target e)
move_to-Stays t target e h = by_position t.position
  where
    go_on :
        (m : MoveEnd) (dy : ℕ) (n : Execution)
        → HasNext n.mover
        → Stays (after_x t target dy (after_move m (λ p. moved) n))
    go_on (arrived p) dy n k = move_y-Stays t target dy n k
    go_on held dy n k = omega (arith, k)
    go_on failed dy n k = omega (arith, k)
    go_on timed_out dy n k = move_y-Stays t target dy n k

    by_flag :
        (c : Bool) (x : Point)
        → Stays (
            after_x t target (distance target.1 x.1) (
              if c
              then after_move
                  (wait_x target t.x_statuses)
                  (λ p. moved)
                  (call (linear_motion (target.0, x.1)) e)
              else moved e))
    by_flag true x =
        go_on (wait_x target t.x_statuses) (distance target.1 x.1)
          (call (linear_motion (target.0, x.1)) e) h
    by_flag false x = move_y-Stays t target (distance target.1 x.1) e h

    by_position :
        (o : Option Point)
        → Stays (elim o as (λ x. Progress) [
          | none ↦ abort e
          | some current ↦
              after_x t target (distance target.1 current.1) (move_x t target current e)
        ])
    by_position none = tt
    by_position (some x) = by_flag (ltb 1000 (distance target.0 x.0)) x
