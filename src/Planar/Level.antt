-- ===== src/Planar/Level.antt =====
-- Moves along x only: no rotation is made at the waypoints.
use ap2030_uns.Prelude.{
  ℕ, suc, ◌+◌, ◌≡◌, ◌≤◌, ◌∙◌, refl, sym, ap, subst, Bool, true, false, Option, none, some, List, [],
  ◌∷◌, if◌then◌else◌, ltb, length, arith,
}
use ap2030_uns.Paths.Grid.{Point, distance, Grid}
use ap2030_uns.Paths.Occupancy.{Workspace}
use ap2030_uns.Planar.Mover.{
  Call, publish_state, linear_motion, rotary_motion, stop_motion, call, set_mover, Execution, is_at,
}
use ap2030_uns.Planar.Execute.{
  abort, wait_y, reach, Turn, may_go, Progress, moved, MoveEnd, arrived, held, failed, timed_out,
  wait_x, after_move, move_y, move_x, after_x, move_to, next_waypoint,
}
use ap2030_uns.Planar.Task.{
  aborted_with, running, Run, waypoint, Outcome, returned, Arrival, Step, next, stop, proceed, turn,
  target_of, loop, reach_goal, at_goal, completed,
}
use ap2030_uns.Planar.Arrives.{waypoint-some}

abbrev pub rotations : List Call → ℕ
rotations [] = 0
rotations (rotary_motion g ∷ log) = suc (rotations log)
rotations (_ ∷ log) = rotations log

abbrev pub IsClean : MoveEnd → Type 0
IsClean (arrived p) = Unit
IsClean timed_out = Unit
IsClean _ = ⊥

-- A turn without a pause or a collision, to a target whose y differs by a millimetre at most.
abbrev pub IsLevel : Turn → Point → Type 0
IsLevel t target =
    (may_go t.waits ≡ some true)
    × ((p : Point) × (t.position ≡ some p) × (distance target.1 p.1 ≤ 1000))
    × IsClean (wait_x target t.x_statuses)

abbrev pub AllLevel : List Turn → ℕ → List Point → Type 0
AllLevel [] i path = Unit
AllLevel (t ∷ ts) i path =
    (elim (waypoint (suc i) path) [ none ↦ Unit | some q ↦ IsLevel t q ]) × AllLevel ts (suc i) path

-- A later execution that differs in the index and in moves only.
abbrev HasMoved : ℕ → Execution → Execution → Type 0
HasMoved k e n =
    (rotations n.log ≡ rotations e.log)
    × (n.mover.rotation_point ≡ e.mover.rotation_point)
    × (n.mover.goal_rotation ≡ e.mover.goal_rotation)
    × (n.mover.current_path ≡ e.mover.current_path)
    × (n.mover.current_waypoint_index ≡ e.mover.current_waypoint_index + k)

abbrev MovesTo : Execution → Progress → Type 0
MovesTo e x = (n : Execution) × (x ≡ moved n) × HasMoved 1 e n

move_to-level :
    (t : Turn) (target : Point) (e : Execution) → IsLevel t target → MovesTo e (move_to t target e)
move_to-level t target e (w, (p, at_p, level), clean) =
    subst
      (λ o. MovesTo e (elim o as (λ x. Progress) [
        | none ↦ abort e
        | some current ↦ after_x t target (distance target.1 current.1) (move_x t target current e)
      ]))
      (sym at_p) (along_x (ltb 1000 (distance target.0 p.0)))
  where
    not_along_y : ltb 1000 (distance target.1 p.1) ≡ false
    not_along_y = ground (arith, level)

    along_y :
        (log : List Call)
        → rotations log ≡ rotations e.log
        → MovesTo e (move_y t target (distance target.1 p.1) (record e { log = log }))
    along_y log h = (
      next_waypoint (record e { log = log }),
      ap
          (λ c.
            if c
            then (elim t.y_position as (λ x. Progress) [
              | none ↦ abort (record e { log = log })
              | some q ↦
                  after_move (wait_y target t.y_statuses) (reach t.rotation)
                    (call (linear_motion target) (record e { log = log }))
            ])
            else moved (next_waypoint (record e { log = log })))
          not_along_y,
      (h, refl, refl, refl, refl),
    )

    by_end :
        (m : MoveEnd)
        → IsClean m
        → MovesTo e (
            after_x t target
              (distance target.1 p.1)
              (after_move m (λ q. moved) (call (linear_motion (target.0, p.1)) e)))
    by_end (arrived q) k = along_y (linear_motion (target.0, p.1) ∷ e.log) refl
    by_end timed_out k = along_y (linear_motion (target.0, p.1) ∷ e.log) refl
    by_end held k = absurd k
    by_end failed k = absurd k

    along_x :
        (c : Bool)
        → MovesTo e (
            after_x t target (distance target.1 p.1) (
              if c
              then after_move
                  (wait_x target t.x_statuses)
                  (λ q. moved)
                  (call (linear_motion (target.0, p.1)) e)
              else moved e))
    along_x true = by_end (wait_x target t.x_statuses) clean
    along_x false = along_y e.log refl

turn-level :
    (dilation : ℕ → Grid → ℕ → ℕ → Bool) (workspace : Workspace) (t : Turn) (target : Point)
    (r : Run)
    → IsLevel t target
    → (n : Execution) × (turn dilation workspace t target r ≡ next (record r { execution = n }))
      × HasMoved 1 r.execution n
turn-level dilation workspace t target r h =
    let (n, e, m) = move_to-level t target r.execution h in
    (
      n,
      ap
            (λ o. elim o as (λ x. Step) [
              | none ↦ stop (running r)
              | some false ↦ stop (aborted_with (call stop_motion r.execution))
              | some true ↦ proceed dilation workspace t r (move_to t target r.execution)
            ])
            h.0
          ∙ ap (proceed dilation workspace t r) e,
      m,
    )

-- The goal is reached without a rotation.
abbrev Reaches : Arrival → Run → Outcome → Type 0
Reaches a r o =
    (n : Execution) × (o ≡ reach_goal a n)
    × (rotations n.log ≡ rotations r.execution.log)
    × (n.mover.rotation_point ≡ r.execution.mover.rotation_point)

loop-level :
    (dilation : ℕ → Grid → ℕ → ℕ → Bool) (workspace : Workspace) (ts : List Turn) (a : Arrival)
    (r : Run)
    → AllLevel ts r.execution.mover.current_waypoint_index r.execution.mover.current_path
    → length r.execution.mover.current_path
      ≤ r.execution.mover.current_waypoint_index + suc (length ts)
    → Reaches a r (loop dilation workspace ts a r)
unfolding loop
loop-level dilation workspace [] a r h l = by_target (target_of dilation workspace r) refl
  where
    by_target :
        (o : Option Point)
        → target_of dilation workspace r ≡ o
        → Reaches a r
            (elim o as (λ x. Outcome) [ none ↦ reach_goal a r.execution | some p ↦ running r ])
    by_target none k = (r.execution, refl, refl, refl)
    by_target (some p) k = absurd (
        omega (
          arith,
          l,
          waypoint-some (suc r.execution.mover.current_waypoint_index)
              r.execution.mover.current_path p k,
        ))
loop-level dilation workspace (t ∷ ts) a r h l =
    by_target (target_of dilation workspace r) h.0 (λ n m.
      loop-level dilation workspace ts a (record r { execution = n })
        (subst (λ i. AllLevel ts i n.mover.current_path) (suc_index n m)
          (subst (AllLevel ts (suc r.execution.mover.current_waypoint_index)) (sym m.3) h.1))
        (omega (arith, l, m.4, ap length m.3)))
  where
    suc_index :
        (n : Execution)
        → HasMoved 1 r.execution n
        → suc r.execution.mover.current_waypoint_index ≡ n.mover.current_waypoint_index
    suc_index n m = omega (arith, m.4)

    by_target :
        (o : Option Point)
        → (elim o as (λ x. Type 0) [ none ↦ Unit | some q ↦ IsLevel t q ])
        → ((n : Execution)
            → HasMoved 1 r.execution n
            → Reaches a
                (record r { execution = n })
                (loop dilation workspace ts a (record r { execution = n })))
        → Reaches a r (elim o as (λ x. Outcome) [
          | none ↦ reach_goal a r.execution
          | some p ↦ elim (turn dilation workspace t p r) as (λ y. Outcome) [
            | next n ↦ loop dilation workspace ts a n
            | stop q ↦ q
          ]
        ])
    by_target none k rest = (r.execution, refl, refl, refl)
    by_target (some q) k rest =
        let (n, e, m) = turn-level dilation workspace t q r k in
        let (x, f, same, point) = rest n m in
        (
          x,
          ap
                (λ (y : Step). elim y as (λ z. Outcome) [
                  | next w ↦ loop dilation workspace ts a w
                  | stop w ↦ w
                ])
                e
              ∙ f,
          same ∙ m.0,
          point ∙ m.1,
        )

-- Once the task runs through its waypoints: if every turn that leads to a waypoint is neither
-- paused nor stopped, its readings are given, its move is along x only and does not collide, and
-- the goal is not at the rotation point, then the task ends as complete with Complete as the last
-- thing that is published or called, and no rotation has been made in these turns, whatever
-- rotation it requires.
pub loop-level_lem :
    (dilation : ℕ → Grid → ℕ → ℕ → Bool) (workspace : Workspace) (ts : List Turn) (a : Arrival)
    (r : Run) (p c : Point)
    → AllLevel ts r.execution.mover.current_waypoint_index r.execution.mover.current_path
    → length r.execution.mover.current_path
      ≤ r.execution.mover.current_waypoint_index + suc (length ts)
    → r.execution.mover.rotation_point ≡ some c
    → a.position ≡ some p
    → is_at p c ≡ false
    → (n : Execution) × (loop dilation workspace ts a r ≡ returned true n)
      × (n.mover.reached_goal ≡ true)
      × (rotations n.log ≡ rotations r.execution.log)
      × ((rest : List Call) × (n.log ≡ publish_state "Complete" ∷ rest))
unfolding reach_goal
loop-level_lem dilation workspace ts a r p c h l point at_p apart =
    let (n, e, same, kept) = loop-level dilation workspace ts a r h l in
    let (x, f, done, quiet, published) =
      at_end n a.position n.mover.rotation_point n.mover.goal_rotation at_p (kept ∙ point) in
    (x, e ∙ f, done, quiet ∙ same, published)
  where
    finished :
        (n : Execution)
        → (x : Execution) × (completed n ≡ returned true x)
          × (x.mover.reached_goal ≡ true)
          × (rotations x.log ≡ rotations n.log)
          × ((rest : List Call) × (x.log ≡ publish_state "Complete" ∷ rest))
    finished n = (
      call (publish_state "Complete") (set_mover (record n.mover { reached_goal = true }) n),
      refl,
      refl,
      refl,
      (n.log, refl),
    )

    at_end :
        (n : Execution) (o q : Option Point) (g : Option ℕ)
        → o ≡ some p
        → q ≡ some c
        → (x : Execution) × (at_goal a n o q g ≡ returned true x)
          × (x.mover.reached_goal ≡ true)
          × (rotations x.log ≡ rotations n.log)
          × ((rest : List Call) × (x.log ≡ publish_state "Complete" ∷ rest))
    at_end n o q none u v = rw (u, v) (finished n)
    at_end n o q (some g) u v = rw (u, v, apart) (finished n)
