-- ===== src/Planar/Track.antt =====
-- Planar_Controller/xbot_planner.py: what `plan_path` sets before it plans.
use ap2030_uns.Prelude.{ℕ, ◌≡◌, refl, Bool, true, false, Option, none, some, if◌then◌else◌, ltb}
use ap2030_uns.Paths.Grid.{Point, Grid}
use ap2030_uns.Paths.Occupancy.{Workspace}
use ap2030_uns.Planar.Mover.{Mover, without_rotation, rz_error, one_degree}
use ap2030_uns.Planar.Plan.{with_rotation_point, choose_rotation_point}

-- The path and its index, and the goal, stay as they are.
abbrev pub SameTrack : Mover → Mover → Type 0
SameTrack m n =
    (n.current_path ≡ m.current_path)
    × (n.current_waypoint_index ≡ m.current_waypoint_index)
    × (n.goal_pos ≡ m.goal_pos)

pub without_rotation-same : (rz : Option ℕ) (m : Mover) → SameTrack m (without_rotation rz m)
without_rotation-same none m = (refl, refl, refl)
without_rotation-same (some a) m = by_goal m.goal_rotation
  where
    by_flag : (c : Bool) → SameTrack m (if c then record m { goal_rotation = none } else m)
    by_flag true = (refl, refl, refl)
    by_flag false = (refl, refl, refl)

    by_goal :
        (o : Option ℕ)
        → SameTrack m (elim o as (λ x. Mover) [
          | none ↦ m
          | some g ↦ if ltb (rz_error a g) one_degree then record m { goal_rotation = none } else m
        ])
    by_goal none = (refl, refl, refl)
    by_goal (some g) = by_flag (ltb (rz_error a g) one_degree)

-- A mover that is given has the track of another one.
abbrev pub HasTrack : Mover → Option Mover → Type 0
HasTrack m none = Unit
HasTrack m (some n) = SameTrack m n

module _ (dilation : ℕ → Grid → ℕ → ℕ → Bool) (workspace : Workspace) where
  pub with_rotation_point-HasTrack :
      (current : Point) (m : Mover) → HasTrack m (with_rotation_point dilation workspace current m)
  with_rotation_point-HasTrack current m = by_goal m.goal_rotation
    where
      by_point :
          (o : Option Point)
          → HasTrack m (elim o as (λ x. Option Mover) [
            | none ↦ none
            | some c ↦ some (record m { rotation_point = some c })
          ])
      by_point none = tt
      by_point (some c) = (refl, refl, refl)

      by_goal :
          (o : Option ℕ)
          → HasTrack m (elim o as (λ x. Option Mover) [
            | none ↦ some m
            | some g ↦
                elim (choose_rotation_point dilation workspace current m.goal_pos)
                  as (λ x. Option Mover) [
                    | none ↦ none
                    | some c ↦ some (record m { rotation_point = some c })
                  ]
          ])
      by_goal none = (refl, refl, refl)
      by_goal (some g) = by_point (choose_rotation_point dilation workspace current m.goal_pos)
