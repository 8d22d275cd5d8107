-- ===== src/Planar/Clear.antt =====
-- Planar_Controller/xbot_planner.py: where the path of a planned mover leads.
use ap2030_uns.Prelude.{
  ℕ, ◌≡◌, ◌<◌, ◌∙◌, refl, subst, Bool, true, false, Option, none, some, List, All,
}
use ap2030_uns.Paths.Grid.{Point, Grid}
use ap2030_uns.Paths.Route.{IsRoute}
use ap2030_uns.Paths.Occupancy.{Workspace, create_occupancy_grid}
use ap2030_uns.Paths.Obstacles.{IsAmong}
use ap2030_uns.Paths.Clearance.{IsDilation, IsInReach, IsRoute-clear}
use ap2030_uns.Paths.Simplify.{simplify_path, expand}
use ap2030_uns.Planar.Mover.{to_cell, Mover, Execution, without_rotation}
use ap2030_uns.Planar.Plan.{
  start_position, Feedback, path_for, plan_from, with_rotation_point, finish, plan_path,
}
use ap2030_uns.Planar.Track.{without_rotation-same, HasTrack, with_rotation_point-HasTrack}
use ap2030_uns.Planar.Routes.{Follows, StartsAt, ComesFrom, path_for-AllFollow, IsRoute-expand}

module _ (dilation : ℕ → Grid → ℕ → ℕ → Bool) (workspace : Workspace) where
  abbrev FollowsFrom : List Point → Grid → Option Point → Mover → Type 0
  FollowsFrom obstacles grid start n =
      (s : Point) × (start ≡ some s)
      × (n.current_waypoint_index ≡ 0)
      × Follows dilation workspace obstacles grid s n.goal_pos n.rotation_point n.current_path

  abbrev AllFollowFrom : List Point → Grid → Option Point → Point → Option Mover → Type 0
  AllFollowFrom obstacles grid start goal none = Unit
  AllFollowFrom obstacles grid start goal (some n) =
      FollowsFrom obstacles grid start n × (n.goal_pos ≡ goal)

  plan_from-AllFollowFrom :
      (obstacles : List Point) (grid : Grid) (start : Option Point) (m : Mover)
      → AllFollowFrom obstacles grid start m.goal_pos
          (plan_from dilation workspace obstacles grid start m)
  plan_from-AllFollowFrom obstacles grid none m = tt
  plan_from-AllFollowFrom obstacles grid (some s) m =
      by_path (path_for dilation workspace obstacles grid s m)
        (path_for-AllFollow dilation workspace obstacles grid s m)
    where
      by_path :
          (o : Option (List Point))
          → (elim o as (λ x. Type 0) [
            | none ↦ Unit
            | some way ↦ Follows dilation workspace obstacles grid s m.goal_pos m.rotation_point way
          ])
          → AllFollowFrom obstacles grid (some s) m.goal_pos (elim o as (λ x. Option Mover) [
            | none ↦ none
            | some path ↦ some (record m { current_path = path; current_waypoint_index = 0 })
          ])
      by_path none h = tt
      by_path (some way) h = ((s, refl, refl, h), refl)

  -- What a planning that succeeds leaves.
  abbrev Plans : Feedback → List Point → Point → Bool × Execution → Type 0
  Plans feedback obstacles goal (false, n) = Unit
  Plans feedback obstacles goal (true, n) =
      (current : Point) × (feedback.position ≡ some current)
      × (n.mover.goal_pos ≡ goal)
      × FollowsFrom obstacles (create_occupancy_grid dilation workspace obstacles)
          (start_position dilation workspace (create_occupancy_grid dilation workspace obstacles)
            current)
          n.mover

  plan_path-Plans :
      (feedback : Feedback) (obstacles : List Point) (e : Execution)
      → Plans feedback obstacles e.mover.goal_pos
          (plan_path dilation workspace feedback obstacles e)
  unfolding plan_path
  plan_path-Plans feedback obstacles e = by_position feedback.position refl
    where
      m : Mover
      m = without_rotation feedback.rotation e.mover

      grid : Grid
      grid = create_occupancy_grid dilation workspace obstacles

      start : Point → Option Point
      start current = start_position dilation workspace grid current

      by_planned :
          (current : Point) (n : Mover) (o : Option Mover)
          → feedback.position ≡ some current
          → n.goal_pos ≡ e.mover.goal_pos
          → AllFollowFrom obstacles grid (start current) n.goal_pos o
          → Plans feedback obstacles e.mover.goal_pos (finish dilation workspace n o e)
      by_planned current n none p g h = tt
      by_planned current n (some x) p g h = (current, p, h.1 ∙ g, h.0)

      by_point :
          (current : Point) (o : Option Mover)
          → feedback.position ≡ some current
          → HasTrack m o
          → Plans feedback obstacles e.mover.goal_pos (elim o as (λ x. Bool × Execution) [
            | none ↦ finish dilation workspace m none e
            | some n ↦
                finish dilation workspace n
                  (plan_from dilation workspace obstacles grid (start current) n)
                  e
          ])
      by_point current none p h = tt
      by_point current (some n) p h =
          by_planned current n (plan_from dilation workspace obstacles grid (start current) n) p
            (h.2 ∙ (without_rotation-same feedback.rotation e.mover).2)
            (plan_from-AllFollowFrom obstacles grid (start current) n)

      by_position :
          (o : Option Point)
          → feedback.position ≡ o
          → Plans feedback obstacles e.mover.goal_pos (elim o as (λ x. Bool × Execution) [
            | none ↦ (false, e)
            | some current ↦
                elim (with_rotation_point dilation workspace current m) as (λ x. Bool × Execution) [
                  | none ↦ finish dilation workspace m none e
                  | some n ↦
                      finish dilation workspace n
                        (plan_from dilation workspace obstacles grid (start current) n)
                        e
                ]
          ])
      by_position none p = tt
      by_position (some current) p =
          by_point current (with_rotation_point dilation workspace current m) p
            (with_rotation_point-HasTrack dilation workspace current m)

  -- If a path is planned, the goal is the one before, and the waypoints come from a route over
  -- the cells of the grid, which ends at the goal's cell and begins at the cell of the start
  -- position, or of a rotation point within 10 mm of it: they are the simplified route, from
  -- which the route is got back, or, without obstacles, what its segments are merged into. For a
  -- dilation as scipy documents it, no cell of the route lies in the reach of any hole of the
  -- workspace.
  pub plan_path-IsRoute :
      (feedback : Feedback) (obstacles : List Point) (e n : Execution)
      → IsDilation dilation
      → plan_path dilation workspace feedback obstacles e ≡ (true, n)
      → (current s start : Point) × (path : List Point) × (feedback.position ≡ some current)
        × (start_position dilation workspace
              (create_occupancy_grid dilation workspace obstacles)
              current
            ≡ some s)
        × (n.mover.goal_pos ≡ e.mover.goal_pos)
        × StartsAt dilation workspace s n.mover.rotation_point start
        × IsRoute
            (create_occupancy_grid dilation workspace obstacles)
            start
            (to_cell n.mover.goal_pos)
            path
        × ComesFrom dilation workspace obstacles path n.mover.current_path
        × (expand (simplify_path path) ≡ path)
        × ((h : Point)
            → IsAmong h workspace.holes
            → h.0 < workspace.width
            → h.1 < workspace.height
            → All (λ p. ¬ IsInReach h p) path)
  plan_path-IsRoute feedback obstacles e n spec planned =
      let grid = create_occupancy_grid dilation workspace obstacles in
      let (current, p, g, (s, q, i, (start, path, a, r, c))) =
        subst (Plans feedback obstacles e.mover.goal_pos) planned
          (plan_path-Plans feedback obstacles e) in
      (
        current,
        s,
        start,
        path,
        p,
        q,
        g,
        a,
        r,
        c,
        IsRoute-expand grid start (to_cell n.mover.goal_pos) path r,
        (λ h among in_x in_y.
            IsRoute-clear dilation workspace obstacles start (to_cell n.mover.goal_pos) path h spec
              r among in_x in_y),
      )
