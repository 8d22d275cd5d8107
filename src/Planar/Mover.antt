-- ===== src/Planar/Mover.antt =====
-- Planar_Controller/xbot_planner.py: the state of one mover's task, and the planning of its path.
-- Positions are in micrometres and angles in microradians, both natural numbers; a distance,
-- `sqrt` in the source, is rounded down to a micrometre where two are added, and compared by its
-- square elsewhere. What a position or an angle reads is an input, and calls go to a log, those
-- of `publish_state` too, which publishes no state twice in a row.
use ap2030_uns.Prelude.{
  ℕ, zero, suc, ◌+◌, ◌-◌, ◌*◌, ◌/◌, String, Bool, true, false, not, ◌&&◌, ◌||◌, Option, none, some,
}
use ap2030_uns.Prelude.{List, [], ◌∷◌, ◌++◌, if◌then◌else◌, ◌==◌, ltb, leb}
use ap2030_uns.Paths.Grid.{Point, pt_eq, distance, Grid, is_inside, value}
use ap2030_uns.Paths.Occupancy.{Workspace, meters_to_grid}

-- The fields of `XBotTask` that planning and execution use.
pub record Mover : Type 0 where
  pub goal_pos : Point
  pub goal_rotation : Option ℕ
  pub current_path : List Point
  pub rotation_point : Option Point
  pub current_waypoint_index : ℕ
  pub reached_goal : Bool

pub data Call : Type 0 where
  publish_state : String → Call
  linear_motion : Point → Call
  rotary_motion : ℕ → Call
  stop_motion : Call

pub record Execution : Type 0 where
  pub mover : Mover
  pub log : List Call

abbrev pub call : Call → Execution → Execution
call c e = record e { log = c ∷ e.log }

abbrev pub set_mover : Mover → Execution → Execution
set_mover m e = record e { mover = m }

abbrev pub to_cell : Point → Point
to_cell p = (meters_to_grid p.0, meters_to_grid p.1)

abbrev pub grid_to_meters : Point → Point
grid_to_meters p = (p.0 * 5000, p.1 * 5000)

abbrev pub grid_path_to_meters : List Point → List Point
grid_path_to_meters [] = []
grid_path_to_meters (p ∷ ps) = grid_to_meters p ∷ grid_path_to_meters ps

abbrev pub squared : Point → Point → ℕ
squared p q = distance p.0 q.0 * distance p.0 q.0 + distance p.1 q.1 * distance p.1 q.1

-- Within 10 mm.
abbrev pub is_at : Point → Point → Bool
is_at p q = ltb (squared p q) (10000 * 10000)

-- The root, rounded down; a turn for each two binary digits.
abbrev pub root : ℕ → ℕ → ℕ
root zero n = 0
root (suc fuel) n = let r = 2 * root fuel (n / 4) in if leb ((r + 1) * (r + 1)) n then r + 1 else r

abbrev pub length_of : Point → Point → ℕ
length_of p q = root 64 (squared p q)

abbrev pub is_listed : Point → List Point → Bool
is_listed p [] = false
is_listed p (q ∷ qs) = pt_eq q p || is_listed p qs

-- `get_flyway_centers`: the columns from 0 on, and their rows.
abbrev pub column_centers : List Point → ℕ → ℕ → ℕ → List Point
column_centers holes col row zero = []
column_centers holes col row (suc n) =
    let rest = column_centers holes col (suc row) n in
    if is_listed (col, row) holes
    then rest
    else (120000 + col * 240000, 120000 + row * 240000) ∷ rest

abbrev pub centers_from : Workspace → ℕ → ℕ → List Point
centers_from w col zero = []
centers_from w col (suc n) = column_centers w.holes col 0 w.height ++ centers_from w (suc col) n

unfoldable pub get_flyway_centers : Workspace → List Point
get_flyway_centers w = centers_from w 0 w.width

-- The loop of `select_rotation_point`, with the best point and its total distance so far.
abbrev pub is_better : ℕ → Option (Point × ℕ) → Bool
is_better d none = true
is_better d (some (p, e)) = ltb d e

abbrev pub point_of : Option (Point × ℕ) → Option Point
point_of none = none
point_of (some (p, d)) = some p

abbrev pub best_center : Grid → Point → Point → List Point → Option (Point × ℕ) → Option (Point × ℕ)
best_center grid current goal [] best = best
best_center grid current goal (c ∷ cs) best =
    let total = length_of c current + length_of goal c in
    let taken = best_center grid current goal cs (some (c, total)) in
    let passed = best_center grid current goal cs best in
    if is_inside grid (to_cell c) && not (value grid (to_cell c) == 1) && is_better total best
    then taken
    else passed

-- The first center within 10 mm.
abbrev pub center_at : Point → List Point → Option Point
center_at p [] = none
center_at p (c ∷ cs) = if is_at p c then some c else center_at p cs

-- `rz_error`, over the shorter way round.
abbrev pub half_turn : ℕ
half_turn = 3141593

abbrev pub one_degree : ℕ
one_degree = 17453

abbrev pub rz_error : ℕ → ℕ → ℕ
rz_error rz goal = let e = distance rz goal in if ltb half_turn e then 2 * half_turn - e else e

-- At the target rotation already; the angle is none where it could not be read.
abbrev pub without_rotation : Option ℕ → Mover → Mover
without_rotation rz m = elim rz [
  | none ↦ m
  | some a ↦ elim m.goal_rotation [
    | none ↦ m
    | some g ↦ if ltb (rz_error a g) one_degree then record m { goal_rotation = none } else m
  ]
]

-- The offsets from `-radius` on: `i` stands for `i - radius`. None is out of the bounds.
abbrev pub offset_cell : ℕ → ℕ → ℕ → Option ℕ
offset_cell start radius i = if leb radius (start + i) then some (start + i - radius) else none

abbrev pub cell_at : Option ℕ → Option ℕ → Option Point
cell_at none y = none
cell_at (some x) none = none
cell_at (some x) (some y) = some (x, y)

abbrev pub is_free : Grid → Option Point → Bool
is_free grid none = false
is_free grid (some p) = is_inside grid p && value grid p == 0

module _ (grid : Grid) (start : Point) where
  -- The loops of `find_nearest_valid_position` over the perimeter of one square, for `n` more
  -- offsets.
  abbrev pub ring_cell : ℕ → ℕ → ℕ → Option Point
  ring_cell radius i j = cell_at (offset_cell start.0 radius i) (offset_cell start.1 radius j)

  abbrev pub is_perimeter : ℕ → ℕ → ℕ → Bool
  is_perimeter radius i j = (i == 0 || i == 2 * radius) || (j == 0 || j == 2 * radius)

  unfoldable pub search_column : ℕ → ℕ → ℕ → ℕ → Option Point
  search_column radius i j zero = none
  search_column radius i j (suc n) =
      let rest = search_column radius i (suc j) n in
      if is_perimeter radius i j && is_free grid (ring_cell radius i j)
      then ring_cell radius i j
      else rest

  unfoldable pub search_ring : ℕ → ℕ → ℕ → Option Point
  unfolding search_column
  search_ring radius i zero = none
  search_ring radius i (suc n) = elim (search_column radius i 0 (2 * radius + 1)) [
    | some p ↦ some p
    | none ↦ search_ring radius (suc i) n
  ]

  unfoldable pub search_rings : ℕ → ℕ → Option Point
  unfolding search_ring
  search_rings radius zero = none
  search_rings radius (suc n) = elim (search_ring radius 0 (2 * radius + 1)) [
    | some p ↦ some p
    | none ↦ search_rings (suc radius) n
  ]

abbrev pub max_search_radius : ℕ
max_search_radius = 20

unfoldable pub find_nearest_valid_position : Point → Grid → Option Point
unfolding search_rings
find_nearest_valid_position position grid =
    if is_free grid (some (to_cell position))
    then some position
    else elim (search_rings grid (to_cell position) 1 max_search_radius) [
      | none ↦ none
      | some p ↦ some (grid_to_meters p)
    ]
