-- ===== src/Paths/Occupancy.antt =====
-- occupancy_grid.py: the grid on which the movers' paths are searched. Lengths of the constants
-- are in cells of 5 mm, positions of movers are in micrometres. Scipy's binary_dilation is a
-- parameter: it takes the width of the square structure of ones, and the grid.
use ap2030_uns.Prelude.{
  ℕ, zero, suc, ◌+◌, ◌-◌, ◌*◌, ◌/◌, ◌%◌, Bool, ◌&&◌, List, [], ◌∷◌, if◌then◌else◌, ◌==◌, ltb,
}
use ap2030_uns.Paths.Grid.{Point, Grid, is_inside}

-- The keys of a workspace that the grid is made from.
pub record Workspace : Type 0 where
  pub width : ℕ
  pub height : ℕ
  pub holes : List Point

abbrev pub cells_per_flyway : ℕ
cells_per_flyway = 48

abbrev pub boundary_tolerance_cells : ℕ
boundary_tolerance_cells = 2

abbrev pub robot_radius_cells : ℕ
robot_radius_cells = 12

-- Python's `round` of micrometres by the 5000 of a cell: halves go to the even number.
abbrev pub meters_to_grid : ℕ → ℕ
meters_to_grid l =
    let q = l / 5000 in
    let r = l % 5000 in if ltb r 2500 then q else if ltb 2500 r then q + 1 else q + q % 2

-- `if` in the bounds, `grid[y][x] = 1`
abbrev pub mark : ℕ → ℕ → Grid → Grid
mark x y g =
    if is_inside g (x, y)
    then record g { cell = λ v u. if v == y && u == x then 1 else g.cell v u }
    else g

-- The loops over the cells of a rectangle, `m` by `n` from (x, y).
unfoldable pub fill_column : ℕ → ℕ → ℕ → Grid → Grid
fill_column x y zero g = g
fill_column x y (suc n) g = fill_column x (suc y) n (mark x y g)

unfoldable pub fill_rectangle : ℕ → ℕ → ℕ → ℕ → Grid → Grid
unfolding fill_column
fill_rectangle x y zero n g = g
fill_rectangle x y (suc m) n g = fill_rectangle (suc x) y m n (fill_column x y n g)

-- Holes, without a border of two cells.
abbrev pub add_hole : Point → Grid → Grid
add_hole (hole_col, hole_row) g =
    let inner = cells_per_flyway - 2 * boundary_tolerance_cells in
    fill_rectangle (hole_col * cells_per_flyway + boundary_tolerance_cells)
      (hole_row * cells_per_flyway + boundary_tolerance_cells) inner inner g

unfoldable pub add_holes : List Point → Grid → Grid
unfolding fill_rectangle
add_holes [] g = g
add_holes (h ∷ hs) g = add_holes hs (add_hole h g)

-- Other movers. A rectangle that begins below 0 begins at 0 here: the cells below are out of the
-- bounds.
abbrev pub add_xbot : Point → Grid → Grid
add_xbot (xbot_x, xbot_y) g =
    let x_min_cell = meters_to_grid (xbot_x - 60000) in
    let y_min_cell = meters_to_grid (xbot_y - 60000) in
    let x_max_cell = meters_to_grid (xbot_x + 60000) in
    let y_max_cell = meters_to_grid (xbot_y + 60000) in
    fill_rectangle x_min_cell y_min_cell (x_max_cell + 1 - x_min_cell) (y_max_cell + 1 - y_min_cell)
      g

unfoldable pub add_xbots : List Point → Grid → Grid
unfolding fill_rectangle
add_xbots [] g = g
add_xbots (x ∷ xs) g = add_xbots xs (add_xbot x g)

abbrev pub empty_grid : Workspace → Grid
empty_grid w = record {
  width = w.width * cells_per_flyway;
  height = w.height * cells_per_flyway;
  cell = λ y x. 0;
}

module _ (binary_dilation : ℕ → Grid → ℕ → ℕ → Bool) where
  abbrev pub inflate_obstacles : ℕ → Grid → Grid
  inflate_obstacles radius_cells g = record g {
    cell = λ y x. if binary_dilation (2 * radius_cells + 1) g y x then 1 else 0;
  }

  unfoldable pub create_occupancy_grid : Workspace → List Point → Grid
  unfolding add_holes add_xbots
  create_occupancy_grid workspace xbot_obstacles =
      inflate_obstacles robot_radius_cells
        (add_xbots xbot_obstacles (add_holes workspace.holes (empty_grid workspace)))
