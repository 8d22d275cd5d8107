-- ===== src/Paths/Grid.antt =====
-- Positions on the grid of astar_pathfinding.py, and their neighbours. Cells have natural
-- coordinates; what the search computes on the way may be negative.
use ap2030_uns.Prelude.{ℕ, zero, suc, ◌+◌, ◌-◌, Bool, false, ◌&&◌, Option, none, some}
use ap2030_uns.Prelude.{List, [], ◌∷◌, if◌then◌else◌, ◌==◌, ltb, leb}

pub data ℤ : Type 0 where
  pos negsuc : ℕ → ℤ

-- `a + d`
abbrev pub shift : ℕ → ℤ → ℤ
shift a (pos d) = pos (a + d)
shift zero (negsuc d) = negsuc d
shift (suc a) (negsuc zero) = pos a
shift (suc a) (negsuc (suc d)) = shift a (negsuc d)

-- `a - b`
abbrev pub diff : ℕ → ℕ → ℤ
diff a b = if leb b a then pos (a - b) else negsuc (b - a - 1)

abbrev pub int_eq : ℤ → ℤ → Bool
int_eq (pos a) (pos b) = a == b
int_eq (negsuc a) (negsuc b) = a == b
int_eq _ _ = false

abbrev pub Point : Type 0
Point = ℕ × ℕ

abbrev pub pt_eq : Point → Point → Bool
pt_eq p q = p.0 == q.0 && p.1 == q.1

-- `abs(a - b)`
abbrev pub distance : ℕ → ℕ → ℕ
distance a b = (a - b) + (b - a)

unfoldable pub heuristic : Point → Point → ℕ
heuristic p q = distance p.0 q.0 + distance p.1 q.1

pub data Move : Type 0 where
  up down right left : Move

-- The offsets that the loop goes through: (0, 1), (0, -1), (1, 0), (-1, 0).
abbrev pub offset : Move → ℤ × ℤ
offset up = (pos 0, pos 1)
offset down = (pos 0, negsuc 0)
offset right = (pos 1, pos 0)
offset left = (negsuc 0, pos 0)

abbrev pub moves : List Move
moves = up ∷ down ∷ right ∷ left ∷ []

-- A grid: `cell y x` is `grid[y][x]`, read only within the bounds.
pub record Grid : Type 0 where
  pub width : ℕ
  pub height : ℕ
  pub cell : ℕ → ℕ → ℕ

abbrev pub is_inside : Grid → Point → Bool
is_inside g p = ltb p.0 g.width && ltb p.1 g.height

abbrev pub value : Grid → Point → ℕ
value g p = g.cell p.1 p.0

-- A point for coordinates in the bounds.
abbrev pub inside : Grid → ℤ → ℤ → Option Point
inside g (pos x) (pos y) = if is_inside g (x, y) then some (x, y) else none
inside g (pos x) (negsuc y) = none
inside g (negsuc x) y = none

-- The neighbour in one direction, if it passes the bounds check and the obstacle check.
abbrev free : Grid → Option Point → Option Point
free g none = none
free g (some p) = if value g p == 0 then some p else none

unfoldable pub neighbor : Grid → Move → Point → Option Point
neighbor g d p = free g (inside g (shift p.0 (offset d).0) (shift p.1 (offset d).1))
