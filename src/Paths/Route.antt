-- ===== src/Paths/Route.antt =====
-- What a path is, described without the search, and its steps as the search makes them.
use ap2030_uns.Prelude.{ℕ, zero, suc, ◌≡◌, ◌≢◌, ◌<◌, inl, inr, true, some}
use ap2030_uns.Prelude.{List, [], ◌∷◌, ltb, arith, Bool-cases}
use ap2030_uns.Paths.Grid.{
  Point, heuristic, Move, up, down, right, left, Grid, is_inside, value, neighbor,
}

-- A step to a free cell of the grid at distance 1.
abbrev pub IsStep : Grid → Point → Point → Type 0
IsStep grid p q = (is_inside grid q ≡ true) × (value grid q ≡ 0) × (heuristic p q ≡ 1)

-- The rest of a path behind a position leads to the goal by such steps.
abbrev pub LeadsTo : Grid → Point → Point → List Point → Type 0
LeadsTo grid goal p [] = p ≡ goal
LeadsTo grid goal p (q ∷ qs) = IsStep grid p q × LeadsTo grid goal q qs

-- A path from the start to the goal: the start is on the grid and no obstacle.
abbrev pub IsRoute : Grid → Point → Point → List Point → Type 0
IsRoute grid start goal [] = ⊥
IsRoute grid start goal (p ∷ ps) =
    (p ≡ start) × (is_inside grid p ≡ true) × (value grid p ≢ 1) × LeadsTo grid goal p ps

pub neighbor-IsStep :
    (grid : Grid) (d : Move) (p q : Point) → neighbor grid d p ≡ some q → IsStep grid p q
unfolding neighbor heuristic
neighbor-IsStep grid up (x, y) q h = ground arith
neighbor-IsStep grid down (x, zero) q h = ground arith
neighbor-IsStep grid down (x, suc y) q h = ground arith
neighbor-IsStep grid right (x, y) q h = ground arith
neighbor-IsStep grid left (zero, y) q h = ground arith
neighbor-IsStep grid left (suc x, y) q h = ground arith

-- Each step is the move in one of the four directions.
pub IsStep-neighbor :
    (grid : Grid) (p q : Point) → IsStep grid p q → (d : Move) × (neighbor grid d p ≡ some q)
unfolding heuristic neighbor
IsStep-neighbor grid (x, y) (u, v) h = elim (Bool-cases (ltb y v)) [
  | inl e ↦ (up, to_up grid x y u v h (ground arith))
  | inr e ↦ elim (Bool-cases (ltb v y)) [
    | inl k ↦ (down, to_down grid x y u v h (ground arith))
    | inr k ↦ elim (Bool-cases (ltb x u)) [
      | inl l ↦ (right, to_right grid x y u v h (ground arith))
      | inr l ↦ (left, to_left grid x y u v h (ground arith))
    ]
  ]
]
  where
    to_up :
        (grid : Grid) (x y u v : ℕ)
        → IsStep grid (x, y) (u, v)
        → y < v
        → neighbor grid up (x, y) ≡ some (u, v)
    to_up grid x y u v h l = ground arith

    to_down :
        (grid : Grid) (x y u v : ℕ)
        → IsStep grid (x, y) (u, v)
        → v < y
        → neighbor grid down (x, y) ≡ some (u, v)
    to_down grid x zero u v h l = absurd (omega arith)
    to_down grid x (suc y) u v h l = ground arith

    to_right :
        (grid : Grid) (x y u v : ℕ)
        → IsStep grid (x, y) (u, v)
        → x < u
        → neighbor grid right (x, y) ≡ some (u, v)
    to_right grid x y u v h l = ground arith

    to_left :
        (grid : Grid) (x y u v : ℕ)
        → IsStep grid (x, y) (u, v)
        → u < x
        → neighbor grid left (x, y) ≡ some (u, v)
    to_left grid zero y u v h l = absurd (omega arith)
    to_left grid (suc x) y u v h l = ground arith
