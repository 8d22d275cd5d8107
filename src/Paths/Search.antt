-- ===== src/Paths/Search.antt =====
-- `astar_search` of astar_pathfinding.py. Costs are whole numbers of tenths, where the source has
-- floating point numbers, so a step costs 10; the penalty for a turn is a parameter. The heap is
-- the list of its entries, from which the least is taken, in the order of Python's tuples. The
-- loops take fuel.
use ap2030_uns.Prelude.{ℕ, zero, suc, ◌+◌, ◌*◌, Bool, true, false, ◌&&◌, ◌||◌, Option, none, some}
use ap2030_uns.Prelude.{List, [], ◌∷◌, if◌then◌else◌, ◌==◌, ltb}
use ap2030_uns.Paths.Grid.{
  ℤ, diff, int_eq, Point, pt_eq, heuristic, Move, offset, moves, Grid, value, inside, neighbor,
}

abbrev pub unit : ℕ
unit = 10

-- (f_score, g_score, position, parent); no parent is (-1, -1) in the source.
pub record Entry : Type 0 where
  pub f : ℕ
  pub g : ℕ
  pub position : Point
  pub parent : Option Point

pub record State : Type 0 where
  pub open_set : List Entry
  pub g_scores : Point → Option ℕ
  pub came_from : Point → Option Point

-- `d[p] = v`
abbrev pub set {ℓ} : {A : Type ℓ} → Point → A → (Point → Option A) → Point → Option A
set p v d q = if pt_eq p q then some v else d q

-- Tuples are compared at their first difference.
abbrev pub then_less : ℕ → ℕ → Bool → Bool
then_less a b rest = ltb a b || (a == b && rest)

abbrev parent_less : Option Point → Option Point → Bool
parent_less none none = false
parent_less none (some q) = true
parent_less (some p) none = false
parent_less (some p) (some q) = then_less p.0 q.0 (ltb p.1 q.1)

abbrev pub less : Entry → Entry → Bool
less a b = then_less a.f b.f (
    then_less a.g b.g (
      then_less a.position.0 b.position.0
        (then_less a.position.1 b.position.1 (parent_less a.parent b.parent))))

-- `heapq.heappop`: the least entry, and the others.
unfoldable pub pop_least : Entry → List Entry → Entry × List Entry
pop_least e [] = (e, [])
pop_least e (x ∷ xs) =
    let rest = pop_least x xs in if less rest.0 e then (rest.0, e ∷ rest.1) else (e, x ∷ xs)

-- `new_g < g_scores.get(p, inf)`
abbrev pub improves : ℕ → Option ℕ → Bool
improves v none = true
improves v (some w) = ltb v w

-- `current_g > g_scores.get(p, inf)`
abbrev pub is_stale : ℕ → Option ℕ → Bool
is_stale v none = false
is_stale v (some w) = ltb w v

pub data Outcome : Type 0 where
  found : ℕ → (Point → Option Point) → Outcome
  exhausted out_of_fuel : Outcome

module _ (grid : Grid) (goal : Point) (turning_cost : ℕ) where
  -- The penalty of a move after the move that led to a position.
  abbrev pub turn_penalty : Option Point → Point → Move → ℕ
  turn_penalty none p d = 0
  turn_penalty (some q) p d =
      if int_eq (diff p.0 q.0) (offset d).0 && int_eq (diff p.1 q.1) (offset d).1
      then 0
      else turning_cost

  abbrev pub push : Entry → ℕ → Point → State → State
  push current new_g p s = record s {
    open_set =
        (record {
          f = new_g + unit * heuristic p goal;
          g = new_g;
          position = p;
          parent = some current.position;
        })
        ∷ s.open_set;
    g_scores = set p new_g s.g_scores;
  }

  abbrev pub offer : Entry → ℕ → Option Point → State → State
  offer current new_g none s = s
  offer current new_g (some p) s =
      if improves new_g (s.g_scores p) then push current new_g p s else s

  -- The body of the loop over the neighbours.
  unfoldable pub relax : Entry → Move → State → State
  unfolding heuristic neighbor
  relax current d s =
      offer current (current.g + unit + turn_penalty current.parent current.position d)
        (neighbor grid d current.position) s

  unfoldable pub relax_all : Entry → List Move → State → State
  unfolding relax
  relax_all current [] s = s
  relax_all current (d ∷ ds) s = relax_all current ds (relax current d s)

  -- The parent is recorded, if there is one.
  abbrev pub record_parent : Entry → State → State
  record_parent e s = record s {
    came_from = elim e.parent [ none ↦ s.came_from | some q ↦ set e.position q s.came_from ];
  }

  unfoldable pub search : ℕ → State → Outcome
  unfolding pop_least relax_all
  search zero s = out_of_fuel
  search (suc fuel) s = elim s.open_set [
    | [] ↦ exhausted
    | x ∷ xs ↦
        let popped = pop_least x xs in
        let current = popped.0 in
        let rest = record s { open_set = popped.1 } in
        let recorded = record_parent current rest in
        let skipped = search fuel rest in
        let expanded = search fuel (relax_all current moves recorded) in
        if is_stale current.g (s.g_scores current.position)
        then skipped
        else if pt_eq current.position goal
        then found current.g recorded.came_from
        else expanded
  ]

-- The path back from a position. The source appends the positions and reverses the list at the
-- end; here each is put in front.
unfoldable pub reconstruct : ℕ → (Point → Option Point) → Point → List Point → Option (List Point)
reconstruct zero came_from p path = none
reconstruct (suc fuel) came_from p path =
    let back : Point → Option (List Point) = λ q. reconstruct fuel came_from q (p ∷ path) in
    elim (came_from p) [ none ↦ some (p ∷ path) | some q ↦ back q ]

abbrev pub initial : Point → Point → State
initial start goal = record {
  open_set =
      (record { f = unit * heuristic start goal; g = 0; position = start; parent = none }) ∷ [];
  g_scores = set start 0 (λ p. none);
  came_from = λ p. none;
}

-- The turns of the search that are enough, and of the way back.
abbrev pub search_fuel : Grid → ℕ → ℕ
search_fuel grid turning_cost =
    let n = grid.width * grid.height in 2 + n * ((unit + turning_cost) * n + 1)

abbrev pub path_of : Point → Outcome → Option (List Point)
path_of goal (found g came_from) = reconstruct (suc g) came_from goal []
path_of goal exhausted = none
path_of goal out_of_fuel = none

-- The checks of the start and the goal: within the bounds, and no obstacle.
abbrev pub usable : Grid → Option Point → Option Point
usable grid none = none
usable grid (some p) = if value grid p == 1 then none else some p

unfoldable pub astar_search : Grid → ℤ × ℤ → ℤ × ℤ → ℕ → Option (List Point)
unfolding search reconstruct
astar_search grid start_pos goal_pos turning_cost =
    elim (usable grid (inside grid start_pos.0 start_pos.1)) [
      | none ↦ none
      | some start ↦ elim (usable grid (inside grid goal_pos.0 goal_pos.1)) [
        | none ↦ none
        | some goal ↦
            path_of goal
              (search grid goal turning_cost (search_fuel grid turning_cost) (initial start goal))
      ]
    ]
