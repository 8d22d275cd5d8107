-- ===== src/Paths/Examples.antt =====
-- The path search at small grids, and the theorems there.
use ap2030_uns.Prelude.{◌≡◌, ◌⊎◌, refl, none, some, List, [], ◌∷◌, if◌then◌else◌, ◌==◌}
use ap2030_uns.Paths.Grid.{pos, negsuc, Point, Grid}
use ap2030_uns.Paths.Search.{astar_search}
use ap2030_uns.Paths.Simplify.{simplify_path}
use ap2030_uns.Paths.Astar.{HasRoute, astar_search_correct}

-- Three columns and three rows, with the middle cell and the cell below it blocked.
abbrev wall : Grid
wall = record {
  width = 3;
  height = 3;
  cell = λ y x. if x == 1 then (if y == 2 then 0 else 1) else 0;
}

route :
    astar_search wall (pos 0, pos 0) (pos 2, pos 0) 3
    ≡ some ((0, 0) ∷ (0, 1) ∷ (0, 2) ∷ (1, 2) ∷ (2, 2) ∷ (2, 1) ∷ (2, 0) ∷ [])
unfolding astar_search
route = refl

no_route : astar_search wall (pos 0, pos 0) (pos 1, pos 1) 3 ≡ none
unfolding astar_search
no_route = refl

outside : astar_search wall (negsuc 0, pos 0) (pos 1, pos 2) 3 ≡ none
unfolding astar_search
outside = refl

astar_search_correct_example :
    ((path : List Point) × (astar_search wall (pos 0, pos 0) (pos 2, pos 0) 3 ≡ some path)
      × HasRoute wall (pos 0, pos 0) (pos 2, pos 0) path)
    ⊎ ((astar_search wall (pos 0, pos 0) (pos 2, pos 0) 3 ≡ none)
        × ((path : List Point) → ¬ HasRoute wall (pos 0, pos 0) (pos 2, pos 0) path))
astar_search_correct_example = astar_search_correct wall (pos 0, pos 0) (pos 2, pos 0) 3

abbrev corners : List Point
corners = simplify_path ((0, 0) ∷ (0, 1) ∷ (0, 2) ∷ (1, 2) ∷ (2, 2) ∷ (2, 1) ∷ (2, 0) ∷ [])

corners_kept : corners ≡ (0, 0) ∷ (0, 2) ∷ (2, 2) ∷ (2, 0) ∷ []
unfolding simplify_path
corners_kept = refl
