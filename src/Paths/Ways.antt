-- ===== src/Paths/Ways.antt =====
-- Test data and the witness for the merging of segments.
use ap2030_uns.Prelude.{◌≡◌, refl, some, List, [], ◌∷◌}
use ap2030_uns.Paths.Grid.{Point}
use ap2030_uns.Paths.Merge.{
  is_direct_path_safe, furthest_safe, skip_turns, merge_from, merge_collinear_segments,
}
use ap2030_uns.Paths.Shortcuts.{IsStraightened, IsShortened, merge_collinear_segments-IsShortened}

-- Positions around the flyway (1, 0), a hole, whose edges are at 240 mm and 480 mm.
abbrev around : List Point
around =
    (900000, 100000)
    ∷ (900000, 500000)
    ∷ (700000, 500000)
    ∷ (100000, 500000)
    ∷ (100000, 100000)
    ∷ []

merged :
    merge_from
      (900000, 100000)
      (900000, 500000)
      ((700000, 500000) ∷ (100000, 500000) ∷ (100000, 100000) ∷ [])
    ≡ (900000, 500000) ∷ (100000, 500000) ∷ (100000, 100000) ∷ []
merged = refl

free : merge_collinear_segments [] around ≡ some ((900000, 100000) ∷ (100000, 100000) ∷ [])
unfolding merge_collinear_segments skip_turns furthest_safe is_direct_path_safe
free = refl

merge_collinear_segments-IsShortened_example :
    (straightened out : List Point) × (merge_collinear_segments ((1, 0) ∷ []) around
      ≡ some ((900000, 100000) ∷ out))
    × IsStraightened
        (900000, 100000)
        ((900000, 500000) ∷ (700000, 500000) ∷ (100000, 500000) ∷ (100000, 100000) ∷ [])
        straightened
    × IsShortened ((1, 0) ∷ []) (900000, 100000) straightened out
merge_collinear_segments-IsShortened_example =
    merge_collinear_segments-IsShortened ((1, 0) ∷ []) (900000, 100000) (900000, 500000)
      (700000, 500000) ((100000, 500000) ∷ (100000, 100000) ∷ [])
