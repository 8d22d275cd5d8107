-- ===== src/Paths/Shortcuts.antt =====
-- What the two passes of merge_collinear_segments leave out.
use ap2030_uns.Prelude.{
  ℕ, zero, suc, ◌+◌, ◌*◌, ◌≡◌, ◌≤◌, ◌<◌, ◌⊎◌, inl, inr, refl, sym, ap, ◌∙◌, subst, min, max, Bool,
  true, false, Option, none, some, List, [], ◌∷◌, ◌++◌, if◌then◌else◌, ltb, length, length-append,
  arith, Bool-cases, Option-cases,
}
use ap2030_uns.Paths.Grid.{Point, distance}
use ap2030_uns.Paths.Obstacles.{IsAmong}
use ap2030_uns.Paths.Merge.{
  goes_on, is_diagonal, box_overlaps, sample_overlaps, some_sample, overlaps, is_direct_path_safe,
  furthest_safe, furthest, add_point, skip_turns, merge_from, merge_collinear_segments,
}

abbrev pub IsBetween : ℕ → ℕ → ℕ → Type 0
IsBetween a b x = (min a b ≤ x) × (x ≤ max a b)

-- More than 80 mm from a hole in one of the directions.
abbrev pub IsApart : Point → Point → Type 0
IsApart (c, r) (x, y) =
    (x + 80000 < c * 240000)
    ⊎ ((c + 1) * 240000 + 80000 < x)
    ⊎ (y + 80000 < r * 240000)
    ⊎ ((r + 1) * 240000 + 80000 < y)

-- A direct way: it passes the check, and if it is straight, all its points are apart from all
-- holes.
abbrev pub IsDirect : List Point → Point → Point → Type 0
IsDirect holes p q =
    (is_direct_path_safe holes p q ≡ true)
    × (is_diagonal p q ≡ false
        → (h : Point) → IsAmong h holes
        → (x y : ℕ) → IsBetween p.0 q.0 x
        → IsBetween p.1 q.1 y
        → IsApart h (x, y))

-- The waypoints `out` from `p` on are some of `path`: the last one stays, and where points are left
-- out the way is direct.
pub data IsShortened (holes : List Point) : Point → List Point → List Point → Type 0 where
  done : (p : Point) → IsShortened holes p [] []
  next :
      (p q : Point) (path out : List Point)
      → IsShortened holes q path out
      → IsShortened holes p (q ∷ path) (q ∷ out)
  hop :
      (p q : Point) (skipped path out : List Point)
      → IsDirect holes p q
      → IsShortened holes q path out
      → IsShortened holes p (skipped ++ q ∷ path) (q ∷ out)

box_overlaps-IsApart :
    (p q h : Point) (x y : ℕ)
    → box_overlaps p q h ≡ false
    → IsBetween p.0 q.0 x
    → IsBetween p.1 q.1 y
    → IsApart h (x, y)
box_overlaps-IsApart p q (c, r) x y e a b =
    elim (Bool-cases (ltb (max p.0 q.0 + 80000) (c * 240000))) [
      | inl k ↦ inl (ground (arith, k, a.1))
      | inr k ↦ elim (Bool-cases (ltb ((c + 1) * 240000 + 80000) (min p.0 q.0))) [
        | inl l ↦ inr (inl (ground (arith, l, a.0)))
        | inr l ↦ elim (Bool-cases (ltb (max p.1 q.1 + 80000) (r * 240000))) [
          | inl m ↦ inr (inr (inl (ground (arith, m, b.1))))
          | inr m ↦ inr (inr (inr (ground (arith, e, k, l, m, b.0))))
        ]
      ]
    ]

safe-IsApart :
    (holes : List Point) (p q : Point)
    → is_direct_path_safe holes p q ≡ true
    → is_diagonal p q ≡ false
    → (h : Point) → IsAmong h holes
    → (x y : ℕ) → IsBetween p.0 q.0 x
    → IsBetween p.1 q.1 y
    → IsApart h (x, y)
unfolding is_direct_path_safe
safe-IsApart [] p q s d h a x y m n = absurd a
safe-IsApart (k ∷ holes) p q s d h a x y m n =
    let (free, rest) = parts (overlaps p q k) (is_direct_path_safe holes p q) s in
    elim a [
      | inl e ↦
          subst (λ z. IsApart z (x, y)) (sym e)
            (box_overlaps-IsApart p q k x y
              (ap (λ b. if b then sampled else box_overlaps p q k) (sym d) ∙ free) m n)
      | inr later ↦ safe-IsApart holes p q rest d h later x y m n
    ]
  where
    sampled : Bool
    sampled = some_sample (sample_overlaps p q k) 21

    parts : (b c : Bool) → (if b then false else c) ≡ true → (b ≡ false) × (c ≡ true)
    parts true c e = absurd cc
    parts false c e = (refl, e)

furthest_safe-IsDirect :
    (holes : List Point) (p : Point) (ms : List Point) (x : Point × List Point)
    → furthest_safe holes p ms ≡ some x
    → (skipped : List Point) × (ms ≡ skipped ++ x.0 ∷ x.1) × IsDirect holes p x.0
unfolding furthest_safe
furthest_safe-IsDirect holes p [] x e = absurd cc
furthest_safe-IsDirect holes p (q ∷ qs) x e =
    by_rest (furthest_safe holes p qs) (is_direct_path_safe holes p q) refl
      (λ y f. furthest_safe-IsDirect holes p qs y f) refl e
  where
    some_inj : (y z : Point × List Point) → some y ≡ some z → y ≡ z
    some_inj y z g = ap (λ o. elim o as (λ w. Point × List Point) [ none ↦ y | some w ↦ w ]) g

    by_rest :
        (o : Option (Point × List Point)) (b : Bool)
        → is_direct_path_safe holes p q ≡ b
        → ((y : Point × List Point)
            → furthest_safe holes p qs ≡ some y
            → (skipped : List Point) × (qs ≡ skipped ++ y.0 ∷ y.1) × IsDirect holes p y.0)
        → furthest_safe holes p qs ≡ o
        → (elim o as (λ z. Option (Point × List Point)) [
          | some y ↦ some y
          | none ↦ if b then some (q, qs) else none
        ])
          ≡ some x
        → (skipped : List Point) × (q ∷ qs ≡ skipped ++ x.0 ∷ x.1) × IsDirect holes p x.0
    by_rest (some y) b t r f g =
        let (skipped, split, direct) = r x (f ∙ g) in (q ∷ skipped, ap (λ z. q ∷ z) split, direct)
    by_rest none true t r f g =
        subst (λ z. (skipped : List Point) × (q ∷ qs ≡ skipped ++ z.0 ∷ z.1) × IsDirect holes p z.0)
          (some_inj (q, qs) x g) ([], refl, (t, safe-IsApart holes p q t))
    by_rest none false t r f g = absurd cc

skip_turns-IsShortened :
    (holes : List Point) (fuel : ℕ) (p : Point) (ms : List Point)
    → length ms ≤ fuel
    → (out : List Point) × (skip_turns holes fuel p ms ≡ some out) × IsShortened holes p ms out
unfolding skip_turns
skip_turns-IsShortened holes fuel p [] l = ([], refl, done p)
skip_turns-IsShortened holes zero p (q ∷ qs) l = absurd (omega (arith, l))
skip_turns-IsShortened holes (suc fuel) p (q ∷ qs) l =
    elim (Option-cases (furthest_safe holes p (q ∷ qs))) [
      | inl e ↦
          let (out, f, s) = skip_turns-IsShortened holes fuel q qs (omega (arith, l)) in
          (
            q ∷ out,
            ap (λ (z : Point × List Point). add_point z.0 (skip_turns holes fuel z.0 z.1))
                  (chosen none e)
                ∙ ap (add_point q) f,
            next p q qs out s,
          )
      | inr (x, e) ↦
          let (skipped, split, direct) = furthest_safe-IsDirect holes p (q ∷ qs) x e in
          let (out, f, s) =
            skip_turns-IsShortened holes fuel x.0 x.1
              (omega (arith, l, ap length split, length-append skipped (x.0 ∷ x.1))) in
          (
            x.0 ∷ out,
            ap (λ (z : Point × List Point). add_point z.0 (skip_turns holes fuel z.0 z.1))
                  (chosen (some x) e)
                ∙ ap (add_point x.0) f,
            subst (λ z. IsShortened holes p z (x.0 ∷ out)) (sym split)
                (hop p x.0 skipped x.1 out direct s),
          )
    ]
  where
    chosen :
        (o : Option (Point × List Point))
        → furthest_safe holes p (q ∷ qs) ≡ o
        → furthest holes p q qs
          ≡ (elim o as (λ z. Point × List Point) [ none ↦ (q, qs) | some z ↦ z ])
    chosen o e = ap (λ c. elim c as (λ z. Point × List Point) [ none ↦ (q, qs) | some z ↦ z ]) e

-- Two segments of more than 1 mm in the same direction, of the axes, up to 1 mm across.
abbrev pub GoesOn : Point → Point → Point → Type 0
GoesOn b p q =
    ((1000 < distance q.0 p.0)
      × (distance q.1 p.1 < 1000)
      × (1000 < distance p.0 b.0)
      × (distance p.1 b.1 < 1000))
    ⊎ ((1000 < distance q.1 p.1)
        × (distance q.0 p.0 < 1000)
        × (1000 < distance p.1 b.1)
        × (distance p.0 b.0 < 1000))

-- The waypoints `out` behind `b` are those of `path` without the ones where the way goes on; the
-- last stays.
pub data IsStraightened : Point → List Point → List Point → Type 0 where
  last : (b p : Point) → IsStraightened b (p ∷ []) (p ∷ [])
  bend :
      (b p q : Point) (path out : List Point)
      → ¬ GoesOn b p q
      → IsStraightened p (q ∷ path) out
      → IsStraightened b (p ∷ q ∷ path) (p ∷ out)
  straight :
      (b p q : Point) (path out : List Point)
      → GoesOn b p q
      → IsStraightened b (q ∷ path) out
      → IsStraightened b (p ∷ q ∷ path) out

goes_on-true : (b p q : Point) → goes_on b p q ≡ true → GoesOn b p q
goes_on-true b p q h = ground (arith, h)

GoesOn-goes_on : (b p q : Point) → goes_on b p q ≡ false → ¬ GoesOn b p q
GoesOn-goes_on b p q h k = elim k [
  | inl x ↦ absurd (ground (arith, h, x.0, x.1, x.2, x.3))
  | inr x ↦ absurd (ground (arith, h, x.0, x.1, x.2, x.3))
]

merge_from-IsStraightened :
    (b p : Point) (path : List Point) → IsStraightened b (p ∷ path) (merge_from b p path)
merge_from-IsStraightened b p [] = last b p
merge_from-IsStraightened b p (q ∷ path) =
    by_flag (goes_on b p q) refl (merge_from-IsStraightened b q path)
      (merge_from-IsStraightened p q path)
  where
    by_flag :
        (c : Bool)
        → goes_on b p q ≡ c
        → IsStraightened b (q ∷ path) (merge_from b q path)
        → IsStraightened p (q ∷ path) (merge_from p q path)
        → IsStraightened b
            (p ∷ q ∷ path)
            (if c then merge_from b q path else p ∷ merge_from p q path)
    by_flag true e x y = straight b p q path (merge_from b q path) (goes_on-true b p q e) x
    by_flag false e x y = bend b p q path (merge_from p q path) (GoesOn-goes_on b p q e) y

-- For a path of three points or more the loop ends, and its first and its last waypoint stay. The
-- first pass leaves out exactly the points where the way goes on along one of the axes, up to a
-- millimetre; of those that remain the second leaves out only such between two points that the
-- check takes to be directly connected. Every point of such a connection that is not diagonal is
-- more than 80 mm from each hole in one of the directions.
pub merge_collinear_segments-IsShortened :
    (holes : List Point) (p q r : Point) (rest : List Point)
    → (straightened out : List Point) × (merge_collinear_segments holes (p ∷ q ∷ r ∷ rest)
        ≡ some (p ∷ out))
      × IsStraightened p (q ∷ r ∷ rest) straightened
      × IsShortened holes p straightened out
unfolding merge_collinear_segments
merge_collinear_segments-IsShortened holes p q r rest =
    let (out, e, s) =
      skip_turns-IsShortened holes (length (merge_from p q (r ∷ rest))) p
        (merge_from p q (r ∷ rest)) (omega arith) in
    (
      merge_from p q (r ∷ rest),
      out,
      ap (add_point p) e,
      merge_from-IsStraightened p q (r ∷ rest),
      s,
    )
