-- ===== src/Paths/Simplify.antt =====
-- `simplify_path` of path_simplifier.py: of a path only the points stay where its direction
-- changes.
use ap2030_uns.Prelude.{
  ℕ, zero, suc, ◌+◌, ◌-◌, ◌≡◌, refl, sym, ap, subst, ◌∙◌, Bool, true, ◌&&◌, List, [], ◌∷◌, ◌++◌,
  append_assoc, if◌then◌else◌, ltb, arith, Bool-cases, inl, inr,
}
use ap2030_uns.Paths.Grid.{diff, int_eq, Point, heuristic, Move, up, down, right, left}

-- `dir1 == dir2`
abbrev pub same_direction : Point → Point → Point → Bool
same_direction prev curr next =
    int_eq (diff curr.0 prev.0) (diff next.0 curr.0)
    && int_eq (diff curr.1 prev.1) (diff next.1 curr.1)

-- The loop, from the second point, and the last point.
abbrev pub keep_turns : Point → Point → List Point → List Point
keep_turns prev curr [] = curr ∷ []
keep_turns prev curr (next ∷ rest) =
    let others = keep_turns curr next rest in
    if same_direction prev curr next then others else curr ∷ others

unfoldable pub simplify_path : List Point → List Point
simplify_path [] = []
simplify_path (p ∷ []) = p ∷ []
simplify_path (p ∷ q ∷ []) = p ∷ q ∷ []
simplify_path (p ∷ q ∷ r ∷ rest) = p ∷ keep_turns p q (r ∷ rest)

-- The points between waypoints, step by step.
abbrev pub closer : ℕ → ℕ → ℕ
closer a b = if ltb a b then a + 1 else if ltb b a then a - 1 else a

abbrev pub toward : Point → Point → Point
toward p q = (closer p.0 q.0, closer p.1 q.1)

abbrev pub walk : ℕ → Point → Point → List Point
walk zero p q = []
walk (suc n) p q = toward p q ∷ walk n (toward p q) q

abbrev pub expand_from : Point → List Point → List Point
expand_from p [] = []
expand_from p (q ∷ qs) = walk (heuristic p q) p q ++ expand_from q qs

abbrev pub expand : List Point → List Point
expand [] = []
expand (p ∷ ps) = p ∷ expand_from p ps

-- Each point is one step from the one before.
abbrev pub IsWalk : Point → List Point → Type 0
IsWalk p [] = Unit
IsWalk p (q ∷ qs) = (heuristic p q ≡ 1) × IsWalk q qs

-- The point `k` steps from `s` in a direction.
abbrev OnLine : Move → Point → ℕ → Point → Type 0
OnLine up s k c = (c.0 ≡ s.0) × (c.1 ≡ s.1 + k)
OnLine down s k c = (c.0 ≡ s.0) × (c.1 + k ≡ s.1)
OnLine right s k c = (c.0 ≡ s.0 + k) × (c.1 ≡ s.1)
OnLine left s k c = (c.0 + k ≡ s.0) × (c.1 ≡ s.1)

OnLine-start : (d : Move) (s : Point) → OnLine d s 0 s
OnLine-start up s = (refl, omega arith)
OnLine-start down s = (refl, omega arith)
OnLine-start right s = (omega arith, refl)
OnLine-start left s = (omega arith, refl)

heuristic-OnLine : (d : Move) (s : Point) (k : ℕ) (c : Point) → OnLine d s k c → heuristic s c ≡ k
unfolding heuristic
heuristic-OnLine up s k c h = omega (arith, h.0, h.1)
heuristic-OnLine down s k c h = omega (arith, h.0, h.1)
heuristic-OnLine right s k c h = omega (arith, h.0, h.1)
heuristic-OnLine left s k c h = omega (arith, h.0, h.1)

toward-OnLine :
    (d : Move) (s : Point) (k : ℕ) (c : Point) → OnLine d s (suc k) c → OnLine d (toward s c) k c
toward-OnLine up s k c h = (ground (arith, h.0), ground (arith, h.1))
toward-OnLine down s k c h = (ground (arith, h.0), ground (arith, h.1))
toward-OnLine right s k c h = (ground (arith, h.0), ground (arith, h.1))
toward-OnLine left s k c h = (ground (arith, h.0), ground (arith, h.1))

toward_same :
    (d : Move) (s : Point) (k j : ℕ) (c b : Point)
    → OnLine d s (suc k) c
    → OnLine d s (suc j) b
    → toward s c ≡ toward s b
toward_same up (x, y) k j (u, v) (m, n) h i = ground (arith, h.0, h.1, i.0, i.1)
toward_same down (x, y) k j (u, v) (m, n) h i = ground (arith, h.0, h.1, i.0, i.1)
toward_same right (x, y) k j (u, v) (m, n) h i = ground (arith, h.0, h.1, i.0, i.1)
toward_same left (x, y) k j (u, v) (m, n) h i = ground (arith, h.0, h.1, i.0, i.1)

OnLine-same : (d : Move) (s c b : Point) → OnLine d s 0 c → OnLine d s 0 b → c ≡ b
OnLine-same up (x, y) (u, v) (m, n) h i = ground (arith, h.0, h.1, i.0, i.1)
OnLine-same down (x, y) (u, v) (m, n) h i = ground (arith, h.0, h.1, i.0, i.1)
OnLine-same right (x, y) (u, v) (m, n) h i = ground (arith, h.0, h.1, i.0, i.1)
OnLine-same left (x, y) (u, v) (m, n) h i = ground (arith, h.0, h.1, i.0, i.1)

step-OnLine : (p q : Point) → heuristic p q ≡ 1 → (d : Move) × OnLine d p 1 q
unfolding heuristic
step-OnLine p q h = elim (Bool-cases (ltb p.1 q.1)) [
  | inl e ↦ (up, (ground (arith, h, e), ground (arith, h, e)))
  | inr e ↦ elim (Bool-cases (ltb q.1 p.1)) [
    | inl k ↦ (down, (ground (arith, h, k), ground (arith, h, k)))
    | inr k ↦ elim (Bool-cases (ltb p.0 q.0)) [
      | inl l ↦ (right, (ground (arith, h, l, e, k), ground (arith, e, k)))
      | inr l ↦ (left, (ground (arith, h, l, e, k), ground (arith, e, k)))
    ]
  ]
]

same_direction-OnLine :
    (d : Move) (s : Point) (k : ℕ) (prev curr next : Point)
    → OnLine d s k prev
    → OnLine d s (suc k) curr
    → same_direction prev curr next ≡ true
    → OnLine d s (suc (suc k)) next
same_direction-OnLine up s k p c n h i e =
    (ground (arith, h.0, i.0, e), ground (arith, h.1, i.1, e))
same_direction-OnLine down s k p c n h i e =
    (ground (arith, h.0, i.0, e), ground (arith, h.1, i.1, e))
same_direction-OnLine right s k p c n h i e =
    (ground (arith, h.0, i.0, e), ground (arith, h.1, i.1, e))
same_direction-OnLine left s k p c n h i e =
    (ground (arith, h.0, i.0, e), ground (arith, h.1, i.1, e))

walk-longer :
    (d : Move) (k : ℕ) (s b c : Point)
    → OnLine d s k b
    → OnLine d s (suc k) c
    → walk (suc k) s c ≡ walk k s b ++ c ∷ []
walk-longer d zero s b c h i =
    ap (λ z. z ∷ [])
      (OnLine-same d (toward s c) (toward s c) c (OnLine-start d (toward s c))
        (toward-OnLine d s 0 c i))
walk-longer d (suc k) s b c h i =
    let same = toward_same d s (suc k) k c b i h in
    ap (λ z. toward s c ∷ z)
      (walk-longer d k (toward s c) b c
        (subst (λ z. OnLine d z k b) (sym same) (toward-OnLine d s k b h))
        (toward-OnLine d s (suc k) c i))
    ∙ ap (λ z. z ∷ (walk k z b ++ c ∷ [])) same

expand-keep_turns :
    (d : Move) (k : ℕ) (s prev curr : Point) (rest : List Point)
    → OnLine d s k prev
    → OnLine d s (suc k) curr
    → IsWalk curr rest
    → expand_from s (keep_turns prev curr rest) ≡ walk (suc k) s curr ++ rest
expand-keep_turns d k s prev curr [] h i w =
    ap (λ n. walk n s curr ++ []) (heuristic-OnLine d s (suc k) curr i)
expand-keep_turns d k s prev curr (next ∷ rest) h i w =
    elim (Bool-cases (same_direction prev curr next)) [
      | inl e ↦
          ap
            (λ f.
              expand_from s
                (if f then keep_turns curr next rest else curr ∷ keep_turns curr next rest))
            e
          ∙ expand-keep_turns d (suc k) s curr next rest i
              (same_direction-OnLine d s k prev curr next h i e) w.1
          ∙ ap (λ z. z ++ rest)
              (walk-longer d (suc k) s curr next i
                (same_direction-OnLine d s k prev curr next h i e))
          ∙ append_assoc (walk (suc k) s curr) (next ∷ []) rest
      | inr e ↦
          let (turned, l) = step-OnLine curr next w.0 in
          ap
            (λ f.
              expand_from s
                (if f then keep_turns curr next rest else curr ∷ keep_turns curr next rest))
            e
          ∙ ap (λ n. walk n s curr ++ expand_from curr (keep_turns curr next rest))
              (heuristic-OnLine d s (suc k) curr i)
          ∙ ap (λ z. walk (suc k) s curr ++ z)
              (expand-keep_turns turned 0 curr curr next rest (OnLine-start turned curr) l w.1
                ∙ ap (λ z. z ++ rest)
                    (walk-longer turned 0 curr curr next (OnLine-start turned curr) l))
    ]

expand-first :
    (p q : Point) (rest : List Point)
    → IsWalk p (q ∷ rest)
    → expand_from p (keep_turns p q rest) ≡ q ∷ rest
expand-first p q rest w =
    let (d, l) = step-OnLine p q w.0 in
    expand-keep_turns d 0 p p q rest (OnLine-start d p) l w.1
    ∙ ap (λ z. z ++ rest) (walk-longer d 0 p p q (OnLine-start d p) l)

-- A path of single steps, as `astar_search` returns it, is got back from its simplification: with
-- the points between the waypoints filled in, step by step along straight lines, it is the path.
pub expand-simplify_path :
    (p : Point) (path : List Point) → IsWalk p path → expand (simplify_path (p ∷ path)) ≡ p ∷ path
unfolding simplify_path
expand-simplify_path p [] w = refl
expand-simplify_path p (q ∷ []) w = ap (λ z. p ∷ z) (expand-first p q [] w)
expand-simplify_path p (q ∷ r ∷ rest) w = ap (λ z. p ∷ z) (expand-first p q (r ∷ rest) w)
