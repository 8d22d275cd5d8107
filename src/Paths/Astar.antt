-- ===== src/Paths/Astar.antt =====
-- `astar_search` as a whole: the checks, the search and the way back.
use ap2030_uns.Prelude.{
  ℕ, zero, suc, ◌+◌, ◌*◌, ◌≡◌, ◌≢◌, ◌≤◌, ◌<◌, ◌⊎◌, inl, inr, refl, sym, ap, ◌∙◌, subst, true,
  Option, none, some,
}
use ap2030_uns.Prelude.{List, [], ◌∷◌, arith, Option-cases}
use ap2030_uns.Paths.Grid.{ℤ, pos, negsuc, inside, Point, Grid, is_inside, value}
use ap2030_uns.Paths.Search.{
  Outcome, found, exhausted, out_of_fuel, search, reconstruct, initial, search_fuel, path_of,
  usable, astar_search,
}
use ap2030_uns.Paths.Measure.{weight, unknown, total, total-start, cells, length-cells}
use ap2030_uns.Paths.Route.{LeadsTo, IsRoute}
use ap2030_uns.Paths.Invariant.{Scores, Inv, ParentOk, rate, size, set_same, mul_mono}
use ap2030_uns.Paths.Relax.{top, work}
use ap2030_uns.Paths.Correct.{Says, search-Says}

module _ (grid : Grid) (start goal : Point) (turning_cost : ℕ)
    (on_grid : is_inside grid start ≡ true) (no_obstacle : value grid start ≢ 1) where
  abbrev pub Returned : Option (List Point) → Type 0
  Returned r = (path : List Point) × (r ≡ some path) × IsRoute grid start goal path

  module _ (c : Scores) (came_from : Point → Option Point)
      (linked : (p : Point) (v : ℕ)
        → c p ≡ some v
        → ParentOk grid start goal turning_cost c p v (came_from p)) where
    way_back :
        (fuel : ℕ) (p : Point) (v : ℕ) (path : List Point)
        → c p ≡ some v
        → v < fuel
        → LeadsTo grid goal p path
        → Returned (reconstruct fuel came_from p path)
    unfolding reconstruct
    way_back zero p v path k h l = absurd (omega arith)
    way_back (suc fuel) p v path k h l = elim (Option-cases (came_from p)) [
      | inl e ↦
          let here : p ≡ start =
            subst (ParentOk grid start goal turning_cost c p v) e (linked p v k) in
          rw (e, reconstruct)
            (
              p ∷ path,
              refl,
              (
                here,
                subst (λ z. is_inside grid z ≡ true) (sym here) on_grid,
                subst (λ z. value grid z ≢ 1) (sym here) no_obstacle,
                l,
              ),
            )
      | inr (q, e) ↦
          let (apart, st, u, m, less) =
            subst (ParentOk grid start goal turning_cost c p v) e (linked p v k) in
          rw (e, reconstruct) (way_back fuel q u (p ∷ path) m (omega arith) (st, l))
    ]

  initial_score : (p : Point) (v : ℕ) → (initial start goal).g_scores p ≡ some v → v ≡ 0
  initial_score p v k = ground (arith, k)

  initial_room :
      (v : ℕ)
      → v ≡ 0
      → v
          + rate grid start goal turning_cost
            * total unknown (cells grid) (initial start goal).g_scores
        ≤ rate grid start goal turning_cost * size grid start goal turning_cost
  initial_room v h =
      let fewer : total unknown (cells grid) (initial start goal).g_scores
          ≤ size grid start goal turning_cost =
        omega (arith, total-start unknown (cells grid) start (omega arith), length-cells grid) in
      omega (
        arith,
        h,
        mul_mono (rate grid start goal turning_cost)
            (total unknown (cells grid) (initial start goal).g_scores)
            (size grid start goal turning_cost) fewer,
      )

  initial-Inv : Inv grid start goal turning_cost (λ p. none) (initial start goal)
  initial-Inv = record {
    entries = (((0, set_same start start 0 (λ p. none) refl, omega arith), refl), tt);
    unparented = refl;
    linked = λ p v k. absurd cc;
    known = λ p v k. inr (ground (arith, k));
    origin = set_same start start 0 (λ p. none) refl;
    lower = λ p v k. absurd cc;
    bounded = λ p v k. initial_room v (initial_score p v k);
    away = λ p v k. absurd cc;
  }

  work-initial :
      work grid start goal turning_cost (initial start goal) < search_fuel grid turning_cost
  work-initial =
      let total_top =
        total-start (weight (top grid start goal turning_cost)) (cells grid) start (omega arith) in
      let counted = ap (λ n. top grid start goal turning_cost * n) (length-cells grid) in
      bound (top grid start goal turning_cost) (grid.width * grid.height) total_top counted
    where
      times_comm : (a b : ℕ) → a * b ≡ b * a
      times_comm a b = grind arith

      bound : {t k : ℕ} (a b : ℕ) → t ≤ k → k ≡ a * b → 1 + t < 2 + b * a
      bound a b h e = omega (arith, h, e, times_comm a b)

  initial-Says :
      Says grid start goal turning_cost
        (search grid goal turning_cost (search_fuel grid turning_cost) (initial start goal))
  initial-Says =
      search-Says grid start goal turning_cost (search_fuel grid turning_cost) (λ p. none)
        (initial start goal) (initial start goal).open_set initial-Inv (λ p v q k st. absurd cc)
        work-initial

  outcome_path :
      (o : Outcome)
      → Says grid start goal turning_cost o
      → Returned (path_of goal o)
        ⊎ ((path_of goal o ≡ none) × ((path : List Point) → ¬ IsRoute grid start goal path))
  outcome_path (found g came_from) (c, linked, k) =
      inl (way_back c came_from linked (suc g) goal g [] k (omega arith) refl)
  outcome_path exhausted none_leads = inr (refl, no_route)
    where
      no_route : (path : List Point) → ¬ IsRoute grid start goal path
      no_route [] h = h
      no_route (p ∷ path) h = none_leads path (subst (λ z. LeadsTo grid goal z path) h.0 h.3)
  outcome_path out_of_fuel h = absurd h

  pub searched :
      Returned (
        path_of goal
          (search grid goal turning_cost (search_fuel grid turning_cost) (initial start goal)))
      ⊎ ((path_of goal
              (search grid goal turning_cost (search_fuel grid turning_cost) (initial start goal))
            ≡ none)
          × ((path : List Point) → ¬ IsRoute grid start goal path))
  searched =
      outcome_path
        (search grid goal turning_cost (search_fuel grid turning_cost) (initial start goal))
        initial-Says

-- A route between coordinates: they are those of its first and its last point.
abbrev pub HasRoute : Grid → ℤ × ℤ → ℤ × ℤ → List Point → Type 0
HasRoute grid s g path =
    (p q : Point) × (s ≡ (pos p.0, pos p.1)) × (g ≡ (pos q.0, pos q.1)) × IsRoute grid p q path

usable_point :
    (grid : Grid) (s : ℤ × ℤ) (p : Point)
    → usable grid (inside grid s.0 s.1) ≡ some p
    → (s ≡ (pos p.0, pos p.1)) × (is_inside grid p ≡ true) × (value grid p ≢ 1)
usable_point grid (pos x, pos y) p h = ground arith
usable_point grid (pos x, negsuc y) p h = absurd cc
usable_point grid (negsuc x, b) p h = absurd cc

usable_here :
    (grid : Grid) (p : Point)
    → is_inside grid p ≡ true
    → value grid p ≢ 1
    → usable grid (inside grid (pos p.0) (pos p.1)) ≡ some p
usable_here grid p h n = ground arith

-- The end of a route is usable, as its start is.
goal_usable :
    (grid : Grid) (goal p : Point) (path : List Point)
    → is_inside grid p ≡ true
    → value grid p ≢ 1
    → LeadsTo grid goal p path
    → (is_inside grid goal ≡ true) × (value grid goal ≢ 1)
goal_usable grid goal p [] h n e =
    (subst (λ z. is_inside grid z ≡ true) e h, subst (λ z. value grid z ≢ 1) e n)
goal_usable grid goal p (q ∷ path) h n (st, l) =
    goal_usable grid goal q path st.0 (λ e. absurd (omega (arith, e, st.1))) l

route_ends :
    (grid : Grid) (p q : Point) (path : List Point)
    → IsRoute grid p q path
    → (is_inside grid p ≡ true)
      × (value grid p ≢ 1)
      × (is_inside grid q ≡ true)
      × (value grid q ≢ 1)
route_ends grid p q [] h = absurd h
route_ends grid p q (x ∷ path) (e, i, n, l) =
    let (a, b) = goal_usable grid q x path i n l in
    (subst (λ z. is_inside grid z ≡ true) e i, subst (λ z. value grid z ≢ 1) e n, a, b)

usable_at :
    (grid : Grid) (s : ℤ × ℤ) (p : Point)
    → s ≡ (pos p.0, pos p.1)
    → is_inside grid p ≡ true
    → value grid p ≢ 1
    → usable grid (inside grid s.0 s.1) ≡ some p
usable_at grid s p e h n = ap (λ z. usable grid (inside grid z.0 z.1)) e ∙ usable_here grid p h n

no_some {ℓ} : {A : Type ℓ} (o : Option A) (a : A) → o ≡ none → o ≡ some a → ⊥
no_some none a h k = cc
no_some (some b) a h k = cc

-- For every grid and every turning cost, `astar_search` returns a path from the start to the goal
-- whose steps go to free cells of the grid at distance 1, or it returns none, and then there is no
-- such path. The fuel is enough.
pub astar_search_correct :
    (grid : Grid) (s g : ℤ × ℤ) (turning_cost : ℕ)
    → ((path : List Point) × (astar_search grid s g turning_cost ≡ some path)
        × HasRoute grid s g path)
      ⊎ ((astar_search grid s g turning_cost ≡ none)
          × ((path : List Point) → ¬ HasRoute grid s g path))
unfolding astar_search
astar_search_correct grid s g turning_cost =
    by_start (usable grid (inside grid s.0 s.1)) refl (usable grid (inside grid g.0 g.1)) refl
  where
    start_usable :
        (x y : Point)
        → s ≡ (pos x.0, pos x.1)
        → (path : List Point) → IsRoute grid x y path
        → usable grid (inside grid s.0 s.1) ≡ none
        → ⊥
    start_usable x y a path h e =
        let ends = route_ends grid x y path h in
        no_some (usable grid (inside grid s.0 s.1)) x e (usable_at grid s x a ends.0 ends.1)

    end_usable :
        (x y : Point)
        → g ≡ (pos y.0, pos y.1)
        → (path : List Point) → IsRoute grid x y path
        → usable grid (inside grid g.0 g.1) ≡ none
        → ⊥
    end_usable x y b path h e =
        let ends = route_ends grid x y path h in
        no_some (usable grid (inside grid g.0 g.1)) y e (usable_at grid g y b ends.2 ends.3)

    by_start :
        (o : Option Point)
        → usable grid (inside grid s.0 s.1) ≡ o
        → (w : Option Point) → usable grid (inside grid g.0 g.1) ≡ w
        → ((path : List Point) × (astar_search grid s g turning_cost ≡ some path)
            × HasRoute grid s g path)
          ⊎ ((astar_search grid s g turning_cost ≡ none)
              × ((path : List Point) → ¬ HasRoute grid s g path))
    by_start none e w f =
        rw (e, astar_search) (inr (refl, λ path (x, y, a, b, r). start_usable x y a path r e))
    by_start (some p) e none f =
        rw (e, f, astar_search) (inr (refl, λ path (x, y, a, b, r). end_usable x y b path r f))
    by_start (some p) e (some q) f =
        let (at_p, i, n) = usable_point grid s p e in
        let (at_q, j, m) = usable_point grid g q f in
        rw (e, f, astar_search)
          (elim (searched grid p q turning_cost i n) [
            | inl (path, r, route) ↦ inl (path, r, (p, q, at_p, at_q, route))
            | inr (r, no_route) ↦ inr (
              r,
              λ path (x, y, a, b, h).
                  let ends = route_ends grid x y path h in
                  let same : p ≡ x = ground (arith, e, usable_at grid s x a ends.0 ends.1) in
                  let same' : q ≡ y = ground (arith, f, usable_at grid g y b ends.2 ends.3) in
                  no_route path (
                    subst (λ z. IsRoute grid z q path) (sym same)
                      (subst (λ z. IsRoute grid x z path) (sym same') h)),
            )
          ])
