-- ===== src/Paths/Correct.antt =====
-- The search finds a route where there is one, and none only where there is none.
use ap2030_uns.Prelude.{ℕ, zero, suc, ◌≡◌, ◌<◌, inl, inr, refl, sym, ap, subst, true, false, some}
use ap2030_uns.Prelude.{List, [], ◌∷◌, arith, Bool-cases}
use ap2030_uns.Paths.Grid.{Point, pt_eq, Grid, moves}
use ap2030_uns.Paths.Search.{
  Entry, State, pop_least, is_stale, record_parent, relax_all, Outcome, found, exhausted,
  out_of_fuel, search,
}
use ap2030_uns.Paths.Measure.{pt_eq_iff}
use ap2030_uns.Paths.Route.{IsStep, LeadsTo}
use ap2030_uns.Paths.Invariant.{Scores, Inv, EntryOk, ParentOk, waits, set_same}
use ap2030_uns.Paths.Relax.{work, IsKnown, expand-Relaxed}
use ap2030_uns.Paths.Take.{
  All-pop_least, waits-pop_least, length-pop_least, stale-Inv, closed, fresh_score, closed-linked,
  fresh-Inv,
}

module _ (grid : Grid) (start goal : Point) (turning_cost : ℕ) where
  -- Steps from closed positions lead to known ones.
  abbrev pub Spread : Scores → State → Type 0
  Spread c s =
      (p : Point) (v : ℕ) (q : Point)
      → c p ≡ some v
      → IsStep grid p q
      → IsKnown grid start goal turning_cost s q

  -- What an outcome says.
  abbrev pub Says : Outcome → Type 0
  Says (found g came_from) =
      (c : Scores) × ((p : Point) (v : ℕ)
        → c p ≡ some v
        → ParentOk grid start goal turning_cost c p v (came_from p))
      × (c goal ≡ some g)
  Says exhausted = (path : List Point) → ¬ LeadsTo grid goal start path
  Says out_of_fuel = ⊥

  known_closed :
      (c : Scores) (s : State)
      → s.open_set ≡ []
      → Inv grid start goal turning_cost c s
      → (p : Point) (v : ℕ) → s.g_scores p ≡ some v
      → c p ≡ some v
  known_closed c s e i p v k = elim (i.known p v k) [
    | inl a ↦ a
    | inr w ↦ absurd (nothing_waits (ap (waits p v) e) w)
  ]
    where
      nothing_waits : waits p v s.open_set ≡ false → waits p v s.open_set ≡ true → ⊥
      nothing_waits a b = cc

  closed_for_good :
      (c : Scores) (s : State)
      → s.open_set ≡ []
      → Inv grid start goal turning_cost c s
      → Spread c s
      → (path : List Point) (p : Point) (v : ℕ) → s.g_scores p ≡ some v
      → ¬ LeadsTo grid goal p path
  closed_for_good c s e i sp [] p v k l =
      apart (i.away p v (known_closed c s e i p v k)) ((pt_eq_iff p goal).1 l)
    where
      apart : pt_eq p goal ≡ false → pt_eq p goal ≡ true → ⊥
      apart a b = cc
  closed_for_good c s e i sp (q ∷ path) p v k (st, l) =
      let (w, m) = sp p v q (known_closed c s e i p v k) st in
      closed_for_good c s e i sp path q w m l

  pub search-Says :
      (fuel : ℕ) (c : Scores) (s : State) (l : List Entry)
      → Inv grid start goal turning_cost c (record s { open_set = l })
      → Spread c s
      → work grid start goal turning_cost (record s { open_set = l }) < fuel
      → Says (search grid goal turning_cost fuel (record s { open_set = l }))
  unfolding search
  search-Says zero c s l i sp h = absurd (omega arith)
  search-Says (suc fuel) c s [] i sp h =
      λ path. closed_for_good c (record s { open_set = [] }) refl i sp path start 0 i.origin
  search-Says (suc fuel) c s (x ∷ xs) i sp h =
      elim (Bool-cases (is_stale e.g (s.g_scores e.position))) [
        | inl b ↦ rw b (
            search-Says fuel c s rest (stale-Inv grid start goal turning_cost c s e rest taken b) sp
              shorter)
        | inr b ↦ elim (Bool-cases (pt_eq e.position goal)) [
          | inl k ↦
              rw (b, k)
                (
                  closed grid start goal turning_cost c s e rest taken b,
                  closed-linked grid start goal turning_cost c s e rest taken b,
                  set_same e.position goal e.g c ((pt_eq_iff e.position goal).0 k),
                )
          | inr k ↦
              let n =
                relax_all grid goal turning_cost e moves
                  (record_parent grid goal turning_cost e (record s { open_set = rest })) in
              let (c', j, sp', less) = expanded b k in
              rw (b, k) (search-Says fuel c' n n.open_set j sp' less)
        ]
      ]
    where
      e : Entry
      e = (pop_least x xs).0

      rest : List Entry
      rest = (pop_least x xs).1

      taken : Inv grid start goal turning_cost c (record s { open_set = e ∷ rest })
      taken = record {
        entries =
            All-pop_least (EntryOk grid start goal turning_cost c s.g_scores) x xs i.entries.0
              i.entries.1;
        unparented = i.unparented;
        linked = i.linked;
        known = λ p v k. elim (i.known p v k) [
          | inl a ↦ inl a
          | inr w ↦ inr (waits-pop_least p v x xs w)
        ];
        origin = i.origin;
        lower = i.lower;
        bounded = i.bounded;
        away = i.away;
      }

      shorter : work grid start goal turning_cost (record s { open_set = rest }) < fuel
      shorter = omega (arith, h, length-pop_least x xs)

      expanded :
          is_stale e.g (s.g_scores e.position) ≡ false
          → pt_eq e.position goal ≡ false
          → let n =
              relax_all grid goal turning_cost e moves
                (record_parent grid goal turning_cost e (record s { open_set = rest })) in
            (d : Scores) × Inv grid start goal turning_cost d n
            × Spread d n
            × (work grid start goal turning_cost n < fuel)
      expanded b k =
          let n =
            relax_all grid goal turning_cost e moves
              (record_parent grid goal turning_cost e (record s { open_set = rest })) in
          let score = fresh_score grid start goal turning_cost c s e rest taken b in
          let (relaxed, news) =
            expand-Relaxed grid start goal turning_cost
              (closed grid start goal turning_cost c s e rest taken b) e
              (record_parent grid goal turning_cost e (record s { open_set = rest }))
              (fresh-Inv grid start goal turning_cost c s e rest taken b k)
              (set_same e.position e.position e.g c refl) (i.bounded e.position e.g score) in
          (
            closed grid start goal turning_cost c s e rest taken b,
            relaxed.inv,
            λ p v q m st. elim (Bool-cases (pt_eq e.position p)) [
              | inl a ↦
                  news q (subst (λ z. IsStep grid z q) (sym ((pt_eq_iff e.position p).0 a)) st)
              | inr a ↦ relaxed.keeps q (sp p v q (ground (arith, m)) st)
            ],
            omega (arith, relaxed.falls, shorter),
          )
