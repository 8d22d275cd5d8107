-- ===== src/Paths/Push.antt =====
-- One neighbour that is pushed keeps the invariant.
use ap2030_uns.Prelude.{
  ℕ, ◌+◌, ◌≡◌, ◌≤◌, inl, inr, refl, ap, ◌∙◌, subst, true, false, Option, none, some,
}
use ap2030_uns.Prelude.{arith, Bool-cases}
use ap2030_uns.Paths.Grid.{Point, pt_eq, Grid}
use ap2030_uns.Paths.Search.{Entry, State, unit, set, improves, push}
use ap2030_uns.Paths.Measure.{pt_eq_iff}
use ap2030_uns.Paths.Route.{IsStep}
use ap2030_uns.Paths.Invariant.{
  Scores, set_same, set_other, All-imp, Inv, EntryOk, HasRoom, rate, room-set, room-new,
}

module _ (grid : Grid) (start goal : Point) (turning_cost : ℕ) where
  -- What a step from `current` to `p` at the score `v` may rely on.
  pub record Offer (c : Scores) (g : Scores) (current : Entry) (v : ℕ) (p : Point) : Type 0 where
    pub taken : c current.position ≡ some current.g
    pub room : HasRoom grid start goal turning_cost g current.g
    pub step : IsStep grid current.position p
    pub more : current.g + unit ≤ v
    pub less : v ≤ current.g + rate grid start goal turning_cost
    pub better : improves v (g p) ≡ true

  module _ (c : Scores) (s : State) (current : Entry) (v : ℕ) (p : Point)
      (i : Inv grid start goal turning_cost c s) (o : Offer c s.g_scores current v p) where
    pushed : State
    pushed = push grid goal turning_cost current v p s

    -- The start has the score 0, which nothing improves.
    offered_start : pt_eq p start ≡ false
    offered_start = elim (Bool-cases (pt_eq p start)) [
      | inl e ↦ absurd (
          omega (
            arith,
            no_better (s.g_scores p) (ap s.g_scores ((pt_eq_iff p start).0 e) ∙ i.origin) o.better,
          ))
      | inr e ↦ e
    ]
      where
        no_better : (b : Option ℕ) → b ≡ some 0 → improves v b ≡ true → 1 ≤ 0
        no_better none h k = absurd cc
        no_better (some w) h k = ground arith

    pub score_falls :
        (q : Point) (w : ℕ)
        → s.g_scores q ≡ some w
        → (u : ℕ) × (set p v s.g_scores q ≡ some u) × (u ≤ w)
    score_falls q w h = elim (Bool-cases (pt_eq p q)) [
      | inl e ↦ (
        v,
        set_same p q v s.g_scores ((pt_eq_iff p q).0 e),
        below (s.g_scores p) w (ap s.g_scores ((pt_eq_iff p q).0 e) ∙ h) o.better,
      )
      | inr e ↦ (w, set_other p q v s.g_scores e ∙ h, omega arith)
    ]
      where
        below : (b : Option ℕ) (w : ℕ) → b ≡ some w → improves v b ≡ true → v ≤ w
        below none w h k = absurd cc
        below (some b) w h k = ground arith

    entry_kept :
        (e : Entry)
        → EntryOk grid start goal turning_cost c s.g_scores e
        → EntryOk grid start goal turning_cost c (set p v s.g_scores) e
    entry_kept e h =
        let ((w, k, l), rest) = h in
        let (u, m, n) = score_falls e.position w k in ((u, m, omega arith), rest)

    pushed_room :
        (b : Option ℕ)
        → s.g_scores p ≡ b
        → HasRoom grid start goal turning_cost (set p v s.g_scores) v
    pushed_room none e =
        room-new grid start goal turning_cost s.g_scores p v current.g o.step.0 e o.less o.room
    pushed_room (some b) e =
        let kept =
          room-set grid start goal turning_cost s.g_scores p v b o.step.0 (i.bounded p b e) in
        let (u, m, l) = score_falls p b e in
        let same : v ≡ u = ground (arith, m, pt_eq_iff p p) in omega (arith, kept, l, same)

    pub pushed-Inv : Inv grid start goal turning_cost c (push grid goal turning_cost current v p s)
    unfolding pushed
    pushed-Inv = record {
      entries = (
        (
          (v, set_same p p v s.g_scores refl, omega arith),
          (offered_start, o.step, current.g, o.taken, o.more),
        ),
        All-imp (EntryOk grid start goal turning_cost c s.g_scores)
            (EntryOk grid start goal turning_cost c (set p v s.g_scores)) entry_kept s.open_set
            i.entries,
      );
      unparented = i.unparented;
      linked = i.linked;
      known = λ q w h. elim (Bool-cases (pt_eq p q)) [
        | inl e ↦ inr (ground (arith, h))
        | inr e ↦ elim (i.known q w (ground (arith, h))) [
          | inl k ↦ inl k
          | inr k ↦ inr (ground (arith, k))
        ]
      ];
      origin = set_other p start v s.g_scores offered_start ∙ i.origin;
      lower = λ q w h.
          let (u, m, n) = i.lower q w h in let (x, y, z) = score_falls q u m in (x, y, omega arith);
      bounded = λ q w h. elim (Bool-cases (pt_eq p q)) [
        | inl e ↦
            let same : v ≡ w = ground (arith, h) in
            subst (λ x. HasRoom grid start goal turning_cost (set p v s.g_scores) x) same
              (pushed_room (s.g_scores p) refl)
        | inr e ↦
            room-set grid start goal turning_cost s.g_scores p v w o.step.0
              (i.bounded q w (ground (arith, h)))
      ];
      away = i.away;
    }
