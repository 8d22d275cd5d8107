-- ===== src/Paths/Take.antt =====
-- Taking an entry from the heap: a stale one changes nothing, and another one closes its position.
use ap2030_uns.Prelude.{
  ℕ, suc, ◌≡◌, ◌≤◌, inl, inr, refl, sym, ap, ◌∙◌, subst, true, false, Option, none, some,
}
use ap2030_uns.Prelude.{List, [], ◌∷◌, All, arith, Bool-cases, length}
use ap2030_uns.Paths.Grid.{Point, pt_eq, Grid}
use ap2030_uns.Paths.Search.{Entry, State, set, less, pop_least, is_stale, record_parent}
use ap2030_uns.Paths.Measure.{pt_eq_iff}
use ap2030_uns.Paths.Invariant.{Scores, waits, set_same, set_other, Inv, EntryOk, ParentOk, All-imp}

pub All-pop_least {ℓ} :
    (P : Entry → Type ℓ) (e : Entry) (l : List Entry)
    → P e
    → All P l
    → P (pop_least e l).0 × All P (pop_least e l).1
unfolding pop_least
All-pop_least P e [] h a = (h, tt)
All-pop_least P e (x ∷ xs) h a =
    let rest = All-pop_least P x xs a.0 a.1 in
    elim (Bool-cases (less (pop_least x xs).0 e)) [
      | inl b ↦ rw b (rest.0, (h, rest.1))
      | inr b ↦ rw b (h, a)
    ]

pub waits-pop_least :
    (p : Point) (v : ℕ) (e : Entry) (l : List Entry)
    → waits p v (e ∷ l) ≡ true
    → waits p v ((pop_least e l).0 ∷ (pop_least e l).1) ≡ true
unfolding pop_least
waits-pop_least p v e [] h = h
waits-pop_least p v e (x ∷ xs) h = elim (Bool-cases (less (pop_least x xs).0 e)) [
  | inl b ↦ rw b (ground (arith, h, waits-pop_least p v x xs))
  | inr b ↦ rw b h
]

pub length-pop_least : (e : Entry) (l : List Entry) → length (pop_least e l).1 ≡ length l
unfolding pop_least
length-pop_least e [] = refl
length-pop_least e (x ∷ xs) = elim (Bool-cases (less (pop_least x xs).0 e)) [
  | inl b ↦ rw b (ap suc (length-pop_least x xs))
  | inr b ↦ rw b refl
]

module _ (grid : Grid) (start goal : Point) (turning_cost : ℕ) where
  module _ (c : Scores) (s : State) (e : Entry) (rest : List Entry)
      (i : Inv grid start goal turning_cost c (record s { open_set = e ∷ rest })) where
    abbrev pub remaining : State
    remaining = record s { open_set = rest }

    score_of : (v : ℕ) × (s.g_scores e.position ≡ some v) × (v ≤ e.g)
    score_of = i.entries.0.0

    pub stale-Inv :
        is_stale e.g (s.g_scores e.position) ≡ true
        → Inv grid start goal turning_cost c (record s { open_set = rest })
    stale-Inv h = record {
      entries = i.entries.1;
      unparented = i.unparented;
      linked = i.linked;
      known = λ p v k. elim (i.known p v k) [ inl a ↦ inl a | inr w ↦ inr (not_first p v k w) ];
      origin = i.origin;
      lower = i.lower;
      bounded = i.bounded;
      away = i.away;
    }
      where
        not_first :
            (p : Point) (v : ℕ)
            → s.g_scores p ≡ some v
            → waits p v (e ∷ rest) ≡ true
            → waits p v rest ≡ true
        not_first p v k w = elim (Bool-cases (pt_eq e.position p)) [
          | inl q ↦
              let same : s.g_scores e.position ≡ some v =
                ap s.g_scores ((pt_eq_iff e.position p).0 q) ∙ k in
              let stale : is_stale e.g (some v) ≡ true = ap (is_stale e.g) (sym same) ∙ h in
              ground (arith, w, stale)
          | inr q ↦ ground (arith, w)
        ]

    module _ (fresh : is_stale e.g (s.g_scores e.position) ≡ false) where
      -- The entry has the score of its position.
      pub fresh_score : s.g_scores e.position ≡ some e.g
      fresh_score =
          let (v, k, l) = score_of in
          let not_less : is_stale e.g (some v) ≡ false = ap (is_stale e.g) (sym k) ∙ fresh in
          let same : v ≡ e.g = ground (arith, l, not_less) in k ∙ ap some same

      abbrev pub closed : Scores
      closed = set e.position e.g c

      closed_falls : (q : Point) (u : ℕ) → c q ≡ some u → (w : ℕ) × (closed q ≡ some w) × (w ≤ u)
      closed_falls q u h = elim (Bool-cases (pt_eq e.position q)) [
        | inl k ↦
            let (w, m, l) = i.lower q u h in
            let same : some w ≡ some e.g =
              sym m ∙ ap s.g_scores (sym ((pt_eq_iff e.position q).0 k)) ∙ fresh_score in
            (
              e.g,
              set_same e.position q e.g c ((pt_eq_iff e.position q).0 k),
              ground (arith, same, l),
            )
        | inr k ↦ (u, set_other e.position q e.g c k ∙ h, omega arith)
      ]

      parent_kept :
          (p : Point) (v : ℕ) (o : Option Point)
          → ParentOk grid start goal turning_cost c p v o
          → ParentOk grid start goal turning_cost closed p v o
      parent_kept p v none h = h
      parent_kept p v (some q) h =
          let (a, b, u, k, l) = h in let (w, m, n) = closed_falls q u k in (a, b, w, m, omega arith)

      abbrev came_by : Option Point → Point → Option Point
      came_by o = elim o [ none ↦ s.came_from | some q ↦ set e.position q s.came_from ]

      score_is : (p : Point) (v : ℕ) → pt_eq e.position p ≡ true → closed p ≡ some v → e.g ≡ v
      score_is p v k h = ground (arith, h)

      linked_by :
          (o : Option Point)
          → ParentOk grid start goal turning_cost c e.position e.g o
          → (p : Point) (v : ℕ) → closed p ≡ some v
          → ParentOk grid start goal turning_cost closed p v (came_by o p)
      linked_by none a p v h = elim (Bool-cases (pt_eq e.position p)) [
        | inl k ↦
            let here : p ≡ start = sym ((pt_eq_iff e.position p).0 k) ∙ a in
            subst (ParentOk grid start goal turning_cost closed p v)
              (sym (ap s.came_from here ∙ i.unparented)) here
        | inr k ↦ parent_kept p v (s.came_from p) (i.linked p v (ground (arith, h)))
      ]
      linked_by (some q) a p v h = elim (Bool-cases (pt_eq e.position p)) [
        | inl k ↦
            let same : e.position ≡ p = (pt_eq_iff e.position p).0 k in
            let kept = parent_kept e.position e.g (some q) a in
            subst (ParentOk grid start goal turning_cost closed p v)
              (sym (set_same e.position p q s.came_from same))
              (subst (λ x. ParentOk grid start goal turning_cost closed x v (some q)) same
                (subst (λ w. ParentOk grid start goal turning_cost closed e.position w (some q))
                  (score_is p v k h) kept))
        | inr k ↦
            subst (ParentOk grid start goal turning_cost closed p v)
              (sym (set_other e.position p q s.came_from k))
              (parent_kept p v (s.came_from p) (i.linked p v (ground (arith, h))))
      ]

      pub closed-linked :
          (p : Point) (v : ℕ)
          → closed p ≡ some v
          → ParentOk grid start goal turning_cost closed p v
              ((record_parent grid goal turning_cost e remaining).came_from p)
      closed-linked p v h = linked_by e.parent i.entries.0.1 p v h

      unparented_by :
          (o : Option Point)
          → ParentOk grid start goal turning_cost c e.position e.g o
          → came_by o start ≡ none
      unparented_by none a = i.unparented
      unparented_by (some q) a = set_other e.position start q s.came_from a.0 ∙ i.unparented

      pub fresh-Inv :
          pt_eq e.position goal ≡ false
          → Inv grid start goal turning_cost closed
              (record_parent grid goal turning_cost e remaining)
      fresh-Inv off = record {
        entries =
            All-imp (EntryOk grid start goal turning_cost c s.g_scores)
              (EntryOk grid start goal turning_cost closed s.g_scores)
              (λ a h. (h.0, parent_kept a.position a.g a.parent h.1)) rest i.entries.1;
        unparented = unparented_by e.parent i.entries.0.1;
        linked = closed-linked;
        known = λ p v k. elim (Bool-cases (pt_eq e.position p)) [
          | inl q ↦
              let here = (pt_eq_iff e.position p).0 q in
              inl (set_same e.position p e.g c here ∙ sym fresh_score ∙ ap s.g_scores here ∙ k)
          | inr q ↦ elim (i.known p v k) [
            | inl a ↦ inl (set_other e.position p e.g c q ∙ a)
            | inr w ↦ inr (ground (arith, w))
          ]
        ];
        origin = i.origin;
        lower = λ p v h. elim (Bool-cases (pt_eq e.position p)) [
          | inl q ↦ (
            e.g,
            ap s.g_scores (sym ((pt_eq_iff e.position p).0 q)) ∙ fresh_score,
            omega (arith, score_is p v q h),
          )
          | inr q ↦ i.lower p v (ground (arith, h))
        ];
        bounded = i.bounded;
        away = λ p v h. elim (Bool-cases (pt_eq e.position p)) [
          | inl q ↦ subst (λ x. pt_eq x goal ≡ false) ((pt_eq_iff e.position p).0 q) off
          | inr q ↦ i.away p v (ground (arith, h))
        ];
      }
