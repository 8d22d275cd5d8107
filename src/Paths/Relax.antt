-- ===== src/Paths/Relax.antt =====
-- The loop over the neighbours keeps the invariant, makes each neighbour known, and adds no more
-- entries than it lowers the scores.
use ap2030_uns.Prelude.{
  ℕ, ◌+◌, ◌*◌, ◌≡◌, ◌≤◌, ◌<◌, ◌⊎◌, inl, inr, refl, sym, ap, ◌∙◌, true, false, Option, none, some,
}
use ap2030_uns.Prelude.{List, [], ◌∷◌, arith, Bool-cases, length}
use ap2030_uns.Paths.Grid.{Point, Grid, Move, up, down, right, left, moves, neighbor}
use ap2030_uns.Paths.Search.{
  Entry, State, unit, improves, push, offer, turn_penalty, relax, relax_all,
}
use ap2030_uns.Paths.Measure.{weight, total, total-set, cells, is_cell-cells}
use ap2030_uns.Paths.Route.{IsStep, neighbor-IsStep, IsStep-neighbor}
use ap2030_uns.Paths.Invariant.{Scores, Inv, HasRoom, rate, size, room-set, set_same}
use ap2030_uns.Paths.Push.{Offer, pushed-Inv, score_falls}

module _ (grid : Grid) (start goal : Point) (turning_cost : ℕ) where
  abbrev pub top : ℕ
  top = rate grid start goal turning_cost * size grid start goal turning_cost + 1

  -- The work that is left: the entries, and what the scores may still fall.
  abbrev pub work : State → ℕ
  work s = length s.open_set + total (weight top) (cells grid) s.g_scores

  abbrev pub IsKnown : State → Point → Type 0
  IsKnown s p = (v : ℕ) × (s.g_scores p ≡ some v)

  -- What one pass over neighbours of `current` gives.
  pub record Relaxed (c : Scores) (current : Entry) (s n : State) : Type 0 where
    pub inv : Inv grid start goal turning_cost c n
    pub room : HasRoom grid start goal turning_cost n.g_scores current.g
    pub keeps : (q : Point) → IsKnown s q → IsKnown n q
    pub falls : work n ≤ work s

  Relaxed-same :
      (c : Scores) (current : Entry) (s : State)
      → Inv grid start goal turning_cost c s
      → HasRoom grid start goal turning_cost s.g_scores current.g
      → Relaxed c current s s
  Relaxed-same c current s i r = record { inv = i; room = r; keeps = λ q k. k; falls = omega arith }

  turn_penalty_le :
      (o : Option Point) (p : Point) (d : Move)
      → turn_penalty grid goal turning_cost o p d ≤ turning_cost
  turn_penalty_le none p d = omega arith
  turn_penalty_le (some q) p d = ground arith

  below_weight : (v : ℕ) (b : Option ℕ) → improves v b ≡ true → v < top → v < weight top b
  below_weight v none h l = l
  below_weight v (some w) h l = ground arith

  pushed-Relaxed :
      (c : Scores) (s : State) (current : Entry) (v : ℕ) (p : Point)
      → Inv grid start goal turning_cost c s
      → Offer grid start goal turning_cost c s.g_scores current v p
      → Relaxed c current s (push grid goal turning_cost current v p s)
  pushed-Relaxed c s current v p i o =
      let inv = pushed-Inv grid start goal turning_cost c s current v p i o in
      let room_v = inv.bounded p v (set_same p p v s.g_scores refl) in
      let lower =
        total-set (weight top) s.g_scores p v (cells grid) (is_cell-cells grid p o.step.0)
          (below_weight v (s.g_scores p) o.better (omega arith)) in
      record {
        inv = inv;
        room = room-set grid start goal turning_cost s.g_scores p v current.g o.step.0 o.room;
        keeps = λ q k.
            let (u, m, l) =
              score_falls grid start goal turning_cost c s current v p i o q k.0 k.1 in
            (u, m);
        falls = omega (arith, lower);
      }

  offer-Relaxed :
      (c : Scores) (s : State) (current : Entry) (v : ℕ) (o : Option Point)
      → Inv grid start goal turning_cost c s
      → c current.position ≡ some current.g
      → HasRoom grid start goal turning_cost s.g_scores current.g
      → current.g + unit ≤ v
      → v ≤ current.g + rate grid start goal turning_cost
      → ((p : Point) → o ≡ some p → IsStep grid current.position p)
      → Relaxed c current s (offer grid goal turning_cost current v o s)
        × ((p : Point) → o ≡ some p → IsKnown (offer grid goal turning_cost current v o s) p)
  offer-Relaxed c s current v none i t r m l st = (Relaxed-same c current s i r, λ p e. absurd cc)
  offer-Relaxed c s current v (some p) i t r m l st =
      elim (Bool-cases (improves v (s.g_scores p))) [
        | inl b ↦ rw b (
          pushed-Relaxed c s current v p i
              (record { taken = t; room = r; step = st p refl; more = m; less = l; better = b }),
          λ q e. (v, set_same p q v s.g_scores (ground (arith, e))),
        )
        | inr b ↦ rw b (Relaxed-same c current s i r, λ q e. not_better q (s.g_scores q) refl e b)
      ]
    where
      not_better :
          (q : Point) (w : Option ℕ)
          → s.g_scores q ≡ w
          → ◌≡◌ {A = Option Point} (some p) (some q)
          → improves v (s.g_scores p) ≡ false
          → IsKnown s q
      not_better q none h e b = absurd cc
      not_better q (some w) h e b = (w, h)

  relax-Relaxed :
      (c : Scores) (s : State) (current : Entry) (d : Move)
      → Inv grid start goal turning_cost c s
      → c current.position ≡ some current.g
      → HasRoom grid start goal turning_cost s.g_scores current.g
      → let n = relax grid goal turning_cost current d s in
        Relaxed c current s n
        × ((p : Point) → neighbor grid d current.position ≡ some p → IsKnown n p)
  unfolding relax
  relax-Relaxed c s current d i t r =
      let penalty = turn_penalty_le current.parent current.position d in
      offer-Relaxed c s current
        (current.g + unit + turn_penalty grid goal turning_cost current.parent current.position d)
        (neighbor grid d current.position) i t r (omega arith) (omega (arith, penalty))
        (λ p e. neighbor-IsStep grid d current.position p e)

  IsListed : Move → List Move → Type 0
  IsListed d [] = ⊥
  IsListed d (m ∷ ms) = (d ≡ m) ⊎ IsListed d ms

  relax_all-Relaxed :
      (c : Scores) (current : Entry) (ds : List Move) (s : State)
      → Inv grid start goal turning_cost c s
      → c current.position ≡ some current.g
      → HasRoom grid start goal turning_cost s.g_scores current.g
      → let n = relax_all grid goal turning_cost current ds s in
        Relaxed c current s n
        × ((d : Move) (p : Point)
            → IsListed d ds
            → neighbor grid d current.position ≡ some p
            → IsKnown n p)
  unfolding relax_all IsListed
  relax_all-Relaxed c current [] s i t r = (Relaxed-same c current s i r, λ d p l e. absurd l)
  relax_all-Relaxed c current (m ∷ ms) s i t r =
      let (first, new) = relax-Relaxed c s current m i t r in
      let (rest, news) =
        relax_all-Relaxed c current ms (relax grid goal turning_cost current m s) first.inv t
          first.room in
      (
        record {
          inv = rest.inv;
          room = rest.room;
          keeps = λ q k. rest.keeps q (first.keeps q k);
          falls = omega (arith, first.falls, rest.falls);
        },
        λ d p l e. elim l [
          | inl same ↦
              rest.keeps p (new p (ap (λ x. neighbor grid x current.position) (sym same) ∙ e))
          | inr later ↦ news d p later e
        ],
      )

  -- After the loop every free neighbour is known.
  pub expand-Relaxed :
      (c : Scores) (current : Entry) (s : State)
      → Inv grid start goal turning_cost c s
      → c current.position ≡ some current.g
      → HasRoom grid start goal turning_cost s.g_scores current.g
      → let n = relax_all grid goal turning_cost current moves s in
        Relaxed c current s n × ((p : Point) → IsStep grid current.position p → IsKnown n p)
  unfolding IsListed
  expand-Relaxed c current s i t r =
      let (all, news) = relax_all-Relaxed c current moves s i t r in
      (
        all,
        λ p st. let (d, e) = IsStep-neighbor grid current.position p st in news d p (listed d) e,
      )
    where
      listed : (d : Move) → IsListed d moves
      listed up = inl refl
      listed down = inr (inl refl)
      listed right = inr (inr (inl refl))
      listed left = inr (inr (inr (inl refl)))
