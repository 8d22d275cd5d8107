-- ===== src/Planar/Rings.antt =====
-- Planar_Controller/xbot_planner.py: the search through squares around a cell.
use ap2030_uns.Prelude.{
  ℕ, zero, suc, ◌+◌, ◌-◌, ◌*◌, ◌≡◌, ◌≤◌, ◌<◌, ◌∙◌, inl, inr, refl, sym, ap, subst, Bool, true,
  false, ◌&&◌, Option, none, some, if◌then◌else◌, ◌==◌, ltb, arith, Bool-cases,
}
use ap2030_uns.Paths.Grid.{Point, distance, Grid}
use ap2030_uns.Planar.Mover.{
  is_free, offset_cell, ring_cell, is_perimeter, search_column, search_ring, search_rings,
}

-- The side of the smallest square around a cell that has another one on it, halved.
abbrev pub chebyshev : Point → Point → ℕ
chebyshev p q =
    if ltb (distance p.0 q.0) (distance p.1 q.1) then distance p.1 q.1 else distance p.0 q.0

module _ (grid : Grid) (start : Point) where
  -- What a search among the perimeter's cells has found.
  abbrev pub IsBlocked : ℕ → ℕ → ℕ → Type 0
  IsBlocked radius i j =
      is_perimeter grid start radius i j ≡ true
      → is_free grid (ring_cell grid start radius i j) ≡ false

  abbrev pub IsFound : ℕ → ℕ → ℕ → Point → Type 0
  IsFound radius i j p =
      (is_perimeter grid start radius i j ≡ true)
      × (ring_cell grid start radius i j ≡ some p)
      × (is_free grid (some p) ≡ true)

  abbrev pub ColumnSearched : ℕ → ℕ → ℕ → ℕ → Option Point → Type 0
  ColumnSearched radius i j n none = (k : ℕ) → j ≤ k → k < j + n → IsBlocked radius i k
  ColumnSearched radius i j n (some p) = (k : ℕ) × (k < j + n) × IsFound radius i k p

  pub found :
      (radius i j : ℕ) (o : Option Point)
      → ring_cell grid start radius i j ≡ o
      → is_perimeter grid start radius i j ≡ true
      → is_free grid o ≡ true
      → (p : Point) × (o ≡ some p) × IsFound radius i j p
  found radius i j none e h f = absurd cc
  found radius i j (some p) e h f = (p, refl, (h, e, f))

  pub search_column_lem :
      (radius i j n : ℕ) → ColumnSearched radius i j n (search_column grid start radius i j n)
  unfolding search_column
  search_column_lem radius i j zero = λ k l u. absurd (omega (arith, l, u))
  search_column_lem radius i j (suc n) =
      by_flag (is_perimeter grid start radius i j) (is_free grid (ring_cell grid start radius i j))
        refl refl (search_column_lem radius i (suc j) n)
    where
      rest : Option Point
      rest = search_column grid start radius i (suc j) n

      later :
          (o : Option Point)
          → ColumnSearched radius i (suc j) n o
          → IsBlocked radius i j
          → ColumnSearched radius i j (suc n) o
      later none h b = λ k l u. elim (Bool-cases (k == j)) [
        | inl e ↦ subst (IsBlocked radius i) (same j k e) b
        | inr e ↦ h k (ground (arith, e, l)) (omega (arith, u))
      ]
        where
          same : (j k : ℕ) → (k == j) ≡ true → j ≡ k
          same j k e = ground (arith, e)
      later (some p) h b = let (k, l, f) = h in (k, omega (arith, l), f)

      by_flag :
          (a b : Bool)
          → is_perimeter grid start radius i j ≡ a
          → is_free grid (ring_cell grid start radius i j) ≡ b
          → ColumnSearched radius i (suc j) n rest
          → ColumnSearched radius i j
              (suc n)
              (if a && b then ring_cell grid start radius i j else rest)
      by_flag true true e f r =
          let (p, at, h) = found radius i j (ring_cell grid start radius i j) refl e f in
          subst (ColumnSearched radius i j (suc n)) (sym at) (j, omega arith, h)
      by_flag true false e f r = later rest r (λ h. f)
      by_flag false b e f r = later rest r (λ h. absurd cc)

  abbrev pub RingSearched : ℕ → ℕ → ℕ → Option Point → Type 0
  RingSearched radius i n none =
      (k l : ℕ) → i ≤ k → k < i + n → l < 2 * radius + 1 → IsBlocked radius k l
  RingSearched radius i n (some p) =
      (k l : ℕ) × (k < i + n) × (l < 2 * radius + 1) × IsFound radius k l p

  pub search_ring_lem :
      (radius i n : ℕ) → RingSearched radius i n (search_ring grid start radius i n)
  unfolding search_ring
  search_ring_lem radius i zero = λ k l a b c. absurd (omega (arith, a, b))
  search_ring_lem radius i (suc n) =
      by_column (search_column grid start radius i 0 (2 * radius + 1))
        (search_column_lem radius i 0 (2 * radius + 1)) (search_ring_lem radius (suc i) n)
    where
      later :
          (o : Option Point)
          → RingSearched radius (suc i) n o
          → ((l : ℕ) → l < 2 * radius + 1 → IsBlocked radius i l)
          → RingSearched radius i (suc n) o
      later none h b = λ k l x y z. elim (Bool-cases (k == i)) [
        | inl e ↦ subst (λ c. IsBlocked radius c l) (same i k e) (b l z)
        | inr e ↦ h k l (ground (arith, e, x)) (omega (arith, y)) z
      ]
        where
          same : (i k : ℕ) → (k == i) ≡ true → i ≡ k
          same i k e = ground (arith, e)
      later (some p) h b = let (k, l, x, y, f) = h in (k, l, omega (arith, x), y, f)

      by_column :
          (o : Option Point)
          → ColumnSearched radius i 0 (2 * radius + 1) o
          → RingSearched radius (suc i) n (search_ring grid start radius (suc i) n)
          → RingSearched radius i (suc n) (elim o as (λ x. Option Point) [
            | some p ↦ some p
            | none ↦ search_ring grid start radius (suc i) n
          ])
      by_column none h r =
          later (search_ring grid start radius (suc i) n) r
            (λ l u. h l (omega arith) (omega (arith, u)))
      by_column (some p) h r = let (l, u, f) = h in (i, l, omega arith, omega (arith, u), f)

  -- The points at one distance are those of the ring.
  pub offset_of :
      (radius a b : ℕ) → distance a b ≤ radius → offset_cell a radius (b + radius - a) ≡ some b
  offset_of radius a b h = ground (arith, h)

  pub on_perimeter :
      (radius : ℕ) (q : Point)
      → chebyshev start q ≡ radius
      → is_perimeter grid start radius (q.0 + radius - start.0) (q.1 + radius - start.1) ≡ true
  on_perimeter radius q h = ground (arith, h)

  pub ring_point :
      (radius i j : ℕ) (p : Point)
      → i < 2 * radius + 1
      → j < 2 * radius + 1
      → is_perimeter grid start radius i j ≡ true
      → ring_cell grid start radius i j ≡ some p
      → chebyshev start p ≡ radius
  ring_point radius i j p a b h e = ground (arith, a, b, h, e)

  pub ring_at :
      (radius : ℕ) (q : Point)
      → chebyshev start q ≡ radius
      → ring_cell grid start radius (q.0 + radius - start.0) (q.1 + radius - start.1) ≡ some q
  ring_at radius (x, y) h = ground (arith, h)

  pub in_ring :
      (radius : ℕ) (q : Point)
      → chebyshev start q ≡ radius
      → (q.0 + radius - start.0 < 2 * radius + 1) × (q.1 + radius - start.1 < 2 * radius + 1)
  in_ring radius q h = (ground (arith, h), ground (arith, h))

  abbrev pub AtRadius : ℕ → Option Point → Type 0
  AtRadius radius none = (q : Point) → chebyshev start q ≡ radius → is_free grid (some q) ≡ false
  AtRadius radius (some p) = (chebyshev start p ≡ radius) × (is_free grid (some p) ≡ true)

  pub ring-AtRadius :
      (radius : ℕ) (o : Option Point) → RingSearched radius 0 (2 * radius + 1) o → AtRadius radius o
  ring-AtRadius radius none h = λ q e.
      let i : ℕ = q.0 + radius - start.0 in
      let j : ℕ = q.1 + radius - start.1 in
      ap (is_free grid) (sym (ring_at radius q e))
      ∙ h i j (omega arith) (omega (arith, (in_ring radius q e).0)) (in_ring radius q e).1
          (on_perimeter radius q e)
  ring-AtRadius radius (some p) (i, j, a, b, (h, e, f)) =
      (ring_point radius i j p (omega (arith, a)) b h e, f)

  -- The nearest free cell, from a radius on and below another one.
  abbrev pub AllNearest : ℕ → ℕ → Option Point → Type 0
  AllNearest radius n none =
      (q : Point)
      → radius ≤ chebyshev start q
      → chebyshev start q < radius + n
      → is_free grid (some q) ≡ false
  AllNearest radius n (some p) =
      (chebyshev start p < radius + n)
      × (is_free grid (some p) ≡ true)
      × ((q : Point)
          → radius ≤ chebyshev start q
          → chebyshev start q < chebyshev start p
          → is_free grid (some q) ≡ false)

  pub search_rings_lem : (radius n : ℕ) → AllNearest radius n (search_rings grid start radius n)
  unfolding search_rings
  search_rings_lem radius zero = λ q a b. absurd (omega (arith, a, b))
  search_rings_lem radius (suc n) =
      by_ring (search_ring grid start radius 0 (2 * radius + 1))
        (ring-AtRadius radius (search_ring grid start radius 0 (2 * radius + 1))
          (search_ring_lem radius 0 (2 * radius + 1)))
        (search_rings_lem (suc radius) n)
    where
      beyond :
          (q : Point)
          → radius ≤ chebyshev start q
          → (chebyshev start q == radius) ≡ false
          → suc radius ≤ chebyshev start q
      beyond q a e = ground (arith, a, e)

      same : (a b : ℕ) → (a == b) ≡ true → a ≡ b
      same a b e = ground (arith, e)

      later :
          (o : Option Point)
          → AtRadius radius none
          → AllNearest (suc radius) n o
          → AllNearest radius (suc n) o
      later none h k = λ q a b. elim (Bool-cases (chebyshev start q == radius)) [
        | inl e ↦ h q (same (chebyshev start q) radius e)
        | inr e ↦ k q (beyond q a e) (omega (arith, b))
      ]
      later (some p) h (l, f, k) = (
        omega (arith, l),
        f,
        λ q a b. elim (Bool-cases (chebyshev start q == radius)) [
          | inl e ↦ h q (same (chebyshev start q) radius e)
          | inr e ↦ k q (beyond q a e) b
        ],
      )

      by_ring :
          (o : Option Point)
          → AtRadius radius o
          → AllNearest (suc radius) n (search_rings grid start (suc radius) n)
          → AllNearest radius (suc n) (elim o as (λ x. Option Point) [
            | some p ↦ some p
            | none ↦ search_rings grid start (suc radius) n
          ])
      by_ring none h r = later (search_rings grid start (suc radius) n) h r
      by_ring (some p) (e, f) r = (omega (arith, e), f, λ q a b. absurd (omega (arith, a, b, e)))
