-- ===== src/Planning/Hierarchy.antt =====
-- `_resolve_asset_hierarchies` of planner_service.py: the assets below the given ones, breadth
-- first. `children` is what the hierarchy of an asset names, and [] where it has none or its
-- lookup raises, which the source catches. The loop takes fuel, one for each turn.
use ap2030_uns.Prelude.{
  ℕ, zero, suc, ◌+◌, ◌≡◌, ◌≤◌, refl, sym, subst, true, false, ◌||◌, Option, none, some, List, [],
  ◌∷◌, ◌++◌,
}
use ap2030_uns.Prelude.{
  arith, if◌then◌else◌, codes_eq, codes_eq_iff, length, length-append, Bool-cases, inl, inr,
}
use ap2030_uns.Planning.Text.{Text, is_in}

-- `child_id not in seen`
abbrev pub unseen : List Text → List Text → List Text
unseen seen [] = []
unseen seen (c ∷ cs) = let rest = unseen seen cs in if is_in c seen then rest else c ∷ rest

module _ (children : Text → List Text) where
  -- `seen` and `all_assets` hold the same IDs; the model keeps the list.
  unfoldable pub resolve : ℕ → List Text → List Text → Option (List Text)
  resolve zero [] seen = some seen
  resolve zero (a ∷ queue) seen = none
  resolve (suc fuel) [] seen = some seen
  resolve (suc fuel) (a ∷ queue) seen =
      let now = seen ++ a ∷ [] in
      let skipped = resolve fuel queue seen in
      let visited = resolve fuel (queue ++ unseen now (children a)) now in
      if is_in a seen then skipped else visited

  -- The queue entries that the assets of a list may still add.
  abbrev pub potential : List Text → List Text → ℕ
  potential [] seen = 0
  potential (u ∷ us) seen =
      let rest = potential us seen in if is_in u seen then rest else length (children u) + rest

is_in-append : (x : Text) (xs ys : List Text) → is_in x (xs ++ ys) ≡ (is_in x xs || is_in x ys)
is_in-append x [] ys = refl
is_in-append x (y ∷ xs) ys = ground (arith, is_in-append x xs ys)

abbrev pub DistinctAssets : List Text → Type 0
DistinctAssets [] = Unit
DistinctAssets (a ∷ l) = (is_in a l ≡ false) × DistinctAssets l

codes_eq_comm : (s t : Text) → codes_eq s t ≡ codes_eq t s
codes_eq_comm s t = ground (arith, codes_eq_iff s t, codes_eq_iff t s)

DistinctAssets-snoc :
    (a : Text) (l : List Text) → DistinctAssets l → is_in a l ≡ false → DistinctAssets (l ++ a ∷ [])
DistinctAssets-snoc a [] d h = (refl, tt)
DistinctAssets-snoc a (b ∷ l) d h = (
  ground (arith, is_in-append b l (a ∷ []), codes_eq_comm a b),
  DistinctAssets-snoc a l d.1 (ground arith),
)

length-unseen : (seen cs : List Text) → length (unseen seen cs) ≤ length cs
length-unseen seen [] = omega arith
length-unseen seen (c ∷ cs) = ground (arith, length-unseen seen cs)

is_in-unseen :
    (x : Text) (seen cs : List Text)
    → is_in x cs ≡ true
    → (is_in x seen || is_in x (unseen seen cs)) ≡ true
is_in-unseen x seen [] h = cc
is_in-unseen x seen (c ∷ cs) h = ground (arith, is_in-unseen x seen cs, codes_eq_iff c x)

unseen-is_in :
    (x : Text) (seen cs : List Text) → is_in x (unseen seen cs) ≡ true → is_in x cs ≡ true
unseen-is_in x seen [] h = h
unseen-is_in x seen (c ∷ cs) h = ground (arith, unseen-is_in x seen cs)

module _ (children : Text → List Text) where
  potential-le :
      (us seen : List Text) (a : Text)
      → potential children us (seen ++ a ∷ []) ≤ potential children us seen
  potential-le [] seen a = omega arith
  potential-le (u ∷ us) seen a =
      ground (arith, is_in-append u seen (a ∷ []), potential-le us seen a)

  potential-visit :
      (us seen : List Text) (a : Text)
      → is_in a us ≡ true
      → is_in a seen ≡ false
      → length (children a) + potential children us (seen ++ a ∷ []) ≤ potential children us seen
  potential-visit [] seen a h k = absurd cc
  potential-visit (u ∷ us) seen a h k = ground (
    arith,
    is_in-append u seen (a ∷ []),
    potential-visit us seen a,
    potential-le us seen a,
    codes_eq_iff u a,
    codes_eq_comm u a,
  )

  -- What the loop keeps for its queue and the assets seen: they are known, the seen ones do not
  -- repeat, and what the seen ones name is seen or in the queue.
  record Searching (us queue seen : List Text) : Type 0 where
    known : (x : Text) → is_in x queue ≡ true → is_in x us ≡ true
    distinct : DistinctAssets seen
    named :
        (x y : Text)
        → is_in x seen ≡ true
        → is_in y (children x) ≡ true
        → (is_in y seen || is_in y queue) ≡ true

  -- The assets found: all that were seen or queued, and what each of them names, none twice.
  pub record Found (queue seen found : List Text) : Type 0 where
    pub has : (x : Text) → (is_in x seen || is_in x queue) ≡ true → is_in x found ≡ true
    pub closed :
        (x y : Text) → is_in x found ≡ true → is_in y (children x) ≡ true → is_in y found ≡ true
    pub distinct : DistinctAssets found

  abbrev pub Finds : ℕ → List Text → List Text → Type 0
  Finds fuel queue seen =
      (found : List Text) × (resolve children fuel queue seen ≡ some found) × Found queue seen found

  Found-empty : (us seen : List Text) → Searching us [] seen → Found [] seen seen
  Found-empty us seen v = record {
    has = λ x h. ground arith;
    closed = λ x y h k. ground (arith, v.named x y);
    distinct = v.distinct;
  }

  after_skip :
      (us queue seen : List Text) (a : Text)
      → is_in a seen ≡ true
      → Searching us (a ∷ queue) seen
      → Searching us queue seen
  after_skip us queue seen a h v = record {
    known = λ x k. v.known x (ground arith);
    distinct = v.distinct;
    named = λ x y k l. ground (arith, v.named x y, codes_eq_iff a y);
  }

  after_visit :
      (us queue seen : List Text) (a : Text)
      → is_in a seen ≡ false
      → ((x y : Text) → is_in x us ≡ true → is_in y (children x) ≡ true → is_in y us ≡ true)
      → Searching us (a ∷ queue) seen
      → Searching us (queue ++ unseen (seen ++ a ∷ []) (children a)) (seen ++ a ∷ [])
  after_visit us queue seen a h closed v = record {
    known = λ x k. ground (
      arith,
      is_in-append x queue (unseen (seen ++ a ∷ []) (children a)),
      v.known x,
      v.known a,
      closed a x,
      unseen-is_in x (seen ++ a ∷ []) (children a),
      codes_eq_iff a a,
    );
    distinct = DistinctAssets-snoc a seen v.distinct h;
    named = λ x y k l. elim (Bool-cases (codes_eq a x)) [
      | inl q ↦
          let named_by_a : is_in y (children a) ≡ true =
            subst (λ z. is_in y (children z) ≡ true) (sym ((codes_eq_iff a x).0 q)) l in
          let split = is_in-unseen y (seen ++ a ∷ []) (children a) named_by_a in
          ground (arith, split, is_in-append y queue (unseen (seen ++ a ∷ []) (children a)))
      | inr q ↦ ground (
        arith,
        v.named x y,
        is_in-append x seen (a ∷ []),
        is_in-append y seen (a ∷ []),
        is_in-append y queue (unseen (seen ++ a ∷ []) (children a)),
      )
    ];
  }

  resolve-Finds :
      (fuel : ℕ) (us queue seen : List Text)
      → ((x y : Text) → is_in x us ≡ true → is_in y (children x) ≡ true → is_in y us ≡ true)
      → length queue + potential children us seen ≤ fuel
      → Searching us queue seen
      → Finds fuel queue seen
  unfolding resolve
  resolve-Finds zero us [] seen c le v = (seen, refl, Found-empty us seen v)
  resolve-Finds zero us (a ∷ queue) seen c le v = absurd (omega arith)
  resolve-Finds (suc fuel) us [] seen c le v = (seen, refl, Found-empty us seen v)
  resolve-Finds (suc fuel) us (a ∷ queue) seen c le v = elim (Bool-cases (is_in a seen)) [
    | inl h ↦
        let ih =
          resolve-Finds fuel us queue seen c (omega arith) (after_skip us queue seen a h v) in
        rw h (
          ih.0,
          ih.1,
          record {
            has = λ x k. ground (arith, ih.2.has x, codes_eq_iff a x);
            closed = ih.2.closed;
            distinct = ih.2.distinct;
          },
        )
    | inr h ↦
        let more = unseen (seen ++ a ∷ []) (children a) in
        let a_known : is_in a us ≡ true = v.known a (ground (arith, codes_eq_iff a a)) in
        let bound : length (queue ++ more) + potential children us (seen ++ a ∷ []) ≤ fuel = omega (
          arith,
          length-append queue more,
          length-unseen (seen ++ a ∷ []) (children a),
          potential-visit us seen a a_known h,
        ) in
        let ih =
          resolve-Finds fuel us (queue ++ more) (seen ++ a ∷ []) c bound
            (after_visit us queue seen a h c v) in
        rw h (
          ih.0,
          ih.1,
          record {
            has = λ x k.
                ground (arith, ih.2.has x, is_in-append x seen (a ∷ []), is_in-append x queue more);
            closed = ih.2.closed;
            distinct = ih.2.distinct;
          },
        )
  ]

-- If the given assets, and what known assets name, are among finitely many known ones, then as many
-- turns as there are given assets and names in the hierarchies of the known ones are enough:
-- the search ends, and it finds the given assets and everything that a found asset names, and
-- none twice.
pub resolve-Found :
    (children : Text → List Text) (us asset_ids : List Text)
    → ((x : Text) → is_in x asset_ids ≡ true → is_in x us ≡ true)
    → ((x y : Text) → is_in x us ≡ true → is_in y (children x) ≡ true → is_in y us ≡ true)
    → Finds children (length asset_ids + potential children us []) asset_ids []
resolve-Found children us asset_ids known closed =
    resolve-Finds children (length asset_ids + potential children us []) us asset_ids [] closed
      (omega arith) (record { known = known; distinct = tt; named = λ x y h k. absurd cc })
