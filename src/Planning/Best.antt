-- ===== src/Planning/Best.antt =====
-- What the matcher finds: all capabilities of the best kind of match, and nothing else.
use ap2030_uns.Prelude.{
  ℕ, ◌≡◌, ◌≢◌, ◌≤◌, ◌<◌, ◌⊎◌, ◌↔◌, inl, inr, refl, ap, ◌∙◌, Bool, true, false, not, Option, none,
  some, List, [], ◌∷◌, ◌++◌, All,
}
use ap2030_uns.Prelude.{arith, if◌then◌else◌, Bool-cases, append-nil, append_assoc, map}
use ap2030_uns.Planning.Text.{Text, strip}
use ap2030_uns.Planning.Matcher.{
  ProcessStep, ResourceCapability, CapabilityMatch, Tier, exact, normalized, segment, alias,
  Matches,
}
use ap2030_uns.Planning.Matcher.{
  is_nil, tier_of, append_match, collect, best_of, no_matches, find_matching_capabilities,
  match_steps, unmatched_of,
}

abbrev pub same_tier : Tier → Option Tier → Bool
same_tier exact (some exact) = true
same_tier normalized (some normalized) = true
same_tier segment (some segment) = true
same_tier alias (some alias) = true
same_tier _ _ = false

abbrev pub rank : Option Tier → ℕ
rank (some exact) = 0
rank (some normalized) = 1
rank (some segment) = 2
rank (some alias) = 3
rank none = 4

abbrev pub tier_at : Text → ResourceCapability → Option Tier
tier_at s c = tier_of s (strip c.semantic_id)

-- The capabilities that match in one way, in their order.
unfoldable pub of_tier : Tier → Text → List ResourceCapability → List ResourceCapability
of_tier t s [] = []
of_tier t s (c ∷ cs) =
    let rest = of_tier t s cs in if same_tier t (tier_at s c) then c ∷ rest else rest

snoc_append :
    (c : ResourceCapability) (xs ys : List ResourceCapability) → (xs ++ c ∷ []) ++ ys ≡ xs ++ c ∷ ys
snoc_append c xs ys = append_assoc xs (c ∷ []) ys

-- The four lists with four more behind them.
abbrev extend : Matches → (Tier → List ResourceCapability) → Matches
extend m f = record {
  exact_matches = m.exact_matches ++ f exact;
  normalized_matches = m.normalized_matches ++ f normalized;
  segment_matches = m.segment_matches ++ f segment;
  alias_matches = m.alias_matches ++ f alias;
}

extend-append_match :
    (o : Option Tier) (c : ResourceCapability) (m : Matches) (f : Tier → List ResourceCapability)
    → extend (append_match o c m) f ≡ extend m (λ t. if same_tier t o then c ∷ f t else f t)
extend-append_match none c m f = refl
extend-append_match (some exact) c m f =
    ap (λ l. record (extend m f) { exact_matches = l }) (snoc_append c m.exact_matches (f exact))
extend-append_match (some normalized) c m f =
    ap (λ l. record (extend m f) { normalized_matches = l })
      (snoc_append c m.normalized_matches (f normalized))
extend-append_match (some segment) c m f =
    ap (λ l. record (extend m f) { segment_matches = l })
      (snoc_append c m.segment_matches (f segment))
extend-append_match (some alias) c m f =
    ap (λ l. record (extend m f) { alias_matches = l }) (snoc_append c m.alias_matches (f alias))

collect-of_tier :
    (s : Text) (cs : List ResourceCapability) (m : Matches)
    → collect s cs m ≡ extend m (λ t. of_tier t s cs)
unfolding collect of_tier
collect-of_tier s [] m = simp append-nil
collect-of_tier s (c ∷ cs) m =
    collect-of_tier s cs (append_match (tier_at s c) c m)
    ∙ extend-append_match (tier_at s c) c m (λ t. of_tier t s cs)

-- A kind that none of the first `k` is ranks `k` or worse.
rank-ge :
    (k : ℕ) (o : Option Tier)
    → ((t : Tier) → rank (some t) < k → same_tier t o ≡ false)
    → k ≤ 4
    → k ≤ rank o
rank-ge k none g h = h
rank-ge k (some exact) g h = ground (arith, g exact)
rank-ge k (some normalized) g h = ground (arith, g normalized)
rank-ge k (some segment) g h = ground (arith, g segment)
rank-ge k (some alias) g h = ground (arith, g alias)

-- Nothing of the first `k` kinds: every capability ranks `k` or worse.
none_better :
    (k : ℕ) (s : Text) (cs : List ResourceCapability)
    → k ≤ 4
    → ((t : Tier) → rank (some t) < k → is_nil (of_tier t s cs) ≡ true)
    → All (λ c. k ≤ rank (tier_at s c)) cs
unfolding of_tier
none_better k s [] b h = tt
none_better k s (c ∷ cs) b h = (
  rank-ge k (tier_at s c) (λ t l. ground (arith, h t l)) b,
  none_better k s cs b (λ t l. ground (arith, h t l)),
)

-- The outcome of a search: no capability matches at all, or the result is all capabilities of one
-- kind of match in their order, at least one, and no capability matches in a better way.
abbrev pub IsBest : Text → List ResourceCapability → List ResourceCapability → Type 0
IsBest s cs found =
    (found ≡ []) × All (λ c. 4 ≤ rank (tier_at s c)) cs
    ⊎ (t : Tier) × (found ≡ of_tier t s cs)
      × (is_nil found ≡ false)
      × All (λ c. rank (some t) ≤ rank (tier_at s c)) cs

-- The kinds better than the `k`-th are missing, if the first `k` tests of the four pass.
missing :
    (k : ℕ) (s : Text) (cs : List ResourceCapability)
    → (0 < k → is_nil (of_tier exact s cs) ≡ true)
    → (1 < k → is_nil (of_tier normalized s cs) ≡ true)
    → (2 < k → is_nil (of_tier segment s cs) ≡ true)
    → (3 < k → is_nil (of_tier alias s cs) ≡ true)
    → (t : Tier) → rank (some t) < k
    → is_nil (of_tier t s cs) ≡ true
missing k s cs a b c d exact l = a l
missing k s cs a b c d normalized l = b l
missing k s cs a b c d segment l = c l
missing k s cs a b c d alias l = d l

is_nil-eq {ℓ} : {A : Type ℓ} (l : List A) → is_nil l ≡ true → l ≡ []
is_nil-eq [] h = refl
is_nil-eq (x ∷ l) h = cc

best_of-IsBest :
    (s : Text) (cs : List ResourceCapability)
    → IsBest s cs (best_of (extend no_matches (λ t. of_tier t s cs)))
best_of-IsBest s cs = elim (Bool-cases (is_nil (of_tier exact s cs))) [
  | inr e ↦
      rw e (inr (exact, refl, e, none_better 0 s cs (omega arith) (λ t l. absurd (omega arith))))
  | inl e ↦ elim (Bool-cases (is_nil (of_tier normalized s cs))) [
    | inr n ↦
        rw (e, n)
          (inr (
            normalized,
            refl,
            n,
            none_better 1 s cs (omega arith) (
                missing 1 s cs (λ l. e) (λ l. absurd (omega arith)) (λ l. absurd (omega arith))
                  (λ l. absurd (omega arith))),
          ))
    | inl n ↦ elim (Bool-cases (is_nil (of_tier segment s cs))) [
      | inr g ↦
          rw (e, n, g)
            (inr (
              segment,
              refl,
              g,
              none_better 2 s cs (omega arith) (
                  missing 2 s cs (λ l. e) (λ l. n) (λ l. absurd (omega arith))
                    (λ l. absurd (omega arith))),
            ))
      | inl g ↦
          rw (e, n, g)
            (elim (Bool-cases (is_nil (of_tier alias s cs))) [
              | inr a ↦ inr (
                alias,
                refl,
                a,
                none_better 3 s cs (omega arith)
                    (missing 3 s cs (λ l. e) (λ l. n) (λ l. g) (λ l. absurd (omega arith))),
              )
              | inl a ↦ inl (
                is_nil-eq (of_tier alias s cs) a,
                none_better 4 s cs (omega arith)
                    (missing 4 s cs (λ l. e) (λ l. n) (λ l. g) (λ l. a)),
              )
            ])
    ]
  ]
]

-- For a semantic ID that is not empty, the search finds all capabilities of the best kind of match
-- that occurs, exact before normalized before last segment before alias, in their order, and it
-- finds none only if no capability matches in any way.
pub find_matching_capabilities-IsBest :
    (s : Text) (cs : List ResourceCapability)
    → s ≢ []
    → IsBest s cs (find_matching_capabilities s cs)
unfolding find_matching_capabilities
find_matching_capabilities-IsBest [] cs h = absurd (h refl)
find_matching_capabilities-IsBest (c ∷ s) cs h =
    rw (collect-of_tier (c ∷ s) cs no_matches) (best_of-IsBest (c ∷ s) cs)

pub map-match_steps :
    (caps : List ResourceCapability) (steps : List ProcessStep)
    → map (λ (m : CapabilityMatch). m.process_step) (match_steps caps steps) ≡ steps
unfolding match_steps
map-match_steps caps [] = refl
map-match_steps caps (s ∷ steps) = ap (λ l. s ∷ l) (map-match_steps caps steps)

-- A step found resources.
abbrev pub is_found : List ResourceCapability → ProcessStep → Bool
is_found caps s = not (is_nil (find_matching_capabilities s.semantic_id caps))

pub is_nil-unmatched_of :
    (caps : List ResourceCapability) (steps : List ProcessStep)
    → (is_nil (unmatched_of (match_steps caps steps)) ≡ true)
      ↔ All (λ s. is_found caps s ≡ true) steps
unfolding unmatched_of match_steps
is_nil-unmatched_of caps [] = ground arith
is_nil-unmatched_of caps (s ∷ steps) =
    let ih = is_nil-unmatched_of caps steps in ground (arith, ih.0, ih.1)
