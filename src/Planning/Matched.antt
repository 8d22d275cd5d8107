-- ===== src/Planning/Matched.antt =====
-- The matching of all process steps, against an independent test of what can be matched.
use ap2030_uns.Prelude.{
  ◌≡◌, ◌≢◌, ◌≤◌, ◌<◌, ◌↔◌, inl, inr, refl, ap, sym, ◌∙◌, Bool, true, false, not, ◌||◌, ◌&&◌, Option,
  none, some, List, [], ◌∷◌, All,
}
use ap2030_uns.Prelude.{arith, if◌then◌else◌, map, ltb}
use ap2030_uns.Planning.Text.{Text}
use ap2030_uns.Planning.Matcher.{
  ProcessStep, ResourceCapability, Resource, CapabilityMatch, Tier, exact, normalized, segment,
  alias,
}
use ap2030_uns.Planning.Matcher.{
  capability_match, is_nil, find_matching_capabilities, match_steps, unmatched_of,
  match_capabilities, is_complete, all_capabilities,
}
use ap2030_uns.Planning.Best.{
  same_tier, rank, tier_at, of_tier, IsBest, find_matching_capabilities-IsBest, map-match_steps,
}

-- Some capability matches the semantic ID in one of the four ways.
abbrev pub is_offered : Text → List ResourceCapability → Bool
is_offered s [] = false
is_offered s (c ∷ cs) = ltb (rank (tier_at s c)) 4 || is_offered s cs

abbrev pub is_matchable : List ResourceCapability → ProcessStep → Bool
is_matchable caps s = not (is_nil s.semantic_id) && is_offered s.semantic_id caps

-- The steps that no capability matches.
abbrev pub unmatchable : List ResourceCapability → List ProcessStep → List ProcessStep
unmatchable caps [] = []
unmatchable caps (s ∷ steps) =
    let rest = unmatchable caps steps in if is_matchable caps s then rest else s ∷ rest

-- The resources of an entry are the best for its step; without a semantic ID there are none.
abbrev pub HasBest : List ResourceCapability → CapabilityMatch → Type 0
HasBest caps m =
    (m.process_step.semantic_id ≡ [] → m.matched_resources ≡ [])
    × (m.process_step.semantic_id ≢ [] → IsBest m.process_step.semantic_id caps m.matched_resources)

not_offered :
    (s : Text) (cs : List ResourceCapability)
    → All (λ c. 4 ≤ rank (tier_at s c)) cs
    → is_offered s cs ≡ false
not_offered s [] h = refl
not_offered s (c ∷ cs) h = ground (arith, h.0, not_offered s cs h.1)

same_tier-none : (t : Tier) → same_tier t none ≡ false
same_tier-none exact = refl
same_tier-none normalized = refl
same_tier-none segment = refl
same_tier-none alias = refl

same_tier-rank : (t : Tier) (o : Option Tier) → same_tier t o ≡ true → rank o < 4
same_tier-rank t none h = grind (arith, h, same_tier-none t)
same_tier-rank t (some exact) h = omega arith
same_tier-rank t (some normalized) h = omega arith
same_tier-rank t (some segment) h = omega arith
same_tier-rank t (some alias) h = omega arith

offered :
    (t : Tier) (s : Text) (cs : List ResourceCapability)
    → is_nil (of_tier t s cs) ≡ false
    → is_offered s cs ≡ true
unfolding of_tier
offered t s [] h = absurd (ground (arith, h))
offered t s (c ∷ cs) h = ground (arith, same_tier-rank t (tier_at s c), offered t s cs)

is_found-is_offered :
    (s : Text) (cs found : List ResourceCapability)
    → IsBest s cs found
    → not (is_nil found) ≡ is_offered s cs
is_found-is_offered s cs found (inl (e, h)) = rw e (sym (not_offered s cs h))
is_found-is_offered s cs found (inr (t, e, h, _)) =
    ap not h ∙ sym (offered t s cs (ap is_nil (sym e) ∙ h))

found-offered :
    (s : Text) (cs : List ResourceCapability)
    → not (is_nil (find_matching_capabilities s cs)) ≡ (not (is_nil s) && is_offered s cs)
unfolding find_matching_capabilities
found-offered [] cs = refl
found-offered (c ∷ s) cs =
    is_found-is_offered (c ∷ s) cs (find_matching_capabilities (c ∷ s) cs)
      (find_matching_capabilities-IsBest (c ∷ s) cs (λ e. cc))

unmatched_of-unmatchable :
    (caps : List ResourceCapability) (steps : List ProcessStep)
    → unmatched_of (match_steps caps steps) ≡ unmatchable caps steps
unfolding unmatched_of match_steps
unmatched_of-unmatchable caps [] = refl
unmatched_of-unmatchable caps (s ∷ steps) =
    ground (arith, found-offered s.semantic_id caps, unmatched_of-unmatchable caps steps)

HasBest-capability_match :
    (caps : List ResourceCapability) (s : ProcessStep)
    → HasBest caps (capability_match s (find_matching_capabilities s.semantic_id caps))
unfolding find_matching_capabilities
HasBest-capability_match caps s = (
  λ e. ap (λ t. find_matching_capabilities t caps) e,
  find_matching_capabilities-IsBest s.semantic_id caps,
)

match_steps-HasBest :
    (caps : List ResourceCapability) (steps : List ProcessStep)
    → All (HasBest caps) (match_steps caps steps)
unfolding match_steps
match_steps-HasBest caps [] = tt
match_steps-HasBest caps (s ∷ steps) =
    (HasBest-capability_match caps s, match_steps-HasBest caps steps)

is_nil-unmatchable :
    (caps : List ResourceCapability) (steps : List ProcessStep)
    → (is_nil (unmatchable caps steps) ≡ true) ↔ All (λ s. is_matchable caps s ≡ true) steps
is_nil-unmatchable caps [] = ground arith
is_nil-unmatchable caps (s ∷ steps) =
    let ih = is_nil-unmatchable caps steps in ground (arith, ih.0, ih.1)

-- The matching has one entry for each process step, in their order, each with all capabilities of
-- the best kind of match that occurs for its step and none only if there is none; the unmatched
-- steps are exactly those without a semantic ID or without a capability that matches it in any
-- way; and the matching is complete exactly when every step has both.
pub match_capabilities_lem :
    (steps : List ProcessStep) (resources : List Resource)
    → let r = match_capabilities steps resources in
      let caps = all_capabilities resources in
      (map (λ (m : CapabilityMatch). m.process_step) r.process_matches ≡ steps)
      × All (HasBest caps) r.process_matches
      × (r.unmatched_steps ≡ unmatchable caps steps)
      × ((is_complete r ≡ true) ↔ All (λ s. is_matchable caps s ≡ true) steps)
unfolding match_capabilities
match_capabilities_lem steps resources =
    let caps = all_capabilities resources in
    let (to, from) = is_nil-unmatchable caps steps in
    let e = unmatched_of-unmatchable caps steps in
    (
      map-match_steps caps steps,
      match_steps-HasBest caps steps,
      e,
      (λ h. to (ap is_nil (sym e) ∙ h), λ a. ap is_nil e ∙ from a),
    )
