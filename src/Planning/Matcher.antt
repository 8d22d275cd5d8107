-- ===== src/Planning/Matcher.antt =====
-- PackML_Stations/planning/capability_matcher.py: process steps are matched to the capabilities
-- that resources offer, by their semantic IDs. Texts are lists of code points.
mod Data
pub use Data.*
use ap2030_uns.Prelude.{ℕ, Bool, true, false, ◌||◌, not, Option, none, some, List, [], ◌∷◌, ◌++◌}
use ap2030_uns.Prelude.{if◌then◌else◌, codes, codes_eq, lower, length, max}
use ap2030_uns.Planning.Text.{
  Text, is_empty, is_slash, strip, rstrip, last_segment, is_infix, is_in,
}

abbrev mover_patterns : List Text
mover_patterns =
    codes "planarshuttle"
    ∷ codes "shuttle"
    ∷ codes "mover"
    ∷ codes "agv"
    ∷ codes "amr"
    ∷ codes "xbot"
    ∷ []

-- `CAPABILITY_ALIASES.get(segment, [])`
unfoldable pub aliases : Text → List Text
aliases t =
    if codes_eq t (codes "inspection")
    then codes "qualitycontrol" ∷ codes "visualinspection" ∷ codes "capture" ∷ []
    else if codes_eq t (codes "qualitycontrol")
    then codes "inspection" ∷ codes "visualinspection" ∷ codes "capture" ∷ []
    else if codes_eq t (codes "capping")
    then codes "stoppering" ∷ []
    else if codes_eq t (codes "sealing")
    then codes "stoppering" ∷ codes "capping" ∷ []
    else if codes_eq t (codes "filling")
    then codes "dispensing" ∷ []
    else if codes_eq t (codes "picking")
    then codes "loading" ∷ []
    else if codes_eq t (codes "placing")
    then codes "unloading" ∷ []
    else []

unfoldable pub normalize_semantic_id : Text → Text
unfolding strip rstrip
normalize_semantic_id s = rstrip is_slash (strip (lower s))

-- `s.rstrip('/').split('/')[-1].lower()`
unfoldable pub segment_of : Text → Text
unfolding rstrip last_segment
segment_of s = lower (last_segment (rstrip is_slash s))

-- The four kinds of match, best first.
pub data Tier : Type 0 where
  exact normalized segment alias : Tier

-- The chain of tests in the loop: the kind of match of a capability's stripped semantic ID with
-- the process step's.
unfoldable pub tier_of : Text → Text → Option Tier
unfolding normalize_semantic_id segment_of aliases
tier_of semantic_id cap_semantic =
    if is_empty cap_semantic
    then none
    else if codes_eq cap_semantic semantic_id
    then some exact
    else if codes_eq (normalize_semantic_id cap_semantic) (normalize_semantic_id semantic_id)
    then some normalized
    else if codes_eq (segment_of cap_semantic) (segment_of semantic_id)
    then some segment
    else if is_in (segment_of cap_semantic) (aliases (segment_of semantic_id))
    then some alias
    else none

-- The four lists that the loop fills, each in the order of the capabilities.
pub record Matches : Type 0 where
  pub exact_matches : List ResourceCapability
  pub normalized_matches : List ResourceCapability
  pub segment_matches : List ResourceCapability
  pub alias_matches : List ResourceCapability

abbrev pub append_match : Option Tier → ResourceCapability → Matches → Matches
append_match none c m = m
append_match (some exact) c m = record m { exact_matches = m.exact_matches ++ c ∷ [] }
append_match (some normalized) c m = record m {
  normalized_matches = m.normalized_matches ++ c ∷ [];
}
append_match (some segment) c m = record m { segment_matches = m.segment_matches ++ c ∷ [] }
append_match (some alias) c m = record m { alias_matches = m.alias_matches ++ c ∷ [] }

unfoldable pub collect : Text → List ResourceCapability → Matches → Matches
unfolding tier_of strip
collect semantic_id [] m = m
collect semantic_id (c ∷ cs) m =
    collect semantic_id cs (append_match (tier_of semantic_id (strip c.semantic_id)) c m)

abbrev pub no_matches : Matches
no_matches = record {
  exact_matches = [];
  normalized_matches = [];
  segment_matches = [];
  alias_matches = [];
}

-- The lists in their order of priority.
abbrev pub best_of : Matches → List ResourceCapability
best_of m =
    if not (is_nil m.exact_matches)
    then m.exact_matches
    else if not (is_nil m.normalized_matches)
    then m.normalized_matches
    else if not (is_nil m.segment_matches)
    then m.segment_matches
    else m.alias_matches

unfoldable pub find_matching_capabilities : Text → List ResourceCapability → List ResourceCapability
unfolding collect
find_matching_capabilities [] capabilities = []
find_matching_capabilities (c ∷ s) capabilities = best_of (collect (c ∷ s) capabilities no_matches)

abbrev any_infix : List Text → Text → Bool
any_infix [] s = false
any_infix (p ∷ ps) s = is_infix p s || any_infix ps s

unfoldable pub is_mover : Text → Bool
unfolding is_infix
is_mover asset_type = any_infix mover_patterns (lower asset_type)

-- The capabilities of one resource, with its ID and name.
unfoldable pub capabilities_of : Resource → List CapabilityInfo → List ResourceCapability
capabilities_of r [] = []
capabilities_of r (c ∷ cs) =
    (record {
      name = get_or c.name [];
      semantic_id = get_or c.semantic_id [];
      aas_id = get_or r.aas_id [];
      resource_name = get_or r.name [];
      realized_by = c.realized_by;
      properties = get_or c.properties [];
    })
    ∷ capabilities_of r cs

unfoldable pub all_capabilities : List Resource → List ResourceCapability
unfolding capabilities_of
all_capabilities [] = []
all_capabilities (r ∷ rs) = capabilities_of r (get_or r.capabilities []) ++ all_capabilities rs

unfoldable pub movers_of : List Resource → List MoverInfo
unfolding is_mover
movers_of [] = []
movers_of (r ∷ rs) =
    let asset_type = lower (get_or r.asset_type []) in
    let rest = movers_of rs in
    if is_mover asset_type
    then (record { aas_id = get_or r.aas_id []; name = get_or r.name []; asset_type = asset_type })
      ∷ rest
    else rest

-- The loop over the process steps.
unfoldable pub match_steps : List ResourceCapability → List ProcessStep → List CapabilityMatch
unfolding find_matching_capabilities
match_steps caps [] = []
match_steps caps (s ∷ steps) =
    capability_match s (find_matching_capabilities s.semantic_id caps) ∷ match_steps caps steps

unfoldable pub unmatched_of : List CapabilityMatch → List ProcessStep
unmatched_of [] = []
unmatched_of (m ∷ ms) =
    let rest = unmatched_of ms in if not m.is_matched then m.process_step ∷ rest else rest

unfoldable pub match_capabilities : List ProcessStep → List Resource → MatchingResult
unfolding match_steps unmatched_of all_capabilities movers_of
match_capabilities process_steps available_resources =
    let caps = all_capabilities available_resources in
    let matches = match_steps caps process_steps in
    record {
      process_matches = matches;
      movers = movers_of available_resources;
      unmatched_steps = unmatched_of matches;
      all_resources = caps;
    }
