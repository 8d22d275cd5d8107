-- ===== src/Planning/Matcher/Data.antt =====
-- The data classes of capability_matcher.py, and the dictionaries of a resource.
use ap2030_uns.Prelude.{ℕ, Bool, true, false, not, Option, none, some, List, [], ◌∷◌}
use ap2030_uns.Prelude.{length, max}
use ap2030_uns.Planning.Text.{Text}

pub record ProcessStep : Type 0 where
  pub name : Text
  pub step : ℕ
  pub semantic_id : Text
  pub description : Text
  pub estimated_duration : Text
  pub parameters : Text

pub record ResourceCapability : Type 0 where
  pub name : Text
  pub semantic_id : Text
  pub aas_id : Text
  pub resource_name : Text
  pub realized_by : Option Text
  pub properties : Text

pub record CapabilityMatch : Type 0 where
  pub process_step : ProcessStep
  pub matched_resources : List ResourceCapability
  pub is_matched : Bool

pub record MoverInfo : Type 0 where
  pub aas_id : Text
  pub name : Text
  pub asset_type : Text

pub record MatchingResult : Type 0 where
  pub process_matches : List CapabilityMatch
  pub movers : List MoverInfo
  pub unmatched_steps : List ProcessStep
  pub all_resources : List ResourceCapability

-- The entries of `available_resources`; a key that is missing is `none`.
pub record CapabilityInfo : Type 0 where
  pub name : Option Text
  pub semantic_id : Option Text
  pub realized_by : Option Text
  pub properties : Option Text

pub record Resource : Type 0 where
  pub aas_id : Option Text
  pub name : Option Text
  pub asset_type : Option Text
  pub capabilities : Option (List CapabilityInfo)

-- `d.get(key, default)`
abbrev pub get_or {ℓ} : {A : Type ℓ} → Option A → A → A
get_or none d = d
get_or (some a) d = a

abbrev pub is_nil {ℓ} : {A : Type ℓ} → List A → Bool
is_nil [] = true
is_nil (x ∷ xs) = false

-- `__post_init__`
abbrev pub capability_match : ProcessStep → List ResourceCapability → CapabilityMatch
capability_match s found = record {
  process_step = s;
  matched_resources = found;
  is_matched = not (is_nil found);
}

abbrev pub primary_resource : CapabilityMatch → Option ResourceCapability
primary_resource m = elim m.matched_resources [ [] ↦ none | r ∷ _ ↦ some r ]

abbrev pub is_complete : MatchingResult → Bool
is_complete r = is_nil r.unmatched_steps

abbrev pub parallelism_factor : MatchingResult → ℕ
parallelism_factor r = max 1 (length r.movers)
