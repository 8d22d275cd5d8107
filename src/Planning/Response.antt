-- ===== src/Planning/Response.antt =====
-- The planner's response: `to_response_dict` of planner_service.py and `planning_process` of
-- productionPlanner.py. A key that is missing and one whose value is None are both `none`.
use ap2030_uns.Prelude.{ℕ, ◌-◌, Bool, Option, none, some, List, [], ◌∷◌, ◌++◌}
use ap2030_uns.Prelude.{if◌then◌else◌, codes, length}
use ap2030_uns.Planning.Text.{Text}
use ap2030_uns.Planning.Matcher.{
  ProcessStep, CapabilityMatch, MatchingResult, is_nil, is_complete, primary_resource,
}
use ap2030_uns.Planning.Service.{
  Outcome, returned, raised, Environment, Effect, PlanningResult, plan_and_register,
}

pub record MatchingSummary : Type 0 where
  pub total_steps : ℕ
  pub matched_steps : ℕ
  pub unmatched_steps : ℕ
  pub available_movers : ℕ
  pub is_complete : Bool

pub record UnmatchedCapability : Type 0 where
  pub process_step : Text
  pub required_capability : Text

pub record MatchedCapability : Type 0 where
  pub process_step : Text
  pub required_capability : Text
  pub matched_resource : Text
  pub resource_aas_id : Text

-- The two lists stand for missing keys where they are empty.
pub record Response : Type 0 where
  pub state : Text
  pub product_aas_id : Option Text
  pub process_aas_id : Option Text
  pub error_message : Option Text
  pub matching_summary : Option MatchingSummary
  pub unmatched_capabilities : List UnmatchedCapability
  pub matched_capabilities : List MatchedCapability

-- Python's truth of an optional text.
abbrev pub nonempty : Option Text → Option Text
nonempty none = none
nonempty (some []) = none
nonempty (some (c ∷ s)) = some (c ∷ s)

-- The subtraction stops at 0, where Python's would be negative.
unfoldable pub summary_of : MatchingResult → MatchingSummary
summary_of r = record {
  total_steps = length r.process_matches;
  matched_steps = length r.process_matches - length r.unmatched_steps;
  unmatched_steps = length r.unmatched_steps;
  available_movers = length r.movers;
  is_complete = is_complete r;
}

unfoldable pub unmatched_capabilities_of : List ProcessStep → List UnmatchedCapability
unmatched_capabilities_of [] = []
unmatched_capabilities_of (s ∷ ss) =
    (record { process_step = s.name; required_capability = s.semantic_id })
    ∷ unmatched_capabilities_of ss

unfoldable pub matched_capabilities_of : List CapabilityMatch → List MatchedCapability
matched_capabilities_of [] = []
matched_capabilities_of (m ∷ ms) =
    let rest = matched_capabilities_of ms in
    elim (primary_resource m) [
      | none ↦ rest
      | some r ↦
          if m.is_matched
          then (record {
            process_step = m.process_step.name;
            required_capability = m.process_step.semantic_id;
            matched_resource = r.resource_name;
            resource_aas_id = r.aas_id;
          })
            ∷ rest
          else rest
    ]

abbrev base_response : PlanningResult → Response
base_response p = record {
  state = if p.success then codes "SUCCESS" else codes "FAILURE";
  product_aas_id = p.product_aas_id;
  process_aas_id = if p.success then nonempty p.process_aas_id else none;
  error_message = nonempty p.error_message;
  matching_summary = none;
  unmatched_capabilities = [];
  matched_capabilities = [];
}

unfoldable pub to_response_dict : PlanningResult → Response
unfolding summary_of unmatched_capabilities_of matched_capabilities_of
to_response_dict p = elim p.matching_result [
  | none ↦ base_response p
  | some r ↦ record (base_response p) {
    matching_summary = some (summary_of r);
    unmatched_capabilities = unmatched_capabilities_of r.unmatched_steps;
    matched_capabilities = matched_capabilities_of r.process_matches;
  }
]

abbrev pub refusal : Option Text → Text → Response
refusal product_aas_id message = record {
  state = codes "FAILURE";
  product_aas_id = product_aas_id;
  process_aas_id = none;
  error_message = some message;
  matching_summary = none;
  unmatched_capabilities = [];
  matched_capabilities = [];
}

abbrev pub response_of : Text → Outcome PlanningResult → Response
response_of product_aas_id (returned p) = to_response_dict p
response_of product_aas_id (raised message) =
    refusal (some product_aas_id) (codes "Unexpected error during planning: " ++ message)

-- `environment` is none before `initialize_planner`; the asset IDs and the product's are missing
-- where they are empty.
unfoldable pub planning_process :
    Option Environment → List Text → Option Text → List Effect × Response
unfolding plan_and_register to_response_dict
planning_process none asset_ids product_aas_id =
    ([], refusal none (codes "Planner service not initialized"))
planning_process (some env) asset_ids product_aas_id = elim (nonempty product_aas_id) [
  | none ↦ ([], refusal product_aas_id (codes "Missing required parameters: Assets and Product"))
  | some product ↦
      if is_nil asset_ids
      then ([], refusal product_aas_id (codes "Missing required parameters: Assets and Product"))
      else let run = plan_and_register env asset_ids product in (run.0, response_of product run.1)
]
