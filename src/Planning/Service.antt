-- ===== src/Planning/Service.antt =====
-- PackML_Stations/planning/planner_service.py and productionPlanner.py: the planning workflow and
-- its response. `Environment` is what the workflow reads and calls; what is written and published
-- goes to a log, newest first.
use ap2030_uns.Prelude.{Bool, true, false, ◌||◌, Option, none, some, List, [], ◌∷◌, ◌++◌, map}
use ap2030_uns.Prelude.{if◌then◌else◌, codes, lower}
use ap2030_uns.Planning.Text.{Text, is_infix}
use ap2030_uns.Planning.Tree.{Element, Elements, join}
use ap2030_uns.Planning.Generator.{BtGeneratorConfig}
use ap2030_uns.Planning.Subtrees.{generate_production_bt}
use ap2030_uns.Planning.Steps.{ProcessEntry, extract_process_steps}
use ap2030_uns.Planning.Matcher.{
  ProcessStep, Resource, MatchingResult, get_or, is_complete, match_capabilities,
}

-- A value, or an exception with its message.
pub data Outcome {ℓ} (A : Type ℓ) : Type ℓ where
  returned : A → Outcome A
  raised : Text → Outcome A

-- The product's configuration: what the planner reads of it.
pub record Product : Type 0 where
  pub processes : List ProcessEntry
  pub aas_id : Option Text
  pub id_short : Text

-- The Process AAS configuration, by its two IDs.
pub record ProcessConfig : Type 0 where
  pub aas_id : Text
  pub system_id : Text

pub data Effect : Type 0 where
  save_bt : Element → Effect
  save_config : ProcessConfig → Effect
  register : ProcessConfig → Effect

-- The AAS servers' answers, the subtree files and the order of sets, as for the tree, the generator
-- of the Process AAS configuration, the options, and the effects that raise.
pub record Environment : Type 0 where
  pub fetch_product_config : Text → Option Product
  pub resolve_asset_hierarchies : List Text → List Text
  pub fetch_resource_capabilities : List Text → List Resource
  pub parse : Text → Option Elements
  pub order : List Text → List Text
  pub bt_config : BtGeneratorConfig
  pub generate_config : MatchingResult → Text → Product → Option Text → ProcessConfig
  pub save_intermediate_files : Bool
  pub has_mqtt_client : Bool
  pub failure : Effect → Option Text

pub record PlanningResult : Type 0 where
  pub success : Bool
  pub process_aas_id : Option Text
  pub product_aas_id : Option Text
  pub matching_result : Option MatchingResult
  pub error_message : Option Text
  pub process_config : Option ProcessConfig

abbrev pub failed : Text → Option MatchingResult → Text → PlanningResult
failed product_aas_id matching message = record {
  success = false;
  process_aas_id = none;
  product_aas_id = some product_aas_id;
  matching_result = matching;
  error_message = some message;
  process_config = none;
}

-- `_find_planar_table`
unfoldable pub find_planar_table : List Resource → Option Text
unfolding is_infix
find_planar_table [] = none
find_planar_table (r ∷ rs) =
    let asset_type = lower (get_or r.asset_type []) in
    let rest = find_planar_table rs in
    if is_infix (codes "planartable") asset_type || is_infix (codes "motionsystem") asset_type
    then r.aas_id
    else rest

-- The effects in their order, until one raises: the log, and the exception if there is one.
unfoldable pub perform :
    (Effect → Option Text) → List Effect → List Effect → List Effect × Option Text
perform failure [] log = (log, none)
perform failure (e ∷ es) log =
    let rest = perform failure es (e ∷ log) in
    elim (failure e) [ none ↦ rest | some message ↦ (log, some message) ]

-- What the workflow saves and publishes at its end.
abbrev pub effects_of : Environment → Element → ProcessConfig → List Effect
effects_of env tree config =
    (if env.save_intermediate_files then save_bt tree ∷ save_config config ∷ [] else [])
    ++ (if env.has_mqtt_client then register config ∷ [] else [])

abbrev pub succeeded : Text → MatchingResult → ProcessConfig → PlanningResult
succeeded product_aas_id matching config = record {
  success = true;
  process_aas_id = some config.aas_id;
  product_aas_id = some product_aas_id;
  matching_result = some matching;
  error_message = none;
  process_config = some config;
}

-- A run: what was saved and published, and how it ended.
abbrev pub Run : Type 0 → Type 0
Run A = List Effect × Outcome A

abbrev pub outcome_of {ℓ} : {A : Type ℓ} → A → Option Text → Outcome A
outcome_of a none = returned a
outcome_of a (some message) = raised message

-- The steps after the matching, where it is complete.
unfoldable pub finish :
    Environment → Text → Product → List Resource → MatchingResult → Run PlanningResult
unfolding find_planar_table perform generate_production_bt
finish env product_aas_id product resources matching =
    let table = find_planar_table resources in
    let tree =
      generate_production_bt env.parse env.order env.bt_config matching product.aas_id table in
    let config = env.generate_config matching product_aas_id product table in
    let done = perform env.failure (effects_of env tree config) [] in
    (done.0, outcome_of (succeeded product_aas_id matching config) done.1)

abbrev pub incomplete_message : MatchingResult → Text
incomplete_message r =
    codes "Cannot find resources for required capabilities: "
    ++ join (codes ", ") (map (λ (s : ProcessStep). s.name) r.unmatched_steps)
    ++ codes ". Missing capability semantic IDs: "
    ++ join (codes ", ") (map (λ (s : ProcessStep). s.semantic_id) r.unmatched_steps)

-- The steps after the product's configuration was asked for.
unfoldable pub plan_product : Environment → List Text → Text → Option Product → Run PlanningResult
unfolding finish
plan_product env asset_ids product_aas_id none = (
  [],
  returned (failed product_aas_id none (codes "Could not fetch product AAS: " ++ product_aas_id)),
)
plan_product env asset_ids product_aas_id (some product) =
    let resources = env.fetch_resource_capabilities (env.resolve_asset_hierarchies asset_ids) in
    let matching = match_capabilities (extract_process_steps product.processes) resources in
    if is_complete matching
    then finish env product_aas_id product resources matching
    else ([], returned (failed product_aas_id (some matching) (incomplete_message matching)))

unfoldable pub plan_and_register : Environment → List Text → Text → Run PlanningResult
unfolding plan_product
plan_and_register env asset_ids product_aas_id =
    plan_product env asset_ids product_aas_id (env.fetch_product_config product_aas_id)
