-- ===== src/Planning/Runs.antt =====
-- A planner with one station, and the theorems on its answers.
use ap2030_uns.Prelude.{
  ◌≡◌, ◌⊎◌, ◌||◌, ◌+◌, refl, true, false, none, some, List, [], ◌∷◌, codes, length,
}
use ap2030_uns.Planning.Text.{Text, is_empty}
use ap2030_uns.Planning.Steps.{StepConfig, mapping, extract_process_steps}
use ap2030_uns.Planning.Matcher.{ProcessStep, Resource, match_capabilities, is_nil}
use ap2030_uns.Planning.Generator.{default_config}
use ap2030_uns.Planning.Service.{Product, Environment, PlanningResult}
use ap2030_uns.Planning.Response.{planning_process}
use ap2030_uns.Prelude.{if◌then◌else◌, codes_eq, arith, Bool}
use ap2030_uns.Planning.Text.{is_in}
use ap2030_uns.Planning.Hierarchy.{resolve, potential, Finds, resolve-Found}
use ap2030_uns.Planning.Outcomes.{Refused, Planned, planning_process-cases}

abbrev filling : Text
filling = codes "x/Filling"

abbrev config : StepConfig
config = record {
  step = some 1;
  semantic_id = some filling;
  description = none;
  estimated_duration = none;
  parameters = none;
}

abbrev product : Product
product = record {
  processes = mapping ((codes "Filling", some config) ∷ []) ∷ [];
  aas_id = none;
  id_short = codes "HgH";
}

abbrev station : Resource
station = record {
  aas_id = some (codes "s1");
  name = some (codes "Filler");
  asset_type = none;
  capabilities = some (
      (record { name = none; semantic_id = some filling; realized_by = none; properties = none })
      ∷ []);
}

abbrev environment : Environment
environment = record {
  fetch_product_config = λ id. some product;
  resolve_asset_hierarchies = λ ids. ids;
  fetch_resource_capabilities = λ ids. station ∷ [];
  parse = λ f. none;
  order = λ l. l;
  bt_config = default_config;
  generate_config = λ r id p t. record { aas_id = codes "process"; system_id = codes "process1" };
  save_intermediate_files = true;
  has_mqtt_client = true;
  failure = λ e. none;
}

abbrev assets : List Text
assets = codes "s1" ∷ []

planned_state :
    (planning_process (some environment) assets (some (codes "p"))).1.state ≡ codes "SUCCESS"
unfolding planning_process match_capabilities extract_process_steps
planned_state = refl

planned_effects_length :
    length (planning_process (some environment) assets (some (codes "p"))).0 ≡ 3
unfolding planning_process match_capabilities extract_process_steps
planned_effects_length = refl

planning_process-cases_example :
    let run = planning_process (some environment) assets (some (codes "p")) in
    (Refused run ⊎ Planned environment assets (codes "p") run)
    × ((is_nil assets || is_empty (codes "p")) ≡ true → Refused run)
planning_process-cases_example = planning_process-cases environment assets (codes "p")

abbrev result : PlanningResult
result = record {
  success = false;
  process_aas_id = none;
  product_aas_id = none;
  matching_result = none;
  error_message = none;
  process_config = none;
}

abbrev steps : List ProcessStep
steps = extract_process_steps product.processes

-- A line of one station.
abbrev hierarchy : Text → List Text
hierarchy x = if codes_eq x (codes "l") then codes "s" ∷ [] else []

abbrev known_assets : List Text
known_assets = codes "l" ∷ codes "s" ∷ []

line_known : (x : Text) → is_in x (codes "l" ∷ []) ≡ true → is_in x known_assets ≡ true
line_known x h = ground arith

child_known :
    (y : Text) (b : Bool)
    → is_in y (if b then codes "s" ∷ [] else []) ≡ true
    → is_in y known_assets ≡ true
child_known y true k = ground arith
child_known y false k = absurd cc

hierarchy_closed :
    (x y : Text)
    → is_in x known_assets ≡ true
    → is_in y (hierarchy x) ≡ true
    → is_in y known_assets ≡ true
hierarchy_closed x y h k = child_known y (codes_eq x (codes "l")) k

line_resolved : resolve hierarchy 2 (codes "l" ∷ []) [] ≡ some known_assets
unfolding resolve
line_resolved = refl

resolve-Found_example :
    Finds hierarchy
      (length (codes "l" ∷ []) + potential hierarchy known_assets [])
      (codes "l" ∷ [])
      []
resolve-Found_example =
    resolve-Found hierarchy known_assets (codes "l" ∷ []) line_known hierarchy_closed
