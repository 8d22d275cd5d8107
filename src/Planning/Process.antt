-- ===== src/Planning/Process.antt =====
-- PackML_Stations/planning/process_aas_generator.py: `_generate_required_capabilities`. The
-- groups and their resources are dictionaries with texts as keys, in insertion order.
pub mod Needs
pub mod Groups
mod Examples
use ap2030_uns.Prelude.{
  ℕ, Bool, true, false, Option, none, some, List, [], ◌∷◌, if◌then◌else◌, codes, codes_eq,
}
use ap2030_uns.Planning.Text.{Text, is_empty}
use ap2030_uns.Planning.Matcher.{
  ProcessStep, ResourceCapability, CapabilityMatch, MoverInfo, MatchingResult, primary_resource,
}

abbrev pub TextDict {ℓ} : Type ℓ → Type ℓ
TextDict V = List (Text × V)

abbrev pub get {ℓ} : {V : Type ℓ} → Text → TextDict V → Option V
get k [] = none
get k ((j, v) ∷ d) = if codes_eq j k then some v else get k d

abbrev pub put {ℓ} : {V : Type ℓ} → Text → V → TextDict V → TextDict V
put k v [] = (k, v) ∷ []
put k v ((j, w) ∷ d) = if codes_eq j k then (j, v) ∷ d else (j, w) ∷ put k v d

pub record Group : Type 0 where
  pub semantic_id : Text
  pub description : Text
  pub resources : TextDict Text

-- if cap_name not in capability_groups: capability_groups[cap_name] = {...}
abbrev pub ensure : Text → Text → Text → TextDict Group → TextDict Group
ensure k semantic_id description d = elim (get k d) [
  | some g ↦ d
  | none ↦ put k (record { semantic_id = semantic_id; description = description; resources = [] }) d
]

-- capability_groups[cap_name]['resources'][resource_name] = aas_id
abbrev pub set_resource : Text → ResourceCapability → TextDict Group → TextDict Group
set_resource k r d = elim (get k d) [
  | none ↦ d
  | some g ↦ put k (record g { resources = put r.resource_name r.aas_id g.resources }) d
]

-- A matched step has a primary resource, as `is_matched` is whether there are matched resources.
abbrev pub resource_of : CapabilityMatch → Option ResourceCapability
resource_of m = if m.is_matched then primary_resource m else none

abbrev pub add_resource : Text → Option ResourceCapability → TextDict Group → TextDict Group
add_resource k none d = d
add_resource k (some r) d = set_resource k r d

abbrev pub add_match : CapabilityMatch → TextDict Group → TextDict Group
add_match m d =
    add_resource m.process_step.name (resource_of m)
      (ensure m.process_step.name m.process_step.semantic_id m.process_step.description d)

abbrev pub add_matches : List CapabilityMatch → TextDict Group → TextDict Group
add_matches [] d = d
add_matches (m ∷ ms) d = add_matches ms (add_match m d)

abbrev pub mover_caps : MoverInfo → List ResourceCapability → List ResourceCapability
mover_caps m [] = []
mover_caps m (r ∷ rs) = if codes_eq r.aas_id m.aas_id then r ∷ mover_caps m rs else mover_caps m rs

abbrev pub mover_description : Text
mover_description = codes "Movement capability for product transport"

abbrev pub add_capabilities : List ResourceCapability → TextDict Group → TextDict Group
add_capabilities [] d = d
add_capabilities (r ∷ rs) d =
    add_capabilities rs (set_resource r.name r (ensure r.name r.semantic_id mover_description d))

abbrev pub add_movers : List ResourceCapability → List MoverInfo → TextDict Group → TextDict Group
add_movers all [] d = d
add_movers all (m ∷ ms) d = add_movers all ms (add_capabilities (mover_caps m all) d)

abbrev pub planar_group : Text → Group
planar_group planar_table_id = record {
  semantic_id = codes "https://smartproductionlab.aau.dk/Capability/MotionSystem";
  description = codes "Planar motion system for shuttle coordination";
  resources = (codes "planarTableAAS", planar_table_id) ∷ [];
}

abbrev pub add_planar_table : Option Text → TextDict Group → TextDict Group
add_planar_table none d = d
add_planar_table (some i) d = if is_empty i then d else put (codes "PlanarTable") (planar_group i) d

unfoldable pub generate_required_capabilities : MatchingResult → Option Text → TextDict Group
generate_required_capabilities matching_result planar_table_id = add_planar_table planar_table_id (
    add_movers matching_result.all_resources matching_result.movers
      (add_matches matching_result.process_matches []))
