-- ===== src/Planning/Examples.antt =====
-- A product of two steps and two resources, and the theorems at them.
use ap2030_uns.Prelude.{
  ℕ, ◌≡◌, ◌≢◌, ◌↔◌, refl, true, none, some, List, [], ◌∷◌, All, codes, length, map,
}
use ap2030_uns.Planning.Text.{Text}
use ap2030_uns.Planning.Matcher.{
  ProcessStep, Resource, CapabilityMatch, find_matching_capabilities, match_capabilities,
  is_complete, all_capabilities,
}
use ap2030_uns.Prelude.{◌<◌, get_elem?}
use ap2030_uns.Prelude.Dict.{lookup}
use ap2030_uns.Planning.Matcher.{MatchingResult}
use ap2030_uns.Planning.Tree.{iter}
use ap2030_uns.Planning.Generator.{
  default_config, get_subtree_id, main_tree, filling_call, xbot_port, mover_ids,
  format_assets_array, aseptic_filling_tree, build_capability_assets_map,
}
use ap2030_uns.Planning.Production.{main_tree-calls}
use ap2030_uns.Planning.Calls.{call_of, needed_call, aseptic_filling_tree-calls}
use ap2030_uns.Prelude.{if◌then◌else◌, codes_eq, Option, false}
use ap2030_uns.Planning.Text.{is_in}
use ap2030_uns.Planning.Matcher.{is_nil}
use ap2030_uns.Planning.Tree.{Elements, end, child, leaf}
use ap2030_uns.Planning.Subtrees.{load_needed, file_of, load_subtree_from_file}
use ap2030_uns.Planning.Prebuilt.Loading.{trees_of, DistinctFiles, Provided}
use ap2030_uns.Planning.Prebuilt.{load_needed-Provided}
use ap2030_uns.Planning.Best.{IsBest, find_matching_capabilities-IsBest}
use ap2030_uns.Planning.Matched.{HasBest, unmatchable, is_matchable, match_capabilities_lem}
use ap2030_uns.Planning.Steps.{
  StepConfig, ProcessEntry, mapping, IsSorted, numbered, configs, steps_from, extract_process_steps,
  extract_process_steps-IsSorted,
}

abbrev filling : Text
filling = codes "http://x/Filling"

abbrev dispensing : Text
dispensing = codes "http://x/Dispensing"

abbrev config : ℕ → Text → StepConfig
config k s = record {
  step = some k;
  semantic_id = some s;
  description = none;
  estimated_duration = none;
  parameters = none;
}

abbrev processes : List ProcessEntry
processes =
    mapping ((codes "Fill", some (config 2 filling)) ∷ [])
    ∷ mapping ((codes "Load", some (config 1 (codes "http://x/Loading"))) ∷ [])
    ∷ []

abbrev station : Resource
station = record {
  aas_id = some (codes "s1");
  name = some (codes "Filler");
  asset_type = some (codes "DispensingSystem");
  capabilities = some (
      (record {
        name = some (codes "Dispensing");
        semantic_id = some dispensing;
        realized_by = none;
        properties = none;
      })
      ∷ []);
}

abbrev shuttle : Resource
shuttle = record {
  aas_id = some (codes "x1");
  name = some (codes "X");
  asset_type = some (codes "PlanarShuttle");
  capabilities = none;
}

abbrev resources : List Resource
resources = station ∷ shuttle ∷ []

one_mover : length (match_capabilities (extract_process_steps processes) resources).movers ≡ 1
unfolding match_capabilities extract_process_steps
one_mover = refl

one_unmatched :
    map
      (λ (s : ProcessStep). s.name)
      (match_capabilities (extract_process_steps processes) resources).unmatched_steps
    ≡ codes "Load" ∷ []
unfolding match_capabilities extract_process_steps
one_unmatched = refl

filling_nonempty : filling ≢ []
filling_nonempty h = cc

find_matching_capabilities-IsBest_example :
    IsBest filling
      (all_capabilities resources)
      (find_matching_capabilities filling (all_capabilities resources))
find_matching_capabilities-IsBest_example =
    find_matching_capabilities-IsBest filling (all_capabilities resources) filling_nonempty

match_capabilities_lem_example :
    let r = match_capabilities (extract_process_steps processes) resources in
    let caps = all_capabilities resources in
    (map (λ (m : CapabilityMatch). m.process_step) r.process_matches
      ≡ extract_process_steps processes)
    × All (HasBest caps) r.process_matches
    × (r.unmatched_steps ≡ unmatchable caps (extract_process_steps processes))
    × ((is_complete r ≡ true)
        ↔ All (λ s. is_matchable caps s ≡ true) (extract_process_steps processes))
match_capabilities_lem_example = match_capabilities_lem (extract_process_steps processes) resources

extract_process_steps-IsSorted_example :
    IsSorted (extract_process_steps processes)
    × ((k : ℕ)
        → numbered k (extract_process_steps processes)
          ≡ numbered k (steps_from 0 (configs processes)))
extract_process_steps-IsSorted_example = extract_process_steps-IsSorted processes

abbrev matching : MatchingResult
matching = match_capabilities (extract_process_steps processes) resources

main_tree-calls_example :
    let calls = iter "SubTree" (main_tree matching none (some (codes "table"))) in
    (length calls ≡ length matching.movers)
    × ((i : ℕ) → i < length matching.movers → get_elem? calls i ≡ some (filling_call (xbot_port i)))
    × ((i j : ℕ) → xbot_port i ≡ xbot_port j → i ≡ j)
main_tree-calls_example = main_tree-calls matching none (some (codes "table"))

-- A product with one step, that the station can do.
abbrev filling_steps : List ProcessStep
filling_steps =
    extract_process_steps (mapping ((codes "filling", some (config 1 filling)) ∷ []) ∷ [])

filling_complete : is_complete (match_capabilities filling_steps resources) ≡ true
unfolding match_capabilities extract_process_steps
filling_complete = refl

tenth_port : xbot_port 9 ≡ codes "{Xbot10}"
unfolding xbot_port
tenth_port = refl

subtree_ids :
    map (get_subtree_id default_config) (codes "filling" ∷ codes "qualityControl" ∷ [])
    ≡ codes "Filling" ∷ codes "Inspection" ∷ []
unfolding get_subtree_id default_config
subtree_ids = refl

abbrev unordered : List Text → List Text
unordered l = l

aseptic_filling_tree-calls_example :
    let r = match_capabilities filling_steps resources in
    let tree =
      aseptic_filling_tree default_config
        (build_capability_assets_map unordered default_config r)
        r in
    (map call_of (iter "SubTree" tree)
      ≡ map (needed_call default_config (all_capabilities resources)) filling_steps)
    × (map (lookup "Assets") (iter "Occupy" tree)
        ≡ some (format_assets_array (mover_ids r.movers)) ∷ [])
aseptic_filling_tree-calls_example =
    aseptic_filling_tree-calls unordered default_config filling_steps resources filling_complete

-- A directory with one file, of one tree.
abbrev directory : Text → Option Elements
directory f =
    if codes_eq f (codes "loading.xml")
    then some (child (leaf "BehaviorTree" (("ID", codes "Loading") ∷ [])) end)
    else none

load_needed-Provided_example :
    let ids = codes "Loading" ∷ codes "Capping" ∷ [] in
    let l =
      load_needed directory default_config ids (record { subtrees = []; files = []; trees = [] }) in
    (l.trees ≡ trees_of directory l.files)
    × DistinctFiles l.files
    × ((id f : Text)
        → is_in id ids ≡ true
        → file_of default_config id ≡ some f
        → is_nil (load_subtree_from_file directory f) ≡ false
        → Provided directory default_config id l)
load_needed-Provided_example =
    load_needed-Provided directory default_config (codes "Loading" ∷ codes "Capping" ∷ [])
