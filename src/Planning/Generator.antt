-- ===== src/Planning/Generator.antt =====
-- PackML_Stations/planning/bt_generator.py: the behaviour tree of a production, from the matching.
-- The trees are built as values; `_format_xml`, which prints the root, is left out.
use ap2030_uns.Prelude.{
  ℕ, suc, ◌+◌, ◌-◌, Bool, true, false, ◌&&◌, Option, none, some, List, [], ◌∷◌, ◌++◌, map,
}
use ap2030_uns.Prelude.{if◌then◌else◌, ltb, leb, codes, codes_eq, lower}
use ap2030_uns.Prelude.Dict.{Dict}
use ap2030_uns.Planning.Text.{Text}
use ap2030_uns.Planning.Tree.{
  Element, element, Elements, end, child, leaf, only, find, set, decimal, join,
}
use ap2030_uns.Planning.Matcher.{
  ProcessStep, ResourceCapability, CapabilityMatch, MoverInfo, MatchingResult, parallelism_factor,
  is_nil, get_or,
}

-- `__post_init__` with the default mappings, and the fields that the trees depend on.
pub record BtGeneratorConfig : Type 0 where
  pub use_prebuilt_subtrees : Bool
  pub tree_nodes_model_file : Text
  pub include_error_recovery : Bool
  pub subtree_file_mapping : List (Text × Text)
  pub subtree_id_mapping : List (Text × Text)

unfoldable pub default_config : BtGeneratorConfig
default_config = record {
  use_prebuilt_subtrees = true;
  tree_nodes_model_file = codes "tree_nodes_model.xml";
  include_error_recovery = false;
  subtree_file_mapping =
      (codes "Loading", codes "loading.xml")
      ∷ (codes "Dispensing", codes "dispensing.xml")
      ∷ (codes "Stoppering", codes "stoppering.xml")
      ∷ (codes "Inspection", codes "qualityControl.xml")
      ∷ (codes "QualityControl", codes "qualityControl.xml")
      ∷ (codes "Unloading", codes "unloading.xml")
      ∷ (codes "Capping", codes "capping.xml")
      ∷ [];
  subtree_id_mapping =
      (codes "QualityControl", codes "Inspection")
      ∷ (codes "qualityControl", codes "Inspection")
      ∷ [];
}

abbrev pub upper_code : ℕ → ℕ
upper_code c = if leb b'a' c && leb c b'z' then b'A' + (c - b'a') else c

abbrev pub capitalized : Text → Text
capitalized [] = []
capitalized (c ∷ s) = upper_code c ∷ s

unfoldable pub get_subtree_id : BtGeneratorConfig → Text → Text
get_subtree_id cfg process_name = elim (find process_name cfg.subtree_id_mapping) [
  | some id ↦ id
  | none ↦ elim (find (capitalized process_name) cfg.subtree_id_mapping) [
    | some id ↦ id
    | none ↦ capitalized process_name
  ]
]

abbrev pub aas_ids : List ResourceCapability → List Text
aas_ids rs = map (λ (r : ResourceCapability). r.aas_id) rs

abbrev pub mover_ids : List MoverInfo → List Text
mover_ids ms = map (λ (m : MoverInfo). m.aas_id) ms

unfoldable pub format_assets_array : List Text → Text
format_assets_array ids = join (codes ";") ids

abbrev pub Assets : Type 0
Assets = List (Text × List Text)

-- The loop of `_build_capability_assets_map` over the matches.
unfoldable pub step_assets : BtGeneratorConfig → List CapabilityMatch → Assets → Assets
unfolding get_subtree_id
step_assets cfg [] d = d
step_assets cfg (m ∷ ms) d =
    let ids = aas_ids m.matched_resources in
    let name = m.process_step.name in
    step_assets cfg ms (set (get_subtree_id cfg name) ids (set name ids d))

abbrev pub all_station_ids : List CapabilityMatch → List Text
all_station_ids [] = []
all_station_ids (m ∷ ms) = aas_ids m.matched_resources ++ all_station_ids ms

-- `listed` is `list(set(...))`, whose order Python leaves open.
unfoldable pub build_capability_assets_map :
    (List Text → List Text) → BtGeneratorConfig → MatchingResult → Assets
unfolding step_assets
build_capability_assets_map listed cfg r =
    let movers = mover_ids r.movers in
    let d =
      set (codes "Xbot") movers
        (set (codes "Moving") movers (step_assets cfg r.process_matches [])) in
    elim (find (codes "Unloading") d) [
      | some _ ↦ d
      | none ↦ set (codes "Unloading") (listed (all_station_ids r.process_matches)) d
    ]

unfoldable pub get_assets_for_capability : Text → Assets → List Text
get_assets_for_capability name d = get_or (find name d) []

-- `_generate_main_tree`
abbrev pub operational_check : Text → Element
operational_check asset = leaf "Data_Condition" (
    ("comparison_type", codes "equal")
    ∷ ("Field", codes "State")
    ∷ ("expected_value", codes "operational")
    ∷ ("Property", codes "PackMLState")
    ∷ ("Asset", asset)
    ∷ [])

abbrev pub filling_call : Text → Dict Text
filling_call xbot =
    ("ID", codes "AsepticFilling")
    ∷ ("Xbot", xbot)
    ∷ ("ProductID", [])
    ∷ ("_autoremap", codes "true")
    ∷ []

unfoldable pub xbot_port : ℕ → Text
unfolding decimal
xbot_port i = codes "{Xbot" ++ decimal (i + 1) ++ codes "}"

unfoldable pub mover_calls : ℕ → List MoverInfo → Elements
unfolding xbot_port
mover_calls i [] = end
mover_calls i (m ∷ ms) =
    child (leaf "SubTree" (filling_call (xbot_port i))) (mover_calls (suc i) ms)

unfoldable pub movers_flow : MatchingResult → Elements
unfolding mover_calls
movers_flow r =
    if ltb 1 (parallelism_factor r)
    then only (
        element "Parallel" (("failure_count", codes "-1") ∷ ("success_count", codes "1") ∷ [])
          (mover_calls 0 r.movers))
    else elim r.movers [ [] ↦ end | _ ∷ _ ↦ only (leaf "SubTree" (filling_call (codes "{Xbot1}"))) ]

-- `product_aas_id` is `product_info.get("aas_id")`; a table ID that is empty counts as missing.
unfoldable pub main_tree : MatchingResult → Option Text → Option Text → Element
unfolding movers_flow
main_tree r product_aas_id planar_table_id =
    let product : Text = elim product_aas_id [ none ↦ codes "{product}" | some id ↦ id ] in
    let flow = movers_flow r in
    let checked : Elements = elim planar_table_id [
      | none ↦ flow
      | some [] ↦ flow
      | some (c ∷ s) ↦ child (operational_check (c ∷ s)) flow
    ] in
    element "BehaviorTree" (("ID", codes "Production") ∷ []) (
      only (
        element "Sequence" [] (
          child
            (leaf "Configure" (("Product", product) ∷ ("ProductIDs", codes "{ProductIDs}") ∷ []))
            (only (element "ReactiveSequence" [] checked)))))

-- The attributes of a step's subtree call, in the order in which they are set.
abbrev pub sampling_ports : Text → Dict Text
sampling_ports id =
    if codes_eq id (codes "Inspection")
    then ("IPCInspection", codes "{IPCInspection}") ∷ ("BatchSize", codes "{BatchSize}") ∷ []
    else []

abbrev pub assets_port : List ResourceCapability → Dict Text
assets_port [] = []
assets_port (r ∷ rs) = ("Assets", format_assets_array (aas_ids (r ∷ rs))) ∷ []

unfoldable pub step_call : BtGeneratorConfig → CapabilityMatch → Dict Text
unfolding get_subtree_id format_assets_array
step_call cfg m =
    let id = get_subtree_id cfg m.process_step.name in
    ("ID", id) ∷ assets_port m.matched_resources
    ++ (("Xbot", codes "{Xbot}")
        ∷ ("XbotUuid", codes "{Uuid}")
        ∷ ("ProductID", codes "{ProductID}")
        ∷ ("ProductIDs", codes "{ProductIDs}")
        ∷ ("Station", codes "{Station}")
        ∷ [])
    ++ sampling_ports id
    ++ ("_autoremap", codes "false") ∷ []

unfoldable pub step_calls : BtGeneratorConfig → List CapabilityMatch → Elements
unfolding step_call
step_calls cfg [] = end
step_calls cfg (m ∷ ms) = child (leaf "SubTree" (step_call cfg m)) (step_calls cfg ms)

abbrev pub fallback_check : Text → Element
fallback_check asset =
    element "ReactiveFallback" []
      (child (operational_check asset) (only (leaf "Sleep" (("msec", codes "10000") ∷ []))))

unfoldable pub aseptic_filling_tree : BtGeneratorConfig → Assets → MatchingResult → Element
unfolding step_calls get_assets_for_capability format_assets_array
aseptic_filling_tree cfg d r =
    let steps =
      if is_nil r.process_matches
      then end
      else only (element "SequenceWithMemory" [] (step_calls cfg r.process_matches)) in
    let mover_assets = format_assets_array (get_assets_for_capability (codes "Moving") d) in
    element "BehaviorTree" (("ID", codes "AsepticFilling") ∷ []) (
      only (
        element "Occupy"
          (("Uuid", codes "{Uuid}")
            ∷ ("Assets", mover_assets)
            ∷ ("SelectedAsset", codes "{Xbot}")
            ∷ [])
          (only (
            element "KeepRunningUntilEmpty"
              (("if_empty", codes "SUCCESS") ∷ ("Queue", codes "{ProductIDs}") ∷ [])
              (only
                (element "ReactiveSequence" [] (child (fallback_check (codes "{Xbot}")) steps)))))))

-- `generate_process_subtree`, whose resource and mover arguments the source does not read.
unfoldable pub generate_process_subtree : BtGeneratorConfig → ProcessStep → Element
unfolding get_subtree_id
generate_process_subtree cfg s =
    let exec = element "Sequence" [] (
      child
        (leaf "moveToPosition" (
          ("Uuid", codes "{XbotUuid}")
          ∷ ("TargetPosition", codes "{SelectedAsset}")
          ∷ ("Asset", codes "{Xbot}")
          ∷ []))
        (only (
          leaf "Command_Execution" (
            ("Parameters", codes "'{}'")
            ∷ ("Uuid", codes "{ProductID}")
            ∷ ("Operation", lower s.name)
            ∷ ("Asset", codes "{SelectedAsset}")
            ∷ [])))) in
    element "BehaviorTree" (("ID", get_subtree_id cfg s.name) ∷ []) (
      only (
        element "Occupy" (("Uuid", codes "{ProductID}") ∷ ("Assets", codes "{Assets}") ∷ []) (
          only (
            element "ReactiveSequence" []
              (child (fallback_check (codes "{SelectedAsset}")) (only exec))))))
