-- ===== src/Planning/Subtrees.antt =====
-- The prebuilt subtrees and port declarations that `generate_production_bt` adds, and the whole
-- tree. `parse` is `ET.parse` on a file of the subtrees' directory: the children of its root, or
-- `none` where it raises. `order` is the order in which Python goes through a set.
use ap2030_uns.Prelude.{String, Option, none, some, List, [], ◌∷◌, ◌++◌}
use ap2030_uns.Prelude.{if◌then◌else◌, codes, codes_eq, lower}
use ap2030_uns.Prelude.Dict.{get_or}
use ap2030_uns.Planning.Text.{Text, is_empty, is_in}
use ap2030_uns.Planning.Tree.{
  Element, element, Elements, end, child, leaf, find, tagged, of_list, add_children,
}
use ap2030_uns.Planning.Matcher.{CapabilityMatch, MatchingResult, is_nil}
use ap2030_uns.Planning.Generator.{
  BtGeneratorConfig, get_subtree_id, build_capability_assets_map, main_tree, aseptic_filling_tree,
}

abbrev station_ports : List String
station_ports = "Assets" ∷ "Xbot" ∷ "XbotUuid" ∷ "ProductID" ∷ "ProductIDs" ∷ "Station" ∷ []

-- `SUBTREE_PORTS`: the input and the output ports of a subtree.
unfoldable pub subtree_ports : Text → Option (List String × List String)
subtree_ports id =
    if codes_eq id (codes "AsepticFilling")
    then some ("Xbot" ∷ [], "ProductID" ∷ [])
    else if is_in id (
        codes "Loading"
        ∷ codes "Dispensing"
        ∷ codes "Stoppering"
        ∷ codes "QualityControl"
        ∷ codes "Unloading"
        ∷ codes "Scraping"
        ∷ codes "Capping"
        ∷ [])
    then some (station_ports, [])
    else if codes_eq id (codes "Inspection")
    then some (station_ports ++ "IPCInspection" ∷ "BatchSize" ∷ [], [])
    else none

-- The subtrees of the steps, as they are added to the set.
abbrev pub needed_subtrees : BtGeneratorConfig → List CapabilityMatch → List Text
needed_subtrees cfg [] = []
needed_subtrees cfg (m ∷ ms) = get_subtree_id cfg m.process_step.name ∷ needed_subtrees cfg ms

abbrev pub tree_id : Element → Text
tree_id (element tag attributes children) = get_or "ID" [] attributes

-- A file for a subtree: by its ID, or by its ID in lower case. An empty name is none.
abbrev pub file_name : Option Text → Option Text
file_name none = none
file_name (some []) = none
file_name (some (c ∷ s)) = some (c ∷ s)

unfoldable pub file_of : BtGeneratorConfig → Text → Option Text
file_of cfg id = elim (file_name (find id cfg.subtree_file_mapping)) [
  | some f ↦ some f
  | none ↦ file_name (find (lower id) cfg.subtree_file_mapping)
]

-- The subtrees that count as loaded, the files that were, and the trees added to the root.
pub record Loaded : Type 0 where
  pub subtrees : List Text
  pub files : List Text
  pub trees : List Element

abbrev pub ids_of : List Element → List Text
ids_of [] = []
ids_of (e ∷ es) = let rest = ids_of es in if is_empty (tree_id e) then rest else tree_id e ∷ rest

module _ (parse : Text → Option Elements) where
  unfoldable pub load_subtree_from_file : Text → List Element
  load_subtree_from_file filename = elim (parse filename) [
    | none ↦ []
    | some es ↦ tagged "BehaviorTree" es
  ]

  -- The body of the loop for one subtree that has a file.
  unfoldable pub load_file : Text → Text → Loaded → Loaded
  unfolding load_subtree_from_file
  load_file id filename l =
      if is_in filename l.files
      then record l { subtrees = id ∷ l.subtrees }
      else let elements = load_subtree_from_file filename in
        if is_nil elements then l else record {
          subtrees = id ∷ ids_of elements ++ l.subtrees;
          files = filename ∷ l.files;
          trees = l.trees ++ elements;
        }

  unfoldable pub load_needed : BtGeneratorConfig → List Text → Loaded → Loaded
  unfolding load_file file_of
  load_needed cfg [] l = l
  load_needed cfg (id ∷ ids) l = load_needed cfg ids (
      if is_in id l.subtrees
      then l
      else elim (file_of cfg id) [ none ↦ l | some filename ↦ load_file id filename l ])

  unfoldable pub prebuilt_subtrees :
      (List Text → List Text) → BtGeneratorConfig → MatchingResult → List Element
  unfolding load_needed
  prebuilt_subtrees order cfg r =
      (load_needed cfg (order (needed_subtrees cfg r.process_matches))
        (record { subtrees = []; files = []; trees = [] })).trees

abbrev pub port_children : String → List String → Elements → Elements
port_children tag [] rest = rest
port_children tag (p ∷ ps) rest =
    child (leaf tag (("name", codes p) ∷ [])) (port_children tag ps rest)

unfoldable pub port_declarations : List Text → Elements
unfolding subtree_ports
port_declarations [] = end
port_declarations (id ∷ ids) =
    let rest = port_declarations ids in
    elim (subtree_ports id) [
      | none ↦ rest
      | some (inputs, outputs) ↦
          child
            (element "SubTree" (("ID", id) ∷ [])
              (port_children "input_port" inputs (port_children "output_port" outputs end)))
            rest
    ]

unfoldable pub declared_subtrees : BtGeneratorConfig → MatchingResult → List Text
declared_subtrees cfg r =
    codes "AsepticFilling" ∷ needed_subtrees cfg r.process_matches
    ++ (if cfg.include_error_recovery then codes "Scraping" ∷ [] else [])

-- The first `TreeNodesModel` of the model file, with the declarations behind its children.
unfoldable pub tree_nodes_model :
    (Text → Option Elements)
    → (List Text → List Text)
    → BtGeneratorConfig
    → MatchingResult
    → List Element
unfolding port_declarations declared_subtrees
tree_nodes_model parse order cfg r = elim (parse cfg.tree_nodes_model_file) [
  | none ↦ []
  | some es ↦ elim (tagged "TreeNodesModel" es) [
    | [] ↦ []
    | model ∷ _ ↦ elim model [
      | element tag attributes children ↦
          element tag attributes
            (add_children children (port_declarations (order (declared_subtrees cfg r))))
          ∷ []
    ]
  ]
]

unfoldable pub generate_production_bt :
    (Text → Option Elements)
    → (List Text → List Text)
    → BtGeneratorConfig
    → MatchingResult
    → Option Text
    → Option Text
    → Element
unfolding main_tree aseptic_filling_tree prebuilt_subtrees tree_nodes_model
    build_capability_assets_map
generate_production_bt parse order cfg r product_aas_id planar_table_id =
    let assets = build_capability_assets_map order cfg r in
    let prebuilt : List Element =
      if cfg.use_prebuilt_subtrees then prebuilt_subtrees parse order cfg r else [] in
    element "root" (("BTCPP_format", codes "4") ∷ ("main_tree_to_execute", codes "Production") ∷ [])
      (of_list (
        main_tree r product_aas_id planar_table_id ∷ aseptic_filling_tree cfg assets r ∷ prebuilt
        ++ tree_nodes_model parse order cfg r))
