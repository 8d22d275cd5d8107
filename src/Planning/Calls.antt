-- ===== src/Planning/Calls.antt =====
-- What the filling tree occupies and calls, and the assets behind it.
use ap2030_uns.Prelude.{
  ◌≡◌, inl, inr, refl, ap, ◌∙◌, true, false, Option, none, some, List, [], ◌∷◌, map, append-nil,
}
use ap2030_uns.Prelude.{arith, if◌then◌else◌, codes, codes_eq, codes_eq_iff, Bool-cases}
use ap2030_uns.Prelude.Dict.{Dict, lookup}
use ap2030_uns.Planning.Text.{Text}
use ap2030_uns.Planning.Tree.{iter, iter_each, find, set}
use ap2030_uns.Planning.Matcher.{
  ProcessStep, ResourceCapability, Resource, CapabilityMatch, MatchingResult, capability_match,
  is_nil, get_or, match_capabilities, match_steps, all_capabilities, unmatched_of, is_complete,
  find_matching_capabilities,
}
use ap2030_uns.Planning.Generator.{
  BtGeneratorConfig, Assets, get_subtree_id, aas_ids, mover_ids, step_assets, all_station_ids,
  build_capability_assets_map, get_assets_for_capability, format_assets_array, step_call,
  step_calls, aseptic_filling_tree,
}

find-set {ℓ} :
    {V : Type ℓ} (k j : Text) (v : V) (d : List (Text × V))
    → find j (set k v d) ≡ (if codes_eq k j then some v else find j d)
find-set k j v [] = refl
find-set k j v ((i, w) ∷ d) =
    ground (arith, codes_eq_iff k j, codes_eq_iff i k, codes_eq_iff i j, find-set k j v d)

-- The movers are the assets of `Moving` and of `Xbot`, whatever the steps are called.
movers_assets :
    (listed : List Text → List Text) (cfg : BtGeneratorConfig) (r : MatchingResult)
    → let d = build_capability_assets_map listed cfg r in
      (find (codes "Moving") d ≡ some (mover_ids r.movers))
      × (find (codes "Xbot") d ≡ some (mover_ids r.movers))
unfolding build_capability_assets_map
movers_assets listed cfg r =
    let movers = mover_ids r.movers in
    let base = step_assets cfg r.process_matches [] in
    let d = set (codes "Xbot") movers (set (codes "Moving") movers base) in
    let moving : find (codes "Moving") d ≡ some movers =
      find-set (codes "Xbot") (codes "Moving") movers (set (codes "Moving") movers base)
      ∙ find-set (codes "Moving") (codes "Moving") movers base in
    let xbot : find (codes "Xbot") d ≡ some movers =
      find-set (codes "Xbot") (codes "Xbot") movers (set (codes "Moving") movers base) in
    let open_ids = listed (all_station_ids r.process_matches) in
    (
      keeps (find (codes "Unloading") d) (codes "Moving") open_ids d refl ∙ moving,
      keeps (find (codes "Unloading") d) (codes "Xbot") open_ids d refl ∙ xbot,
    )
  where
    keeps :
        (o : Option (List Text)) (k : Text) (ids : List Text) (d : Assets)
        → codes_eq (codes "Unloading") k ≡ false
        → find k (elim o [ some _ ↦ d | none ↦ set (codes "Unloading") ids d ]) ≡ find k d
    keeps none k ids d h = find-set (codes "Unloading") k ids d ∙ rw h refl
    keeps (some u) k ids d h = refl

assets_of_movers :
    (listed : List Text → List Text) (cfg : BtGeneratorConfig) (r : MatchingResult)
    → get_assets_for_capability (codes "Moving") (build_capability_assets_map listed cfg r)
      ≡ mover_ids r.movers
unfolding get_assets_for_capability
assets_of_movers listed cfg r = ap (λ o. get_or o []) (movers_assets listed cfg r).0

iter-step_calls :
    (cfg : BtGeneratorConfig) (ms : List CapabilityMatch)
    → (iter_each "SubTree" (step_calls cfg ms) ≡ map (step_call cfg) ms)
      × (iter_each "Occupy" (step_calls cfg ms) ≡ [])
unfolding iter step_calls
iter-step_calls cfg [] = (refl, refl)
iter-step_calls cfg (m ∷ ms) =
    let ih = iter-step_calls cfg ms in (ap (λ l. step_call cfg m ∷ l) ih.0, ih.1)

-- What the filling tree calls and occupies, by its matches.
iter-aseptic :
    (cfg : BtGeneratorConfig) (d : Assets) (r : MatchingResult) (ms : List CapabilityMatch)
    → let tree = aseptic_filling_tree cfg d (record r { process_matches = ms }) in
      (iter "SubTree" tree ≡ map (step_call cfg) ms)
      × (map (lookup "Assets") (iter "Occupy" tree)
          ≡ some (format_assets_array (get_assets_for_capability (codes "Moving") d)) ∷ [])
unfolding iter aseptic_filling_tree
iter-aseptic cfg d r [] = (refl, refl)
iter-aseptic cfg d r (m ∷ ms) =
    let calls = iter-step_calls cfg (m ∷ ms) in
    let steps : iter "SubTree" (aseptic_filling_tree cfg d (record r { process_matches = m ∷ ms }))
        ≡ iter_each "SubTree" (step_calls cfg (m ∷ ms)) =
      simp append-nil in
    (steps ∙ calls.0, rw ((iter-step_calls cfg ms).1) refl)

-- The subtree and the assets of a call.
abbrev pub call_of : Dict Text → Option Text × Option Text
call_of a = (lookup "ID" a, lookup "Assets" a)

-- The call that a process step needs, of its subtree with all resources found for it.
abbrev pub needed_call :
    BtGeneratorConfig → List ResourceCapability → ProcessStep → Option Text × Option Text
needed_call cfg caps s = (
  some (get_subtree_id cfg s.name),
  some (format_assets_array (aas_ids (find_matching_capabilities s.semantic_id caps))),
)

call_of-step_call :
    (cfg : BtGeneratorConfig) (s : ProcessStep) (found : List ResourceCapability)
    → is_nil found ≡ false
    → call_of (step_call cfg (capability_match s found))
      ≡ (some (get_subtree_id cfg s.name), some (format_assets_array (aas_ids found)))
unfolding step_call
call_of-step_call cfg s [] h = cc
call_of-step_call cfg s (r ∷ rs) h = refl

needed_calls :
    (cfg : BtGeneratorConfig) (caps : List ResourceCapability) (steps : List ProcessStep)
    → is_nil (unmatched_of (match_steps caps steps)) ≡ true
    → map call_of (map (step_call cfg) (match_steps caps steps)) ≡ map (needed_call cfg caps) steps
unfolding unmatched_of match_steps
needed_calls cfg caps [] h = refl
needed_calls cfg caps (s ∷ steps) h =
    let found = find_matching_capabilities s.semantic_id caps in
    elim (Bool-cases (is_nil found)) [
      | inl e ↦ absurd (ground arith)
      | inr e ↦
          let rest = needed_calls cfg caps steps (ground arith) in
          cc (call_of-step_call cfg s found e, rest)
    ]

-- Where the matching is complete, the filling tree occupies one of the movers, and calls for every
-- process step, in their order, the step's subtree with all resources that were found for it.
pub aseptic_filling_tree-calls :
    (listed : List Text → List Text) (cfg : BtGeneratorConfig) (steps : List ProcessStep)
    (resources : List Resource)
    → is_complete (match_capabilities steps resources) ≡ true
    → let r = match_capabilities steps resources in
      let tree = aseptic_filling_tree cfg (build_capability_assets_map listed cfg r) r in
      (map call_of (iter "SubTree" tree) ≡ map (needed_call cfg (all_capabilities resources)) steps)
      × (map (lookup "Assets") (iter "Occupy" tree)
          ≡ some (format_assets_array (mover_ids r.movers)) ∷ [])
unfolding match_capabilities
aseptic_filling_tree-calls listed cfg steps resources h =
    let r = match_capabilities steps resources in
    let d = build_capability_assets_map listed cfg r in
    let tree = iter-aseptic cfg d r r.process_matches in
    (
      ap (map call_of) tree.0 ∙ needed_calls cfg (all_capabilities resources) steps h,
      tree.1 ∙ ap (λ ids. some (format_assets_array ids) ∷ []) (assets_of_movers listed cfg r),
    )
