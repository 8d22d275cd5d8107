-- ===== src/Planning/Outcomes.antt =====
-- What the planner answers, and when it saves and registers anything.
use ap2030_uns.Prelude.{
  ℕ, ◌+◌, ◌≡◌, ◌⊎◌, ◌↔◌, inl, inr, refl, ap, Bool, true, false, ◌||◌, Option, none, some, List, [],
  ◌∷◌, All,
}
use ap2030_uns.Prelude.{arith, if◌then◌else◌, codes, length}
use ap2030_uns.Planning.Text.{Text, is_empty}
use ap2030_uns.Planning.Steps.{extract_process_steps}
use ap2030_uns.Planning.Matcher.{
  ProcessStep, ResourceCapability, Resource, MatchingResult, capability_match, is_nil, is_complete,
  match_capabilities, match_steps, unmatched_of, all_capabilities, find_matching_capabilities,
}
use ap2030_uns.Planning.Best.{is_found, is_nil-unmatched_of}
use ap2030_uns.Planning.Subtrees.{generate_production_bt}
use ap2030_uns.Planning.Service.{
  returned, Product, ProcessConfig, Environment, Effect, PlanningResult, Run, perform, effects_of,
  find_planar_table, finish, failed, incomplete_message, plan_product, plan_and_register, succeeded,
  outcome_of,
}
use ap2030_uns.Planning.Response.{
  Response, summary_of, unmatched_capabilities_of, matched_capabilities_of, to_response_dict,
  response_of, planning_process,
}

length-unmatched_capabilities_of :
    (ss : List ProcessStep) → length (unmatched_capabilities_of ss) ≡ length ss
unfolding unmatched_capabilities_of
length-unmatched_capabilities_of [] = refl
length-unmatched_capabilities_of (s ∷ ss) = omega (arith, length-unmatched_capabilities_of ss)

-- A step is reported as matched or as unmatched, never both.
matched_or_unmatched :
    (caps : List ResourceCapability) (steps : List ProcessStep)
    → let ms = match_steps caps steps in
      length (matched_capabilities_of ms) + length (unmatched_of ms) ≡ length ms
unfolding match_steps matched_capabilities_of unmatched_of
matched_or_unmatched caps [] = refl
matched_or_unmatched caps (s ∷ steps) =
    one (find_matching_capabilities s.semantic_id caps) (matched_or_unmatched caps steps)
  where
    one :
        (found : List ResourceCapability)
        → length (matched_capabilities_of (match_steps caps steps))
            + length (unmatched_of (match_steps caps steps))
          ≡ length (match_steps caps steps)
        → let ms = capability_match s found ∷ match_steps caps steps in
          length (matched_capabilities_of ms) + length (unmatched_of ms) ≡ length ms
    one [] h = omega (arith, h)
    one (r ∷ rs) h = omega (arith, h)

-- The summary of a matching adds up: the matched and the unmatched steps are all steps, and the
-- response lists as many matched and unmatched capabilities as it counts.
pub to_response_dict-counts :
    (steps : List ProcessStep) (resources : List Resource) (p : PlanningResult)
    → let r = match_capabilities steps resources in
      let answer = to_response_dict (record p { matching_result = some r }) in
      (answer.matching_summary ≡ some (summary_of r))
      × ((summary_of r).matched_steps + (summary_of r).unmatched_steps ≡ (summary_of r).total_steps)
      × (length answer.matched_capabilities ≡ (summary_of r).matched_steps)
      × (length answer.unmatched_capabilities ≡ (summary_of r).unmatched_steps)
unfolding match_capabilities to_response_dict summary_of
to_response_dict-counts steps resources p =
    let caps = all_capabilities resources in
    let sum = matched_or_unmatched caps steps in
    (
      refl,
      omega (arith, sum),
      omega (arith, sum),
      length-unmatched_capabilities_of (unmatched_of (match_steps caps steps)),
    )

-- What a plan for a product saves and publishes, if nothing fails.
abbrev pub resources_of : Environment → List Text → List Resource
resources_of env asset_ids =
    env.fetch_resource_capabilities (env.resolve_asset_hierarchies asset_ids)

abbrev pub matching_of : Environment → List Text → Product → MatchingResult
matching_of env asset_ids product =
    match_capabilities (extract_process_steps product.processes) (resources_of env asset_ids)

abbrev pub planned_effects : Environment → List Text → Text → Product → List Effect
planned_effects env asset_ids product_aas_id product =
    let r = matching_of env asset_ids product in
    let table = find_planar_table (resources_of env asset_ids) in
    effects_of env (generate_production_bt env.parse env.order env.bt_config r product.aas_id table)
      (env.generate_config r product_aas_id product table)

-- The plan was refused before anything was saved or published.
abbrev pub Refused : List Effect × Response → Type 0
Refused run = (run.0 ≡ []) × (run.1.state ≡ codes "FAILURE")

-- The product was found, all its steps found resources, the planned effects were performed, and
-- the answer is SUCCESS exactly when none of them raised.
abbrev pub Planned : Environment → List Text → Text → List Effect × Response → Type 0
Planned env asset_ids product_aas_id run =
    (product : Product) × (env.fetch_product_config product_aas_id ≡ some product)
    × All (λ s. is_found (all_capabilities (resources_of env asset_ids)) s ≡ true)
        (extract_process_steps product.processes)
    × (run.0 ≡ (perform env.failure (planned_effects env asset_ids product_aas_id product) []).0)
    × ((run.1.state ≡ codes "SUCCESS") ↔ (
        (perform env.failure (planned_effects env asset_ids product_aas_id product) []).1 ≡ none))

first : Text → ℕ
first [] = 0
first (c ∷ s) = c

succeeded_state :
    (product_aas_id : Text) (r : MatchingResult) (c : ProcessConfig) (o : Option Text)
    → ((response_of product_aas_id (outcome_of (succeeded product_aas_id r c) o)).state
        ≡ codes "SUCCESS")
      ↔ (o ≡ none)
unfolding to_response_dict first
succeeded_state product_aas_id r c none = (λ h. refl, λ h. refl)
succeeded_state product_aas_id r c (some m) = (λ h. absurd (differ h), λ h. absurd cc)
  where
    differ : codes "FAILURE" ≡ codes "SUCCESS" → ⊥
    differ h = omega (arith, ap first h)

abbrev answered : Text → Run PlanningResult → List Effect × Response
answered id run = (run.0, response_of id run.1)

plan_product-cases :
    (env : Environment) (asset_ids : List Text) (id : Text) (o : Option Product)
    → env.fetch_product_config id ≡ o
    → let run = answered id (plan_product env asset_ids id o) in
      Refused run ⊎ Planned env asset_ids id run
unfolding plan_product finish to_response_dict unmatched_of match_capabilities
plan_product-cases env asset_ids id none e = inl (refl, refl)
plan_product-cases env asset_ids id (some product) e = by_matching (is_complete r) refl
  where
    r : MatchingResult
    r = matching_of env asset_ids product

    incomplete : Run PlanningResult
    incomplete = ([], returned (failed id (some r) (incomplete_message r)))

    by_matching :
        (b : Bool)
        → is_complete r ≡ b
        → let run =
            answered id
              (if b then finish env id product (resources_of env asset_ids) r else incomplete) in
          Refused run ⊎ Planned env asset_ids id run
    by_matching false c = inl (refl, refl)
    by_matching true c = inr (
      product,
      e,
      (is_nil-unmatched_of (all_capabilities (resources_of env asset_ids))
            (extract_process_steps product.processes)).0
          c,
      refl,
      succeeded_state id r
          (env.generate_config r id product (find_planar_table (resources_of env asset_ids)))
          (perform env.failure (planned_effects env asset_ids id product) []).1,
    )

-- A planning command is either refused with FAILURE before anything is saved or published, or its
-- product was found, each of the product's steps found a resource, the planned effects were
-- performed in their order up to the first that raises, and the answer is SUCCESS exactly if none
-- did. An empty list of assets or product ID is refused.
pub planning_process-cases :
    (env : Environment) (asset_ids : List Text) (id : Text)
    → let run = planning_process (some env) asset_ids (some id) in
      (Refused run ⊎ Planned env asset_ids id run)
      × ((is_nil asset_ids || is_empty id) ≡ true → Refused run)
unfolding planning_process plan_and_register
planning_process-cases env asset_ids [] = (inl (refl, refl), λ h. (refl, refl))
planning_process-cases env [] (c ∷ s) = (inl (refl, refl), λ h. (refl, refl))
planning_process-cases env (a ∷ rest) (c ∷ s) = (
  plan_product-cases env (a ∷ rest) (c ∷ s) (env.fetch_product_config (c ∷ s)) refl,
  λ h. absurd cc,
)
