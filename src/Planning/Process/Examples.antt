-- ===== src/Planning/Process/Examples.antt =====
-- The capabilities of a filling process with a shuttle.
use ap2030_uns.Prelude.{◌≡◌, refl, none, some, [], ◌∷◌, codes}
use ap2030_uns.Planning.Text.{Text}
use ap2030_uns.Planning.Matcher.{ProcessStep, ResourceCapability, MatchingResult, capability_match}
use ap2030_uns.Planning.Process.{get, generate_required_capabilities}
use ap2030_uns.Planning.Process.Needs.{group_for}
use ap2030_uns.Planning.Process.Groups.{with_table, generate_required_capabilities_lem}

abbrev step : Text → Text → ProcessStep
step name description = record {
  name = name;
  step = 1;
  semantic_id = codes "urn:fill";
  description = description;
  estimated_duration = [];
  parameters = [];
}

abbrev resource : Text → Text → Text → ResourceCapability
resource name aas_id resource_name = record {
  name = name;
  semantic_id = codes "urn:move";
  aas_id = aas_id;
  resource_name = resource_name;
  realized_by = none;
  properties = [];
}

abbrev filler : ResourceCapability
filler = resource (codes "Fill") (codes "aas:filler") (codes "filler")

abbrev shuttle : ResourceCapability
shuttle = resource (codes "Move") (codes "aas:shuttle") (codes "shuttle")

abbrev result : MatchingResult
result = record {
  process_matches =
      capability_match (step (codes "Fill") (codes "first")) []
      ∷ capability_match (step (codes "Fill") (codes "second")) (filler ∷ shuttle ∷ [])
      ∷ [];
  movers =
      record { aas_id = codes "aas:shuttle"; name = codes "shuttle"; asset_type = codes "Mover" }
      ∷ [];
  unmatched_steps = [];
  all_resources = filler ∷ shuttle ∷ [];
}

fill_group :
    get (codes "Fill") (generate_required_capabilities result (some (codes "aas:table")))
    ≡ some (record {
      semantic_id = codes "urn:fill";
      description = codes "first";
      resources = (codes "filler", codes "aas:filler") ∷ [];
    })
unfolding generate_required_capabilities
fill_group = refl

generate_required_capabilities_lem_example :
    get (codes "Move") (generate_required_capabilities result (some (codes "aas:table")))
    ≡ with_table (some (codes "aas:table")) (codes "Move") (group_for (codes "Move") result)
generate_required_capabilities_lem_example =
    generate_required_capabilities_lem result (some (codes "aas:table")) (codes "Move")
