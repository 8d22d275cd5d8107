-- ===== src/Planning/Process/Needs.antt =====
-- PackML_Stations/planning/process_aas_generator.py: what the steps and the movers ask for, in
-- order.
use ap2030_uns.Prelude.{
  ◌≡◌, ◌∙◌, refl, sym, ap, arith, Option, none, some, List, [], ◌∷◌, ◌++◌, if◌then◌else◌, codes_eq,
  codes_eq_iff,
}
use ap2030_uns.Planning.Text.{Text}
use ap2030_uns.Planning.Matcher.{ResourceCapability, CapabilityMatch, MoverInfo, MatchingResult}
use ap2030_uns.Planning.Process.{
  TextDict, get, put, Group, ensure, resource_of, add_resource, add_match, add_matches, mover_caps,
  mover_description, add_capabilities, add_movers,
}

pub get-put {ℓ} :
    {V : Type ℓ} (k j : Text) (v : V) (d : TextDict V)
    → get j (put k v d) ≡ (if codes_eq k j then some v else get j d)
get-put k j v [] = refl
get-put k j v ((i, w) ∷ d) =
    ground (arith, codes_eq_iff k j, codes_eq_iff i k, codes_eq_iff i j, get-put k j v d)

-- What one step or one capability of a mover asks for.
pub record Need : Type 0 where
  pub name : Text
  pub semantic_id : Text
  pub description : Text
  pub resource : Option ResourceCapability

abbrev pub match_need : CapabilityMatch → Need
match_need m = record {
  name = m.process_step.name;
  semantic_id = m.process_step.semantic_id;
  description = m.process_step.description;
  resource = resource_of m;
}

abbrev pub mover_need : ResourceCapability → Need
mover_need r = record {
  name = r.name;
  semantic_id = r.semantic_id;
  description = mover_description;
  resource = some r;
}

abbrev pub match_needs : List CapabilityMatch → List Need
match_needs [] = []
match_needs (m ∷ ms) = match_need m ∷ match_needs ms

abbrev pub capability_needs : List ResourceCapability → List Need
capability_needs [] = []
capability_needs (r ∷ rs) = mover_need r ∷ capability_needs rs

abbrev pub mover_needs : List ResourceCapability → List MoverInfo → List Need
mover_needs all [] = []
mover_needs all (m ∷ ms) = capability_needs (mover_caps m all) ++ mover_needs all ms

abbrev pub needs_of : MatchingResult → List Need
needs_of r = match_needs r.process_matches ++ mover_needs r.all_resources r.movers

abbrev pub named : Text → List Need → List Need
named k [] = []
named k (n ∷ ns) = let rest = named k ns in if codes_eq n.name k then n ∷ rest else rest

abbrev pub with_resource : Option ResourceCapability → TextDict Text → TextDict Text
with_resource none d = d
with_resource (some r) d = put r.resource_name r.aas_id d

abbrev pub resources_of : List Need → TextDict Text → TextDict Text
resources_of [] d = d
resources_of (n ∷ ns) d = resources_of ns (with_resource n.resource d)

-- The group of the needs of one name: the first one's description, and all resources.
abbrev pub group_of : List Need → Option Group
group_of [] = none
group_of (n ∷ ns) = some (record {
  semantic_id = n.semantic_id;
  description = n.description;
  resources = resources_of (n ∷ ns) [];
})

abbrev pub group_for : Text → MatchingResult → Option Group
group_for k r = group_of (named k (needs_of r))

-- A group with further needs.
abbrev pub extended : Option Group → List Need → Option Group
extended none ns = group_of ns
extended (some g) ns = some (record g { resources = resources_of ns g.resources })

abbrev pub add_need : Need → TextDict Group → TextDict Group
add_need n d = add_resource n.name n.resource (ensure n.name n.semantic_id n.description d)

abbrev pub add_needs : List Need → TextDict Group → TextDict Group
add_needs [] d = d
add_needs (n ∷ ns) d = add_needs ns (add_need n d)

pub add_needs-append :
    (xs ys : List Need) (d : TextDict Group)
    → add_needs (xs ++ ys) d ≡ add_needs ys (add_needs xs d)
add_needs-append [] ys d = refl
add_needs-append (x ∷ xs) ys d = add_needs-append xs ys (add_need x d)

pub add_matches-needs :
    (ms : List CapabilityMatch) (d : TextDict Group)
    → add_matches ms d ≡ add_needs (match_needs ms) d
add_matches-needs [] d = refl
add_matches-needs (m ∷ ms) d = add_matches-needs ms (add_match m d)

pub add_capabilities-needs :
    (rs : List ResourceCapability) (d : TextDict Group)
    → add_capabilities rs d ≡ add_needs (capability_needs rs) d
add_capabilities-needs [] d = refl
add_capabilities-needs (r ∷ rs) d = add_capabilities-needs rs (add_need (mover_need r) d)

pub add_movers-needs :
    (all : List ResourceCapability) (ms : List MoverInfo) (d : TextDict Group)
    → add_movers all ms d ≡ add_needs (mover_needs all ms) d
add_movers-needs all [] d = refl
add_movers-needs all (m ∷ ms) d =
    ap (add_movers all ms) (add_capabilities-needs (mover_caps m all) d)
    ∙ add_movers-needs all ms (add_needs (capability_needs (mover_caps m all)) d)
    ∙ sym (add_needs-append (capability_needs (mover_caps m all)) (mover_needs all ms) d)
