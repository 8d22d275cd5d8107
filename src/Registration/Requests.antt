-- ===== src/Registration/Requests.antt =====
-- Registration and delegation together: the request that comes of a registered action.
use ap2030_uns.Prelude.{
  ◌≡◌, ◌∙◌, refl, sym, ap, String, Bool, true, false, not, ◌&&◌, Option, none, some, List, [], ◌∷◌,
  ◌++◌, if◌then◌else◌, str_eq, eq_iff, codes, Bool-cases, inl, inr,
}
use Prim.Native.Char.{Char}
use Prim.Native.String.{◌++◌ as concat}
use Prim.Native.String.append
use ap2030_uns.Prelude.Dict.{Dict, lookup}
use ap2030_uns.Delegation.Schema.{or_else, is_missing}
use ap2030_uns.Delegation.Service.{
  SkillConfig, AssetConfig, Request, request_for, topic_of, default_base,
}
use ap2030_uns.Registration.Endpoint.{SystemConfig, Endpoint, get_mqtt_endpoint, Action}
use ap2030_uns.Registration.Config.{
  get_actions, Entry, is_some, filled, is_answered, skill_entry, skills_from, submodel_id_of,
  get_operation_delegation_entry,
}
use ap2030_uns.Registration.Topics.{
  ConfigData, entry_of, has_skills, read_entry, load_topic_config, Operation, add, run,
}
use ap2030_uns.Registration.Replay.{registered, replay, registry_of, run-replay}
use ap2030_uns.Registration.Lookup.{
  last_action, lookup-skills_from, lookup-load_topic_config, AllLeave, replay-AllLeave,
  replay-append,
}

-- What an action stands for, at the endpoint of the delegation service.
abbrev pub request_of : String → SystemConfig → String → Action → Request
request_of asset_id c skill a = record {
  command_topic = a.command_topic;
  response_topic =
      or_else (if is_answered a then a.response_topic else none)
        (topic_of (default_base asset_id) "DATA" skill);
  is_one_way = not (is_answered a);
  is_async = is_answered a && not a.synchronous;
  state_property_path =
      if is_answered a && not a.synchronous
      then some (codes (submodel_id_of asset_id c) ++ b'|' ∷ codes skill)
      else none;
  array_mappings = [];
  input_schema = filled a.input_schema;
  output_schema = if is_answered a then filled a.output_schema else none;
}

abbrev entry_with : String → SystemConfig → Endpoint → List Action → Entry
entry_with asset_id c e rest = record {
  base_topic = e.base_topic;
  submodel_id = submodel_id_of asset_id c;
  skills = skills_from rest [];
}

entry_of_lem :
    (asset_id : String) (c : SystemConfig) (others : ConfigData) (e : Endpoint) (rest : List Action)
    → get_mqtt_endpoint c ≡ some e
    → get_actions c ≡ some rest
    → entry_of ((asset_id, some c) ∷ others) ≡ some (asset_id, entry_with asset_id c e rest)
unfolding entry_of get_operation_delegation_entry
entry_of_lem asset_id c others e rest h k = rw (h, k, entry_of, get_operation_delegation_entry) refl

has_skills-some :
    (e : Entry) (k : String) (s : SkillConfig) → lookup k e.skills ≡ some s → has_skills e ≡ true
has_skills-some e k s h = by_skills e.skills h
  where
    by_skills :
        (d : Dict SkillConfig)
        → lookup k d ≡ some s
        → (elim d as (λ x. Bool) [ [] ↦ false | _ ∷ _ ↦ true ]) ≡ true
    by_skills [] h = absurd cc
    by_skills (x ∷ d) h = refl

lookup-registered :
    (os later : List Operation) (topics : Dict Entry) (asset_id skill : String) (c : SystemConfig)
    (others : ConfigData) (e : Endpoint) (rest : List Action) (a : Action)
    → get_mqtt_endpoint c ≡ some e
    → get_actions c ≡ some rest
    → last_action skill rest ≡ some a
    → AllLeave asset_id later
    → (lookup asset_id (run (os ++ add ((asset_id, some c) ∷ others) ∷ later) topics)
        ≡ some (entry_with asset_id c e rest))
      × (lookup skill (entry_with asset_id c e rest).skills ≡ some (skill_entry a))
lookup-registered os later topics asset_id skill c others e rest a h k l left = (
  run-replay (os ++ add ((asset_id, some c) ∷ others) ∷ later) topics asset_id
      ∙ ap (λ r. r asset_id)
          (replay-append os (add ((asset_id, some c) ∷ others) ∷ later) (registry_of topics))
      ∙ replay-AllLeave asset_id later
          (registered (entry_of ((asset_id, some c) ∷ others)) (replay os (registry_of topics)))
          left
      ∙ ap (λ o. registered o (replay os (registry_of topics)) asset_id)
          (entry_of_lem asset_id c others e rest h k)
      ∙ ap
          (λ b.
            if b && str_eq asset_id asset_id
            then some (entry_with asset_id c e rest)
            else replay os (registry_of topics) asset_id)
          (has_skills-some (entry_with asset_id c e rest) skill (skill_entry a) found)
      ∙ ap
          (λ b.
            if b
            then some (entry_with asset_id c e rest)
            else replay os (registry_of topics) asset_id)
          ((eq_iff asset_id asset_id).1 refl),
  found,
)
  where
    found : lookup skill (skills_from rest []) ≡ some (skill_entry a)
    found =
        lookup-skills_from skill rest []
        ∙ ap
            (λ o. elim o as (λ x. Option SkillConfig) [
              | none ↦ none
              | some x ↦ some (skill_entry x)
            ])
            l

is_missing-answered :
    (a : Action)
    → is_missing (if is_answered a then a.response_topic else none) ≡ not (is_answered a)
is_missing-answered a = by_topic a.has_response a.response_topic
  where
    by_topic :
        (b : Bool) (o : Option String)
        → is_missing (
            if b
              && is_some (elim o as (λ x. Option String) [ none ↦ none | some t ↦ filled (some t) ])
            then o
            else none)
          ≡ not (
              b
              && is_some
                  (elim o as (λ x. Option String) [ none ↦ none | some t ↦ filled (some t) ]))
    by_topic false o = refl
    by_topic true none = refl
    by_topic true (some t) = by_flag (is_some (filled (some t)))
      where
        by_flag : (b : Bool) → is_missing (if b then some t else none) ≡ not b
        by_flag true = refl
        by_flag false = refl

async_of : (b : Bool) → not (or_else (if b then some false else none) true) ≡ b
async_of true = refl
async_of false = refl

concat-filled : (c : Char) (s t : String) → str_eq (concat (String.◌∷◌ c s) t) "" ≡ false
concat-filled c s t = elim (Bool-cases (str_eq (concat (String.◌∷◌ c s) t) "")) [
  | inl e ↦ absurd (
      cons_filled (concat s t)
        (sym (append.cons c s t) ∙ (eq_iff (concat (String.◌∷◌ c s) t) "").0 e))
  | inr e ↦ e
]
  where
    cons_filled : (u : String) → Path String (String.◌∷◌ c u) "" → ⊥
    cons_filled u e = cc

submodel_id-some :
    (asset_id : String) (c : SystemConfig) → str_eq (submodel_id_of asset_id c) "" ≡ false
submodel_id-some asset_id c =
    concat-filled "h" "ttps://smartproductionlab.aau.dk/submodels/instances/"
      (concat (or_else c.id_short asset_id) "/Skills")

-- After any registrations and removals, the request for a skill of an asset is that of the last
-- action of this name in the asset's latest registration, if that could be read and the asset was
-- not removed or registered again with skills since: the action's command topic; a wait for a
-- response if and only if the action has a response or an output, with a topic that is not empty,
-- then on its response topic and without the answer's wait for a completion if it is not
-- synchronous; and the action's schemas.
pub request_for-registered :
    (base_url : String) (os later : List Operation) (topics : Dict Entry) (asset_id skill : String)
    (c : SystemConfig) (others : ConfigData) (e : Endpoint) (rest : List Action) (a : Action)
    → get_mqtt_endpoint c ≡ some e
    → get_actions c ≡ some rest
    → last_action skill rest ≡ some a
    → AllLeave asset_id later
    → request_for base_url
        (load_topic_config (run (os ++ add ((asset_id, some c) ∷ others) ∷ later) topics))
        asset_id
        skill
      ≡ request_of asset_id c skill a
unfolding request_for
request_for-registered base_url os later topics asset_id skill c others e rest a h k l left =
    let (at, found) =
      lookup-registered os later topics asset_id skill c others e rest a h k l left in
    let all = run (os ++ add ((asset_id, some c) ∷ others) ∷ later) topics in
    let loaded : lookup asset_id (load_topic_config all)
        ≡ some (read_entry (entry_with asset_id c e rest)) =
      lookup-load_topic_config asset_id all
      ∙ ap (λ o. elim o as (λ x. Option AssetConfig) [ none ↦ none | some x ↦ some (read_entry x) ])
          at in
    rw
      (
        loaded,
        found,
        request_for,
        is_missing-answered a,
        async_of (is_answered a && not a.synchronous),
        submodel_id-some asset_id c,
      )
      refl
