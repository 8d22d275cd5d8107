-- ===== src/Registration/Config.antt =====
-- Registration_Service/src/config_parser.py: the actions of a configuration, and its entry for the
-- delegation service.
use ap2030_uns.Prelude.{
  ℕ, String, Bool, true, false, not, ◌&&◌, ◌||◌, Option, none, some, List, [], ◌∷◌, if◌then◌else◌,
  codes, lower, codes_eq,
}
use ap2030_uns.Prelude.Dict.{Dict, insert}
use ap2030_uns.Delegation.Schema.{or_else}
use ap2030_uns.Delegation.Service.{SkillConfig}
use Prim.Native.String.{◌++◌ as concat}
use ap2030_uns.Registration.Endpoint.{
  Qos, qos_of, not_a_number, ResponseForm, Forms, ActionConfig, SystemConfig, Action, lstrip_slash,
  is_empty, get_mqtt_endpoint,
}

abbrev pub filled : Option String → Option String
filled none = none
filled (some s) = if is_empty s then none else some s

-- f"{base_topic}/{suffix}" if base_topic else suffix
abbrev pub full_topic : Option String → String → String
full_topic base suffix = elim (filled base) [
  | none ↦ suffix
  | some b ↦ concat b (concat "/" suffix)
]

abbrev pub no_forms : Forms
no_forms = record { href = none; response = none; mqv_qos = none; mqv_retain = none }

abbrev pub no_response : ResponseForm
no_response = record { href = none; has_more = false }

abbrev pub is_some {ℓ} : {A : Type ℓ} → Option A → Bool
is_some none = false
is_some (some a) = true

abbrev pub has_response_of : ActionConfig → Bool
has_response_of a =
    let r = or_else (or_else a.forms no_forms).response no_response in
    (is_some r.href || r.has_more) || is_some (filled a.output)

abbrev pub command_topic_of : Option String → String → ActionConfig → String
command_topic_of base name a =
    full_topic base (lstrip_slash (or_else (or_else a.forms no_forms).href (concat "/CMD/" name)))

abbrev pub response_topic_of : Option String → String → ActionConfig → Option String
response_topic_of base name a =
    if has_response_of a
    then some (
        full_topic base (
          lstrip_slash (
            or_else (or_else (or_else a.forms no_forms).response no_response).href
              (concat "/DATA/" name))))
    else none

abbrev pub is_true : String → Bool
is_true s = codes_eq (lower (codes s)) (codes "true")

abbrev pub qos_or_raise : Option Qos → Option ℕ
qos_or_raise none = some 2
qos_or_raise (some (qos_of n)) = some n
qos_or_raise (some not_a_number) = none

abbrev pub action_of : Option String → String → ActionConfig → Option Action
action_of base name a = elim (qos_or_raise (or_else a.forms no_forms).mqv_qos) [
  | none ↦ none
  | some n ↦ some (record {
    name = name;
    key = or_else a.key name;
    title = or_else a.title name;
    command_topic = command_topic_of base name a;
    response_topic = response_topic_of base name a;
    input_schema = a.input;
    output_schema = a.output;
    has_response = has_response_of a;
    synchronous = is_true (or_else a.synchronous "true");
    qos = n;
    retain = is_true (or_else (or_else a.forms no_forms).mqv_retain "false");
  })
]

abbrev pub add_action : Option Action → Option (List Action) → Option (List Action)
add_action none rest = none
add_action (some a) none = none
add_action (some a) (some rest) = some (a ∷ rest)

abbrev pub actions_from : Option String → Dict ActionConfig → Option (List Action)
actions_from base [] = some []
actions_from base ((name, a) ∷ rest) = add_action (action_of base name a) (actions_from base rest)

unfoldable pub get_actions : SystemConfig → Option (List Action)
unfolding get_mqtt_endpoint
get_actions c = elim (get_mqtt_endpoint c) [
  | none ↦ none
  | some e ↦ actions_from e.base_topic c.actions
]

-- An entry of topics.json; the base topic is null without one.
pub record Entry : Type 0 where
  pub base_topic : Option String
  pub submodel_id : String
  pub skills : Dict SkillConfig

-- The keys that only a skill with a response has.
abbrev pub is_answered : Action → Bool
is_answered a =
    a.has_response && is_some (elim a.response_topic [ none ↦ none | some t ↦ filled (some t) ])

abbrev pub skill_entry : Action → SkillConfig
skill_entry a = record {
  command_topic = some a.command_topic;
  response_topic = if is_answered a then a.response_topic else none;
  synchronous = if is_answered a && not a.synchronous then some false else none;
  array_mappings = [];
  input_schema = filled a.input_schema;
  output_schema = if is_answered a then filled a.output_schema else none;
}

abbrev pub skills_from : List Action → Dict SkillConfig → Dict SkillConfig
skills_from [] d = d
skills_from (a ∷ rest) d = skills_from rest (insert a.name (skill_entry a) d)

abbrev pub submodel_id_of : String → SystemConfig → String
submodel_id_of system_id c =
    concat "https://smartproductionlab.aau.dk/submodels/instances/"
      (concat (or_else c.id_short system_id) "/Skills")

unfoldable pub get_operation_delegation_entry : String → SystemConfig → Option Entry
unfolding get_mqtt_endpoint get_actions
get_operation_delegation_entry system_id c = elim (get_mqtt_endpoint c) [
  | none ↦ none
  | some e ↦ elim (get_actions c) [
    | none ↦ none
    | some rest ↦ some (record {
      base_topic = e.base_topic;
      submodel_id = submodel_id_of system_id c;
      skills = skills_from rest [];
    })
  ]
]
