-- ===== src/Delegation/Service.antt =====
-- The operations of operation_delegation_service.py: an invocation's steps, one-way commands, and
-- the endpoint that finds the topics of a skill. The configuration is the content of topics.json
-- as records of the keys that the code reads.
use ap2030_uns.Prelude.{
  String, Bool, true, not, Option, none, some, List, [], ◌∷◌, ◌++◌, if◌then◌else◌, codes, str_eq,
}
use ap2030_uns.Prelude.Dict.{Dict, lookup}
use ap2030_uns.Delegation.Values.{Text, Message}
use ap2030_uns.Delegation.Bridge.{Bridge, Event, invoke, command, failed, run}
use ap2030_uns.Delegation.Schema.{Schema, ArrayMapping, or_else, is_missing}
use ap2030_uns.Delegation.Command.{Variable, build_command_message}
use Prim.Native.String.{◌++◌ as concat}

pub record SkillConfig : Type 0 where
  pub command_topic : Option String
  pub response_topic : Option String
  pub synchronous : Option Bool
  pub array_mappings : Dict (List ArrayMapping)
  pub input_schema : Option String
  pub output_schema : Option String

pub record AssetConfig : Type 0 where
  pub base_topic : Option String
  pub submodel_id : Option String
  pub skills : Option (Dict SkillConfig)

-- What the endpoint asks the bridge for: `invoke_one_way`, or `invoke_operation`.
pub record Request : Type 0 where
  pub command_topic : String
  pub response_topic : String
  pub is_one_way : Bool
  pub is_async : Bool
  pub state_property_path : Option Text
  pub array_mappings : Dict (List ArrayMapping)
  pub input_schema : Option String
  pub output_schema : Option String

-- f"{base}/{kind}/{skill}"
abbrev pub topic_of : String → String → String → String
topic_of base kind skill = concat base (concat "/" (concat kind (concat "/" skill)))

abbrev pub default_base : String → String
default_base asset_id = concat "NN/Nybrovej/InnoLab/" asset_id

-- The settings of a skill that is not in the configuration, `{}`.
abbrev pub no_config : SkillConfig
no_config = record {
  command_topic = none;
  response_topic = none;
  synchronous = none;
  array_mappings = [];
  input_schema = none;
  output_schema = none;
}

abbrev pub skill_of : String → Option AssetConfig → Option SkillConfig
skill_of skill none = none
skill_of skill (some asset) = lookup skill (or_else asset.skills [])

abbrev pub base_of : String → Option AssetConfig → String
base_of asset_id none = default_base asset_id
base_of asset_id (some asset) = or_else asset.base_topic (default_base asset_id)

-- The command topic and the response topic.
abbrev pub topics : String → String → Option AssetConfig → Option SkillConfig → String × String
topics asset_id skill asset none =
    let base = base_of asset_id asset in (topic_of base "CMD" skill, topic_of base "DATA" skill)
topics asset_id skill asset (some c) =
    let base = default_base asset_id in
    (
      or_else c.command_topic (topic_of base "CMD" skill),
      or_else c.response_topic (topic_of base "DATA" skill),
    )

-- An empty ID counts as missing.
abbrev pub submodel_of : Option AssetConfig → Option String
submodel_of none = none
submodel_of (some asset) = elim asset.submodel_id [
  | none ↦ none
  | some i ↦ if str_eq i "" then none else some i
]

-- `AAS_BASE_URL` is the first argument.
abbrev pub state_path : String → String → String → Option AssetConfig → Text
state_path base_url asset_id skill asset =
    codes (
      or_else (submodel_of asset)
        (concat base_url (concat "/submodels/instances/" (concat asset_id "/Skills"))))
    ++ b'|' ∷ codes skill

-- The first part of `invoke_asset_skill`.
unfoldable pub request_for : String → Dict AssetConfig → String → String → Request
request_for base_url config asset_id skill =
    let asset = lookup asset_id config in
    let found = skill_of skill asset in
    let c = or_else found no_config in
    let t = topics asset_id skill asset found in
    let is_async = not (or_else c.synchronous true) in
    record {
      command_topic = t.0;
      response_topic = t.1;
      is_one_way = is_missing c.response_topic;
      is_async = is_async;
      state_property_path =
          if is_async then some (state_path base_url asset_id skill asset) else none;
      array_mappings = c.array_mappings;
      input_schema = c.input_schema;
      output_schema = c.output_schema;
    }

-- The steps at the start of a request, for a new correlation ID: a one-way command is published at
-- once, and an operation starts to wait before its command is built.
abbrev pub publish : Request → Option Message → List Event
publish r none = []
publish r (some m) = command r.command_topic m ∷ []

abbrev pub started : String → Request → Option Message → List Event
started id r none = failed id ∷ []
started id r (some m) = command r.command_topic m ∷ []

abbrev pub start : String → Request → Option Message → List Event
start id r m =
    if r.is_one_way
    then publish r m
    else invoke id r.response_topic r.is_async r.state_property_path ∷ started id r m

-- The answer of the endpoint, before the wait: `[]` with status 200 to a one-way command, and
-- status 500 where the command could not be built. None is an operation that waits.
pub data Answer : Type 0 where
  empty_list : Answer
  operation_failed : Answer

abbrev pub answer : Request → Option Message → Option Answer
answer r none = some operation_failed
answer r (some m) = if r.is_one_way then some empty_list else none

unfoldable pub message_of :
    (String → Option Schema) → String → List (Option Variable) → Request → Option Message
unfolding build_command_message
message_of schema_of id variables r =
    build_command_message schema_of id variables r.array_mappings r.input_schema

unfoldable pub invoke_asset_skill :
    (String → Option Schema)
    → String
    → Dict AssetConfig
    → String
    → String
    → String
    → List (Option Variable)
    → Bridge
    → Bridge × Option Answer
unfolding request_for message_of run
invoke_asset_skill schema_of base_url config asset_id skill id variables b =
    let r = request_for base_url config asset_id skill in
    let m = message_of schema_of id variables r in (run (start id r m) b, answer r m)
