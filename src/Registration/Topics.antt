-- ===== src/Registration/Topics.antt =====
-- Registration_Service/src/topics_generator.py: the topics of all assets, by their IDs. What is
-- saved to topics.json and logged is left out.
use ap2030_uns.Prelude.{
  ℕ, suc, String, Bool, true, false, Option, none, some, List, [], ◌∷◌, if◌then◌else◌, ltb,
}
use ap2030_uns.Prelude.Dict.{Dict, lookup, insert, erase}
use ap2030_uns.Delegation.Schema.{or_else}
use ap2030_uns.Delegation.Service.{SkillConfig, AssetConfig}
use ap2030_uns.Registration.Endpoint.{SystemConfig}
use ap2030_uns.Registration.Config.{Entry, get_operation_delegation_entry, is_some}

-- A parsed YAML file: its first key is the asset's ID. A value that is null is none.
abbrev pub ConfigData : Type 0
ConfigData = Dict (Option SystemConfig)

-- The ID and the entry of a configuration; none where an exception is raised.
unfoldable pub entry_of : ConfigData → Option (String × Entry)
unfolding get_operation_delegation_entry
entry_of [] = none
entry_of ((system_id, none) ∷ rest) = none
entry_of ((system_id, some c) ∷ rest) = elim (get_operation_delegation_entry system_id c) [
  | none ↦ none
  | some e ↦ some (system_id, e)
]

abbrev pub has_skills : Entry → Bool
has_skills e = elim e.skills [ [] ↦ false | _ ∷ _ ↦ true ]

-- Without skills nothing is added.
abbrev pub add_entry : Option (String × Entry) → Dict Entry → Bool × Dict Entry
add_entry none topics = (false, topics)
add_entry (some (asset_id, entry)) topics =
    (true, if has_skills entry then insert asset_id entry topics else topics)

unfoldable pub add_from_config_data : ConfigData → Dict Entry → Bool × Dict Entry
unfolding entry_of
add_from_config_data config_data topics = add_entry (entry_of config_data) topics

unfoldable pub remove_asset : String → Dict Entry → Bool × Dict Entry
remove_asset asset_id topics =
    if is_some (lookup asset_id topics) then (true, erase asset_id topics) else (false, topics)

abbrev pub get_asset_skills : String → Dict Entry → Dict SkillConfig
get_asset_skills asset_id topics = elim (lookup asset_id topics) [ none ↦ [] | some e ↦ e.skills ]

-- The configurations of some files, of which none is one that cannot be parsed: how many have
-- been added.
abbrev pub add_configs : List (Option ConfigData) → ℕ → Dict Entry → ℕ × Dict Entry
add_configs [] n topics = (n, topics)
add_configs (none ∷ rest) n topics = add_configs rest n topics
add_configs (some config_data ∷ rest) n topics =
    let added = add_from_config_data config_data topics in
    add_configs rest (if added.0 then suc n else n) added.1

-- The topics that are saved; none are if no configuration has been added.
unfoldable pub generate_topics_from_configs :
    List (Option ConfigData) → Dict Entry → Option (Dict Entry)
unfolding add_from_config_data
generate_topics_from_configs configs topics =
    let added = add_configs configs 0 topics in if ltb 0 added.0 then some added.1 else none

-- What the delegation service reads of topics.json: a base topic that is null is the text None
-- where it is put into a topic.
abbrev pub read_entry : Entry → AssetConfig
read_entry e = record {
  base_topic = some (or_else e.base_topic "None");
  submodel_id = some e.submodel_id;
  skills = some e.skills;
}

abbrev pub load_topic_config : Dict Entry → Dict AssetConfig
load_topic_config [] = []
load_topic_config ((asset_id, e) ∷ rest) = (asset_id, read_entry e) ∷ load_topic_config rest

-- The registrations and removals that the service is asked for.
pub data Operation : Type 0 where
  add : ConfigData → Operation
  remove : String → Operation

abbrev pub perform : Operation → Dict Entry → Dict Entry
perform (add config_data) topics = (add_from_config_data config_data topics).1
perform (remove asset_id) topics = (remove_asset asset_id topics).1

abbrev pub run : List Operation → Dict Entry → Dict Entry
run [] topics = topics
run (o ∷ os) topics = run os (perform o topics)
