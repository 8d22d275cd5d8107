-- ===== src/Delegation/Moves.antt =====
-- Test data and witnesses for commands and topics: a mover's command, whose array is the position.
use ap2030_uns.Prelude.{
  ◌≡◌, refl, String, true, false, Option, none, some, List, [], ◌∷◌, if◌then◌else◌, codes, contains,
}
use ap2030_uns.Prelude.Dict.{Dict, lookup}
use ap2030_uns.Delegation.Values.{Value, float, text, single, array, Message}
use ap2030_uns.Delegation.Bridge.{publish, call, create}
use ap2030_uns.Delegation.Schema.{
  ItemDef, Schema, ArrayMapping, array_mapped_fields, add_properties, extract_from_schema,
  determine_field_mappings,
}
use ap2030_uns.Delegation.Command.{
  Variable, field_values, keys, mappings_for, add_simple, pass_through, pack_arrays,
  build_command_message,
}
use ap2030_uns.Delegation.Response.{flatten}
use ap2030_uns.Delegation.Service.{
  AssetConfig, topic_of, base_of, empty_list, operation_failed, invoke_asset_skill,
}
use ap2030_uns.Delegation.Packing.{PackFound, derived-pack}
use ap2030_uns.Delegation.Items.{AreArrays, single_of}
use ap2030_uns.Delegation.RoundTrip.{build_command_message-flatten}
use ap2030_uns.Delegation.Extract.{schema_properties, properties_found}
use ap2030_uns.Delegation.Fields.{lookup-build_command_message}
use ap2030_uns.Delegation.Topics.{invoke_asset_skill-unlisted}

abbrev variable : String → String → String → Option Variable
variable name value type =
    some record { id_short = some name; value = some (codes value); value_type = some type }

abbrev variables : List (Option Variable)
variables =
    variable "X" "0.12" "xs:double"
    ∷ variable "Theta" " 1.5 " "xs:double"
    ∷ variable "Speed" "7" "xs:string"
    ∷ []

abbrev values : Dict Value
values =
    ("X", float (codes "0.12")) ∷ ("Theta", float (codes "1.5")) ∷ ("Speed", text (codes "7")) ∷ []

abbrev coordinates : List ArrayMapping
coordinates =
    record { aas_field = "X"; index = 0; optional = false; default = none }
    ∷ record { aas_field = "Theta"; index = 1; optional = true; default = none }
    ∷ []

abbrev position : Dict (List ArrayMapping)
position = ("Position", coordinates) ∷ []

abbrev item : String → ItemDef
item title = record { title = some title; json_type = some "number" }

abbrev move_schema : Schema
move_schema = record {
  required = some ("Position" ∷ []);
  properties = some (
      (
        "Position",
        record {
          json_type = some "array";
          format = none;
          prefix_items = some (item "X" ∷ item "Y" ∷ item "Theta" ∷ []);
          min_items = some 2;
          max_items = none;
        },
      )
      ∷ []);
}

abbrev plain_schema : Schema
plain_schema = record { required = none; properties = none }

abbrev schema_of : String → Option Schema
schema_of url = some move_schema

field_values-variables : field_values variables [] ≡ some values
unfolding field_values
field_values-variables = refl

-- The schema's item Y is required; without it the angle takes its place.
shifted :
    build_command_message schema_of "u" variables [] (some "move.schema.json")
    ≡ some (
        ("Uuid", single (text (codes "u")))
        ∷ ("Position", array (float (codes "0.12") ∷ float (codes "1.5") ∷ []))
        ∷ [])
unfolding build_command_message field_values mappings_for determine_field_mappings
    extract_from_schema add_properties add_simple pack_arrays
shifted = refl

-- Without arrays in the schema, fields that are not in it are sent.
all_sent :
    build_command_message
      (λ url. some plain_schema)
      "u"
      (variable "Speed" "7" "xs:string" ∷ [])
      []
      (some "plain.schema.json")
    ≡ some (("Uuid", single (text (codes "u"))) ∷ ("Speed", single (text (codes "7"))) ∷ [])
unfolding build_command_message field_values mappings_for determine_field_mappings
    extract_from_schema add_properties add_simple pass_through
all_sent = refl

derived-pack_example :
    PackFound values
      (extract_from_schema move_schema).array_fields
      (determine_field_mappings (keys values) (extract_from_schema move_schema)).array_mappings
derived-pack_example = derived-pack values (extract_from_schema move_schema)

position-AreArrays : AreArrays values position
position-AreArrays = (
  (
    λ e. cc,
    refl,
    (refl, (refl, tt)),
    ((float (codes "0.12"), refl), ((float (codes "1.5"), refl), tt)),
  ),
  tt,
)

build_command_message-flatten_example :
    (c : Message) × (build_command_message schema_of "u" variables position none ≡ some c)
    × ((f : String)
        → contains f (array_mapped_fields position) ≡ true
        → contains f ("Uuid" ∷ keys position) ≡ false
        → lookup f (flatten position c) ≡ single_of (lookup f values))
build_command_message-flatten_example =
    build_command_message-flatten schema_of "u" variables none ("Position", coordinates) [] values
      field_values-variables position-AreArrays

lookup-build_command_message_example :
    (c : Message) × (build_command_message schema_of "u" variables [] (some "move.schema.json")
      ≡ some c)
    × ((k : String)
        → contains k ("Uuid" ∷ keys (schema_properties move_schema)) ≡ false
        → lookup k c ≡ (
            if properties_found (keys values) (schema_properties move_schema)
            then none
            else single_of (lookup k values)))
lookup-build_command_message_example =
    lookup-build_command_message schema_of "u" "move.schema.json" variables move_schema values refl
      refl (refl, tt) field_values-variables

abbrev unlisted_config : Dict AssetConfig
unlisted_config =
    ("planarShuttle1", record { base_topic = some "NN/Shuttle"; submodel_id = none; skills = none })
    ∷ []

invoke_asset_skill-unlisted_example :
    invoke_asset_skill schema_of "https://aas" unlisted_config "planarShuttle1" "Move" "u" variables
      (create true)
    ≡ (elim (build_command_message schema_of "u" variables [] none) [
      | none ↦ (create true, some operation_failed)
      | some m ↦ (
        call
            (publish
              (topic_of
                (base_of "planarShuttle1" (lookup "planarShuttle1" unlisted_config))
                "CMD"
                "Move")
              m)
            (create true),
        some empty_list,
      )
    ])
invoke_asset_skill-unlisted_example =
    invoke_asset_skill-unlisted schema_of "https://aas" unlisted_config "planarShuttle1" "Move" "u"
      variables (create true) refl
