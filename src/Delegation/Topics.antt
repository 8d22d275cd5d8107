-- ===== src/Delegation/Topics.antt =====
-- The endpoint for a skill that the configuration does not list.
use ap2030_uns.Prelude.{◌≡◌, ◌∙◌, refl, ap, String, true, false, Option, none, some, List, []}
use ap2030_uns.Prelude.Dict.{Dict, lookup}
use ap2030_uns.Delegation.Values.{Message}
use ap2030_uns.Delegation.Bridge.{Bridge, publish, call, step, run}
use ap2030_uns.Delegation.Schema.{Schema}
use ap2030_uns.Delegation.Command.{Variable, build_command_message}
use ap2030_uns.Delegation.Service.{
  AssetConfig, topic_of, skill_of, base_of, request_for, Request, start, Answer, empty_list,
  operation_failed, answer, message_of, invoke_asset_skill,
}

one_way :
    (id : String) (r : Request) (m : Option Message) (b : Bridge)
    → r.is_one_way ≡ true
    → (run (start id r m) b, answer r m) ≡ (elim m as (λ x. Bridge × Option Answer) [
      | none ↦ (b, some operation_failed)
      | some c ↦ (call (publish r.command_topic c) b, some empty_list)
    ])
unfolding run step
one_way id r none b h = rw h refl
one_way id r (some m) b h = rw h refl

abbrev unlisted : Option AssetConfig → String → String → Request
unlisted asset asset_id skill = record {
  command_topic = topic_of (base_of asset_id asset) "CMD" skill;
  response_topic = topic_of (base_of asset_id asset) "DATA" skill;
  is_one_way = true;
  is_async = false;
  state_property_path = none;
  array_mappings = [];
  input_schema = none;
  output_schema = none;
}

request_for-unlisted :
    (base_url : String) (config : Dict AssetConfig) (asset_id skill : String)
    → skill_of skill (lookup asset_id config) ≡ none
    → request_for base_url config asset_id skill ≡ unlisted (lookup asset_id config) asset_id skill
unfolding request_for
request_for-unlisted base_url config asset_id skill h = rw h refl

-- A skill that the configuration does not list is always sent one way: the only effect is the
-- command on the topic derived from the asset, without a subscription, and the answer is an
-- empty list; where the command cannot be built, nothing is sent and the operation fails.
pub invoke_asset_skill-unlisted :
    (schema_of : String → Option Schema) (base_url : String) (config : Dict AssetConfig)
    (asset_id skill id : String) (variables : List (Option Variable)) (b : Bridge)
    → skill_of skill (lookup asset_id config) ≡ none
    → invoke_asset_skill schema_of base_url config asset_id skill id variables b
      ≡ (elim (build_command_message schema_of id variables [] none) [
        | none ↦ (b, some operation_failed)
        | some m ↦ (
          call (publish (topic_of (base_of asset_id (lookup asset_id config)) "CMD" skill) m) b,
          some empty_list,
        )
      ])
unfolding invoke_asset_skill message_of
invoke_asset_skill-unlisted schema_of base_url config asset_id skill id variables b h =
    let r = unlisted (lookup asset_id config) asset_id skill in
    ap
      (λ q. (
        run (start id q (message_of schema_of id variables q)) b,
        answer q (message_of schema_of id variables q),
      ))
      (request_for-unlisted base_url config asset_id skill h)
    ∙ one_way id r (message_of schema_of id variables r) b refl
