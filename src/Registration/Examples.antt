-- ===== src/Registration/Examples.antt =====
-- A filling station that registers, and the theorems at its registration.
use ap2030_uns.Prelude.{◌≡◌, refl, true, false, none, some, List, [], ◌∷◌, codes}
use ap2030_uns.Prelude.Dict.{lookup}
use ap2030_uns.Delegation.Service.{request_for}
use ap2030_uns.Delegation.Command.{int_of}
use ap2030_uns.Registration.Endpoint.{
  ActionConfig, SystemConfig, Endpoint, Action, get_mqtt_endpoint, qos_of,
}
use ap2030_uns.Registration.Config.{get_actions, get_operation_delegation_entry}
use ap2030_uns.Registration.Topics.{
  ConfigData, entry_of, Operation, add, remove, load_topic_config, run, add_from_config_data,
}
use ap2030_uns.Registration.Replay.{replay, registry_of, run-replay}
use ap2030_uns.Registration.Lookup.{AllLeave}
use ap2030_uns.Registration.Requests.{request_for-registered}

abbrev dispense : ActionConfig
dispense = record {
  key = none;
  title = some "Dispense";
  input = some "https://schemas/dispense.json";
  output = some "https://schemas/state.json";
  synchronous = some "False";
  forms = some (record {
    href = some "/CMD/Dispense";
    response = some (record { href = some "/DATA/State"; has_more = false });
    mqv_qos = some (qos_of 2);
    mqv_retain = some "False";
  });
}

abbrev tare : ActionConfig
tare = record {
  key = none;
  title = none;
  input = none;
  output = none;
  synchronous = none;
  forms = none;
}

abbrev station : SystemConfig
station = record {
  id_short = some "fillingAAS";
  base = some "mqtt://broker:1883/NN/Filling/";
  actions = ("Dispense", dispense) ∷ ("Tare", tare) ∷ [];
}

abbrev data_of : SystemConfig → ConfigData
data_of c = ("filling", some c) ∷ []

abbrev endpoint : Endpoint
endpoint = record {
  broker_host = some "broker";
  broker_port = codes "1883";
  base_topic = some "NN/Filling";
  broker_url = some "mqtt://broker:1883/NN/Filling/";
}

endpoint-station : get_mqtt_endpoint station ≡ some endpoint
unfolding get_mqtt_endpoint int_of
endpoint-station = refl

abbrev tare_action : Action
tare_action = record {
  name = "Tare";
  key = "Tare";
  title = "Tare";
  command_topic = "NN/Filling/CMD/Tare";
  response_topic = none;
  input_schema = none;
  output_schema = none;
  has_response = false;
  synchronous = true;
  qos = 2;
  retain = false;
}

abbrev dispense_action : Action
dispense_action = record {
  name = "Dispense";
  key = "Dispense";
  title = "Dispense";
  command_topic = "NN/Filling/CMD/Dispense";
  response_topic = some "NN/Filling/DATA/State";
  input_schema = some "https://schemas/dispense.json";
  output_schema = some "https://schemas/state.json";
  has_response = true;
  synchronous = false;
  qos = 2;
  retain = false;
}

actions-station : get_actions station ≡ some (dispense_action ∷ tare_action ∷ [])
unfolding get_actions get_mqtt_endpoint int_of
actions-station = refl

-- A registration without a broker's port that is a number fails, and leaves the topics as they are.
abbrev broken : SystemConfig
broken = record station { base = some "mqtt://broker:port/NN/Filling" }

broken-fails : add_from_config_data (data_of broken) [] ≡ (false, [])
unfolding add_from_config_data get_actions get_mqtt_endpoint int_of
broken-fails = refl

-- A registration without actions leaves the skills of the one before in place.
abbrev bare : SystemConfig
bare = record station { actions = [] }

abbrev operations : List Operation
operations =
    remove "filling" ∷ add (data_of station) ∷ add (data_of broken) ∷ add (data_of bare) ∷ []

stale :
    run (add (data_of bare) ∷ []) (run (add (data_of station) ∷ []) [])
    ≡ run (add (data_of station) ∷ []) []
unfolding add_from_config_data get_actions get_mqtt_endpoint int_of
stale = refl

run-replay_example :
    lookup "filling" (run operations []) ≡ replay operations (registry_of []) "filling"
run-replay_example = run-replay operations [] "filling"

left_alone : AllLeave "filling" (add (data_of broken) ∷ add (data_of bare) ∷ [])
unfolding entry_of get_operation_delegation_entry get_actions get_mqtt_endpoint int_of
left_alone = (tt, (refl, tt))

request_for-registered_example :
    request_for "https://aas" (load_topic_config (run operations [])) "filling" "Dispense"
    ≡ record {
      command_topic = "NN/Filling/CMD/Dispense";
      response_topic = "NN/Filling/DATA/State";
      is_one_way = false;
      is_async = true;
      state_property_path = some (
          codes "https://smartproductionlab.aau.dk/submodels/instances/fillingAAS/Skills|Dispense");
      array_mappings = [];
      input_schema = some "https://schemas/dispense.json";
      output_schema = some "https://schemas/state.json";
    }
request_for-registered_example =
    request_for-registered "https://aas" (remove "filling" ∷ [])
      (add (data_of broken) ∷ add (data_of bare) ∷ []) [] "filling" "Dispense" station [] endpoint
      (dispense_action ∷ tare_action ∷ []) dispense_action endpoint-station actions-station refl
      left_alone
