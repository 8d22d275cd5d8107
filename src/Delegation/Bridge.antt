-- ===== src/Delegation/Bridge.antt =====
-- `MQTTOperationBridge` of operation_delegation_service.py: invocations that wait for a response,
-- and the messages that come in. The object that an invocation keeps is the one in
-- `_pending_operations`, which only the invocation itself removes. A call of the MQTT client or
-- of the AAS server goes to a log, newest first.
use ap2030_uns.Prelude.{String, Bool, true, false, Option, none, some, List, [], ◌∷◌}
use ap2030_uns.Prelude.{if◌then◌else◌, codes}
use ap2030_uns.Prelude.Dict.{Dict, lookup, insert, erase}
use ap2030_uns.Delegation.Values.{Text, text, Field, single, Message, upper, is_one_of, split_bar}

-- `response_received` is whether the event is set.
pub record PendingOperation : Type 0 where
  pub response_topic : String
  pub response_received : Bool
  pub response_data : Option Message
  pub response_state : Text
  pub state_property_path : Option Text
  pub is_async : Bool

pub data Call : Type 0 where
  subscribe unsubscribe : String → Call
  publish : String → Message → Call
  update_state_machine : Text → Text → Text → Call

-- The attributes that change, and whether there is an AAS state updater.
pub record Bridge : Type 0 where
  pub pending_operations : Dict PendingOperation
  pub response_subscriptions : Dict String
  pub has_updater : Bool
  pub log : List Call

abbrev pub call : Call → Bridge → Bridge
call c b = record b { log = c ∷ b.log }

-- `_update_aas_state_async`: a path is a submodel's ID and a skill's name with a bar between them.
-- The thread that makes the call is taken to run at once.
abbrev pub update_parts : List Text → Text → Bridge → Bridge
update_parts (submodel_id ∷ skill_name ∷ []) state b =
    call (update_state_machine submodel_id skill_name state) b
update_parts _ state b = b

unfoldable pub update_aas_state_async : Text → Text → Bridge → Bridge
update_aas_state_async path state b =
    if b.has_updater then update_parts (split_bar path) state b else b

-- `if is_async and state_property_path`
abbrev pub async_path : Bool → Option Text → Option Text
async_path true (some (c ∷ s)) = some (c ∷ s)
async_path _ _ = none

unfoldable pub update_if_async : PendingOperation → Text → Bridge → Bridge
unfolding update_aas_state_async
update_if_async op state b = elim (async_path op.is_async op.state_property_path) [
  | none ↦ b
  | some path ↦ update_aas_state_async path state b
]

abbrev pub terminal_states : List Text
terminal_states =
    codes "SUCCESS"
    ∷ codes "FAILURE"
    ∷ codes "ERROR"
    ∷ codes "COMPLETED"
    ∷ codes "ABORTED"
    ∷ codes "CANCELLED"
    ∷ []

-- `payload.get("State", "SUCCESS").upper()`, which raises for a state that is not a text.
abbrev pub state_of : Option Field → Option Text
state_of none = some (codes "SUCCESS")
state_of (some (single (text s))) = some (upper s)
state_of (some _) = none

-- The operation after a message with a state.
abbrev pub respond : Message → Text → PendingOperation → PendingOperation
respond payload state op = record op {
  response_data = some payload;
  response_state = state;
  response_received = if is_one_of state terminal_states then true else op.response_received;
}

-- The operation that a topic's subscription names, with its ID.
abbrev pub subscribed : Option String → Bridge → Option (String × PendingOperation)
subscribed none b = none
subscribed (some id) b = elim (lookup id b.pending_operations) [
  | none ↦ none
  | some op ↦ some (id, op)
]

abbrev pub deliver : Message → Text → Option (String × PendingOperation) → Bridge → Bridge
deliver payload state none b = b
deliver payload state (some (id, op)) b =
    update_if_async op state
      (record b { pending_operations = insert id (respond payload state op) b.pending_operations })

-- A payload is missing where it is no JSON object; the exceptions are caught.
unfoldable pub on_message : String → Option Message → Bridge → Bridge
unfolding update_if_async
on_message topic none b = b
on_message topic (some payload) b = elim (state_of (lookup "State" payload)) [
  | none ↦ b
  | some state ↦ deliver payload state (subscribed (lookup topic b.response_subscriptions) b) b
]

-- The start of `invoke_operation`, up to the subscription.
abbrev pub new_operation : String → Bool → Option Text → PendingOperation
new_operation topic is_async path = record {
  response_topic = topic;
  response_received = false;
  response_data = none;
  response_state = codes "PENDING";
  state_property_path = path;
  is_async = is_async;
}

unfoldable pub begin : String → String → Bool → Option Text → Bridge → Bridge
unfolding update_if_async
begin id topic is_async path b =
    let op = new_operation topic is_async path in
    let running = update_if_async op (codes "RUNNING") b in
    call (subscribe topic) (record running {
      pending_operations = insert id op running.pending_operations;
      response_subscriptions = insert topic id running.response_subscriptions;
    })

-- The `finally` block.
unfoldable pub cleanup : String → String → Bridge → Bridge
cleanup id topic b = call (unsubscribe topic) (record b {
  pending_operations = erase id b.pending_operations;
  response_subscriptions = erase topic b.response_subscriptions;
})

-- How an invocation ends: with the response, by a time-out, or by another exception.
pub data Ending : Type 0 where
  response : Option Message → Ending
  timed_out : Ending

-- The end of the wait: the event is set, or the time is over. The state goes to IDLE or TIMEOUT.
abbrev pub ending_of : PendingOperation → Ending
ending_of op = if op.response_received then response op.response_data else timed_out

unfoldable pub end_wait : String → PendingOperation → Bridge → Bridge
unfolding update_if_async cleanup
end_wait id op b =
    cleanup id op.response_topic
      (update_if_async op (if op.response_received then codes "IDLE" else codes "TIMEOUT") b)

-- What happens to the bridge: an invocation starts, publishes its command, or fails before that;
-- its wait ends; a message arrives.
pub data Event : Type 0 where
  invoke : String → String → Bool → Option Text → Event
  command : String → Message → Event
  failed : String → Event
  wait_ends : String → Event
  message : String → Option Message → Event

abbrev pub with_operation :
    (PendingOperation → Bridge → Bridge) → Option PendingOperation → Bridge → Bridge
with_operation f none b = b
with_operation f (some op) b = f op b

unfoldable pub step : Event → Bridge → Bridge
unfolding begin on_message end_wait cleanup
step (invoke id topic is_async path) b = begin id topic is_async path b
step (command topic m) b = call (publish topic m) b
step (failed id) b =
    with_operation (λ op. cleanup id op.response_topic) (lookup id b.pending_operations) b
step (wait_ends id) b = with_operation (end_wait id) (lookup id b.pending_operations) b
step (message topic payload) b = on_message topic payload b

unfoldable pub run : List Event → Bridge → Bridge
unfolding step
run [] b = b
run (e ∷ es) b = run es (step e b)

-- `__init__`
unfoldable pub create : Bool → Bridge
create has_updater = record {
  pending_operations = [];
  response_subscriptions = [];
  has_updater = has_updater;
  log = [];
}
