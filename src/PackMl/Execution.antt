-- ===== src/PackMl/Execution.antt =====
-- `execute_command`, the thread that it starts, `_handle_process_completion`, and `__init__`.
-- A thread is listed from its start to its end; what its process function returns is a parameter
-- of its end.
use ap2030_uns.Prelude.{String, Bool, true, false, ◌&&◌, ◌||◌, not, Option, none, some}
use ap2030_uns.Prelude.{List, [], ◌∷◌, ◌++◌, if◌then◌else◌, contains, str_eq}
use ap2030_uns.Prelude.Dict.{Dict, lookup, insert, erase, get_or}
use ap2030_uns.PackMl.Machine.{Uuid, Machine, Thread, say}
use ap2030_uns.PackMl.Machine.{publish_state, response, running, success, failure, idle, execute}
use ap2030_uns.PackMl.Machine.{is_state, truthy}
use ap2030_uns.PackMl.States.{is_uuid}

-- In service mode a command that is not queued yet is queued on its arrival.
abbrev pub auto_queued : Option Uuid → Machine → List Uuid
auto_queued command_uuid m =
    if m.auto_execute && not m.enable_occupation
    then elim (truthy command_uuid) [
      | none ↦ m.uuids
      | some uuid ↦ if contains uuid m.uuids then m.uuids else m.uuids ++ uuid ∷ []
    ]
    else m.uuids

abbrev pub auto_queue : Option Uuid → Machine → Machine
auto_queue command_uuid m = record m { uuids = auto_queued command_uuid m }

-- The status of a refused command; an empty message has no UUID to answer to.
abbrev pub reject : Dict String → Machine → Machine
reject [] m = say (response (some "UNKNOWN_MESSAGE_UUID") failure []) m
reject ((k, v) ∷ d) m = say (response (lookup "Uuid" ((k, v) ∷ d)) failure []) m

-- `can` says whether the process function takes an `interrupt_event`.
abbrev pub start_process : Uuid → Bool → Machine → Machine
start_process active can m = say (response (some active) running []) (record m {
  current_processing_uuid = some active;
  interruption_requested = insert active false m.interruption_requested;
  processing_events = if can then insert active false m.processing_events else m.processing_events;
  is_processing = true;
  threads = m.threads ++ (record { uuid = active; can_interrupt = can }) ∷ [];
})

-- The test that the command is the head of the queue, and that nothing is being processed.
abbrev pub try_head : List Uuid → Dict String → Bool → Machine → Machine
try_head [] message can m = reject message m
try_head (head ∷ _) message can m =
    if is_uuid (lookup "Uuid" message) head && not m.is_processing
    then start_process head can m
    else reject message m

unfoldable pub execute_command : Dict String → Bool → Machine → Machine
execute_command message can m =
    if is_state m.state execute
    then (let n = auto_queue (lookup "Uuid" message) m in try_head n.uuids message can n)
    else reject message m

-- How a process function ends: with a value, which is a dictionary or not, or by an exception.
pub data ProcessResult : Type 0 where
  returned : Option (Dict String) → ProcessResult
  threw : String → ProcessResult

-- `final_state_thread` at the end of `process_wrapper_thread_target`.
unfoldable pub final_state : ProcessResult → Bool → String
final_state (threw e) requested = failure
final_state (returned none) requested = if requested then failure else success
final_state (returned (some d)) requested =
    if requested || str_eq (get_or "State" success d) failure then failure else success

-- `response_data` of the same function.
unfoldable pub response_data : ProcessResult → Dict String
response_data (threw e) = ("ErrorMessage", e) ∷ []
response_data (returned none) = []
response_data (returned (some d)) = d

-- The response's `State` field stands apart, so the merge leaves the three fixed keys out.
abbrev pub merged_fields : Dict String → Dict String
merged_fields d = erase "State" (erase "TimeStamp" (erase "Uuid" d))

unfoldable pub handle_process_completion : Uuid → String → Dict String → Machine → Machine
handle_process_completion completed_uuid final_command_state d m =
    say (response (some completed_uuid) (get_or "State" final_command_state d) (merged_fields d))
      (record m {
        processing_events = erase completed_uuid m.processing_events;
        interruption_requested = erase completed_uuid m.interruption_requested;
        is_processing = false;
      })

abbrev pub without_thread : Uuid → List Thread → List Thread
without_thread uuid [] = []
without_thread uuid (t ∷ ts) = if str_eq t.uuid uuid then ts else t ∷ without_thread uuid ts

-- The end of the thread of `uuid`.
unfoldable pub end_thread : Uuid → ProcessResult → Machine → Machine
unfolding final_state response_data handle_process_completion
end_thread uuid result m =
    let requested = get_or uuid false m.interruption_requested in
    handle_process_completion uuid (final_state result requested) (response_data result)
      (record m { threads = without_thread uuid m.threads })

-- `__init__`
unfoldable pub create : List String → Bool → Bool → Machine
create custom_handlers enable_occupation auto_execute =
    let m = publish_state (record {
      state = idle;
      current_uuid = none;
      handlers = custom_handlers;
      enable_occupation = enable_occupation;
      auto_execute = auto_execute;
      is_processing = false;
      uuids = [];
      current_processing_uuid = none;
      processing_events = [];
      interruption_requested = [];
      pending_registrations = [];
      threads = [];
      log = [];
    }) in
    if auto_execute then publish_state (record m { state = execute }) else m
