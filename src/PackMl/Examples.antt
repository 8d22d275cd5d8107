-- ===== src/PackMl/Examples.antt =====
-- Runs of a station, and the theorems at these runs.
use ap2030_uns.Prelude.{◌≡◌, ◌⊎◌, refl, true, false, none, some, List, [], ◌∷◌, ◌++◌}
use ap2030_uns.Prelude.{String}
use ap2030_uns.Prelude.Dict.{lookup, get_or}
use ap2030_uns.PackMl.Machine.{
  Machine, Uuid, done, starting, execute, completing, aborted, command_status, response,
}
use ap2030_uns.PackMl.Machine.{unregister_topic, success}
use ap2030_uns.PackMl.States.{transition}
use ap2030_uns.PackMl.Commands.{state_command, start, reset, abort_command}
use ap2030_uns.PackMl.Occupation.{register_callback, unregister_command}
use ap2030_uns.PackMl.Execution.{
  create, execute_command, end_thread, returned, merged_fields, response_data, ProcessResult,
}
use ap2030_uns.PackMl.Trace.{
  Event, state_message, occupy_message, release_message, execute_message, run, after,
}
use ap2030_uns.PackMl.Settle.{settle, transition-settle}
use ap2030_uns.PackMl.Invariant.{Inv}
use ap2030_uns.PackMl.Invariant.Traces.{run-Inv}
use ap2030_uns.PackMl.Control.{state-state_command, Aborts, abort_command-Aborts}
use ap2030_uns.PackMl.Register.{Starts, register_callback-Starts}
use ap2030_uns.PackMl.Release.{
  Leaves, unregister_command-Leaves, unregister_command-pops_head, unregister_command-restarts,
}
use ap2030_uns.PackMl.Process.{Runs, Refuses, execute_command-cases, reported, end_thread-reported}
use ap2030_uns.PackMl.Stuck.{start_then_requests}

abbrev fresh : Machine
fresh = create [] true false

abbrev occupy : String → Event
occupy u = occupy_message (some u)

abbrev leave : String → Event
leave u = release_message (some u)

abbrev execute_as : String → Event
execute_as u = execute_message (("Uuid", u) ∷ []) true

abbrev command : String → Event
command word = state_message (("StateId", word) ∷ [])

-- Three clients queue up, and the first one works.
abbrev working : List Event
working = occupy "a" ∷ occupy "b" ∷ occupy "c" ∷ execute_as "a" ∷ []

working_queue :
    let m = run fresh working in
    (m.uuids ≡ "a" ∷ "b" ∷ "c" ∷ []) × (m.state ≡ execute) × (m.is_processing ≡ true)
unfolding run create
working_queue = (refl, refl, refl)

-- The first client releases twice: the second release takes the place of client b.
released_twice : (run fresh (working ++ leave "a" ∷ leave "a" ∷ [])).uuids ≡ "c" ∷ []
unfolding run create
released_twice = refl

-- A station that was aborted and that two clients wait for leaves ABORTED by a release.
aborted_queue : (run fresh (command "Abort" ∷ occupy "a" ∷ occupy "b" ∷ [])).state ≡ aborted
unfolding run create
aborted_queue = refl

leaves_aborted :
    (run fresh (command "Abort" ∷ occupy "a" ∷ occupy "b" ∷ leave "a" ∷ [])).state ≡ execute
unfolding run create
leaves_aborted = refl

-- The answer of a process that was interrupted and says SUCCESS all the same.
abbrev busy : Machine
busy = run fresh (working ++ leave "a" ∷ [])

abbrev insists : ProcessResult
insists = returned (some (("State", "SUCCESS") ∷ []))

interrupted_success :
    (get_or "a" false busy.interruption_requested ≡ true)
    × ((end_thread "a" insists busy).log ≡ response (some "a") success [] ∷ busy.log)
unfolding run create end_thread
interrupted_success = (refl, refl)

abbrev waiting_in_stop : Machine
waiting_in_stop = run fresh (command "Stop" ∷ occupy "a" ∷ occupy "b" ∷ [])

transition-settle_example :
    transition completing (some "#") busy ≡ done (settle completing (some "#") busy)
transition-settle_example = transition-settle completing (some "#") busy

run-Inv_example : Inv (run (create [] true false) working)
run-Inv_example = run-Inv [] true false working

state-state_command_example : (after (state_command reset waiting_in_stop)).state ≡ execute
unfolding run create
state-state_command_example = state-state_command reset waiting_in_stop refl (λ e. cc)

abort_command-Aborts_example : (n : Machine) × (abort_command busy ≡ done n) × Aborts busy n
abort_command-Aborts_example = abort_command-Aborts busy

register_callback-Starts_example :
    (n : Machine) × (register_callback (some "a") fresh ≡ done n) × Starts "a" n
unfolding create
register_callback-Starts_example = register_callback-Starts "a" fresh refl refl refl refl

unregister_command-Leaves_example :
    Leaves (command_status unregister_topic "c" success) ("b" ∷ []) (unregister_command "c" busy)
unfolding run create
unregister_command-Leaves_example = unregister_command-Leaves "c" busy refl refl

unregister_command-pops_head_example :
    Leaves (command_status unregister_topic "a" success) ("c" ∷ []) (unregister_command "a" busy)
unfolding run create
unregister_command-pops_head_example =
    unregister_command-pops_head "a" "b" ("c" ∷ []) busy refl refl

unregister_command-restarts_example :
    (after (unregister_command "a" waiting_in_stop)).state ≡ execute
unfolding run create
unregister_command-restarts_example =
    unregister_command-restarts "a" "b" [] waiting_in_stop refl refl

execute_command-cases_example :
    ((u : Uuid) × (lookup "Uuid" (("Uuid", "a") ∷ []) ≡ some u)
      × Runs u true fresh (execute_command (("Uuid", "a") ∷ []) true fresh))
    ⊎ Refuses (("Uuid", "a") ∷ []) fresh (execute_command (("Uuid", "a") ∷ []) true fresh)
execute_command-cases_example = execute_command-cases (("Uuid", "a") ∷ []) true fresh

end_thread-reported_example :
    let requested = get_or "a" false busy.interruption_requested in
    ((end_thread "a" insists busy).log
      ≡ response (some "a") (reported insists requested) (merged_fields (response_data insists))
        ∷ busy.log)
    × ((end_thread "a" insists busy).is_processing ≡ false)
    × (lookup "a" (end_thread "a" insists busy).interruption_requested ≡ none)
    × (lookup "a" (end_thread "a" insists busy).processing_events ≡ none)
end_thread-reported_example = end_thread-reported "a" insists busy

start_then_requests_example :
    (run (after (state_command start fresh)) (occupy "a" ∷ execute_as "a" ∷ [])).state ≡ starting
unfolding create
start_then_requests_example =
    start_then_requests fresh (occupy "a" ∷ execute_as "a" ∷ []) refl refl (refl, (refl, tt))
