-- ===== src/PackMl/Trace.antt =====
-- A station over time: the messages that it receives and the threads that end, one at a time.
-- An exception that leaves a callback ends the callback's thread only.
use ap2030_uns.Prelude.{String, Bool, Option, List, [], ◌∷◌, if◌then◌else◌}
use ap2030_uns.Prelude.Dict.{Dict}
use ap2030_uns.PackMl.Machine.{Uuid, Machine, Outcome, done, raised, Op, modify, self, skip}
use ap2030_uns.PackMl.States.{transition}
use ap2030_uns.PackMl.Commands.{state_command_callback}
use ap2030_uns.PackMl.Occupation.{
  register_callback, register_command, unregister_callback, unregister_command, unregister_active,
  unregister_head, unregister_waiting, clear_down,
}
use ap2030_uns.PackMl.Execution.{execute_command, ProcessResult, end_thread}

pub data Event : Type 0 where
  state_message : Dict String → Event
  occupy_message : Option Uuid → Event
  release_message : Option Uuid → Event
  execute_message : Dict String → Bool → Event
  thread_end : Uuid → ProcessResult → Event

abbrev pub after : Outcome → Machine
after (done m) = m
after (raised m) = m

-- Without occupation the topics of `Occupy` and `Release` are not subscribed to.
unfoldable pub step : Event → Op
step (state_message message) = state_command_callback message
step (occupy_message uuid) =
    self (λ m. if m.enable_occupation then register_callback uuid else skip)
step (release_message uuid) =
    self (λ m. if m.enable_occupation then unregister_callback uuid else skip)
step (execute_message message can) = modify (execute_command message can)
step (thread_end uuid result) = modify (end_thread uuid result)

unfoldable pub run : Machine → List Event → Machine
unfolding step transition state_command_callback register_callback register_command
    unregister_callback unregister_command unregister_active unregister_head unregister_waiting
    clear_down execute_command end_thread
run m [] = m
run m (e ∷ es) = run (after (step e m)) es
