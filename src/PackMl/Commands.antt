-- ===== src/PackMl/Commands.antt =====
-- `state_command_callback` and `abort_command`: commands from outside, such as Start and Stop.
use ap2030_uns.Prelude.{String, Bool, true, Option, none, some, List, [], ◌∷◌, ℕ}
use ap2030_uns.Prelude.{if◌then◌else◌, codes, lower, codes_eq}
use ap2030_uns.Prelude.Dict.{Dict, lookup, insert}
use ap2030_uns.PackMl.Machine.{Uuid, Machine, Op, ◌>>◌, skip, modify, self, is_state, is_among}
use ap2030_uns.PackMl.Machine.{idle, starting, execute, complete, resetting, holding, held}
use ap2030_uns.PackMl.Machine.{unholding, suspending, suspended, unsuspending, stopping, stopped}
use ap2030_uns.PackMl.Machine.{aborting, aborted, clearing, truthy}
use ap2030_uns.PackMl.States.{transition}

-- The words that the `if` chain of the callback tests for.
pub data StateCommand : Type 0 where
  start stop hold unhold clear reset suspend unsuspend abort : StateCommand

abbrev is_word : List ℕ → String → Bool
is_word cmd word = codes_eq cmd (codes word)

-- `cmd = str(state_id).lower()` and the tests of the chain; a word it does not know is ignored.
unfoldable pub command_of : String → Option StateCommand
command_of state_id =
    let cmd = lower (codes state_id) in
    if is_word cmd "start"
    then some start
    else if is_word cmd "stop"
    then some stop
    else if is_word cmd "hold"
    then some hold
    else if is_word cmd "unhold"
    then some unhold
    else if is_word cmd "clear"
    then some clear
    else if is_word cmd "reset"
    then some reset
    else if is_word cmd "suspend"
    then some suspend
    else if is_word cmd "unsuspend"
    then some unsuspend
    else if is_word cmd "abort"
    then some abort
    else none

-- `interrupt_event.set()`, if `uuid` has an event.
abbrev pub set_event : Uuid → Dict Bool → Dict Bool
set_event uuid events = elim (lookup uuid events) [
  | none ↦ events
  | some _ ↦ insert uuid true events
]

-- The flag of `uuid`, and its event if it has one, ask its process to stop.
abbrev pub interrupt : Uuid → Machine → Machine
interrupt uuid m = record m {
  interruption_requested = insert uuid true m.interruption_requested;
  processing_events = set_event uuid m.processing_events;
}

-- The same for the command in process, if there is one.
abbrev pub interrupt_active : Machine → Machine
interrupt_active m =
    let active : Option Uuid = if m.is_processing then truthy m.current_processing_uuid else none in
    record m {
      interruption_requested = elim active [
        | none ↦ m.interruption_requested
        | some uuid ↦ insert uuid true m.interruption_requested
      ];
      processing_events = elim active [
        | none ↦ m.processing_events
        | some uuid ↦ set_event uuid m.processing_events
      ];
    }

unfoldable pub abort_command : Op
abort_command = do
  modify interrupt_active
  self (λ m. transition aborting (if m.is_processing then m.current_processing_uuid else some "#"))

-- The guard of each command, and the state it goes to.
unfoldable pub state_command : StateCommand → Op
unfolding abort_command
state_command start = self (λ m. if is_state m.state idle then transition starting none else skip)
state_command stop = self (λ m.
    if is_among m.state (stopped ∷ stopping ∷ aborted ∷ aborting ∷ [])
    then skip
    else transition stopping none)
state_command hold = self (λ m. if is_state m.state execute then transition holding none else skip)
state_command unhold =
    self (λ m. if is_among m.state (held ∷ holding ∷ []) then transition unholding none else skip)
state_command clear =
    self (λ m. if is_state m.state aborted then transition clearing none else skip)
state_command reset = self (λ m.
    if is_among m.state (stopped ∷ aborted ∷ complete ∷ [])
    then transition resetting none
    else skip)
state_command suspend =
    self (λ m. if is_state m.state execute then transition suspending none else skip)
state_command unsuspend = self (λ m.
    if is_among m.state (suspended ∷ suspending ∷ []) then transition unsuspending none else skip)
state_command abort =
    self (λ m. if is_among m.state (aborted ∷ aborting ∷ []) then skip else abort_command)

-- `message.get("StateId")`, with `ButtonId` where that is missing or empty.
unfoldable pub state_command_callback : Dict String → Op
unfolding state_command command_of
state_command_callback message =
    let id : Option String = elim (truthy (lookup "StateId" message)) [
      | none ↦ truthy (lookup "ButtonId" message)
      | some s ↦ some s
    ] in
    elim id [
      | none ↦ skip
      | some state_id ↦ elim (command_of state_id) [ none ↦ skip | some c ↦ state_command c ]
    ]
