-- ===== src/PackMl/Control.antt =====
-- What the commands from outside do: a table of their states, and Abort.
use ap2030_uns.Prelude.{◌≡◌, refl, true, false, none, some, List, [], ◌∷◌, arith}
use ap2030_uns.Prelude.{inl, inr, if◌then◌else◌, str_eq, eq_iff, Bool-cases}
use ap2030_uns.Prelude.Dict.{Dict, lookup, lookup-insert}
use ap2030_uns.PackMl.Machine.{PackMlState, Uuid, Machine, Message, Said, done, command_status}
use ap2030_uns.PackMl.Machine.{register_topic, failure, truthy}
use ap2030_uns.PackMl.Machine.{
  is_among, holding, unholding, suspending, unsuspending, stopping, clearing, resetting, idle,
  starting, execute, held, suspended, stopped, aborting, aborted,
}
use ap2030_uns.PackMl.States.{fail_pending, confirm_registration}
use ap2030_uns.PackMl.Commands.{StateCommand, start, stop, hold, unhold, clear, reset, suspend}
use ap2030_uns.PackMl.Commands.{unsuspend, abort, interrupt_active, abort_command, state_command}
use ap2030_uns.PackMl.Settle.{settle, transition-settle}
use ap2030_uns.PackMl.Trace.{after}
use ap2030_uns.PackMl.Invariant.{is_resting}

-- The state that follows a command, from a resting state and the process queue.
abbrev pub next_state : StateCommand → PackMlState → List Uuid → PackMlState
next_state start idle us = starting
next_state stop stopped us = stopped
next_state stop aborted us = aborted
next_state stop _ us = stopped
next_state hold execute us = held
next_state unhold held us = execute
next_state clear aborted us = stopped
next_state reset stopped [] = idle
next_state reset stopped (u ∷ us) = execute
next_state reset aborted [] = idle
next_state reset aborted (u ∷ us) = execute
next_state suspend execute us = suspended
next_state unsuspend suspended us = execute
next_state abort s us = aborted
next_state c s us = s

abort_command-aborted : (m : Machine) → (after (abort_command m)).state ≡ aborted
unfolding abort_command settle
abort_command-aborted m = rw transition-settle

-- A command takes a station in a resting state with an empty queue when idle to the state that the
-- table names, and to no other: outside its guard it changes no state.
pub state-state_command :
    (c : StateCommand) (m : Machine)
    → is_resting m.state ≡ true
    → (m.state ≡ idle → m.uuids ≡ [])
    → (after (state_command c m)).state ≡ next_state c m.state m.uuids
unfolding state_command settle confirm_registration
state-state_command start m r e = ground (arith, transition-settle starting none m)
state-state_command stop m r e = ground (arith, transition-settle stopping none m)
state-state_command hold m r e = ground (arith, transition-settle holding none m)
state-state_command unhold m r e = ground (arith, transition-settle unholding none m)
state-state_command clear m r e = ground (arith, transition-settle clearing none m)
state-state_command reset m r e = ground (arith, transition-settle resetting none m)
state-state_command suspend m r e = ground (arith, transition-settle suspending none m)
state-state_command unsuspend m r e = ground (arith, transition-settle unsuspending none m)
state-state_command abort m r e = elim (Bool-cases (is_among m.state (aborted ∷ aborting ∷ []))) [
  | inl t ↦ rw t (ground arith)
  | inr t ↦ rw t (abort_command-aborted m)
]

Said-fail_pending :
    (e : Message) (d : Dict Uuid) (log : List Message) → Said e log → Said e (fail_pending d log)
unfolding fail_pending
Said-fail_pending e [] log h = h
Said-fail_pending e ((u, r) ∷ d) log h =
    Said-fail_pending e d (command_status register_topic r failure ∷ log) (inr h)

fail_pending-Said :
    (u r : Uuid) (d : Dict Uuid) (log : List Message)
    → lookup u d ≡ some r
    → Said (command_status register_topic r failure) (fail_pending d log)
unfolding fail_pending
fail_pending-Said u r [] log h = absurd (cc)
fail_pending-Said u r ((v, q) ∷ d) log h = elim (Bool-cases (str_eq v u)) [
  | inl e ↦
      let same : q ≡ r = ground arith in
      rw same (Said-fail_pending _ d (command_status register_topic r failure ∷ log) (inl refl))
  | inr e ↦ fail_pending-Said u r d (command_status register_topic q failure ∷ log) (ground arith)
]

-- What an abort leaves.
pub record Aborts (m n : Machine) : Type 0 where
  pub state : n.state ≡ aborted
  pub queue : n.uuids ≡ []
  pub pending : n.pending_registrations ≡ []
  pub released : n.is_processing ≡ false
  pub current : n.current_processing_uuid ≡ none
  pub threads : n.threads ≡ m.threads
  pub answered :
      (u r : Uuid)
      → lookup u m.pending_registrations ≡ some r
      → Said (command_status register_topic r failure) n.log
  pub flagged :
      (u : Uuid)
      → m.is_processing ≡ true
      → truthy m.current_processing_uuid ≡ some u
      → lookup u n.interruption_requested ≡ some true

-- Abort always ends, in ABORTED, with the queue and the pending registrations empty and nothing
-- marked as processing; it answers FAILURE to every pending registration and flags the command in
-- process for interruption. Its thread goes on.
pub abort_command-Aborts : (m : Machine) → (n : Machine) × (abort_command m ≡ done n) × Aborts m n
unfolding abort_command settle
abort_command-Aborts m =
    let i = interrupt_active m in
    let p = if i.is_processing then i.current_processing_uuid else some "#" in
    (
      settle aborting p i,
      transition-settle aborting p i,
      record {
        state = refl;
        queue = refl;
        pending = refl;
        released = refl;
        current = refl;
        threads = refl;
        answered = λ u r h. inr (inr (fail_pending-Said u r m.pending_registrations _ h));
        flagged =
            λ u e f. ground (arith, lookup-insert u u true m.interruption_requested, eq_iff u u);
      },
    )
