-- ===== src/PackMl/Settle.antt =====
-- Where `transition_to` ends: a closed form without recursion, and that it is reached.
use ap2030_uns.Prelude.{◌≡◌, refl, Option, none, some, List, [], ◌∷◌, tail, arith}
use ap2030_uns.Prelude.{if◌then◌else◌}
use ap2030_uns.PackMl.Machine.{PackMlState, Uuid, Machine, done, publish_state}
use ap2030_uns.PackMl.Machine.{idle, starting, execute, completing, complete, resetting, holding}
use ap2030_uns.PackMl.Machine.{held, unholding, suspending, suspended, unsuspending, stopping}
use ap2030_uns.PackMl.Machine.{stopped, aborting, aborted, clearing}
use ap2030_uns.PackMl.States.{call_handler, release, confirm_registration, fail_pending}
use ap2030_uns.PackMl.States.{settle_current, is_uuid, is_queued, transition_to, transition}

abbrev pub enter : PackMlState → Machine → Machine
enter s m = publish_state (record m { state = s })

abbrev pub settle_starting : List Uuid → Machine → Machine
settle_starting [] m = enter starting m
settle_starting (head ∷ _) m = enter execute (
    confirm_registration head
      (record (call_handler "on_starting" (enter starting m)) { current_uuid = some head }))

abbrev pub settle_idle : List Uuid → Machine → Machine
settle_idle [] m = release (enter idle m)
settle_idle (head ∷ rest) m = settle_starting (head ∷ rest) (release (enter idle m))

abbrev pub settle_reset : Machine → Machine
settle_reset m = settle_idle m.uuids (release (enter resetting m))

abbrev pub left_over : Option Uuid → List Uuid → List Uuid
left_over p us = if is_uuid p "#" then [] else if is_queued p us then tail us else us

-- The machine as `completing_state` hands it on.
abbrev pub completed : Option Uuid → Machine → Machine
completed p m =
    let n = enter completing m in
    enter complete (
      publish_state (record (settle_current p (record n { uuids = left_over p n.uuids })) {
        current_uuid = none;
      }))

unfoldable pub settle : PackMlState → Option Uuid → Machine → Machine
settle idle p m = settle_idle m.uuids m
settle starting p m = settle_starting m.uuids m
settle stopping p m = enter stopped (call_handler "on_stopping" (enter stopping m))
settle holding p m = enter held (call_handler "on_holding" (enter holding m))
settle unholding p m = enter execute (call_handler "on_unholding" (enter unholding m))
settle suspending p m = enter suspended (call_handler "on_suspending" (enter suspending m))
settle unsuspending p m = enter execute (call_handler "on_unsuspending" (enter unsuspending m))
settle completing p m = settle_reset (completed p m)
settle complete p m = settle_reset (enter complete m)
settle resetting p m = settle_reset m
settle aborting p m =
    let n = enter aborting m in
    enter aborted (
      publish_state (
        release (record n {
          pending_registrations = [];
          uuids = [];
          log = fail_pending n.pending_registrations n.log;
        })))
settle clearing p m = record (enter stopped (enter clearing m)) { uuids = [] }
settle s p m = enter s m

-- After `completing` five calls are left, whatever the machine has become.
complete-settle :
    (p : Option Uuid) (m : Machine)
    → transition_to 5 complete p m ≡ done (settle_reset (enter complete m))
unfolding transition_to
complete-settle p m = ground arith

-- From every state and for every machine, `transition_to` ends without running out of the six
-- nested calls that it is given, and leaves the machine that the closed form `settle` names.
pub transition-settle :
    (s : PackMlState) (p : Option Uuid) (m : Machine) → transition s p m ≡ done (settle s p m)
unfolding transition settle
transition-settle idle p m = ground arith
transition-settle starting p m = ground arith
transition-settle resetting p m = ground arith
transition-settle complete p m = ground arith
transition-settle completing p m =
    let n = enter completing m in
    complete-settle none (
      publish_state (record (settle_current p (record n { uuids = left_over p n.uuids })) {
        current_uuid = none;
      }))
transition-settle _ p m = refl
