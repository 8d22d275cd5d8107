-- ===== src/PackMl/States.antt =====
-- `transition_to` and the methods that it calls on entering a state. They call one another, so
-- `transition_to` takes fuel, and a spent fuel is Python's RecursionError. Settle shows that six
-- calls deep are enough from every state. The custom handlers are the caller's: a call of one is
-- logged, and it is taken to leave the machine's attributes alone.
use ap2030_uns.Prelude.{ℕ, zero, suc, String, Bool, false, Option, none, some}
use ap2030_uns.Prelude.{List, [], ◌∷◌, tail, contains, str_eq, if◌then◌else◌}
use ap2030_uns.Prelude.Dict.{Dict, lookup, erase}
use ap2030_uns.PackMl.Machine.{PackMlState, Uuid, Machine, Op, ◌>>◌}
use ap2030_uns.PackMl.Machine.{skip, raise, modify, self, publish_state}
use ap2030_uns.PackMl.Machine.{command_status, Message, register_topic, handler_call}
use ap2030_uns.PackMl.Machine.{success, failure}
use ap2030_uns.PackMl.Machine.{idle, starting, execute, completing, complete, resetting, holding}
use ap2030_uns.PackMl.Machine.{held, unholding, suspending, suspended, unsuspending, stopping}
use ap2030_uns.PackMl.Machine.{stopped, aborting, aborted, clearing}

-- `if key in self.custom_handlers: self.custom_handlers[key]()`
abbrev pub call_handler : String → Machine → Machine
call_handler key m = record m {
  log = if contains key m.handlers then handler_call key ∷ m.log else m.log;
}

-- `self.current_processing_uuid == uuid_completed`, where both may be None.
abbrev pub same_uuid : Option Uuid → Option Uuid → Bool
same_uuid none none = Bool.true
same_uuid none (some b) = false
same_uuid (some a) none = false
same_uuid (some a) (some b) = str_eq a b

abbrev pub is_uuid : Option Uuid → Uuid → Bool
is_uuid none b = false
is_uuid (some a) b = str_eq a b

-- `uuid in self.uuids`
abbrev pub is_queued : Option Uuid → List Uuid → Bool
is_queued none us = false
is_queued (some a) us = contains a us

-- The attributes that `idle_state` and `resetting_state` reset.
abbrev pub release : Machine → Machine
release m = record m { current_uuid = none; current_processing_uuid = none; is_processing = false }

-- One FAILURE for each pending registration, in the dictionary's order, on the log.
unfoldable pub fail_pending : Dict Uuid → List Message → List Message
fail_pending [] log = log
fail_pending ((uuid, reg_cmd_uuid) ∷ rest) log =
    fail_pending rest (command_status register_topic reg_cmd_uuid failure ∷ log)

-- SUCCESS for the registration of the head of the queue, if it is pending.
unfoldable pub confirm_registration : Uuid → Machine → Machine
confirm_registration uuid m =
    let found = lookup uuid m.pending_registrations in
    record m {
      pending_registrations = elim found [
        | none ↦ m.pending_registrations
        | some _ ↦ erase uuid m.pending_registrations
      ];
      log = elim found [
        | none ↦ m.log
        | some original ↦ command_status register_topic original success ∷ m.log
      ];
    }

-- The attributes of the process that completed, if it is the current one.
abbrev pub settle_current : Option Uuid → Machine → Machine
settle_current uuid_completed m =
    let same = same_uuid m.current_processing_uuid uuid_completed in
    record m {
      current_processing_uuid = if same then none else m.current_processing_uuid;
      is_processing = if same then false else m.is_processing;
    }

-- `transition` is `self.transition_to`.
module _ (transition : PackMlState → Option Uuid → Op) where
  unfoldable pub idle_state : Op
  idle_state = do
    modify release
    self (λ m. elim m.uuids [ [] ↦ skip | _ ∷ _ ↦ transition starting none ])

  unfoldable pub starting_state : Op
  unfolding confirm_registration
  starting_state = do
    modify (call_handler "on_starting")
    self (λ m. elim m.uuids [
      | [] ↦ transition idle none
      | head ∷ _ ↦ do
        modify (λ n. confirm_registration head (record n { current_uuid = some head }))
        transition execute none
    ])

  unfoldable pub stopping_state : Op
  stopping_state = do modify (call_handler "on_stopping"); transition stopped none

  unfoldable pub holding_state : Op
  holding_state = do modify (call_handler "on_holding"); transition held none

  unfoldable pub unholding_state : Op
  unholding_state = do modify (call_handler "on_unholding"); transition execute none

  unfoldable pub suspending_state : Op
  suspending_state = do modify (call_handler "on_suspending"); transition suspended none

  unfoldable pub unsuspending_state : Op
  unsuspending_state = do modify (call_handler "on_unsuspending"); transition execute none

  -- The branch of `pop(0)` has its UUID in the queue, which is therefore not empty.
  unfoldable pub completing_state : Option Uuid → Op
  completing_state uuid_completed = do
    modify (λ m. record m {
      uuids =
          if is_uuid uuid_completed "#"
          then []
          else if is_queued uuid_completed m.uuids
          then tail m.uuids
          else m.uuids;
    })
    modify (λ m. settle_current uuid_completed m)
    modify (λ m. publish_state (record m { current_uuid = none }))
    transition complete none

  unfoldable pub aborting_state : Op
  unfolding fail_pending
  aborting_state = do
    modify (λ m. record m { log = fail_pending m.pending_registrations m.log })
    modify (λ m. release (record m { pending_registrations = []; uuids = [] }))
    modify publish_state
    transition aborted none

  unfoldable pub resetting_state : Op
  resetting_state = do modify release; transition idle none

  unfoldable pub clearing_state : Op
  clearing_state = do transition stopped none; modify (λ m. record m { uuids = [] })

  -- The `if` chain of `transition_to`. The last clause is every other state: nothing is called.
  unfoldable pub on_enter : PackMlState → Option Uuid → Op
  unfolding idle_state starting_state stopping_state holding_state unholding_state suspending_state
      unsuspending_state completing_state aborting_state resetting_state clearing_state
  on_enter idle p = idle_state
  on_enter starting p = self (λ m. elim m.uuids [ [] ↦ skip | _ ∷ _ ↦ starting_state ])
  on_enter stopping p = stopping_state
  on_enter holding p = holding_state
  on_enter unholding p = unholding_state
  on_enter suspending p = suspending_state
  on_enter unsuspending p = unsuspending_state
  on_enter completing p = completing_state p
  on_enter complete p = transition resetting none
  on_enter resetting p = resetting_state
  on_enter aborting p = aborting_state
  on_enter clearing p = clearing_state
  on_enter _ p = skip

unfoldable pub transition_to : ℕ → PackMlState → Option Uuid → Op
unfolding on_enter
transition_to zero new_state uuid_param = raise
transition_to (suc fuel) new_state uuid_param = do
  modify (λ m. publish_state (record m { state = new_state }))
  on_enter (transition_to fuel) new_state uuid_param

abbrev pub max_depth : ℕ
max_depth = 6

-- `transition_to`, as the other methods call it.
unfoldable pub transition : PackMlState → Option Uuid → Op
unfolding transition_to
transition = transition_to max_depth
