-- ===== src/PackMl/Occupation.antt =====
-- Registering for the station and leaving it: `register_callback`, `unregister_callback` and the
-- commands behind them. A command's UUID waits in `uuids` until it reaches the head.
use ap2030_uns.Prelude.{◌&&◌, ◌||◌, not, Option, none, some}
use ap2030_uns.Prelude.{List, [], ◌∷◌, ◌++◌, if◌then◌else◌, contains, remove, str_eq}
use ap2030_uns.Prelude.Dict.{lookup, insert, erase}
use ap2030_uns.PackMl.Machine.{
  PackMlState, Uuid, Machine, Op, ◌>>◌, skip, raise, modify, self, or_except,
}
use ap2030_uns.PackMl.Machine.{
  publish_state, publish_command_status, command_status, register_topic,
}
use ap2030_uns.PackMl.Machine.{unregister_topic, running, success, failure, is_current}
use ap2030_uns.PackMl.Machine.{idle, starting, completing, complete, resetting, stopped, aborted}
use ap2030_uns.PackMl.Machine.{is_state, is_among, truthy}
use ap2030_uns.PackMl.States.{transition}
use ap2030_uns.PackMl.Commands.{interrupt}

abbrev pub enqueue : Uuid → Machine → Machine
enqueue uuid m = publish_state (record m {
  uuids = m.uuids ++ uuid ∷ [];
  pending_registrations = insert uuid uuid m.pending_registrations;
})

unfoldable pub register_command : Uuid → Op
register_command uuid = self (λ m.
    if contains uuid m.uuids || is_current uuid m
    then modify (publish_command_status register_topic uuid failure)
    else do
      modify (enqueue uuid)
      self (λ n. if is_state n.state idle then transition starting none else skip))

-- `message.get("Uuid")`; a callback without one returns.
unfoldable pub register_callback : Option Uuid → Op
register_callback message_uuid = elim (truthy message_uuid) [
  | none ↦ skip
  | some uuid ↦
      or_except
        (do modify (publish_command_status register_topic uuid running); register_command uuid)
        (modify (publish_command_status register_topic uuid failure))
]

-- A pending registration of `uuid` is taken out and fails.
abbrev pub drop_pending : Uuid → Machine → Machine
drop_pending uuid m =
    let found = lookup uuid m.pending_registrations in
    record m {
      pending_registrations = elim found [
        | none ↦ m.pending_registrations
        | some _ ↦ erase uuid m.pending_registrations
      ];
      log = elim found [
        | none ↦ m.log
        | some reg_cmd_uuid ↦ command_status register_topic reg_cmd_uuid failure ∷ m.log
      ];
    }

-- With the queue empty the machine completes, and else it starts the next item.
abbrev pub advance : List Uuid → Op
advance [] = transition completing (some "#")
advance (_ ∷ _) = transition starting none

-- `self.uuids.pop(0)`, which raises IndexError where the queue is empty, and the branch after it.
abbrev pub pop_and_advance : List Uuid → Op
pop_and_advance [] = raise
pop_and_advance (_ ∷ rest) = do modify (λ m. record m { uuids = rest }); advance rest

-- `COMPLETING` for an empty queue, except in the listed states.
abbrev pub complete_if_empty : List PackMlState → List Uuid → Op
complete_if_empty except [] =
    self (λ m. if is_among m.state except then skip else transition completing (some "#"))
complete_if_empty except (_ ∷ _) = skip

-- Case 1: the command is being processed.
unfoldable pub unregister_active : Uuid → Op
unregister_active uuid = do
  modify (interrupt uuid)
  modify (publish_command_status unregister_topic uuid success)
  modify (drop_pending uuid)
  self (λ m. pop_and_advance m.uuids)

-- Case 2: the command is at the head of the queue and not being processed.
unfoldable pub unregister_head : Uuid → List Uuid → Op
unregister_head uuid rest = do
  modify (λ m. publish_command_status unregister_topic uuid success (record m { uuids = rest }))
  modify (drop_pending uuid)
  modify publish_state
  advance rest

-- Case 3: the command waits further back.
unfoldable pub unregister_waiting : Uuid → Op
unregister_waiting uuid = do
  modify (λ m.
      publish_command_status unregister_topic uuid success
        (record m { uuids = remove uuid m.uuids }))
  modify (drop_pending uuid)
  modify publish_state
  self (λ m. complete_if_empty (idle ∷ resetting ∷ completing ∷ complete ∷ []) m.uuids)

-- The check at the end of `unregister_command`.
unfoldable pub clear_down : Op
clear_down = self (λ m.
    if m.is_processing
    then skip
    else complete_if_empty (idle ∷ resetting ∷ completing ∷ complete ∷ stopped ∷ aborted ∷ [])
        m.uuids)

-- Cases 3 and 4.
abbrev pub unregister_queued : Uuid → Op
unregister_queued uuid = self (λ m.
    if contains uuid m.uuids
    then (do unregister_waiting uuid; clear_down)
    else modify (publish_command_status unregister_topic uuid failure))

-- Cases 2 to 4.
abbrev pub unregister_inactive : Uuid → List Uuid → Op
unregister_inactive uuid [] = unregister_queued uuid
unregister_inactive uuid (head ∷ rest) = self (λ m.
    if str_eq head uuid && not m.is_processing
    then (do unregister_head uuid rest; clear_down)
    else unregister_queued uuid)

unfoldable pub unregister_command : Uuid → Op
unregister_command uuid = self (λ m.
    if m.is_processing && is_current uuid m
    then (do unregister_active uuid; clear_down)
    else unregister_inactive uuid m.uuids)

unfoldable pub unregister_callback : Option Uuid → Op
unregister_callback message_uuid = elim (truthy message_uuid) [
  | none ↦ skip
  | some uuid ↦
      or_except
        (do modify (publish_command_status unregister_topic uuid running); unregister_command uuid)
        (modify (publish_command_status unregister_topic uuid failure))
]
