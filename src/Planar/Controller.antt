-- ===== src/Planar/Controller.antt =====
-- Planar_Controller/xbot_planner.py: `SimpleController`, its states, buttons and commands.
-- The XBot library and the MQTT client are not modelled: each call of them is put on a log, newest
-- first. Where the source catches an exception of such a call it goes on, as the model does. Waits
-- (`time.sleep`) and time stamps are left out.
use ap2030_uns.Prelude.{ℕ, String, Bool, true, false, not, ◌&&◌, ◌||◌, Option, none, some}
use ap2030_uns.Prelude.{List, [], ◌∷◌, str_eq, if◌then◌else◌, ◌==◌, lower, codes, codes_eq}

-- The values of `PackMLState`.
pub data ControllerState : Type 0 where
  idle starting execute holding held unholding stopping : ControllerState
  stopped aborting aborted resetting completing complete clearing : ControllerState

abbrev pub tag : ControllerState → ℕ
tag idle = 0
tag starting = 1
tag execute = 2
tag holding = 3
tag held = 4
tag unholding = 5
tag stopping = 6
tag stopped = 7
tag aborting = 8
tag aborted = 9
tag resetting = 10
tag completing = 11
tag complete = 12
tag clearing = 13

abbrev pub is_among : ControllerState → List ControllerState → Bool
is_among s [] = false
is_among s (t ∷ ts) = (tag s == tag t) || is_among s ts

-- The published enabling of the six buttons.
pub record Buttons : Type 0 where
  pub clear : Bool
  pub reset : Bool
  pub start : Bool
  pub stop : Bool
  pub hold : Bool
  pub unhold : Bool

pub data Call : Type 0 where
  system_state : ControllerState → Call
  button_states : Buttons → Call
  xbot_state : ℕ → String → Option String → Call
  activate_xbots deactivate_xbots : Call
  stop_motion : ℕ → Call

-- The fields of `XBotTask` that the controller's commands read and write.
pub record Task : Type 0 where
  pub uuid : Option String
  pub current_packml_state : String
  pub last_reported_state : Option String

-- `resumed` is whether `pause_event` is set.
pub record Controller : Type 0 where
  pub state : ControllerState
  pub resumed : Bool
  pub xbots : List (ℕ × Task)
  pub active_xbots : List ℕ
  pub log : List Call

abbrev pub call : Call → Controller → Controller
call e m = record m { log = e ∷ m.log }

abbrev pub none_enabled : Buttons
none_enabled = record {
  clear = false;
  reset = false;
  start = false;
  stop = false;
  hold = false;
  unhold = false;
}

-- The first `if` chain of `publish_button_states`.
abbrev pub main_buttons : ControllerState → Buttons
main_buttons idle = record none_enabled { start = true; stop = true }
main_buttons execute = record none_enabled { stop = true; hold = true }
main_buttons held = record none_enabled { stop = true; unhold = true }
main_buttons stopped = record none_enabled { reset = true }
main_buttons complete = record none_enabled { reset = true; stop = true }
main_buttons aborted = record none_enabled { reset = true; clear = true }
main_buttons _ = none_enabled

-- And the two tests after it.
unfoldable pub buttons_of : ControllerState → Buttons
buttons_of s =
    let b = main_buttons s in
    let allowed =
      is_among s (
        starting ∷ holding ∷ unholding ∷ resetting ∷ completing ∷ clearing ∷ execute ∷ held ∷ []) in
    let barred = is_among s (stopping ∷ aborting ∷ []) in
    record b { stop = if barred then false else if allowed then true else b.stop }

-- `pause_event` after `set_system_state`.
abbrev pub resumed_after : ControllerState → Bool → Bool
resumed_after s old =
    if is_among s (execute ∷ [])
    then true
    else if is_among s (held ∷ idle ∷ stopped ∷ aborted ∷ [])
    then false
    else old

unfoldable pub set_system_state : ControllerState → Controller → Controller
unfolding buttons_of
set_system_state s m = record m {
  state = s;
  resumed = resumed_after s m.resumed;
  log = button_states (buttons_of s) ∷ system_state s ∷ m.log;
}

abbrev pub is_last : Option String → String → Bool
is_last none s = false
is_last (some t) s = str_eq t s

-- Whether `publish_state` does anything for a task.
abbrev pub reports : String → Task → Bool
reports s t = not (is_last t.last_reported_state s && not (str_eq s "Complete"))

abbrev pub report_task : String → Task → Task
report_task s t = record t { current_packml_state = s; last_reported_state = some s }

-- The entry of `id` in the dictionary of tasks.
abbrev pub task_of : ℕ → List (ℕ × Task) → Option Task
task_of id [] = none
task_of id ((j, t) ∷ r) = if j == id then some t else task_of id r

abbrev pub set_task : ℕ → Task → List (ℕ × Task) → List (ℕ × Task)
set_task id t [] = (id, t) ∷ []
set_task id t ((j, u) ∷ r) = if j == id then (j, t) ∷ r else (j, u) ∷ set_task id t r

abbrev pub report : ℕ → String → Option Task → Controller → Controller
report id s none m = m
report id s (some t) m =
    if reports s t
    then record m {
      xbots = set_task id (report_task s t) m.xbots;
      log = xbot_state id s t.uuid ∷ m.log;
    }
    else m

unfoldable pub publish_state : ℕ → String → Controller → Controller
publish_state id s m = report id s (task_of id m.xbots) m

unfoldable pub publish_each : List ℕ → String → Controller → Controller
unfolding publish_state
publish_each [] s m = m
publish_each (id ∷ ids) s m = publish_each ids s (publish_state id s m)

unfoldable pub stop_motions : List ℕ → List Call → List Call
stop_motions [] log = log
stop_motions (id ∷ ids) log = stop_motions ids (stop_motion id ∷ log)

unfoldable pub stop_all_xbots : Controller → Controller
unfolding stop_motions
stop_all_xbots m = record m { log = stop_motions m.active_xbots m.log }

unfoldable pub add_xbot_task : ℕ → Option String → Controller → Controller
unfolding publish_state
add_xbot_task id uuid m = publish_state id "Idle" (record m {
  xbots =
      set_task id
        (record { uuid = uuid; current_packml_state = "Idle"; last_reported_state = none }) m.xbots;
})

abbrev pub keys : List (ℕ × Task) → List ℕ
keys [] = []
keys ((id, t) ∷ r) = id ∷ keys r

pub data Command : Type 0 where
  start stop hold unhold clear reset : Command

-- The guard of each branch of `handle_command`.
abbrev pub accepts : Command → ControllerState → Bool
accepts start s = is_among s (idle ∷ [])
accepts stop s = not (is_among s (stopped ∷ stopping ∷ []))
accepts hold s = is_among s (execute ∷ [])
accepts unhold s = is_among s (held ∷ holding ∷ [])
accepts clear s = is_among s (aborted ∷ [])
accepts reset s = is_among s (stopped ∷ aborted ∷ complete ∷ [])

-- Its body.
unfoldable pub perform : Command → Controller → Controller
unfolding set_system_state publish_each stop_all_xbots
perform start m = set_system_state execute (call activate_xbots (set_system_state starting m))
perform stop m =
    let n = call deactivate_xbots (stop_all_xbots (set_system_state stopping m)) in
    set_system_state stopped (publish_each (keys n.xbots) "Stopped" n)
perform hold m = set_system_state held (set_system_state holding m)
perform unhold m = set_system_state execute (set_system_state unholding m)
perform clear m = set_system_state stopped (set_system_state clearing m)
perform reset m =
    set_system_state idle (stop_all_xbots (record (set_system_state resetting m) { xbots = [] }))

abbrev is_word : List ℕ → String → Bool
is_word cmd word = codes_eq cmd (codes word)

-- `cmd = str(button_id).lower()` and the tests of the chain.
unfoldable pub command_of : Option String → Option Command
command_of none = none
command_of (some button_id) =
    let cmd = lower (codes button_id) in
    if is_word cmd "start"
    then some start
    else if is_word cmd "stop"
    then some stop
    else if is_word cmd "hold"
    then some hold
    else if is_word cmd "unhold"
    then some unhold
    else if is_word cmd "clear"
    then some clear
    else if is_word cmd "reset"
    then some reset
    else none

unfoldable pub execute_button : Command → Controller → Controller
unfolding perform
execute_button c m = if accepts c m.state then perform c m else m

unfoldable pub handle_command : Option String → Controller → Controller
unfolding command_of execute_button
handle_command button_id m = elim (command_of button_id) [ none ↦ m | some c ↦ execute_button c m ]

-- `__init__`
unfoldable pub create : Controller
unfolding buttons_of
create = record {
  state = idle;
  resumed = false;
  xbots = [];
  active_xbots = [];
  log = button_states (buttons_of idle) ∷ system_state idle ∷ [];
}
