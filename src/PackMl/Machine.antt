-- ===== src/PackMl/Machine.antt =====
-- The attributes of `PackMLStateMachine`, the messages that it publishes, and its methods' shape.
-- The MQTT client, the topics' names and the time stamps are left out: publishing puts a message
-- on the machine's log, newest first. A message is taken to reach the broker (schemas and the
-- network are not modelled), so publishing does not raise.
use ap2030_uns.Prelude.{
  ◌≡◌, ◌⊎◌, ℕ, String, Bool, false, ◌||◌, Option, none, some, List, [], ◌∷◌, ◌==◌,
}
use ap2030_uns.Prelude.{str_eq, if◌then◌else◌}
use ap2030_uns.Prelude.Dict.{Dict}

pub data PackMlState : Type 0 where
  idle starting execute completing complete resetting : PackMlState
  holding held unholding : PackMlState
  suspending suspended unsuspending : PackMlState
  stopping stopped aborting aborted clearing : PackMlState

abbrev pub Uuid : Type 0
Uuid = String

-- The topics on which a command's status is published.
pub data StatusTopic : Type 0 where
  register_topic unregister_topic : StatusTopic

pub data Message : Type 0 where
  -- DATA/State: the state and the process queue.
  station_state : PackMlState → List Uuid → Message
  -- DATA/Occupy and DATA/Release: the status of an occupation command.
  command_status : StatusTopic → Uuid → String → Message
  -- The topic of an execute command: the UUID, the status, and what the process function added.
  response : Option Uuid → String → Dict String → Message
  -- A call of one of the custom handlers, by its key.
  handler_call : String → Message

abbrev pub running : String
running = "RUNNING"

abbrev pub success : String
success = "SUCCESS"

abbrev pub failure : String
failure = "FAILURE"

-- A thread that `execute_command` started: the UUID it was given, and whether its process
-- function takes an `interrupt_event`.
pub record Thread : Type 0 where
  pub uuid : Uuid
  pub can_interrupt : Bool

-- `current_uuid` is the attribute `Uuid`. `processing_events` holds the flag of each event.
pub record Machine : Type 0 where
  pub state : PackMlState
  pub current_uuid : Option Uuid
  pub handlers : List String
  pub enable_occupation : Bool
  pub auto_execute : Bool
  pub is_processing : Bool
  pub uuids : List Uuid
  pub current_processing_uuid : Option Uuid
  pub processing_events : Dict Bool
  pub interruption_requested : Dict Bool
  pub pending_registrations : Dict Uuid
  pub threads : List Thread
  pub log : List Message

-- What a method does: it ends, or it raises, and what it changed before stays changed.
pub data Outcome : Type 0 where
  done : Machine → Outcome
  raised : Machine → Outcome

abbrev pub Op : Type 0
Op = Machine → Outcome

infixl 5 ◌>>◌
abbrev pub ◌>>◌ : Op → Op → Op
◌>>◌ f g m = elim (f m) [ done n ↦ g n | raised n ↦ raised n ]

-- `try: f() except: g()`
abbrev pub or_except : Op → Op → Op
or_except f g m = elim (f m) [ done n ↦ done n | raised n ↦ g n ]

abbrev pub skip : Op
skip m = done m

abbrev pub raise : Op
raise m = raised m

-- A statement that changes attributes only.
abbrev pub modify : (Machine → Machine) → Op
modify f m = done (f m)

-- The rest of a method that reads attributes.
abbrev pub self : (Machine → Op) → Op
self f m = f m m

abbrev pub say : Message → Machine → Machine
say e m = record m { log = e ∷ m.log }

-- `publish_state`: the queue is sent as it stands.
abbrev pub publish_state : Machine → Machine
publish_state m = say (station_state m.state m.uuids) m

-- `_publish_command_status`
abbrev pub publish_command_status : StatusTopic → Uuid → String → Machine → Machine
publish_command_status topic uuid value m = say (command_status topic uuid value) m

-- `uuid == self.current_processing_uuid`
abbrev pub is_current : Uuid → Machine → Bool
is_current uuid m = elim m.current_processing_uuid [ none ↦ false | some c ↦ str_eq c uuid ]

-- The position of a state in the enumeration, by which states are compared.
abbrev pub tag : PackMlState → ℕ
tag idle = 0
tag starting = 1
tag execute = 2
tag completing = 3
tag complete = 4
tag resetting = 5
tag holding = 6
tag held = 7
tag unholding = 8
tag suspending = 9
tag suspended = 10
tag unsuspending = 11
tag stopping = 12
tag stopped = 13
tag aborting = 14
tag aborted = 15
tag clearing = 16

abbrev pub is_state : PackMlState → PackMlState → Bool
is_state a b = tag a == tag b

-- `state in [...]`
abbrev pub is_among : PackMlState → List PackMlState → Bool
is_among s [] = false
is_among s (t ∷ ts) = is_state s t || is_among s ts

-- `if value:` of a text that may be missing: neither None nor empty.
abbrev pub truthy : Option String → Option String
truthy none = none
truthy (some s) = if str_eq s "" then none else some s

-- The message stands on the log.
abbrev pub Said : Message → List Message → Type 0
Said e [] = ⊥
Said e (x ∷ log) = (e ≡ x) ⊎ Said e log
