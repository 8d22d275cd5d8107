-- ===== src/Registration/Endpoint.antt =====
-- Registration_Service/src/config_parser.py: a parsed YAML configuration and its MQTT endpoint.
-- Records have the keys that the code reads, and a mapping that is missing or null is none.
-- `mqv_qos` is what `int` gives of it, `synchronous` and `mqv_retain` what `str` does.
use ap2030_uns.Prelude.{
  ℕ, String, Bool, true, false, ◌&&◌, Option, none, some, [], ◌∷◌, if◌then◌else◌, ◌==◌, codes,
}
use ap2030_uns.Prelude.Dict.{Dict}
use ap2030_uns.Delegation.Values.{Text}
use ap2030_uns.Delegation.Schema.{or_else}
use ap2030_uns.Delegation.Command.{int_of}
use Prim.Native.Char.{code}

-- The value of `mqv_qos`, or one that `int` does not take.
pub data Qos : Type 0 where
  qos_of : ℕ → Qos
  not_a_number : Qos

-- `has_more` is whether the form has keys besides `href`.
pub record ResponseForm : Type 0 where
  pub href : Option String
  pub has_more : Bool

pub record Forms : Type 0 where
  pub href : Option String
  pub response : Option ResponseForm
  pub mqv_qos : Option Qos
  pub mqv_retain : Option String

pub record ActionConfig : Type 0 where
  pub key : Option String
  pub title : Option String
  pub input : Option String
  pub output : Option String
  pub synchronous : Option String
  pub forms : Option Forms

-- `base` is that of InterfaceMQTT's EndpointMetadata, `actions` those of its InteractionMetadata.
pub record SystemConfig : Type 0 where
  pub id_short : Option String
  pub base : Option String
  pub actions : Dict ActionConfig

pub record Endpoint : Type 0 where
  pub broker_host : Option String
  pub broker_port : Text
  pub base_topic : Option String
  pub broker_url : Option String

pub record Action : Type 0 where
  pub name : String
  pub key : String
  pub title : String
  pub command_topic : String
  pub response_topic : Option String
  pub input_schema : Option String
  pub output_schema : Option String
  pub has_response : Bool
  pub synchronous : Bool
  pub qos : ℕ
  pub retain : Bool

-- `lstrip('/')` and `rstrip('/')`
abbrev pub lstrip_slash : String → String
lstrip_slash String.[] = String.[]
lstrip_slash (String.◌∷◌ c s) = if code c == b'/' then lstrip_slash s else String.◌∷◌ c s

abbrev pub is_empty : String → Bool
is_empty String.[] = true
is_empty (String.◌∷◌ c s) = false

abbrev pub rstrip_slash : String → String
rstrip_slash String.[] = String.[]
rstrip_slash (String.◌∷◌ c s) =
    let rest = rstrip_slash s in
    if is_empty rest && (code c == b'/') then String.[] else String.◌∷◌ c rest

-- `s.split(separator, 1)`, if the separator is in the text.
abbrev pub split_once : ℕ → String → Option (String × String)
split_once d String.[] = none
split_once d (String.◌∷◌ c s) =
    let rest = split_once d s in
    if code c == d
    then some (String.[], s)
    else elim rest [ none ↦ none | some x ↦ some (String.◌∷◌ c x.0, x.1) ]

-- The text behind a prefix, if it begins with it.
abbrev pub behind : Text → String → Option String
behind [] s = some s
behind (d ∷ p) String.[] = none
behind (d ∷ p) (String.◌∷◌ c s) = let rest = behind p s in if code c == d then rest else none

abbrev pub no_endpoint : Endpoint
no_endpoint = record {
  broker_host = none;
  broker_port = codes "1883";
  base_topic = none;
  broker_url = none;
}

abbrev pub with_port : Endpoint → Option (String × String) → String → Option Endpoint
with_port e none host = some (record e { broker_host = some host })
with_port e (some (host, port)) _ = elim (int_of (codes port)) [
  | none ↦ none
  | some n ↦ some (record e { broker_host = some host; broker_port = n })
]

-- The URL without its scheme. None where the port is no number, as `int` raises.
abbrev pub with_base : Endpoint → String → Option (String × String) → Option Endpoint
with_base e url none = some (record e { broker_host = some url })
with_base e url (some (host_port, topic)) =
    with_port (record e { base_topic = some (rstrip_slash topic) }) (split_once b':' host_port)
      host_port

unfoldable pub get_mqtt_endpoint : SystemConfig → Option Endpoint
unfolding int_of
get_mqtt_endpoint c =
    let base = or_else c.base "" in
    let url = or_else (behind (codes "mqtt://") base) base in
    if is_empty base
    then some no_endpoint
    else with_base (record no_endpoint { broker_url = some base }) url (split_once b'/' url)
