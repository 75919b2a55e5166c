-- ===== src/Events.antt =====
-- crates/omni-core/src/events.rs: the event record, its constructors and its tests.
-- A constructor takes the text that `clock::now()` returns as its first argument.
pub mod EventType
pub mod Kind
pub mod Serial
pub mod Classify
use silicon_omni.Prelude.{String, ℤ, pos, minus_one, Bool, true, false, List, any, str_eq}
use silicon_omni.Json.{Value, Fields, end, null, insert}

abbrev pub schema_version : ℤ
schema_version = pos 1

pub record Event : Type 0 where
  pub v : ℤ
  pub event_type : String
  pub session : String
  pub provider : String
  pub model : String
  pub text : String
  pub tool : String
  pub id : String
  pub args : Fields
  pub result : Value
  pub ok : Bool
  pub kind : String
  pub error : String
  pub at : String
  pub seq : ℤ
  pub turn : ℤ
  pub native : Fields
  pub extra : Fields

unfoldable pub new : String → String → Event
new now event_type = record {
  v = schema_version;
  event_type = event_type;
  session = "";
  provider = "";
  model = "";
  text = "";
  tool = "";
  id = "";
  args = end;
  result = null;
  ok = true;
  kind = "";
  error = "";
  at = now;
  seq = minus_one;
  turn = minus_one;
  native = end;
  extra = end;
}

unfoldable pub failure : String → String → String → Event
unfolding new
failure now kind error = record (new now EventType.error) { ok = false; kind = kind; error = error }

unfoldable pub config : String → String → Event
unfolding new
config now what = record (new now EventType.config) { text = what }

unfoldable pub from : String → Event → Event
from provider e = record e { provider = provider }

unfoldable pub about : String → Event → Event
about model e = record e { model = model }

unfoldable pub saying : String → Event → Event
saying text e = record e { text = text }

-- One more field on `extra`.
unfoldable pub with_extra : String → Value → Event → Event
with_extra key value e = record e { extra = insert key value e.extra }

unfoldable pub extras : Fields → Event → Event
extras extra e = record e { extra = extra }

abbrev pub is : String → Event → Bool
is event_type e = str_eq e.event_type event_type

abbrev pub contains : List String → String → Bool
contains names name = any (λ n. str_eq n name) names

unfoldable pub is_history : Event → Bool
is_history e = contains EventType.history_types e.event_type
