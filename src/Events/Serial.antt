-- ===== src/Events/Serial.antt =====
-- crates/omni-core/src/events.rs: what the `serde` attributes of `Event` say of its JSON form.
-- A record is written as an object that leaves the fields at their defaults out; it is read from
-- an object, where a field left out has its default and an unknown field is ignored, or from an
-- array of its fields in order.
pub mod RoundTrip
use silicon_omni.Prelude.{
  String, ℤ, pos, neg_part, minus_one, leb_ℤ, ltb_ℤ, Bool, true, false, not, Option, none, some,
  List, ◌>>=◌, str_eq, if◌then◌else◌,
}
use silicon_omni.Json.{
  Value, Fields, Items, nil, cons, end, field, null, num, str, bool, obj, arr, get, as_str, as_i64,
  as_bool, as_object, is_null, is_empty,
}
use silicon_omni.Events.{Event, schema_version}

abbrev pub is_unplaced : ℤ → Bool
is_unplaced seq = ltb_ℤ seq (pos 0)

-- `skip_serializing_if`
abbrev pub skip_if : Bool → String → Value → Fields → Fields
skip_if skipped k v rest = if skipped then rest else field k v rest

pub to_fields : Event → Fields
to_fields e = field "v" (num e.v) (
    field "type" (str e.event_type) (
      skip_if (str_eq e.session "") "session" (str e.session) (
        skip_if (str_eq e.provider "") "provider" (str e.provider) (
          skip_if (str_eq e.model "") "model" (str e.model) (
            skip_if (str_eq e.text "") "text" (str e.text) (
              skip_if (str_eq e.tool "") "tool" (str e.tool) (
                skip_if (str_eq e.id "") "id" (str e.id) (
                  skip_if (is_empty e.args) "args" (obj e.args) (
                    skip_if (is_null e.result) "result" e.result (
                      skip_if e.ok "ok" (bool e.ok) (
                        skip_if (str_eq e.kind "") "kind" (str e.kind) (
                          skip_if (str_eq e.error "") "error" (str e.error) (
                            field "at" (str e.at) (
                              skip_if (is_unplaced e.seq) "seq" (num e.seq) (
                                skip_if (is_unplaced e.turn) "turn" (num e.turn) (
                                  skip_if (is_empty e.native) "native" (obj e.native) (
                                    skip_if (is_empty e.extra) "extra" (obj e.extra)
                                      end)))))))))))))))))

unfoldable pub to_value : Event → Value
unfolding to_fields
to_value e = obj (to_fields e)

unfoldable pub as_value : Value → Option Value
as_value v = some v

-- A field by its name: its default, or the value that its reader takes.
unfoldable pub field_or {ℓ} : {A : Type ℓ} → Option A → (Value → Option A) → Option Value → Option A
field_or default read none = default
field_or default read (some v) = read v

unfoldable pub from_fields : Fields → Option Event
unfolding as_value field_or
from_fields m = do
  v ← field_or (some schema_version) as_i64 (get "v" m)
  event_type ← field_or none as_str (get "type" m)
  session ← field_or (some "") as_str (get "session" m)
  provider ← field_or (some "") as_str (get "provider" m)
  model ← field_or (some "") as_str (get "model" m)
  text ← field_or (some "") as_str (get "text" m)
  tool ← field_or (some "") as_str (get "tool" m)
  id ← field_or (some "") as_str (get "id" m)
  args ← field_or (some end) as_object (get "args" m)
  result ← field_or (some null) as_value (get "result" m)
  ok ← field_or (some true) as_bool (get "ok" m)
  kind ← field_or (some "") as_str (get "kind" m)
  error ← field_or (some "") as_str (get "error" m)
  at ← field_or (some "") as_str (get "at" m)
  seq ← field_or (some minus_one) as_i64 (get "seq" m)
  turn ← field_or (some minus_one) as_i64 (get "turn" m)
  native ← field_or (some end) as_object (get "native" m)
  extra ← field_or (some end) as_object (get "extra" m)
  some (record {
    v = v;
    event_type = event_type;
    session = session;
    provider = provider;
    model = model;
    text = text;
    tool = tool;
    id = id;
    args = args;
    result = result;
    ok = ok;
    kind = kind;
    error = error;
    at = at;
    seq = seq;
    turn = turn;
    native = native;
    extra = extra;
  })

-- The next element of an array, or the default where the array has ended.
next {ℓ} : {A : Type ℓ} → Option A → (Value → Option A) → Items → Option (A × Items)
next none read nil = none
next (some a) read nil = some (a, nil)
next default read (cons v rest) = do a ← read v; some (a, rest)

finish : Items → Event → Option Event
finish nil e = some e
finish (cons v rest) e = none

unfoldable pub from_items : Items → Option Event
unfolding as_value next finish
from_items xs = do
  (v, xs) ← next (some schema_version) as_i64 xs
  (event_type, xs) ← next none as_str xs
  (session, xs) ← next (some "") as_str xs
  (provider, xs) ← next (some "") as_str xs
  (model, xs) ← next (some "") as_str xs
  (text, xs) ← next (some "") as_str xs
  (tool, xs) ← next (some "") as_str xs
  (id, xs) ← next (some "") as_str xs
  (args, xs) ← next (some end) as_object xs
  (result, xs) ← next (some null) as_value xs
  (ok, xs) ← next (some true) as_bool xs
  (kind, xs) ← next (some "") as_str xs
  (error, xs) ← next (some "") as_str xs
  (at, xs) ← next (some "") as_str xs
  (seq, xs) ← next (some minus_one) as_i64 xs
  (turn, xs) ← next (some minus_one) as_i64 xs
  (native, xs) ← next (some end) as_object xs
  (extra, xs) ← next (some end) as_object xs
  finish xs (record {
    v = v;
    event_type = event_type;
    session = session;
    provider = provider;
    model = model;
    text = text;
    tool = tool;
    id = id;
    args = args;
    result = result;
    ok = ok;
    kind = kind;
    error = error;
    at = at;
    seq = seq;
    turn = turn;
    native = native;
    extra = extra;
  })

unfoldable pub from_value : Value → Option Event
from_value (obj m) = from_fields m
from_value (arr xs) = from_items xs
from_value _ = none
