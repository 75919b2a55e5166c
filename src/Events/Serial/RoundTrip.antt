-- ===== src/Events/Serial/RoundTrip.antt =====
-- Writing an event and reading it back.
use silicon_omni.Prelude.{
  String, ℤ, minus_one, Bool, true, none, some, ◌≡◌, refl, fits_i64, str_eq, eq_iff, if◌then◌else◌,
  arith,
}
use silicon_omni.Json.{
  Value, Fields, end, field, null, num, str, bool, obj, get, as_str, as_i64, as_bool, as_object,
  is_null, is_empty,
}
use silicon_omni.Events.{Event, schema_version}
use silicon_omni.Events.Serial.{
  to_fields, to_value, from_fields, from_value, is_unplaced, skip_if, field_or, as_value,
}

get-skip_if :
    (b : Bool) (j k : String) (v : Value) (m : Fields)
    → get k (skip_if b j v m) ≡ (if str_eq j k then (if b then get k m else some v) else get k m)
unfolding get
get-skip_if b j k v m = ground arith

get-field :
    (j k : String) (v : Value) (m : Fields)
    → get k (field j v m) ≡ (if str_eq j k then some v else get k m)
unfolding get
get-field j k v m = refl

get-end : (k : String) → get k end ≡ none
unfolding get
get-end k = refl

ruleset gets = (get-field, get-skip_if, get-end)

read-text :
    (s : String) → field_or (some "") as_str (if str_eq s "" then none else some (str s)) ≡ some s
unfolding field_or
read-text s = ground (arith, eq_iff s "")

read-object :
    (m : Fields)
    → field_or (some end) as_object (if is_empty m then none else some (obj m)) ≡ some m
unfolding field_or
read-object end = refl
read-object (field k v m) = refl

read-value :
    (v : Value) → field_or (some null) as_value (if is_null v then none else some v) ≡ some v
unfolding field_or as_value
read-value v = ground arith

read-bool : (b : Bool) → field_or (some true) as_bool (if b then none else some (bool b)) ≡ some b
unfolding field_or
read-bool b = ground arith

-- What a position below zero is read back as.
abbrev pub placed : ℤ → ℤ
placed n = if is_unplaced n then minus_one else n

read-place :
    (n : ℤ)
    → fits_i64 n ≡ true
    → field_or (some minus_one) as_i64 (if is_unplaced n then none else some (num n))
      ≡ some (placed n)
unfolding field_or
read-place n h = ground arith

read-number :
    (n : ℤ) → fits_i64 n ≡ true → field_or (some schema_version) as_i64 (some (num n)) ≡ some n
unfolding field_or
read-number n h = ground arith

-- The fields that Rust types as `i64` are in its range.
pub record IsMachine (e : Event) : Type 0 where
  pub v : fits_i64 e.v ≡ true
  pub seq : fits_i64 e.seq ≡ true
  pub turn : fits_i64 e.turn ≡ true

from_fields-to_fields :
    (e : Event)
    → IsMachine e
    → from_fields (to_fields e) ≡ some (record e { seq = placed e.seq; turn = placed e.turn })
unfolding from_fields to_fields
from_fields-to_fields e h = simp gets (
    simp (
      read-text,
      read-object,
      read-value,
      read-bool,
      read-number e.v h.v,
      read-place e.seq h.seq,
      read-place e.turn h.turn,
    ))

-- Any event is read back from what is written of it as it was, but that a position below zero,
-- which is left out of the object, comes back as -1.
pub from_value-to_value :
    (e : Event)
    → IsMachine e
    → from_value (to_value e) ≡ some (record e { seq = placed e.seq; turn = placed e.turn })
unfolding from_value to_value
from_value-to_value e h = from_fields-to_fields e h

-- An event with no negative position but -1 is read back as it was.
pub from_value-to_value_placed :
    (e : Event)
    → IsMachine e
    → placed e.seq ≡ e.seq
    → placed e.turn ≡ e.turn
    → from_value (to_value e) ≡ some e
from_value-to_value_placed e h s t = cc (from_value-to_value e h)
