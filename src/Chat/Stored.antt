-- ===== src/Chat/Stored.antt =====
-- crates/omni-core/src/chat.rs, crates/omni-core/src/choose.rs: the JSON forms of what the
-- conductor keeps in the metadata, as `serde` derives them. A missing element of an array counts
-- as a missing field.
pub mod Asked
pub mod Texts
pub mod Recovered
use silicon_omni.Prelude.{
  ℕ, String, ℤ, pos, ltb, ◌^◌, Bool, true, false, Option, none, some, List, [], ◌∷◌, map, ◌>>=◌,
  str_eq, if◌then◌else◌, unwrap_or,
}
use silicon_omni.Json.{
  Value, Items, Fields, null, bool, num, str, arr, obj, end, field, cons, nil, get, as_str, as_i64,
  as_bool, of_list,
}
use silicon_omni.Choose.Asking.{Ask, by_key, by_intelligence, by_model}
use silicon_omni.Chat.{
  ContextRecovery, Recovery, RecoveryStage, compacting, retrying, handoff, continuing, resuming,
}

abbrev pub as_u64 : Value → Option ℕ
as_u64 (num (pos n)) = if ltb n (2 ^ 64) then some n else none
as_u64 _ = none

abbrev pub texts : List String → Value
texts names = arr (of_list (map str names))

-- The elements of an array under the names of the fields; too many are an error.
pub zipped : List String → Items → Option Fields
zipped names nil = some end
zipped [] (cons v items) = none
zipped (name ∷ names) (cons v items) = do fields ← zipped names items; some (field name v fields)

unfoldable pub fields_of : List String → Value → Option Fields
unfolding zipped
fields_of names (obj m) = some m
fields_of names (arr items) = zipped names items
fields_of names _ = none

-- A field that must be there, one with a default, and one of an `Option`.
abbrev pub required : Option Value → Option String
required v = v >>= as_str

abbrev pub or_default : String → Option Value → Option String
or_default text none = some text
or_default text (some v) = as_str v

abbrev pub flag : Option Value → Option Bool
flag none = some false
flag (some v) = as_bool v

abbrev pub optional : Option Value → Option (Option String)
optional none = some none
optional (some null) = some none
optional (some v) = do text ← as_str v; some (some text)

abbrev pub texts_of : Items → Option (List String)
texts_of nil = some []
texts_of (cons v items) = do text ← as_str v; names ← texts_of items; some (text ∷ names)

-- `from_value::<Vec<String>>`
abbrev pub names_of : Value → Option (List String)
names_of (arr items) = texts_of items
names_of _ = none
