-- ===== src/Meta/Load.antt =====
-- crates/omni-core/src/session/meta.rs: `PendingMessage` and `Meta::load`.
use silicon_omni.Prelude.{
  ℕ, suc, ◌≡◌, String, Bool, true, not, Option, none, some, List, [], ◌∷◌, any, is_some, str_eq,
  if◌then◌else◌,
}
use silicon_omni.Result.{Result, ok, err, ◌>>=◌, ◌>>◌}
use silicon_omni.Json.{
  Value, Items, Fields, nil, cons, end, field, str, arr, obj, get, insert, as_str, as_i64,
}
use silicon_omni.Jsonl.{Bytes}

pub record PendingMessage : Type 0 where
  pub id : String
  pub text : String

abbrev pub to_value : PendingMessage → Value
to_value p = obj (field "id" (str p.id) (field "text" (str p.text) end))

message : Option String → Option String → Option PendingMessage
message (some id) (some text) = some (record { id = id; text = text })
message _ _ = none

abbrev text_of : Option Value → Option String
text_of none = none
text_of (some v) = as_str v

-- What `serde` reads as a message: an object with its two fields, or the array of the two.
unfoldable pub from_value : Value → Option PendingMessage
unfolding message
from_value (obj m) = message (text_of (get "id" m)) (text_of (get "text" m))
from_value (arr (cons id (cons text nil))) = message (as_str id) (as_str text)
from_value _ = none

-- Why metadata could not be loaded; the texts of the system's and the parser's errors are left out.
pub data LoadError : Type 0 where
  unreadable malformed providers_shape settings_shape pending_shape : LoadError
  provider_entry provider_id provider_synced : String → LoadError
  pending_invalid pending_empty pending_duplicate : ℕ → LoadError

abbrev pub is_text : Option Value → Bool
is_text none = true
is_text (some v) = is_some (as_str v)

abbrev pub is_integer : Option Value → Bool
is_integer none = true
is_integer (some v) = is_some (as_i64 v)

unfoldable pub check_entry : String → Value → Result LoadError (Unit {0})
check_entry name (obj entry) =
    if not (is_text (get "id" entry))
    then err (provider_id name)
    else if not (is_integer (get "synced" entry))
    then err (provider_synced name)
    else ok tt
check_entry name _ = err (provider_entry name)

unfoldable pub check_entries : Fields → Result LoadError (Unit {0})
unfolding check_entry
check_entries end = ok tt
check_entries (field name entry m) = do check_entry name entry; check_entries m

-- A namespace of the metadata: missing, of the expected form, or of another.
unfoldable pub check_providers : Fields → Option Value → Result LoadError Fields
unfolding check_entries
check_providers m none = ok (insert "providers" (obj end) m)
check_providers m (some (obj providers)) = do check_entries providers; ok m
check_providers m (some _) = err providers_shape

unfoldable pub check_settings : Fields → Option Value → Result LoadError Fields
check_settings m none = ok (insert "settings" (obj end) m)
check_settings m (some (obj settings)) = ok m
check_settings m (some _) = err settings_shape

abbrev pub contains : List String → String → Bool
contains ids id = any (λ i. str_eq i id) ids

unfoldable pub check_message : ℕ → List String → Option PendingMessage → Result LoadError String
check_message index ids none = err (pending_invalid index)
check_message index ids (some p) =
    if str_eq p.id ""
    then err (pending_empty index)
    else if contains ids p.id
    then err (pending_duplicate index)
    else ok p.id

-- The loop over the pending messages, with the ids seen so far.
unfoldable pub check_messages : ℕ → List String → Items → Result LoadError (Unit {0})
unfolding check_message
check_messages index ids nil = ok tt
check_messages index ids (cons v rest) = do
  id ← check_message index ids (from_value v)
  check_messages (suc index) (id ∷ ids) rest

unfoldable pub check_pending : Fields → Option Value → Result LoadError Fields
unfolding check_messages
check_pending m none = ok (insert "pending" (arr nil) m)
check_pending m (some (arr pending)) = do check_messages 0 [] pending; ok m
check_pending m (some _) = err pending_shape

-- The checks of `load` on the map that was read.
unfoldable pub validate : Fields → Result LoadError Fields
unfolding check_providers check_settings check_pending
validate m = do
  m ← check_providers m (get "providers" m)
  m ← check_settings m (get "settings" m)
  check_pending m (get "pending" m)

-- The JSON reader and the indenting printer of `serde_json`.
pub record Codec : Type 0 where
  pub parse : Bytes → Option Value
  pub pretty : Fields → Bytes

pub record IsJson (c : Codec) : Type 0 where
  pub parse-pretty : (m : Fields) → c.parse (c.pretty m) ≡ some (obj m)

unfoldable pub parsed : Option Value → Result LoadError Fields
parsed (some (obj m)) = validate m
parsed _ = err malformed

-- `load`: nothing for a missing file. `readable` is whether the system lets the file be read.
unfoldable pub load : Codec → Bool → Option Bytes → Result LoadError (Option Fields)
unfolding parsed
load c readable none = ok none
load c readable (some text) =
    if readable then (do m ← parsed (c.parse text); ok (some m)) else err unreadable
