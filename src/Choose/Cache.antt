-- ===== src/Choose/Cache.antt =====
-- crates/omni-core/src/choose.rs: the file of answers, `~/.omni/cache/choose.json`.
-- `file` is what stands there and can be read as text. Floating-point numbers and their JSON form
-- are a parameter, and so is the reader and printer of JSON text.
use silicon_omni.Prelude.{
  ℕ, String, ℤ, pos, Bool, false, ◌&&◌, Option, none, some, take, if◌then◌else◌, eqb_ℤ, unwrap_or,
  ◌>>=◌,
}
use silicon_omni.Json.{
  Value, Fields, bool, num, str, arr, obj, nil, cons, end, field, get, insert, as_str, as_bool,
  field_of,
}
use silicon_omni.Jsonl.{Bytes, Codec}
use silicon_omni.Choose.Asking.{Pick}

-- `f64`, with what the cache does with it.
pub record Doubles : Type 1 where
  pub F64 : Type 0
  pub minus : F64 → F64 → F64
  pub above : F64 → F64 → Bool  -- `>`
  pub nought : F64
  pub cache_ttl : F64  -- 60.0 * 60.0
  pub quiet_ttl : F64  -- 5.0 * 60.0
  pub as_f64 : Value → Option F64
  pub to_value : F64 → Value

abbrev pub to_value : Pick → Value
to_value pick = obj (
    field "provider" (str pick.provider) (
      field "model" (str pick.model)
        (field "effort" (str pick.effort) (field "fast" (bool pick.fast) end))))

abbrev required : Option Value → Option String
required none = none
required (some v) = as_str v

-- A field with `#[serde(default)]`.
abbrev or_empty : Option Value → Option String
or_empty none = some ""
or_empty (some v) = as_str v

abbrev or_false : Option Value → Option Bool
or_false none = some false
or_false (some v) = as_bool v

abbrev pick_of : Option Value → Option Value → Option Value → Option Value → Option Pick
pick_of provider model effort fast = do
  p ← required provider
  m ← required model
  e ← or_empty effort
  f ← or_false fast
  some (record { provider = p; model = m; effort = e; fast = f })

-- What `serde` reads as a pick: an object, or an array of the fields in order.
unfoldable pub from_value : Value → Option Pick
from_value (obj m) = pick_of (get "provider" m) (get "model" m) (get "effort" m) (get "fast" m)
from_value (arr (cons p (cons m nil))) = pick_of (some p) (some m) none none
from_value (arr (cons p (cons m (cons e nil)))) = pick_of (some p) (some m) (some e) none
from_value (arr (cons p (cons m (cons e (cons f nil))))) =
    pick_of (some p) (some m) (some e) (some f)
from_value _ = none

-- What becomes of writing the file: it is written; it cannot be opened; or it is emptied and only
-- the first bytes are written.
pub data Saving : Type 0 where
  saved unopened : Saving
  cut : ℕ → Saving

abbrev pub version : ℤ
version = pos 4

abbrev pub is_current : Option Value → Bool
is_current (some (num n)) = eqb_ℤ n version
is_current _ = false

abbrev pub if_current : Option Value → Fields
if_current (some (obj blob)) = if is_current (get "version" blob) then blob else end
if_current _ = end

abbrev pub saving_file : Saving → Option Bytes → Bytes → Option Bytes
saving_file saved file text = some text
saving_file unopened file text = file
saving_file (cut n) file text = some (take n text)

module _ (c : Codec) where
  unfoldable pub cached : Option Bytes → Fields
  cached none = end
  cached (some text) = if_current (c.parse text)

  module _ (d : Doubles) where
    abbrev pub age_of : d.F64 → Value → d.F64
    age_of now entry = d.minus now (unwrap_or (field_of "at" entry >>= d.as_f64) d.nought)

    abbrev pub ttl_of : Value → d.F64
    ttl_of entry = unwrap_or (field_of "ttl" entry >>= d.as_f64) d.cache_ttl

    abbrev pub read_entry : Bool → d.F64 → Option Value → Option Pick
    read_entry fresh_only now none = none
    read_entry fresh_only now (some entry) =
        if fresh_only && d.above (age_of now entry) (ttl_of entry)
        then none
        else field_of "pick" entry >>= from_value

    unfoldable pub read_cache : String → Bool → d.F64 → Option Bytes → Option Pick
    unfolding cached from_value
    read_cache name fresh_only now file = read_entry fresh_only now (get name (cached file))

    abbrev pub entry_of : d.F64 → Pick → d.F64 → Value
    entry_of now pick ttl = obj (
        field "at" (d.to_value now)
          (field "ttl" (d.to_value ttl) (field "pick" (to_value pick) end)))

    unfoldable pub write_cache :
        Saving → String → Pick → d.F64 → d.F64 → Option Bytes → Option Bytes
    unfolding cached
    write_cache saving name pick ttl now file = saving_file saving file (
        c.print (
          obj (insert name (entry_of now pick ttl) (insert "version" (num version) (cached file)))))
