-- ===== src/Meta.antt =====
-- crates/omni-core/src/session/meta.rs: the durable metadata of one session.
-- `file` is what stands at the metadata's path. What becomes of a replacement of the file, the
-- text of `clock::now()` and the fresh ids of `uuid` are arguments. A change of the map that would
-- panic is `none`.
pub mod Load
pub mod Own
pub mod Commit
pub mod Messages
pub mod Queue
pub mod Native
pub mod Settings
use mathlib.Core.List.{flatten}
use mathlib.Core.Logic.{ite}
use silicon_omni.Prelude.{
  ℕ, suc, String, ℤ, minus_one, Bool, true, false, not, Option, none, some, List, [], ◌∷◌, ◌++◌,
  map, any, select, ◌>>=◌, ◌>>◌, str_eq, if◌then◌else◌, unwrap_or, is_none,
}
use silicon_omni.Result.{Result, ok, err}
use silicon_omni.Json.{
  Value, Items, Fields, nil, end, field, null, num, str, arr, obj, get, insert, or_insert, as_str,
  as_i64, as_object, as_array, is_null, to_list, of_list, field_of, Fields-discrete,
}
use silicon_omni.Jsonl.{Bytes}
use Load.{PendingMessage, Codec, LoadError, load, from_value, to_value, contains}

pub record Meta : Type 0 where
  pub session_id : String
  pub file : Option Bytes
  pub map : Fields  -- `data`
  pub load_error : Option LoadError

-- What becomes of writing a new file: it replaces the old one; the old one is kept; or it replaces
-- the old one and the sync of the directory fails.
pub data Replacing : Type 0 where
  replaced kept unsynced : Replacing

pub data Status : Type 0 where
  saved failed panicked : Status

unfoldable pub fresh_map : String → String → Fields
fresh_map now session_id = field "session" (str session_id) (
    field "created" (str now)
      (field "providers" (obj end) (field "settings" (obj end) (field "pending" (arr nil) end))))

-- The data and the error of a load.
loaded : Fields → Result LoadError (Option Fields) → Fields × Option LoadError
loaded fresh (ok none) = (fresh, none)
loaded fresh (ok (some m)) = (m, none)
loaded fresh (err e) = (fresh, some e)

module _ (c : Codec) where
  unfoldable pub open_meta : Bool → String → String → Option Bytes → Meta
  unfolding loaded
  open_meta readable now session_id file =
      let (m, load_error) = loaded (fresh_map now session_id) (load c readable file) in
      record { session_id = session_id; file = file; map = m; load_error = load_error }

  -- `write`: the file, and whether the write succeeded.
  write : Replacing → Option Bytes → Fields → Option Bytes × Bool
  write replaced file m = (some (c.pretty m), true)
  write kept file m = (file, false)
  write unsynced file m = (some (c.pretty m), false)

  replace : Replacing → Meta → Fields → Meta × Status
  unfolding write
  replace w meta next =
      let (file, done) = write w meta.file next in
      if done
      then (record meta { file = file; map = next }, saved)
      else (record meta { file = file }, failed)

  changed : Replacing → String → Meta → Option Fields → Meta × Status
  unfolding replace
  changed w now meta none = (meta, panicked)
  changed w now meta (some next) =
      ite (Fields-discrete next meta.map) (meta, saved)
        (replace w meta (insert "updated" (str now) next))

  unfoldable pub commit : Replacing → String → (Fields → Option Fields) → Meta → Meta × Status
  unfolding changed
  commit w now change meta =
      if is_none meta.load_error then changed w now meta (change meta.map) else (meta, failed)

  unfoldable pub save : Replacing → String → Meta → Meta × Status
  unfolding replace
  save w now meta =
      if is_none meta.load_error
      then replace w meta (insert "updated" (str now) meta.map)
      else (meta, failed)

-- `data.entry(k).or_insert({}).as_object_mut().expect(..)`, and what is done with the object.
unfoldable pub in_object : String → (Fields → Option Fields) → Fields → Option Fields
in_object k change m = do
  v ← get k (or_insert k (obj end) m)
  inner ← as_object v
  inner ← change inner
  some (insert k (obj inner) (or_insert k (obj end) m))

-- `value[k] = v`
unfoldable pub set_index : String → Value → Value → Option Value
set_index k v (obj m) = some (obj (insert k v m))
set_index k v null = some (obj (insert k v end))
set_index k v _ = none

abbrev new_entry : Value
new_entry = obj (field "id" (str "") (field "synced" (num minus_one) end))

-- One field of the entry of a provider, which is made if it is missing.
unfoldable pub in_entry : String → String → Value → Fields → Option Fields
unfolding set_index
in_entry provider k v providers = do
  entry ← set_index k v (unwrap_or (get provider providers) new_entry)
  some (insert provider entry (or_insert provider new_entry providers))

-- The id of the native session that a provider holds, and how far it has been told.
unfoldable pub native : Meta → String → String × ℤ
native meta provider = elim (get "providers" meta.map >>= field_of provider) [
  | none ↦ ("", minus_one)
  | some entry ↦ (
    unwrap_or (field_of "id" entry >>= as_str) "",
    unwrap_or (field_of "synced" entry >>= as_i64) minus_one,
  )
]

abbrev pub non_null : Option Value → Option Value
non_null none = none
non_null (some v) = if is_null v then none else some v

unfoldable pub lookup : Meta → String → Option Value
lookup meta key = non_null (get key meta.map)

unfoldable pub lookup_str : Meta → String → Option String
lookup_str meta key = lookup meta key >>= as_str

unfoldable pub setting : Meta → String → Option Value
setting meta key = non_null (get "settings" meta.map >>= field_of key)

unfoldable pub setting_str : Meta → String → Option String
setting_str meta key = setting meta key >>= as_str

unfoldable pub or_insert_all : Fields → Fields → Fields
or_insert_all end m = m
or_insert_all (field k v defaults) m = or_insert_all defaults (or_insert k v m)

-- `retain(|value| value.get("id").and_then(Value::as_str) != Some(id))`
abbrev pub id_of : Value → Option String
id_of v = field_of "id" v >>= as_str

abbrev pub differs : String → Option String → Bool
differs id none = true
differs id (some i) = not (str_eq i id)

unfoldable pub without : String → List Value → List Value
without id = select (λ v. differs id (id_of v))

-- `data.get_mut(PENDING).and_then(Value::as_array_mut).expect(..)`, and what is done with it.
pub in_pending : (List Value → List Value) → Fields → Option Fields
in_pending change m = do
  v ← get "pending" m
  items ← as_array v
  some (insert "pending" (arr (of_list (change (to_list items)))) m)

-- The same under an `if let`, which passes over what is no array.
pub if_pending : (List Value → List Value) → Fields → Fields
unfolding in_pending
if_pending change m = unwrap_or (in_pending change m) m

pub read_all : List Value → Option (List PendingMessage)
read_all [] = some []
read_all (v ∷ vs) = do p ← from_value v; ps ← read_all vs; some (p ∷ ps)

-- The pending messages in order; `none` is the panic on an entry that is no message.
unfoldable pub pending : Meta → Option (List PendingMessage)
unfolding read_all
pending meta = elim (get "pending" meta.map >>= as_array) [
  | none ↦ some []
  | some items ↦ read_all (to_list items)
]

pub superseding : Option String → List Value → List Value
superseding none vs = vs
superseding (some id) vs = without id vs

pub in_front : Option PendingMessage → List Value → List Value
in_front none vs = vs
in_front (some p) vs = to_value p ∷ vs

pub forgetting : Option ℤ → Fields → Fields
forgetting none m = m
forgetting (some since) m = insert "providers" (obj end) (insert "history_start" (num since) m)

pub undelivered : List String → Value → Bool
undelivered delivered v = elim (id_of v) [ none ↦ true | some id ↦ not (contains delivered id) ]

-- The texts with their ids, of which the one of the text number `i` is `fresh i`.
abbrev pub messages_of : (ℕ → String) → ℕ → List String → List PendingMessage
messages_of fresh i [] = []
messages_of fresh i (text ∷ texts) =
    record { id = fresh i; text = text } ∷ messages_of fresh (suc i) texts

module _ (c : Codec) (w : Replacing) (now : String) where
  unfoldable pub bind : String → String → Meta → Meta × Status
  unfolding in_object in_entry
  bind provider native_id =
      commit c w now (in_object "providers" (in_entry provider "id" (str native_id)))

  unfoldable pub mark_synced : String → ℤ → Meta → Meta × Status
  unfolding in_object in_entry
  mark_synced provider seq =
      commit c w now (in_object "providers" (in_entry provider "synced" (num seq)))

  unfoldable pub initialize_settings : Fields → Meta → Meta × Status
  unfolding in_object or_insert_all
  initialize_settings defaults =
      commit c w now (in_object "settings" (λ m. some (or_insert_all defaults m)))

  unfoldable pub set_setting : String → Value → Meta → Meta × Status
  unfolding in_object
  set_setting key value = commit c w now (in_object "settings" (λ m. some (insert key value m)))

  unfoldable pub set : String → Value → Meta → Meta × Status
  set key value = commit c w now (λ m. some (insert key value m))

  unfoldable pub recover :
      Value → Option ℤ → Option PendingMessage → Option String → Meta → Meta × Status
  unfolding superseding in_front forgetting in_pending
  recover state history_start message superseded_id = commit c w now (λ m.
      in_pending (λ vs. in_front message (superseding superseded_id vs))
        (forgetting history_start (insert "context_recovery_state" state m)))

  -- `id` is the fresh id of the message.
  unfoldable pub enqueue : String → String → Meta → Meta × Status
  unfolding in_pending
  enqueue id text = commit c w now (λ m.
      in_pending (λ vs. vs ++ (to_value (record { id = id; text = text }) ∷ []))
        (or_insert "pending" (arr nil) m))

  -- `fresh` gives the ids of the messages.
  unfoldable pub retry : (ℕ → String) → List (List String) → Meta → Meta × Status
  unfolding in_pending
  retry fresh turns =
      commit c w now (in_pending (λ vs. map to_value (messages_of fresh 0 (flatten turns)) ++ vs))

  unfoldable pub complete : String → Meta → Meta × Status
  unfolding if_pending
  complete id = commit c w now (λ m. some (if_pending (without id) m))

  -- What is done where some of the pending messages, `found`, may have been delivered.
  unfoldable pub reconcile_found : List String → Meta → Option (List PendingMessage) → Meta × Status
  unfolding if_pending undelivered
  reconcile_found delivered meta none = (meta, panicked)
  reconcile_found delivered meta (some ps) =
      if any (λ (p : PendingMessage). contains delivered p.id) ps
      then commit c w now (λ m. some (if_pending (select (undelivered delivered)) m)) meta
      else (meta, saved)

  unfoldable pub reconcile : List String → Meta → Meta × Status
  unfolding reconcile_found
  reconcile [] meta = (meta, saved)
  reconcile (id ∷ delivered) meta = reconcile_found (id ∷ delivered) meta (pending meta)
