-- ===== src/Jsonl/Write.antt =====
-- crates/omni-core/src/shared/jsonl.rs: `repair_tail`, `Appender`, `append` and `extend`.
pub mod Settle
pub mod Append
use mathlib.Core.List.{flatten}
use silicon_omni.Prelude.{
  ℕ, ◌==◌, Bool, true, false, Option, none, some, List, [], ◌∷◌, ◌++◌, map, take, get_last?,
  is_some, if◌then◌else◌, unwrap_or,
}
use silicon_omni.Json.{Value}
use silicon_omni.Jsonl.{Bytes, newline, Codec}
use silicon_omni.Jsonl.Tail.{unterminated_tail}
use silicon_omni.Jsonl.Read.{is_newline}

-- What becomes of a write and the sync after it: all of it is done; it fails after some bytes; or
-- the bytes are in the file and the sync fails.
pub data Writing : Type 0 where
  written : Writing
  broken : ℕ → Writing
  unsynced : Writing

-- What becomes of opening a file for appending: it works; it fails before the file is changed; or
-- the file is repaired and the sync of its new directory entry fails.
pub data Opening : Type 0 where
  opens : Opening
  refused : Opening
  unlisted : Opening

abbrev pub arrives : Writing → Bytes → Bytes
arrives written body = body
arrives (broken n) body = take n body
arrives unsynced body = body

abbrev pub is_written : Writing → Bool
is_written written = true
is_written _ = false

abbrev pub prefixed : Bool → Bytes → Bytes
prefixed true body = newline ∷ body
prefixed false body = body

pub record Appender : Type 0 where
  pub writable : Bool  -- `file` is `Some`
  pub prefix_newline : Bool

module _ (c : Codec) where
  repair_tail_at : Bytes → Option (ℕ × Bytes) → Bytes × Bool
  repair_tail_at file none = (file, false)
  repair_tail_at file (some (tail_start, tail)) =
      if is_some (c.parse tail) then (file, true) else (take tail_start file, false)

  -- The repaired file, and whether its last record wants a newline.
  unfoldable pub repair_tail : Bytes → Bytes × Bool
  unfolding repair_tail_at
  repair_tail [] = ([], false)
  repair_tail (b ∷ s) =
      if is_newline (get_last? (b ∷ s))
      then (b ∷ s, false)
      else repair_tail_at (b ∷ s) (unterminated_tail (b ∷ s))

  -- `Appender::open`: the file that it leaves, and the appender unless it fails.
  unfoldable pub open_appender : Opening → Option Bytes → Option Bytes × Option Appender
  open_appender refused file = (file, none)
  open_appender opens file =
      let (repaired, prefix) = repair_tail (unwrap_or file []) in
      (some repaired, some (record { writable = true; prefix_newline = prefix }))
  open_appender unlisted none = (some [], none)
  open_appender unlisted (some file) =
      let (repaired, prefix) = repair_tail file in
      (some repaired, some (record { writable = true; prefix_newline = prefix }))

  -- `Appender::append`: the file, the appender and whether the append succeeded.
  unfoldable pub append_record : Writing → Bytes → Appender → Value → Bytes × Appender × Bool
  append_record w file a value =
      let body = prefixed a.prefix_newline (c.print value ++ (newline ∷ [])) in
      if a.writable
      then (
        file ++ arrives w body,
        record { writable = is_written w; prefix_newline = false },
        is_written w,
      )
      else (file, record { writable = false; prefix_newline = false }, false)

  -- The body that `extend` writes for some values.
  pub body_of : List Value → Bytes
  body_of [] = []
  body_of (v ∷ vs) = c.print v ++ (newline ∷ body_of vs)

  -- `extend`: the file, and whether it succeeded.
  unfoldable pub extend : Opening → Writing → Option Bytes → List Value → Option Bytes × Bool
  unfolding body_of
  extend o w file [] = (file, true)
  extend refused w file (v ∷ vs) = (file, false)
  extend opens w file (v ∷ vs) =
      let (repaired, prefix) = repair_tail (unwrap_or file []) in
      (some (repaired ++ arrives w (prefixed prefix (body_of (v ∷ vs)))), is_written w)
  extend unlisted w none (v ∷ vs) = (some (arrives w (body_of (v ∷ vs))), false)
  extend unlisted w (some file) (v ∷ vs) =
      let (repaired, prefix) = repair_tail file in
      (some (repaired ++ arrives w (prefixed prefix (body_of (v ∷ vs)))), is_written w)

  -- `append`
  unfoldable pub append : Opening → Writing → Option Bytes → Value → Option Bytes × Bool
  unfolding extend
  append o w file value = extend o w file (value ∷ [])
