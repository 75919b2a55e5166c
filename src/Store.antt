-- ===== src/Store.antt =====
-- crates/omni-core/src/session/store.rs: the log of one session, in memory and on disk.
-- `file` is what stands at the session's path, which never changes while a store lives; so an
-- appender, once there, serves that path. What the operating system answers is an argument.
pub mod Numbered
pub mod Durable
pub mod Records
pub mod Crash
use mathlib.Core.List.{foldl}
use silicon_omni.Prelude.{
  ℕ, zero, suc, String, ℤ, pos, minus_one, succ, leb_ℤ, max_ℤ, eqb_ℤ, Bool, true, false, not, ◌&&◌,
  Option, none, some, List, [], ◌∷◌, ◌++◌, select, length, get_last?, is_none, unwrap_or, str_eq,
  if◌then◌else◌,
}
use silicon_omni.Events.{Event, schema_version, is, is_history}
use silicon_omni.Events.EventType
use silicon_omni.Events.Serial.{to_value, from_value}
use silicon_omni.Jsonl.{Bytes, Codec}
use silicon_omni.Jsonl.Read.{ReadError, Reading, Record, read_checked}
use silicon_omni.Jsonl.Write.{Opening, Writing, Appender, open_appender, append_record}

pub data LoadError : Type 0 where
  unreadable : ReadError → LoadError
  invalid_event : ℕ → LoadError
  unsupported_schema : ℤ → ℕ → LoadError
  empty_type : ℕ → LoadError
  invalid_sequence : ℤ → ℕ → ℤ → LoadError
  foreign_session : ℕ → String → LoadError

pub record Store : Type 0 where
  pub session_id : String
  pub file : Option Bytes
  pub events : List Event
  pub load_error : Option LoadError
  pub appender : Option Appender

-- `events.last().map_or(0, |previous| previous.seq + 1)`
unfoldable pub expected : List Event → ℤ
expected events = elim (get_last? events) [ none ↦ pos 0 | some previous ↦ succ previous.seq ]

pub data Checked : Type 0 where
  good : Event → Checked
  bad : LoadError → Checked

check_event : String → List Event → ℕ → Event → Checked
unfolding expected
check_event session_id events line event =
    if not (eqb_ℤ event.v schema_version)
    then bad (unsupported_schema event.v line)
    else if str_eq event.event_type ""
    then bad (empty_type line)
    else if not (eqb_ℤ event.seq (expected events))
    then bad (invalid_sequence event.seq line (expected events))
    else if not (str_eq event.session "") && not (str_eq event.session session_id)
    then bad (foreign_session line event.session)
    else good event

-- One round of the loop of `open`.
pub check : String → List Event → Record → Checked
unfolding check_event
check session_id events r = elim (from_value r.value) [
  | none ↦ bad (invalid_event r.line)
  | some event ↦ check_event session_id events r.line event
]

-- The loop of `open`: the events so far, and the first error.
pub load : String → List Event → List Record → List Event × Option LoadError
load session_id events [] = (events, none)
load session_id events (r ∷ rs) = elim (check session_id events r) [
  | bad error ↦ (events, some error)
  | good event ↦ load session_id (events ++ (event ∷ [])) rs
]

abbrev pub or_unreadable : Option LoadError → Option ReadError → Option LoadError
or_unreadable (some error) e = some error
or_unreadable none none = none
or_unreadable none (some e) = some (unreadable e)

module _ (c : Codec) where
  unfoldable pub open_store : Reading → String → Option Bytes → Store
  unfolding load
  open_store reading session_id file =
      let report = read_checked c reading file in
      let (events, load_error) = load session_id [] report.records in
      record {
        session_id = session_id;
        file = file;
        events = events;
        load_error = or_unreadable load_error report.error;
        appender = none;
      }

-- The position of the newest event.
unfoldable pub seq : Store → ℤ
seq s = elim (get_last? s.events) [ none ↦ minus_one | some event ↦ event.seq ]

later_turn : ℤ → Event → ℤ
later_turn turn event =
    if leb_ℤ (pos 0) event.turn
    then max_ℤ turn event.turn
    else if is EventType.start event
    then succ turn
    else turn

unfoldable pub turn : Store → ℤ
unfolding later_turn
turn s = foldl later_turn minus_one s.events

unfoldable pub events_since : ℤ → Store → List Event
events_since since s = select (λ e. leb_ℤ since e.seq) s.events

unfoldable pub history : ℤ → Store → List Event
history since s = select (λ e. leb_ℤ since e.seq && is_history e) s.events

-- The event as it is written: with its position, and the session if it names none.
unfoldable pub stamped : Store → Event → Event
unfolding seq
stamped s event =
    let placed = record event { seq = succ (seq s) } in
    if str_eq placed.session "" then record placed { session = s.session_id } else placed

module _ (c : Codec) where
  -- The end of `append`, with an appender.
  write : Writing → Bytes → Store → Appender → Event → Store × Option Event
  write w file s a event =
      let (file', a', saved) = append_record c w file a (to_value event) in
      let s' = record s { file = some file'; appender = some a' } in
      if saved then (record s' { events = s.events ++ (event ∷ []) }, some event) else (s', none)

  with_appender : Writing → Store → Event → Option Bytes × Option Appender → Store × Option Event
  unfolding write
  with_appender w s event (file, none) = (record s { file = file }, none)
  with_appender w s event (file, some a) =
      write w (unwrap_or file []) (record s { file = file }) a event

  -- The store afterwards, and the event as it was saved unless the append failed.
  unfoldable pub append : Opening → Writing → Store → Event → Store × Option Event
  unfolding with_appender
  append o w s event = elim s.load_error [
    | some error ↦ (s, none)
    | none ↦ elim s.appender [
      | none ↦ with_appender w s (stamped s event) (open_appender c o s.file)
      | some a ↦ with_appender w s (stamped s event) (s.file, some a)
    ]
  ]
