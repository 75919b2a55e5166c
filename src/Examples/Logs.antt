-- ===== src/Examples/Logs.antt =====
-- A file with a record and a torn line, and a store that writes its first event.
use silicon_omni.Prelude.{
  pos, ◌≡◌, ◌⊎◌, inl, refl, true, false, Option, none, some, [], ◌∷◌, ◌++◌, length, arith, eq_iff,
  map,
}
use silicon_omni.Json.{bool}
use silicon_omni.Events.{Event, new, saying}
use silicon_omni.Events.EventType
use silicon_omni.Events.Serial.{to_value, from_value}
use silicon_omni.Events.Serial.RoundTrip.{placed, from_value-to_value}
use silicon_omni.Jsonl.{Bytes, newline, IsTerminated, IsOneLine}
use silicon_omni.Jsonl.Read.{opened, read_checked, scan, lines}
use silicon_omni.Jsonl.Read.Lines.{healthy, next_record}
use silicon_omni.Jsonl.Tail.{unterminated_tail}
use silicon_omni.Jsonl.Tail.Search.{unterminated_tail_lem}
use silicon_omni.Jsonl.Write
use silicon_omni.Jsonl.Write.{opens, written, broken}
use silicon_omni.Jsonl.Write.Append.{LosesNothing, read_checked-append, read_checked-append_broken}
use silicon_omni.Store.{Store, open_store, stamped, append}
use silicon_omni.Store.Numbered.{IsLog, IsFresh, open_store-IsLog, append-IsLog}
use silicon_omni.Store.Durable.{IsPlain, IsDurable, reopened, open_store-IsDurable, append-reopened}
use silicon_omni.Store.Records.{open_store-records}
use silicon_omni.Store.Crash.{append-broken_reopened}
use silicon_omni.Examples.Coding.{lines_codec, lines_IsJson, parse_torn, parse_null}

-- The line of a null, and a line that was cut off.
abbrev torn : Bytes
torn = 12 ∷ 11 ∷ newline ∷ 99 ∷ []

torn_clean : (read_checked lines_codec (opened healthy) (some torn)).error ≡ none
unfolding read_checked scan lines
torn_clean = ground (arith, parse_torn, parse_null)

read_checked-append_example :
    read_checked lines_codec
      (opened healthy)
      (Write.append lines_codec opens written (some torn) (bool true)).0
    ≡ record {
      missing = false;
      records =
          (read_checked lines_codec (opened healthy) (some torn)).records
          ++ (next_record lines_codec torn (bool true) ∷ []);
      error = none;
    }
read_checked-append_example =
    read_checked-append lines_codec lines_IsJson torn (bool true) torn_clean

read_checked-append_broken_example :
    ((Write.append lines_codec opens (broken 1) (some torn) (bool true)).1 ≡ false)
    × ((after : Bytes) × ((Write.append lines_codec opens (broken 1) (some torn) (bool true)).0
          ≡ some after)
        × LosesNothing lines_codec lines_IsJson torn after)
read_checked-append_broken_example =
    read_checked-append_broken lines_codec lines_IsJson torn 1 (bool true) torn_clean

unterminated_tail_lem_example :
    (ls : Bytes) × (tail : Bytes) × (torn ≡ ls ++ tail)
    × IsTerminated ls
    × IsOneLine tail
    × (unterminated_tail torn ≡ some (length ls, tail))
unterminated_tail_lem_example = unterminated_tail_lem torn

abbrev fresh_store : Store
fresh_store = open_store lines_codec (opened healthy) "s" none

abbrev hello : Event
hello = saying "hello" (new "2026-01-01T00:00:00Z" EventType.text)

fresh_store-events : fresh_store.events ≡ []
unfolding open_store read_checked
fresh_store-events = refl

fresh_store-load_error : fresh_store.load_error ≡ none
unfolding open_store read_checked
fresh_store-load_error = refl

hello-IsFresh : IsFresh lines_codec fresh_store hello
unfolding saying new
hello-IsFresh = record {
  version = refl;
  named = λ e. absurd (ground (arith, eq_iff EventType.text ""));
  own = inl refl;
}

hello-IsPlain : IsPlain (stamped fresh_store hello)
unfolding stamped saying new open_store read_checked
hello-IsPlain = record { machine = record { v = refl; seq = refl; turn = refl }; turn = refl }

open_store-IsLog_example :
    IsLog "s" 0 (open_store lines_codec (opened healthy) "s" (some torn)).events
open_store-IsLog_example = open_store-IsLog lines_codec (opened healthy) "s" (some torn)

append-reopened_example :
    ((append lines_codec opens written fresh_store hello).1 ≡ some (stamped fresh_store hello))
    × ((reopened lines_codec (append lines_codec opens written fresh_store hello).0).events
        ≡ fresh_store.events ++ (stamped fresh_store hello ∷ []))
    × ((reopened lines_codec (append lines_codec opens written fresh_store hello).0).load_error
        ≡ none)
append-reopened_example =
    append-reopened lines_codec lines_IsJson fresh_store hello
      (open_store-IsDurable lines_codec "s" none fresh_store-load_error) hello-IsFresh hello-IsPlain

-- What stands in the file after the first event.
abbrev one_event : Option Bytes
one_event = (append lines_codec opens written fresh_store hello).0.file

one_event-load_error : (open_store lines_codec (opened healthy) "s" one_event).load_error ≡ none
unfolding reopened append open_store read_checked Write.open_appender Write.append_record
one_event-load_error = append-reopened_example.2

open_store-records_example :
    (map some (open_store lines_codec (opened healthy) "s" one_event).events
      ≡ map (λ r. from_value r.value) (read_checked lines_codec (opened healthy) one_event).records)
    × IsDurable lines_codec (open_store lines_codec (opened healthy) "s" one_event)
open_store-records_example = open_store-records lines_codec "s" one_event one_event-load_error

append-broken_reopened_example :
    ((append lines_codec opens (broken 3) fresh_store hello).1 ≡ none)
    × ((append lines_codec opens (broken 3) fresh_store hello).0.events ≡ fresh_store.events)
    × (((reopened lines_codec (append lines_codec opens (broken 3) fresh_store hello).0).events
          ≡ fresh_store.events)
        ⊎ ((x : Event) × ((reopened lines_codec
                (append lines_codec opens (broken 3) fresh_store hello).0).events
              ≡ fresh_store.events ++ (x ∷ []))))
append-broken_reopened_example =
    append-broken_reopened lines_codec lines_IsJson 3 fresh_store hello
      (open_store-IsDurable lines_codec "s" none fresh_store-load_error)

append-IsLog_example :
    IsLog "s" 0 (append lines_codec opens written fresh_store hello).0.events
    × ((((append lines_codec opens written fresh_store hello).1 ≡ none)
          × ((append lines_codec opens written fresh_store hello).0.events ≡ fresh_store.events))
        ⊎ ((e : Event) × ((append lines_codec opens written fresh_store hello).1 ≡ some e)
            × ((append lines_codec opens written fresh_store hello).0.events
                ≡ fresh_store.events ++ (e ∷ []))
            × (e.seq ≡ pos (length fresh_store.events))))
unfolding open_store
append-IsLog_example =
    append-IsLog lines_codec opens written fresh_store hello
      (open_store-IsLog lines_codec (opened healthy) "s" none) hello-IsFresh

from_value-to_value_example :
    from_value (to_value (stamped fresh_store hello))
    ≡ some (record (stamped fresh_store hello) {
      seq = placed (stamped fresh_store hello).seq;
      turn = placed (stamped fresh_store hello).turn;
    })
from_value-to_value_example = from_value-to_value (stamped fresh_store hello) hello-IsPlain.machine
