-- ===== src/Examples/Talks.antt =====
-- A session with no provider installed, on concrete arrivals.
use silicon_omni.Prelude.{ℕ, true, false, none, some, List, [], ◌∷◌, refl, ◌≡◌, pos}
use silicon_omni.Result.{ok}
use silicon_omni.Json.{num, end, field}
use silicon_omni.Jsonl.Write.{opens, written}
use silicon_omni.Meta.{replaced, open_meta}
use silicon_omni.Store.{Store}
use silicon_omni.Events.{Event, new, from}
use silicon_omni.Runner.{Runners, immediate}
use silicon_omni.Choose.Asking.{by_intelligence}
use silicon_omni.Chat.{Chat, Outside}
use silicon_omni.Chat.Stored.Asked
use silicon_omni.Chat.Stored.Asked.{asked-to_value}
use silicon_omni.Chat.Conductor.{run, wakes_of}
use silicon_omni.Chat.Answered.Runs.{RunAnswers, run-answered}
use silicon_omni.Chat.Restoring.{open_at}
use silicon_omni.Chat.Ending.{send_durable, wake_launch, wake_stop}
use silicon_omni.Chat.Conductor.{Arrival, arrived}
use silicon_omni.Chat.Conductor
use silicon_omni.Chat.Heard.Runs.{IsHeard, run-IsHeard}
use silicon_omni.Examples.Coding.{lines_codec, meta_codec}

-- A runner whose state is the number of the messages that it took.
abbrev runners : Runners ℕ
runners = record {
  name = λ r. "echo";
  native_id = λ n r. "native";
  generation = λ n r. none;
  start = λ n id history r. ok r;
  seeded = λ n r. true;
  send = λ n text r. (r, ok immediate);
  compact = λ n r. (r, ok false);
  retune = λ n model effort r. (r, false);
  catch_up = λ n history r. (r, true);
  interrupt = λ n r. r;
  stop = λ n r. r;
  alive = λ n r. true;
  parkable = λ n r. true;
}

abbrev outside : Outside ℕ
outside = record {
  runners = runners;
  build = λ n provider session config epoch. some 0;
  retunes_instructions = λ name. true;
  resolve =
      λ n ask names. ok (record { provider = "echo"; model = "m"; effort = ""; fast = false });
  real = λ path. path;
  now = λ n. "";
  instant = λ n. n;
  fresh = λ n i. "id";
  logs = lines_codec;
  metas = meta_codec;
  opening = λ n. opens;
  writing = λ n. written;
  replacing = λ n. replaced;
  error = λ n. "";
  print = λ v. "";
  trim = λ text. text;
  lower = λ text. text;
  alphanumeric = λ n. true;
}

abbrev log : Store
log = record { session_id = "s"; file = none; events = []; load_error = none; appender = none }

abbrev session : Chat ℕ
session = open_at outside "s" ("echo" ∷ []) none "/" log (open_meta meta_codec true "now" "s" none)

abbrev arrivals : List Arrival
arrivals = arrived wake_launch ∷ arrived (send_durable "hi" 1) ∷ arrived wake_stop ∷ []

run-IsHeard_example : IsHeard session.store.events (Conductor.run outside arrivals session)
unfolding open_at
run-IsHeard_example = run-IsHeard outside arrivals session refl refl refl

asked-to_value_example :
    Asked.from_value (Asked.to_value (by_intelligence (pos 7) none))
    ≡ some (by_intelligence (pos 7) none)
asked-to_value_example = asked-to_value (by_intelligence (pos 7) none) refl

-- An event of the runner that the session had before.
abbrev stale : Event
stale = record (from "echo" (new "now" "text")) {
  text = "late";
  extra = field "_omni_runner_epoch" (num (pos 5)) end;
}

run-answered_example : RunAnswers outside arrivals session (run outside arrivals session)
unfolding open_at
run-answered_example = run-answered outside arrivals session refl
