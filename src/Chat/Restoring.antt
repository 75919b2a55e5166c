-- ===== src/Chat/Restoring.antt =====
-- crates/omni-core/src/chat.rs: opening a session (`open_at`), from its log and its metadata as
-- they were loaded. The texts of the errors of the loaders are left out.
use silicon_omni.Prelude.{
  ℕ, String, ℤ, pos, succ, leb_ℤ, Bool, true, false, not, ◌&&◌, ◌||◌, Option, none, some, List, [],
  ◌∷◌, length, str_eq, if◌then◌else◌, ◌>>=◌, unwrap_or, is_some,
}
use silicon_omni.Json.{Value, Fields, end, str, bool, get, insert, as_str, as_i64, as_bool}
use silicon_omni.Events.{Event, is}
use silicon_omni.Events.EventType
use silicon_omni.Meta.{
  Meta, Status, saved, failed, panicked, lookup, lookup_str, setting, setting_str, reconcile,
  initialize_settings, pending as pending_messages,
}
use silicon_omni.Meta.Load.{PendingMessage}
use silicon_omni.Store.{Store, seq, turn}
use silicon_omni.Choose.Asking.{Ask, default_ask, intelligence}
use silicon_omni.Daemon.Wiring.{Snapshot}
use silicon_omni.Runner.{Config, default_config, at}
use silicon_omni.Chat.{Chat, Outside, Recovery, ContextRecovery, idle}
use silicon_omni.Chat.Stored.{texts, names_of}
use silicon_omni.Chat.Stored.Asked
use silicon_omni.Chat.Stored.Texts
use silicon_omni.Chat.Stored.Recovered
use silicon_omni.Chat.Recovering.{is_compacting}

-- `get_or_insert_with`, and the error of a step that is only tried where there is none yet.
abbrev or_error : Option String → Bool → String → Option String
or_error (some error) fails text = some error
or_error none true text = some text
or_error none false text = none

-- The ids of the messages that the log shows as delivered.
abbrev delivered_ids : List Event → List String
delivered_ids [] = []
delivered_ids (event ∷ events) =
    let rest = delivered_ids events in
    let id =
      if is EventType.start event || is EventType.injected event
      then get "message_id" event.extra >>= as_str
      else none in
    elim id [ none ↦ rest | some text ↦ text ∷ rest ]

-- What the recovery of the metadata is read as, and whether it could not be.
abbrev read_recovery : Option Value → Option Recovery × Bool
read_recovery none = (none, false)
read_recovery (some v) = elim (Recovered.from_value v) [
  | none ↦ (none, true)
  | some r ↦ (some r, false)
]

abbrev lacks_message : Option Recovery → Bool
lacks_message none = false
lacks_message (some r) = not (is_compacting (some r)) && str_eq r.message_id ""

abbrev in_log : Store → ℤ → Bool
in_log store since = leb_ℤ (pos 0) since && leb_ℤ since (succ (seq store))

-- The boundary of the history, and whether what stands there is none.
abbrev read_boundary : Store → Option Value → ℤ × Bool
read_boundary store none = (pos 0, false)
read_boundary store (some v) = elim (as_i64 v) [
  | none ↦ (pos 0, true)
  | some since ↦ if in_log store since then (since, false) else (pos 0, true)
]

abbrev or_else {ℓ} : {A : Type ℓ} → Option A → Option A → Option A
or_else none b = b
or_else (some a) b = some a

-- A number on its own is a session of version 0.5, and still means the dial.
abbrev read_ask : Value → Option Ask
read_ask v = elim (as_i64 v) [ none ↦ Asked.from_value v | some n ↦ some (intelligence n) ]

abbrev non_empty : Option String → Option String
non_empty none = none
non_empty (some text) = if str_eq text "" then none else some text

-- What a session is to run with: from its metadata, else from the opening client.
pub record Settings : Type 0 where
  pub ask : Ask
  pub providers : List String
  pub config : Config
  pub subagents : Bool
  pub mcp : Bool
  pub autoremove : Bool
  pub context_recovery : ContextRecovery

unfoldable pub stored_settings :
    (String → String) → String → List String → Option String → Meta → Settings
unfolding default_config
stored_settings real here providers opening_cwd meta =
    let cwd =
      unwrap_or
        (or_else (non_empty (or_else (setting_str meta "cwd") (lookup_str meta "cwd")))
          (non_empty opening_cwd))
        here in
    let subagents = unwrap_or (setting meta "subagents" >>= as_bool) false in
    let mcp = unwrap_or (setting meta "mcp" >>= as_bool) false in
    record {
      ask = unwrap_or (or_else (setting meta "ask") (lookup meta "ask") >>= read_ask) default_ask;
      providers = unwrap_or (setting meta "active_providers" >>= names_of) providers;
      config = record (at real cwd (default_config here)) {
        system_prompt = unwrap_or (setting_str meta "system_prompt") "";
        append_system_prompt = unwrap_or (setting_str meta "append_system_prompt") "";
        disable_subagents = not subagents;
        disable_mcp = not mcp;
      };
      subagents = subagents;
      mcp = mcp;
      autoremove = unwrap_or (setting meta "autoremove" >>= as_bool) true;
      context_recovery =
          unwrap_or (setting meta "context_recovery" >>= Texts.from_value) Texts.default_recovery;
    }

-- The defaults that the first open pins.
abbrev initial_settings : Settings → Fields
initial_settings s = insert "context_recovery" (Texts.to_value s.context_recovery) (
    insert "cwd" (str s.config.cwd) (
      insert "autoremove" (bool s.autoremove) (
        insert "mcp" (bool s.mcp) (
          insert "subagents" (bool s.subagents) (
            insert "append_system_prompt" (str s.config.append_system_prompt) (
              insert "system_prompt" (str s.config.system_prompt) (
                insert "ask" (Asked.to_value s.ask)
                  (insert "active_providers" (texts s.providers) end))))))))

abbrev is_saved : Status → Bool
is_saved saved = true
is_saved failed = false
is_saved panicked = false

-- A change of the metadata that is left out after an error.
abbrev unless_failed : Option String → String → (Meta → Meta × Status) → Meta → Meta × Option String
unless_failed (some error) text change meta = (meta, some error)
unless_failed none text change meta =
    let (next, status) = change meta in (next, or_error none (not (is_saved status)) text)

abbrev first_state : String → Settings → ℤ → ℕ → Snapshot
first_state session_id s newest queued = record {
  session = session_id;
  status = idle;
  ask = s.ask;
  providers = s.providers;
  provider = "";
  model = "";
  effort = "";
  cwd = s.config.cwd;
  seq = newest;
  in_turn = false;
  queued = queued;
}

module _ {R : Type 0} (o : Outside R) where
  abbrev fresh_chat :
      String
      → Store
      → Meta
      → Settings
      → Option Recovery
      → ℤ
      → Option String
      → List PendingMessage
      → Chat R
  fresh_chat session_id store meta s recovery start error queue = record {
    session_id = session_id;
    store = store;
    meta = meta;
    providers = s.providers;
    benched = [];
    turn_failed = none;
    ask = s.ask;
    config = s.config;
    context_recovery = s.context_recovery;
    recovery = recovery;
    compaction_deadline = none;
    history_start = start;
    state = first_state session_id s (seq store) (length queue);
    runner = none;
    runner_epoch = none;
    next_runner_epoch = 1;
    epoch_turns = [];
    sync_ceiling = none;
    parked = [];
    current = none;
    launched_once = false;
    outbox = queue;
    awaiting = [];
    unanswered = [];
    next_turns = 0;
    pending = [];
    turn = turn store;
    turn_recorded = false;
    in_turn = false;
    stopping = false;
    terminal = false;
    startup_error = error;
    autoremove = s.autoremove;
    announced = [];
    published = [];
    answered = [];
    put_down = [];
    calls = 2;
  }

  -- The session as it is before its conductor runs. `here` is the directory of the process.
  unfoldable pub open_at : String → List String → Option String → String → Store → Meta → Chat R
  unfolding stored_settings
  open_at session_id providers opening_cwd here store meta =
      let unread = or_error none (is_some store.load_error) "loading existing session log" in
      let unloaded =
        or_error unread (is_some meta.load_error) "loading existing session metadata" in
      let (recovery, malformed) = read_recovery (lookup meta "context_recovery_state") in
      let (start, outside) = read_boundary store (lookup meta "history_start") in
      let e1 = or_error unloaded malformed "loading context recovery" in
      let e2 =
        or_error e1 (lacks_message recovery) "loading context recovery: message id is missing" in
      let e3 = or_error e2 outside "loading context recovery: invalid history boundary" in
      let (reconciled, e4) =
        unless_failed e3 "reconciling delivered messages"
          (reconcile o.metas (o.replacing 0) (o.now 0) (delivered_ids store.events)) meta in
      let s = stored_settings o.real here providers opening_cwd reconciled in
      let (pinned, e5) =
        unless_failed e4 "initializing session settings"
          (initialize_settings o.metas (o.replacing 1) (o.now 1) (initial_settings s)) reconciled in
      fresh_chat session_id store pinned s recovery start e5
        (unwrap_or (pending_messages pinned) [])
