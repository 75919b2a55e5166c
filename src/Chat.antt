-- ===== src/Chat.antt =====
-- crates/omni-core/src/chat.rs: one session, whichever provider happens to be running it.
-- The state of the conductor is a record; what other threads and the outside answer stands in
-- `Outside`, by the number `calls` of the calls that left the session before. The fields
-- `published`, `answered` and `put_down` keep what the sink heard, which acknowledgements went
-- out and which runners were stopped.
pub mod Stored
pub mod Settings
pub mod Choosing
pub mod Parking
pub mod Launching
pub mod Failing
pub mod Turns
pub mod Recovering
pub mod Handing
pub mod Hearing
pub mod Ending
pub mod Conductor
pub mod Restoring
pub mod Heard
pub mod Answered
pub mod Late
pub mod Watch
pub mod Recording
use silicon_omni.Prelude.{ℕ, String, ℤ, Bool, Option, List}
use silicon_omni.Result.{Result}
use silicon_omni.Json.{Fields, Value}
use silicon_omni.Jsonl
use silicon_omni.Jsonl.Write.{Opening, Writing}
use silicon_omni.Events.Classify.{Word}
use silicon_omni.Events.{Event}
use silicon_omni.Store.{Store}
use silicon_omni.Meta.{Meta, Replacing}
use silicon_omni.Meta.Load
use silicon_omni.Meta.Load.{PendingMessage}
use silicon_omni.Choose.Asking.{Ask, Pick}
use silicon_omni.Daemon.Wiring.{Snapshot}
use silicon_omni.Runner.{Config, Runners}

abbrev pub idle : String
idle = "idle"

abbrev pub waiting : String
waiting = "waiting"

abbrev pub busy : String
busy = "busy"

abbrev pub stopped : String
stopped = "stopped"

pub record ContextRecovery : Type 0 where
  pub limit_message : String
  pub new_session_message : String
  pub transcript_header : String

-- A setting that the next turn boundary picks up.
pub data Change : Type 0 where
  set_providers : List String → Change
  set_model : Ask → Change
  set_system_prompt : String → Change
  set_append_system_prompt : String → Change
  set_subagents : Bool → Change
  set_mcp : Bool → Change
  set_autoremove : Bool → Change
  set_cwd : String → Change
  set_context_recovery : ContextRecovery → Change

pub data RecoveryStage : Type 0 where
  compacting retrying handoff continuing resuming : RecoveryStage

pub record Recovery : Type 0 where
  pub stage : RecoveryStage
  pub message_id : String
  pub retry : String

pub record Signature : Type 0 where
  pub provider : String
  pub model : String
  pub effort : String
  pub config : Config

-- A provider left running between uses.
pub record Parked (R : Type 0) : Type 0 where
  pub runner : R
  pub epoch : Option ℕ
  pub signature : Signature
  pub synced : ℤ

pub record Outside (R : Type 0) : Type 0 where
  pub runners : Runners R
  -- `providers::runner`: the provider, the session, the settings and the epoch.
  pub build : ℕ → String → String → Config → ℕ → Option R
  pub retunes_instructions : String → Bool
  pub resolve : ℕ → Ask → List String → Result String Pick
  pub real : String → String
  pub now : ℕ → String
  pub instant : ℕ → ℕ  -- in seconds
  pub fresh : ℕ → ℕ → String
  pub logs : Jsonl.Codec
  pub metas : Load.Codec
  pub opening : ℕ → Opening
  pub writing : ℕ → Writing
  pub replacing : ℕ → Replacing
  pub error : ℕ → String  -- the text of an error of the disk
  pub print : Value → String
  pub trim : String → String
  pub lower : Word → Word  -- `str::to_lowercase`
  pub alphanumeric : ℕ → Bool

pub record Chat (R : Type 0) : Type 0 where
  pub session_id : String
  pub store : Store
  pub meta : Meta
  pub providers : List String
  pub benched : List String
  pub turn_failed : Option String
  pub ask : Ask
  pub config : Config
  pub context_recovery : ContextRecovery
  pub recovery : Option Recovery
  pub compaction_deadline : Option ℕ
  pub history_start : ℤ
  pub state : Snapshot
  pub runner : Option R
  pub runner_epoch : Option ℕ
  pub next_runner_epoch : ℕ
  pub epoch_turns : List (ℕ × ℤ)
  pub sync_ceiling : Option ℤ
  pub parked : List (String × Parked R)
  pub current : Option Signature
  pub launched_once : Bool
  pub outbox : List PendingMessage
  pub awaiting : List PendingMessage
  pub unanswered : List (List String)
  pub next_turns : ℕ
  pub pending : List Event
  pub turn : ℤ
  pub turn_recorded : Bool
  pub in_turn : Bool
  pub stopping : Bool
  pub terminal : Bool
  pub startup_error : Option String
  pub autoremove : Bool
  pub announced : List String
  pub published : List Event
  pub answered : List (ℕ × Result String (Unit {0}))
  pub put_down : List R
  pub calls : ℕ
