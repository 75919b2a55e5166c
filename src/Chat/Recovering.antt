-- ===== src/Chat/Recovering.antt =====
-- crates/omni-core/src/chat.rs: a native session that is full. The provider's own compaction is
-- tried once, then a handoff of the text to a clean session.
-- `flush` hands queued messages over; it is an argument, as in Failing.
pub mod Stages
pub mod Resume
use Prim.Native.String.{◌++◌ as concat}
use silicon_omni.Prelude.{
  ℕ, String, ℤ, succ, eqb_ℤ, ◌+◌, Bool, true, false, not, ◌&&◌, ◌||◌, Option, none, some, List, [],
  ◌∷◌, ◌++◌, map, select, str_eq, if◌then◌else◌, is_some, ◌>>=◌,
}
use silicon_omni.Result.{Result, ok, err}
use silicon_omni.Json.{Fields, field, end, bool, get, as_bool, as_str}
use silicon_omni.Events.{Event, config, from, with_extra, failure, is}
use silicon_omni.Events.EventType
use silicon_omni.Events.Kind
use silicon_omni.Meta.{recover}
use silicon_omni.Meta.Load.{PendingMessage}
use silicon_omni.Store.{history, seq}
use silicon_omni.Translate
use silicon_omni.Runner.{Delivery}
use silicon_omni.Chat.{
  Chat, Outside, Recovery, RecoveryStage, compacting, retrying, handoff, continuing, resuming, busy,
}
use silicon_omni.Chat.Recording.{
  then_do, then_ok, guarded, recorded, refresh, show, stop_all_parked, called, alive,
}
use silicon_omni.Chat.Choosing.{is_true}
use silicon_omni.Chat.Stored.Recovered
use silicon_omni.Chat.Failing.{blamed, close_turn, attempt}
use silicon_omni.Chat.Turns.{dispatch_queued, finish_turn}

abbrev pub is_compacting : Option Recovery → Bool
is_compacting none = false
is_compacting (some r) = elim r.stage [
  | compacting ↦ true
  | retrying ↦ false
  | handoff ↦ false
  | continuing ↦ false
  | resuming ↦ false
]

abbrev pub is_handoff : Recovery → Bool
is_handoff r = elim r.stage [
  | handoff ↦ true
  | compacting ↦ false
  | retrying ↦ false
  | continuing ↦ false
  | resuming ↦ false
]

abbrev pub retries_text : Recovery → Bool
retries_text r = elim r.stage [
  | retrying ↦ not (str_eq r.retry "")
  | compacting ↦ false
  | handoff ↦ false
  | continuing ↦ false
  | resuming ↦ false
]

abbrev pub join : String → List String → String
join separator [] = ""
join separator (x ∷ []) = x
join separator (x ∷ y ∷ xs) = concat x (concat separator (join separator (y ∷ xs)))

-- The retry that a handoff takes out of the queue: its text is in the transcript.
unfoldable pub superseded : Option Recovery → Option Recovery → Option String
superseded (some next) (some old) =
    if is_handoff next && retries_text old then some old.message_id else none
superseded _ _ = none

abbrev pub retain_other : Option String → List PendingMessage → List PendingMessage
retain_other none messages = messages
retain_other (some id) messages = select (λ message. not (str_eq message.id id)) messages

abbrev pub push_front : Option PendingMessage → List PendingMessage → List PendingMessage
push_front none messages = messages
push_front (some message) messages = message ∷ messages

abbrev pub or_keep : Option ℤ → ℤ → ℤ
or_keep none start = start
or_keep (some since) start = since

abbrev pub is_opening : Event → Bool
is_opening event = is EventType.start event || is EventType.injected event

-- The text of a message that is retried is kept with the recovery.
abbrev pub retry_of : RecoveryStage → String → String
retry_of retrying text = text
retry_of _ text = ""

abbrev pub at_stage : RecoveryStage → String → String → Recovery
at_stage stage id retry = record { stage = stage; message_id = id; retry = retry }

abbrev pub queued_as : String → String → PendingMessage
queued_as id text = record { id = id; text = text }

module _ {R : Type 0} where
  abbrev pub after_save :
      Option Recovery → Option ℤ → Option PendingMessage → Option String → Chat R → Chat R
  after_save recovery since message old c = record c {
    outbox = push_front message (retain_other old c.outbox);
    awaiting = retain_other old c.awaiting;
    recovery = recovery;
    compaction_deadline = if is_compacting recovery then c.compaction_deadline else none;
    history_start = or_keep since c.history_start;
  }

module _ {R : Type 0} (o : Outside R) where
  unfoldable pub save_recovery :
      Option Recovery → Option ℤ → Option PendingMessage → Chat R → Chat R × Bool
  unfolding superseded
  save_recovery recovery since message c =
      let old = superseded recovery c.recovery in
      then_ok
        (guarded o "saving context recovery"
          (recover o.metas (o.replacing c.calls) (o.now c.calls) (Recovered.to_value recovery) since
            message old c.meta)
          c)
        (λ d. (after_save recovery since message old d, true))

  abbrev pub gave_up : String → String → Chat R → Event
  gave_up provider why c =
      with_extra "recovery_failed" (bool true)
        (from provider (failure (o.now c.calls) Kind.context_limit why))

  -- No recursive recovery: even the text alone can exceed a window.
  unfoldable pub recovery_failed : String → Chat R → Chat R
  unfolding close_turn save_recovery failure from with_extra
  recovery_failed why c =
      let provider = blamed o "" c in
      then_do
        (then_ok (close_turn o provider (field "context_recovery_failed" (bool true) end) false c)
          (save_recovery none none none))
        (λ d. refresh o (recorded o (gave_up provider why d) d).0)

  module _ (flush : Chat R → Chat R) where
    abbrev pub put_down_all : Bool → Chat R → Chat R × Bool
    put_down_all false c = (c, true)
    put_down_all true c =
        then_ok (close_turn o (blamed o "" c) (field "context_limit" (bool true) end) false c)
          (λ d. (stop_all_parked o d, true))

    abbrev pub since_now : Bool → Chat R → Option ℤ
    since_now false c = none
    since_now true c = some (succ (seq c.store))

    unfoldable pub recovery_message : RecoveryStage → String → Bool → Chat R → Chat R
    unfolding close_turn save_recovery dispatch_queued
    recovery_message stage text fresh c = then_do (put_down_all fresh c) (λ d.
        let id = o.fresh d.calls 0 in
        let next = at_stage stage id (retry_of stage text) in
        then_do
          (save_recovery (some next) (since_now fresh d) (some (queued_as id text)) (called d))
          (λ e. dispatch_queued o flush (show busy (record e { turn_failed = none }))))

    -- The conversation since the last boundary, as text.
    abbrev pub transcript : Chat R → String
    transcript c =
        Translate.flatten o.print o.trim
          (select (λ event. is_opening event || is EventType.text event)
            (history c.history_start c.store))
          c.context_recovery.transcript_header

    abbrev pub handoff_text : Chat R → String
    handoff_text c =
        if str_eq (transcript c) ""
        then c.context_recovery.limit_message
        else concat (transcript c) (concat "\n\n" c.context_recovery.limit_message)

    unfoldable pub start_handoff : Chat R → Chat R
    unfolding recovery_message Translate.flatten
    start_handoff c = recovery_message handoff (handoff_text c) true c

    -- What the open turn was told so far.
    abbrev pub delivered_text : Bool → Chat R → String
    delivered_text false c = ""
    delivered_text true c = join "\n\n" (
        map (λ event. event.text)
          (select (λ event. eqb_ℤ event.turn c.turn && is_opening event)
            (history c.history_start c.store)))

    abbrev pub compaction_begins : Chat R → Chat R
    compaction_begins c =
        let d =
          show busy
            (record c { compaction_deadline = some (o.instant c.calls + 180); in_turn = true }) in
        (recorded o (config (o.now d.calls) "context_compaction") d).0

    unfoldable pub compacted : R × Result String Bool → Chat R → Chat R
    unfolding start_handoff config
    compacted (r, ok true) c = compaction_begins (called (record c { runner = some r }))
    compacted (r, _) c = start_handoff (called (record c { runner = some r }))

    unfoldable pub compact : Chat R → Chat R
    unfolding compacted start_handoff
    compact c = elim c.runner [
      | none ↦ start_handoff c
      | some r ↦ compacted (o.runners.compact c.calls r) c
    ]

    -- The provider's own compaction, else a handoff.
    unfoldable pub recover_context : Bool → Chat R → Chat R
    unfolding compact save_recovery
    recover_context delivered c =
        let next = at_stage compacting "" (delivered_text delivered c) in
        then_do (save_recovery (some next) none none c)
          (λ d. compact (record d { turn_failed = none }))
