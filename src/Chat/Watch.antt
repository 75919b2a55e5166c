-- ===== src/Chat/Watch.antt =====
-- crates/omni-core/src/chat.rs: what an invariant of the conductor has to say of the few places
-- that touch the disk and the queues.
pub mod Rules
pub mod Launches
pub mod Rebuilds
pub mod Failures
pub mod Turns
pub mod Recoveries
pub mod Handovers
pub mod Hearings
pub mod Rounds
pub mod Endings
use silicon_omni.Prelude.{
  ℕ, String, ℤ, ◌≤◌, ◌≡◌, ◌⊎◌, Bool, true, false, Option, none, some, List, [], ◌∷◌, ◌++◌,
}
use silicon_omni.Result.{Result, ok, err}
use silicon_omni.Json.{Value}
use silicon_omni.Events.{Event}
use silicon_omni.Meta.{Meta, set_setting, enqueue, complete, retry, recover, messages_of}
use silicon_omni.Meta.Load.{PendingMessage}
use mathlib.Core.List.{flatten}
use silicon_omni.Chat.{Chat, Outside}
use silicon_omni.Chat.Recording.{called, kept, record_event, persistence_failed, publish}
use silicon_omni.Chat.Ending.{answer}
use silicon_omni.Chat.Parking.{bound, marked}
use silicon_omni.Chat.Recovering.{push_front, retain_other}

module _ {R : Type 0} where
  -- No difference in the log, the metadata, the queues, and what is told to listeners and to those
  -- who wait for an answer.
  abbrev pub Same : Chat R → Chat R → Type 0
  Same c d =
      (c.session_id ≡ d.session_id)
      × (c.store ≡ d.store)
      × (c.meta ≡ d.meta)
      × (c.pending ≡ d.pending)
      × (c.published ≡ d.published)
      × (c.terminal ≡ d.terminal)
      × (c.outbox ≡ d.outbox)
      × (c.awaiting ≡ d.awaiting)
      × (c.calls ≤ d.calls)
      × (c.answered ≡ d.answered)

  -- What holds after an operation on the metadata that may have failed.
  unfoldable pub Ends : (Chat R → Type 0) → (Chat R → Type 0) → Chat R × Bool → Type 0
  Ends done torn (c, true) = done c
  Ends done torn (c, false) = torn c

  unfoldable pub Recorded : (Chat R → Type 0) → (Chat R → Type 0) → Chat R × Option Event → Type 0
  Recorded live over (c, none) = over c
  Recorded live over (c, some event) = live c

-- An invariant: `Live` of a session that runs, `Torn` where the metadata could not be saved and
-- `Over` after the end that the disk forced. `Fresh` says that an id is in no queue.
pub record Watch {R : Type 0} (o : Outside R) : Type 1 where
  pub Live : Chat R → Type 0
  pub Torn : Chat R → Type 0
  pub Over : Chat R → Type 0
  pub Fresh : Chat R → String → Type 0
  pub live_same : (c d : Chat R) → Same c d → Live c → Live d
  pub torn_same : (c d : Chat R) → Same c d → Torn c → Torn d
  pub over_same : (c d : Chat R) → Same c d → Over c → Over d
  pub live_runs : (c : Chat R) → Live c → c.terminal ≡ false
  pub over_ended : (c : Chat R) → Over c → c.terminal ≡ true
  pub fresh_id : (c : Chat R) → Live c → Fresh (called c) (o.fresh c.calls 0)
  pub fresh_same : (c d : Chat R) (id : String) → Same c d → Fresh c id → Fresh d id
  pub gives_up :
      (action error : String) (c : Chat R) → Torn c → Over (persistence_failed o action error c)
  pub torn_meta : (m : Meta) (c : Chat R) → Torn c → Torn (called (record c { meta = m }))
  pub records : (event : Event) (c : Chat R) → Live c → Recorded Live Over (record_event o event c)
  pub publishes : (c : Chat R) → Live c → Live (publish c)
  pub publishes_over : (c : Chat R) → Over c → Over (publish c)
  pub binds : (name id : String) (c : Chat R) → Live c → Ends Live Torn (kept (bound o name id c) c)
  pub marks :
      (name : String) (seq : ℤ) (c : Chat R)
      → Live c
      → Ends Live Torn (kept (marked o name seq c) c)
  pub sets :
      (key : String) (value : Value) (c : Chat R)
      → Live c
      → Ends Live Torn
          (kept (set_setting o.metas (o.replacing c.calls) (o.now c.calls) key value c.meta) c)
  pub enqueues :
      (text : String) (c : Chat R)
      → Live c
      → let id = o.fresh c.calls 0 in
        let message : PendingMessage = record { id = id; text = text } in
        Ends
          (λ d. Live (record d { outbox = d.outbox ++ (message ∷ []) }))
          Torn
          (kept (enqueue o.metas (o.replacing c.calls) (o.now c.calls) id text c.meta) c)
  pub delivers :
      (message : PendingMessage) (messages : List PendingMessage) (c : Chat R)
      → Live c
      → c.outbox ≡ message ∷ messages
      → Ends
          (λ d. Live (record d { outbox = messages }))
          Torn
          (kept (complete o.metas (o.replacing c.calls) (o.now c.calls) message.id c.meta) c)
  pub confirms :
      (message : PendingMessage) (messages : List PendingMessage) (c : Chat R)
      → Live c
      → c.awaiting ≡ message ∷ messages
      → Ends
          (λ d. Live (record d { awaiting = messages }))
          Torn
          (kept (complete o.metas (o.replacing c.calls) (o.now c.calls) message.id c.meta) c)
  pub retries :
      (c : Chat R)
      → Live c
      → let messages = messages_of (o.fresh c.calls) 0 (flatten c.unanswered) in
        Ends
          (λ d. Live (record d { outbox = messages ++ d.outbox }))
          Torn
          (kept
            (retry o.metas
              (o.replacing c.calls)
              (o.now c.calls)
              (o.fresh c.calls)
              c.unanswered
              c.meta)
            c)
  pub recovers :
      (state : Value) (since : Option ℤ) (message : Option PendingMessage) (old : Option String)
      (c : Chat R)
      → Live c
      → ((m : PendingMessage) → message ≡ some m → Fresh c m.id)
      → Ends
          (λ d. Live (record d {
            outbox = push_front message (retain_other old d.outbox);
            awaiting = retain_other old d.awaiting;
          }))
          Torn
          (kept
            (recover o.metas (o.replacing c.calls) (o.now c.calls) state since message old c.meta)
            c)
  pub requeues :
      (c : Chat R) → Live c → Live (record c { outbox = c.awaiting ++ c.outbox; awaiting = [] })
  pub awaits :
      (message : PendingMessage) (messages : List PendingMessage) (c : Chat R)
      → Live c
      → c.outbox ≡ message ∷ messages
      → Live (record c { awaiting = c.awaiting ++ (message ∷ []); outbox = messages })

-- An invariant that answers to waiting callers keep.
pub record Answering {R : Type 0} {o : Outside R} (w : Watch o) : Type 0 where
  pub answers :
      (ack : ℕ) (result : Result String (Unit {0})) (c : Chat R)
      → w.Live c
      → w.Live (answer ack result c)
  pub answers_over :
      (ack : ℕ) (result : Result String (Unit {0})) (c : Chat R)
      → w.Over c
      → w.Over (answer ack result c)
