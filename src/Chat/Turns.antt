-- ===== src/Chat/Turns.antt =====
-- crates/omni-core/src/chat.rs: accepted messages, and the end of a turn.
-- `flush` hands queued messages over; it is an argument, as in Failing.
use silicon_omni.Prelude.{
  ℕ, zero, suc, String, Bool, true, false, not, ◌&&◌, none, some, List, [], ◌∷◌, ◌++◌,
  if◌then◌else◌, unwrap_or,
}
use silicon_omni.Meta.{enqueue, complete}
use silicon_omni.Meta.Load.{PendingMessage}
use silicon_omni.Store.{seq}
use silicon_omni.Chat.{Chat, Outside, busy, waiting}
use silicon_omni.Chat.Recording.{then_do, then_ok, guarded, show, alive}
use silicon_omni.Chat.Choosing.{stale}
use silicon_omni.Chat.Parking.{marked}
use silicon_omni.Chat.Failing.{attempt}

abbrev pub is_empty {ℓ} : {A : Type ℓ} → List A → Bool
is_empty [] = true
is_empty (x ∷ xs) = false

abbrev pub drop_first {ℓ} : {A : Type ℓ} → List A → List A
drop_first [] = []
drop_first (x ∷ xs) = xs

-- Delivered messages by the native turn that they belong to.
abbrev pub remembered : Bool → String → List (List String) → List (List String)
remembered later text [] = (text ∷ []) ∷ []
remembered true text (turn ∷ turns) = (turn ∷ turns) ++ ((text ∷ []) ∷ [])
remembered false text (turn ∷ turns) = (turn ++ (text ∷ [])) ∷ turns

module _ {R : Type 0} where
  abbrev pub remember_message : String → Bool → Chat R → Chat R
  remember_message text later c = record c { unanswered = remembered later text c.unanswered }

  abbrev pub settle_idle : Chat R → Chat R
  settle_idle c =
      if (not c.in_turn && is_empty c.outbox) && (is_empty c.awaiting && not c.terminal)
      then show waiting c
      else c

module _ {R : Type 0} (o : Outside R) where
  abbrev pub push : PendingMessage → Chat R → Chat R
  push message c = show busy (record c { outbox = c.outbox ++ (message ∷ []) })

  -- `enqueue` and the acknowledgement that follows from it: the message is in the metadata.
  unfoldable pub enqueue_message : String → Chat R → Chat R × Bool
  enqueue_message text c =
      let id = o.fresh c.calls 0 in
      then_ok
        (guarded o "saving an accepted user message"
          (enqueue o.metas (o.replacing c.calls) (o.now c.calls) id text c.meta) c)
        (λ d. (push (record { id = id; text = text }) d, true))

  unfoldable pub complete_message : String → Chat R → Chat R × Bool
  complete_message id c =
      guarded o "retiring a delivered user message"
        (complete o.metas (o.replacing c.calls) (o.now c.calls) id c.meta) c

  -- A runner is made ready for what is queued.
  unfoldable pub ready : Chat R → Chat R × Bool
  unfolding attempt stale
  ready c =
      if not (alive o c)
      then attempt o "no provider is running" c
      else if not c.in_turn && stale o c
      then attempt o "settings changed" c
      else (c, true)

  unfoldable pub mark_runner : Chat R → Chat R × Bool
  unfolding marked
  mark_runner c = elim c.runner [
    | none ↦ (c, true)
    | some r ↦
        let synced = unwrap_or c.sync_ceiling (seq c.store) in
        guarded o "saving a provider watermark" (marked o (o.runners.name r) synced c) c
  ]

  module _ (flush : Chat R → Chat R) where
    unfoldable pub dispatch_queued : Chat R → Chat R
    unfolding ready
    dispatch_queued c = then_do (ready c) flush

    unfoldable pub dispatch : String → Chat R → Chat R
    unfolding enqueue_message dispatch_queued
    dispatch text c = then_do (enqueue_message text c) dispatch_queued

    unfoldable pub retune_or_flush : Chat R → Chat R
    unfolding attempt stale
    retune_or_flush c =
        if stale o c
        then then_do (attempt o "settings changed" (show busy c)) (λ d. settle_idle (flush d))
        else settle_idle (flush c)

    -- After the watermark: a line on the pipe keeps the chat busy.
    unfoldable pub after_mark : Chat R → Chat R
    unfolding retune_or_flush
    after_mark c =
        if is_empty c.awaiting then retune_or_flush c else show busy (record c { in_turn = true })

    unfoldable pub turn_over : Chat R → Chat R
    unfolding mark_runner after_mark
    turn_over c = then_do (mark_runner c) after_mark

    abbrev pub goes_on : ℕ → Chat R → Chat R
    goes_on left c =
        show busy (record c { next_turns = left; in_turn = true; turn_recorded = true })

    -- A message that landed mid-flight may stand for a later native turn.
    unfoldable pub next_or_over : ℕ → Chat R → Chat R
    unfolding turn_over
    next_or_over zero c = turn_over c
    next_or_over (suc left) c = goes_on left c

    unfoldable pub finish_turn : Chat R → Chat R
    unfolding next_or_over
    finish_turn c = next_or_over c.next_turns (record c { unanswered = drop_first c.unanswered })
