-- ===== src/Chat/Watch/Turns.antt =====
-- Invariants of the conductor, where messages are accepted and turns end.
use silicon_omni.Prelude.{
  ℕ, zero, suc, String, inl, not, ◌&&◌, [], ◌∷◌, ◌++◌, if-cases, option-cases,
}
use silicon_omni.Meta.Load.{PendingMessage}
use silicon_omni.Chat.{Chat, Outside, busy}
use silicon_omni.Chat.Recording.{alive, show}
use silicon_omni.Chat.Choosing.{stale}
use silicon_omni.Chat.Turns.{
  is_empty, enqueue_message, ready, mark_runner, dispatch_queued, dispatch, retune_or_flush,
  after_mark, turn_over, next_or_over, finish_turn, settle_idle, push, drop_first,
}
use silicon_omni.Chat.Watch.{Same, Watch}
use silicon_omni.Chat.Watch.Rules.{
  same, Kept, Good, Kept-same, then_do-Kept, guarded_then, guarded-Good, good,
}
use silicon_omni.Chat.Watch.Failures.{attempt-Good}

module _ {R : Type 0} (o : Outside R) (w : Watch o) where
  live : (c d : Chat R) → Same c d → w.Live c → w.Live d
  live c d = w.live_same c d

  pub enqueue_message-Good :
      (text : String) (c : Chat R) → w.Live c → Good o w (enqueue_message o text c)
  unfolding enqueue_message
  enqueue_message-Good text c h =
      let message : PendingMessage = record { id = o.fresh c.calls 0; text = text } in
      guarded_then o w _ _ _ (w.enqueues text c h) (λ d k.
        let e = record d { outbox = d.outbox ++ (message ∷ []) } in
        good o w _ (live e (push o message d) (same e) k))

  pub ready-Good : (c : Chat R) → w.Live c → Good o w (ready o c)
  unfolding ready
  ready-Good c h =
      if-cases (Good o w) (not (alive o c)) (λ e. attempt-Good o w _ c h)
        (λ e.
          if-cases (Good o w) (not c.in_turn && stale o c) (λ f. attempt-Good o w _ c h)
            (λ f. good o w c h))

  mark_runner-Good : (c : Chat R) → w.Live c → Good o w (mark_runner o c)
  unfolding mark_runner
  mark_runner-Good c h =
      option-cases (Good o w) c.runner (λ e. good o w c h)
        (λ r e. guarded-Good o w _ _ (w.marks _ _ c h))

  settle_idle-Kept : (c : Chat R) → Kept o w c → Kept o w (settle_idle c)
  settle_idle-Kept c k =
      if-cases (Kept o w)
        ((not c.in_turn && is_empty c.outbox) && (is_empty c.awaiting && not c.terminal))
        (λ e. Kept-same o w c _ (same c) k) (λ e. k)

  module _ (flush : Chat R → Chat R) (again : (d : Chat R) → w.Live d → Kept o w (flush d)) where
    pub dispatch_queued-Kept : (c : Chat R) → w.Live c → Kept o w (dispatch_queued o flush c)
    unfolding dispatch_queued
    dispatch_queued-Kept c h = then_do-Kept o w _ _ (ready-Good c h) again

    pub dispatch-Kept : (text : String) (c : Chat R) → w.Live c → Kept o w (dispatch o flush text c)
    unfolding dispatch
    dispatch-Kept text c h =
        then_do-Kept o w _ _ (enqueue_message-Good text c h) dispatch_queued-Kept

    retune_or_flush-Kept : (c : Chat R) → w.Live c → Kept o w (retune_or_flush o flush c)
    unfolding retune_or_flush
    retune_or_flush-Kept c h =
        if-cases (Kept o w) (stale o c)
          (λ e.
            let d = show busy c in
            then_do-Kept o w _ _ (attempt-Good o w "settings changed" d (live c d (same c) h))
              (λ x k. settle_idle-Kept (flush x) (again x k)))
          (λ e. settle_idle-Kept (flush c) (again c h))

    after_mark-Kept : (c : Chat R) → w.Live c → Kept o w (after_mark o flush c)
    unfolding after_mark
    after_mark-Kept c h =
        if-cases (Kept o w) (is_empty c.awaiting) (λ e. retune_or_flush-Kept c h)
          (λ e. inl (live c _ (same c) h))

    next_or_over-Kept : (n : ℕ) (c : Chat R) → w.Live c → Kept o w (next_or_over o flush n c)
    unfolding next_or_over turn_over
    next_or_over-Kept zero c h = then_do-Kept o w _ _ (mark_runner-Good c h) after_mark-Kept
    next_or_over-Kept (suc n) c h = inl (live c _ (same c) h)

    pub finish_turn-Kept : (c : Chat R) → w.Live c → Kept o w (finish_turn o flush c)
    unfolding finish_turn
    finish_turn-Kept c h =
        let d = record c { unanswered = drop_first c.unanswered } in
        next_or_over-Kept c.next_turns d (live c d (same c) h)
