-- ===== src/Chat/Watch/Rounds.antt =====
-- Invariants of the conductor, through each round of its loop.
use silicon_omni.Prelude.{
  ℕ, String, inl, inr, Bool, true, false, not, ◌&&◌, none, some, List, str_eq, if-cases,
  option-cases, select, ltb_ℤ, any, ◌>>=◌,
}
use silicon_omni.Result.{Result, ok}
use silicon_omni.Json.{get, as_bool}
use silicon_omni.Events.{Event, is}
use silicon_omni.Events.EventType
use silicon_omni.Meta.Load.{PendingMessage}
use silicon_omni.Store.{events_since}
use silicon_omni.Chat.{Chat, Outside, Recovery}
use silicon_omni.Chat.Recording.{publish, alive}
use silicon_omni.Chat.Choosing.{is_true, stale}
use silicon_omni.Chat.Recovering.{is_compacting}
use silicon_omni.Chat.Recovering.Resume.{
  find_event, follows, opens_with, failure_after, turn_came_to, delivered, send_again,
  delivered_or_sent, resume_recovery,
}
use silicon_omni.Chat.Handing.{hand_over}
use silicon_omni.Chat.Ending.{
  Wake, wake_launch, launch_ready, send, send_durable, heard, set, configure, wake_stop, answer,
}
use silicon_omni.Chat.Conductor.{
  Arrival, arrived, timed_out, start_up, launch_once, launch_and_answer, accept, configured, handle,
  round,
}
use silicon_omni.Chat.Watch.{Same, Watch, Answering}
use silicon_omni.Chat.Watch.Rules.{
  same, Kept, Good, then_do-Kept, Good-live, Good-Kept, publish-Kept,
}
use silicon_omni.Chat.Watch.Failures.{attempt-Good}
use silicon_omni.Chat.Watch.Turns.{enqueue_message-Good, dispatch-Kept, dispatch_queued-Kept}
use silicon_omni.Chat.Watch.Recoveries.{start_handoff-Kept, recovery_ended-Kept}
use silicon_omni.Chat.Watch.Handovers.{hand_over-Kept}
use silicon_omni.Chat.Watch.Hearings.{absorb-Kept, apply_all-Good, apply-Good}

module _ {R : Type 0} (o : Outside R) (w : Watch o) where
  live : (c d : Chat R) → Same c d → w.Live c → w.Live d
  live c d = w.live_same c d

  send_again-Kept : (c : Chat R) → w.Live c → Kept o w (send_again o (hand_over o) c)
  unfolding send_again
  send_again-Kept c h = then_do-Kept o w _ _ (attempt-Good o w _ c h) (hand_over-Kept o w)

  turn_came_to-Kept :
      (r : Recovery) (opening : Event) (events : List Event) (done : Event) (c : Chat R)
      → w.Live c
      → Kept o w (turn_came_to o (hand_over o) r opening events done c)
  unfolding turn_came_to
  turn_came_to-Kept r opening events done c h =
      let between = select (λ event. follows opening event && ltb_ℤ event.seq done.seq) events in
      let d = record c { turn_failed = failure_after none between } in
      if-cases (Kept o w) (is_true (get "interrupted" done.extra >>= as_bool))
        (λ e. start_handoff-Kept o w (hand_over o) (hand_over-Kept o w) c h)
        (λ e.
          recovery_ended-Kept o w (hand_over o) (hand_over-Kept o w) done r d (live c d (same c) h))

  delivered-Kept :
      (r : Recovery) (events : List Event) (opening : Event) (c : Chat R)
      → w.Live c
      → Kept o w (delivered o (hand_over o) r events opening c)
  unfolding delivered
  delivered-Kept r events opening c h =
      option-cases (Kept o w)
        (find_event (λ event. follows opening event && is EventType.end event) events)
        (λ e. start_handoff-Kept o w (hand_over o) (hand_over-Kept o w) c h)
        (λ done e. turn_came_to-Kept r opening events done c h)

  delivered_or_sent-Kept :
      (r : Recovery) (c : Chat R) → w.Live c → Kept o w (delivered_or_sent o (hand_over o) r c)
  unfolding delivered_or_sent
  delivered_or_sent-Kept r c h =
      option-cases (Kept o w)
        (find_event (opens_with r.message_id) (events_since c.history_start c.store))
        (λ e. send_again-Kept c h) (λ opening e. delivered-Kept r _ opening c h)

  resume_recovery-Kept :
      (r : Recovery) (c : Chat R) → w.Live c → Kept o w (resume_recovery o (hand_over o) r c)
  unfolding resume_recovery
  resume_recovery-Kept r c h =
      if-cases (Kept o w) (is_compacting (some r))
        (λ e. start_handoff-Kept o w (hand_over o) (hand_over-Kept o w) c h)
        (λ e.
          if-cases (Kept o w)
            (any (λ (message : PendingMessage). str_eq message.id r.message_id) c.outbox)
            (λ f. send_again-Kept c h) (λ f. delivered_or_sent-Kept r c h))

  start_up-Kept : (c : Chat R) → w.Live c → Kept o w (start_up o c)
  unfolding start_up
  start_up-Kept c h =
      if-cases (Kept o w) (alive o c && not (stale o c)) (λ e. hand_over-Kept o w c h)
        (λ e.
          then_do-Kept o w _ _ (attempt-Good o w _ c h)
            (λ d k. if-cases (Kept o w) d.terminal (λ f. inl k) (λ f. hand_over-Kept o w d k)))

  pub launch_once-Kept : (c : Chat R) → w.Live c → Kept o w (launch_once o c)
  unfolding launch_once
  launch_once-Kept c h =
      let d = record c { launched_once = true } in
      let k : w.Live d = live c d (same c) h in
      if-cases (Kept o w) c.launched_once (λ e. inl h)
        (λ e.
          option-cases (Kept o w) c.recovery (λ f. start_up-Kept d k)
            (λ r f. resume_recovery-Kept r d k))

module _ {R : Type 0} (o : Outside R) (w : Watch o) (a : Answering w) where
  pub answer-Kept :
      (ack : ℕ) (result : Result String (Unit {0})) (c : Chat R)
      → Kept o w c
      → Kept o w (answer ack result c)
  answer-Kept ack result c (inl h) = inl (a.answers ack result c h)
  answer-Kept ack result c (inr h) = inr (a.answers_over ack result c h)

  accept-Kept : (ack : ℕ) (p : Chat R × Bool) → Good o w p → Kept o w (accept o ack p)
  unfolding accept
  accept-Kept ack (c, false) h =
      answer-Kept ack _ (publish c) (publish-Kept o w c (Good-Kept o w (c, false) h))
  accept-Kept ack (c, true) h =
      let d = answer ack (ok tt) (publish c) in
      let k : w.Live d = a.answers ack (ok tt) (publish c) (w.publishes c (Good-live o w c h)) in
      if-cases (Kept o w) d.terminal (λ e. inl k)
        (λ e. publish-Kept o w _ (dispatch_queued-Kept o w (hand_over o) (hand_over-Kept o w) d k))

  configured-Kept : (ack : ℕ) (p : Chat R × Bool) → Good o w p → Kept o w (configured o ack p)
  unfolding configured
  configured-Kept ack (c, true) h =
      answer-Kept ack _ (publish c) (publish-Kept o w c (inl (Good-live o w c h)))
  configured-Kept ack (c, false) h =
      answer-Kept ack _ (publish c) (publish-Kept o w c (Good-Kept o w (c, false) h))

  handle-Kept : (wake : Wake) (c : Chat R) → w.Live c → Kept o w (handle o wake c)
  unfolding handle launch_and_answer
  handle-Kept wake_launch c h = publish-Kept o w _ (launch_once-Kept o w c h)
  handle-Kept (launch_ready ack) c h =
      let d = publish (launch_once o c) in
      answer-Kept ack _ d (publish-Kept o w _ (launch_once-Kept o w c h))
  handle-Kept (send text) c h =
      publish-Kept o w _ (dispatch-Kept o w (hand_over o) (hand_over-Kept o w) text c h)
  handle-Kept (send_durable text ack) c h = accept-Kept ack _ (enqueue_message-Good o w text c h)
  handle-Kept (heard event) c h = publish-Kept o w _ (absorb-Kept o w event c h)
  handle-Kept (set change) c h = publish-Kept o w _ (Good-Kept o w _ (apply-Good o w change c h))
  handle-Kept (configure changes ack) c h = configured-Kept ack _ (apply_all-Good o w changes c h)
  handle-Kept wake_stop c h = inl h

  pub round-Kept : (arrival : Arrival) (c : Chat R) → w.Live c → Kept o w (round o arrival c)
  unfolding round
  round-Kept (arrived wake) c h = handle-Kept wake c h
  round-Kept timed_out c h =
      if-cases (Kept o w) (is_compacting c.recovery)
        (λ e. publish-Kept o w _ (start_handoff-Kept o w (hand_over o) (hand_over-Kept o w) c h))
        (λ e. inl h)
