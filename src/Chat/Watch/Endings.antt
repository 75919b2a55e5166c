-- ===== src/Chat/Watch/Endings.antt =====
-- Invariants of the conductor, through its end and the whole run.
use silicon_omni.Prelude.{
  String, inl, inr, true, ◌&&◌, none, List, [], ◌∷◌, str_eq, if-cases, bool-cases, option-cases,
}
use silicon_omni.Events.{config}
use silicon_omni.Chat.{Chat, Outside, waiting}
use silicon_omni.Chat.Recording.{called, stop, show, stop_all_parked}
use silicon_omni.Chat.Failing.{requeue}
use silicon_omni.Chat.Ending
use silicon_omni.Chat.Ending.{
  Wake, wake_launch, launch_ready, send, send_durable, heard, set, configure, wake_stop, reject,
  reject_waiters, drain_one, drain, bind_last, put_down_runner, last_end, record_last_end,
  record_stop, shutdown,
}
use silicon_omni.Chat.Conductor.{Arrival, wakes_of, round, run_loop, stops, run}
use silicon_omni.Chat.Watch.{Same, Watch, Answering}
use silicon_omni.Chat.Watch.Rules.{
  same, same_called, same_stop_parked, Kept, Good, then_do-Kept, then_ok-Good, recorded-Good, good,
  not_good, still_live, publish-Kept,
}
use silicon_omni.Chat.Watch.Launches.{or_stop-Good}
use silicon_omni.Chat.Watch.Hearings.{absorb-Kept}
use silicon_omni.Chat.Watch.Rounds.{answer-Kept, round-Kept}

module _ {R : Type 0} (o : Outside R) (w : Watch o) where
  live : (c d : Chat R) → Same c d → w.Live c → w.Live d
  live c d = w.live_same c d

  bind_last-Good : (r : R) (c : Chat R) → w.Live c → Good o w (bind_last o r c)
  unfolding bind_last
  bind_last-Good r c h =
      if-cases (Good o w) (str_eq (o.runners.native_id c.calls r) "")
        (λ e. good o w _ (live c (stop o r c) (same_called c) h))
        (λ e.
          then_ok-Good o w _ _ (or_stop-Good o w _ r _ (w.binds _ _ c h))
            (λ d k. good o w _ (live d (stop o r d) (same_called d) k)))

  pub put_down_runner-Good : (c : Chat R) → w.Live c → Good o w (put_down_runner o c)
  unfolding put_down_runner
  put_down_runner-Good c h =
      option-cases (Good o w) c.runner (λ e. good o w c h)
        (λ r e.
          let d = record c { runner = none } in
          if-cases (Good o w) c.in_turn
            (λ f. bind_last-Good _ (called d) (live c (called d) (same_called c) h))
            (λ f. bind_last-Good r d (live c d (same c) h)))

  pub record_last_end-Good : (c : Chat R) → w.Live c → Good o w (record_last_end o c)
  record_last_end-Good c h =
      if-cases (Good o w) (c.in_turn && c.turn_recorded) (λ e. recorded-Good o w _ c h)
        (λ e. good o w c h)

  pub record_stop-Kept : (c : Chat R) → w.Live c → Kept o w (record_stop o c)
  unfolding record_stop
  record_stop-Kept c h =
      then_do-Kept o w _ _ (recorded-Good o w (config (o.now c.calls) "stop") c h)
        (λ d k. inl (live d _ (same d) k))

module _ {R : Type 0} (o : Outside R) (w : Watch o) (a : Answering w) where
  drain_one-Kept : (wake : Wake) (c : Chat R) → w.Live c → Kept o w (drain_one o wake c)
  unfolding drain_one
  drain_one-Kept (heard event) c h = absorb-Kept o w event c h
  drain_one-Kept (send_durable text ack) c h = inl (a.answers ack _ c h)
  drain_one-Kept (configure changes ack) c h = inl (a.answers ack _ c h)
  drain_one-Kept (launch_ready ack) c h = inl (a.answers ack _ c h)
  drain_one-Kept wake_launch c h = inl h
  drain_one-Kept (send text) c h = inl h
  drain_one-Kept (set change) c h = inl h
  drain_one-Kept wake_stop c h = inl h

  drain-Good : (wakes : List Wake) (c : Chat R) → w.Live c → Good o w (drain o wakes c)
  unfolding drain
  drain-Good [] c h = good o w c h
  drain-Good (wake ∷ wakes) c h =
      let d = drain_one o wake c in
      let k = drain_one-Kept wake c h in
      if-cases (Good o w) d.terminal (λ e. not_good o w d k)
        (λ e. drain-Good wakes d (still_live o w d k e))

  pub shutdown-Kept : (inbox : List Wake) (c : Chat R) → w.Live c → Kept o w (shutdown o inbox c)
  unfolding shutdown
  shutdown-Kept inbox c h =
      let b = record c { stopping = true } in
      if-cases (Kept o w) c.terminal (λ e. inl h)
        (λ e. then_do-Kept o w _ _ (put_down_runner-Good o w b (live o w c b (same c) h)) (λ d k.
          let x = stop_all_parked o d in
          then_do-Kept o w _ _
            (drain-Good inbox x
              (live o w d x (same_stop_parked o d.parked (record d { parked = [] })) k))
            (λ y ky.
              let z = record y { runner_epoch = none } in
              then_do-Kept o w _ _ (record_last_end-Good o w z (live o w y z (same y) ky)) (λ f kf.
                let g = Ending.at_rest f in
                record_stop-Kept o w (requeue g) (w.requeues g (live o w f g (same f) kf))))))

  reject-Kept :
      (why : String) (wake : Wake) (c : Chat R) → Kept o w c → Kept o w (reject why wake c)
  reject-Kept why (heard event) c k = k
  reject-Kept why (send_durable text ack) c k = answer-Kept o w a ack _ c k
  reject-Kept why (configure changes ack) c k = answer-Kept o w a ack _ c k
  reject-Kept why (launch_ready ack) c k = answer-Kept o w a ack _ c k
  reject-Kept why wake_launch c k = k
  reject-Kept why (send text) c k = k
  reject-Kept why (set change) c k = k
  reject-Kept why wake_stop c k = k

  pub reject_waiters-Kept :
      (why : String) (wakes : List Wake) (c : Chat R)
      → Kept o w c
      → Kept o w (reject_waiters why wakes c)
  unfolding reject_waiters
  reject_waiters-Kept why [] c k = k
  reject_waiters-Kept why (wake ∷ wakes) c k =
      let d = reject why wake c in reject_waiters-Kept why wakes d (reject-Kept why wake c k)

  run_loop-Kept :
      (arrivals : List Arrival) (c : Chat R) → w.Live c → Kept o w (run_loop o arrivals c)
  unfolding run_loop
  run_loop-Kept [] c h = publish-Kept o w _ (shutdown-Kept [] c h)
  run_loop-Kept (arrival ∷ arrivals) c h =
      let d = round o arrival c in
      let k = round-Kept o w a arrival c h in
      bool-cases (Kept o w) (stops arrival)
        (λ e. publish-Kept o w _ (shutdown-Kept (wakes_of arrivals) c h))
        (λ e.
          bool-cases (Kept o w) d.terminal (λ f. reject_waiters-Kept _ (wakes_of arrivals) d k)
            (λ f. run_loop-Kept arrivals d (still_live o w d k f)))

  -- What a session does from its start to its end keeps the invariant.
  pub run-Kept :
      (arrivals : List Arrival) (c : Chat R) → w.Live c → w.Torn c → Kept o w (run o arrivals c)
  unfolding run
  run-Kept arrivals c h t =
      let d = show waiting c in
      option-cases (Kept o w) c.startup_error
        (λ e. run_loop-Kept arrivals d (live o w c d (same c) h))
        (λ error e.
          let x = record c { startup_error = none } in
          reject_waiters-Kept _ (wakes_of arrivals) _
            (publish-Kept o w _ (inr (w.gives_up _ error x (w.torn_same c x (same c) t)))))
