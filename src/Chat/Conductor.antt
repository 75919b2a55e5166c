-- ===== src/Chat/Conductor.antt =====
-- crates/omni-core/src/chat.rs: the one thread that owns a chat (`run`), over the list of what
-- arrives on its inbox.
use silicon_omni.Prelude.{
  ℕ, String, Bool, true, false, not, ◌&&◌, none, some, List, [], ◌∷◌, if◌then◌else◌,
}
use silicon_omni.Result.{ok, err}
use silicon_omni.Chat.{Chat, Outside, waiting}
use silicon_omni.Chat.Recording.{then_do, publish, persistence_failed, show, alive}
use silicon_omni.Chat.Choosing.{stale}
use silicon_omni.Chat.Settings.{apply, apply_all}
use silicon_omni.Chat.Failing.{attempt}
use silicon_omni.Chat.Turns.{enqueue_message, dispatch, dispatch_queued}
use silicon_omni.Chat.Recovering.{is_compacting, start_handoff}
use silicon_omni.Chat.Recovering.Resume.{resume_recovery}
use silicon_omni.Chat.Handing.{hand_over}
use silicon_omni.Chat.Hearing.{absorb}
use silicon_omni.Chat.Ending.{
  Wake, wake_launch, launch_ready, send, send_durable, heard, set, configure, wake_stop, answer,
  reject_waiters, shutdown,
}

-- What a wait on the inbox comes to; `timed_out` only ends the wait for a compaction.
pub data Arrival : Type 0 where
  arrived : Wake → Arrival
  timed_out : Arrival

abbrev pub stops : Arrival → Bool
stops (arrived wake_stop) = true
stops _ = false

abbrev pub wakes_of : List Arrival → List Wake
wakes_of [] = []
wakes_of (arrived wake ∷ arrivals) = wake ∷ wakes_of arrivals
wakes_of (timed_out ∷ arrivals) = wakes_of arrivals

module _ {R : Type 0} (o : Outside R) where
  unfoldable pub start_up : Chat R → Chat R
  unfolding attempt stale
  start_up c =
      if alive o c && not (stale o c)
      then hand_over o c
      else then_do (attempt o "starting up" c) (λ d. if d.terminal then d else hand_over o d)

  unfoldable pub launch_once : Chat R → Chat R
  unfolding start_up resume_recovery
  launch_once c =
      let d = record c { launched_once = true } in
      if c.launched_once
      then c
      else elim c.recovery [ some r ↦ resume_recovery o (hand_over o) r d | none ↦ start_up d ]

  unfoldable pub launch_and_answer : ℕ → Chat R → Chat R
  unfolding launch_once
  launch_and_answer ack c =
      let d = publish (launch_once c) in
      answer ack
        (if d.terminal then err "session persistence failed during provider launch" else ok tt) d

  -- The message is acknowledged before a provider works on it.
  unfoldable pub accept : ℕ → Chat R × Bool → Chat R
  unfolding dispatch_queued hand_over
  accept ack (c, false) = answer ack (err "saving an accepted user message") (publish c)
  accept ack (c, true) =
      let d = answer ack (ok tt) (publish c) in
      if d.terminal then d else publish (dispatch_queued o (hand_over o) d)

  unfoldable pub configured : ℕ → Chat R × Bool → Chat R
  configured ack (c, true) = answer ack (ok tt) (publish c)
  configured ack (c, false) = answer ack (err "session persistence failed") (publish c)

  -- One round of the loop, for all that does not stop it.
  unfoldable pub handle : Wake → Chat R → Chat R
  unfolding launch_once launch_and_answer dispatch accept enqueue_message absorb apply apply_all
      configured
  handle wake_launch c = publish (launch_once c)
  handle (launch_ready ack) c = launch_and_answer ack c
  handle (send text) c = publish (dispatch o (hand_over o) text c)
  handle (send_durable text ack) c = accept ack (enqueue_message o text c)
  handle (heard event) c = publish (absorb o event c)
  handle (set change) c = publish (apply o change c).0
  handle (configure changes ack) c = configured ack (apply_all o changes c)
  handle wake_stop c = c

  -- One round of the loop. Whether a wait for the end of a compaction times out, is up to the
  -- list; a wait outside a compaction never does.
  unfoldable pub round : Arrival → Chat R → Chat R
  unfolding handle start_handoff hand_over
  round (arrived wake) c = handle wake c
  round timed_out c =
      if is_compacting c.recovery then publish (start_handoff o (hand_over o) c) else c

  -- The loop of `run`, until it is stopped, every sender is gone, or the disk fails.
  unfoldable pub run_loop : List Arrival → Chat R → Chat R
  unfolding round shutdown reject_waiters
  run_loop [] c = publish (shutdown o [] c)
  run_loop (arrival ∷ arrivals) c = elim (stops arrival) [
    | true ↦ publish (shutdown o (wakes_of arrivals) c)
    | false ↦
        let d = round arrival c in
        elim d.terminal [
          | true ↦ reject_waiters "session persistence failed" (wakes_of arrivals) d
          | false ↦ run_loop arrivals d
        ]
  ]

  abbrev pub not_started : String → List Arrival → Chat R → Chat R
  not_started error arrivals c =
      let d = record c { startup_error = none } in
      reject_waiters "session persistence failed" (wakes_of arrivals)
        (publish (persistence_failed o "opening durable session state" error d))

  -- `run`, which the launch that it asks itself for reaches as one of the arrivals.
  unfoldable pub run : List Arrival → Chat R → Chat R
  unfolding run_loop persistence_failed reject_waiters
  run arrivals c = elim c.startup_error [
    | some error ↦ not_started error arrivals c
    | none ↦ run_loop arrivals (show waiting c)
  ]
