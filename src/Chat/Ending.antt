-- ===== src/Chat/Ending.antt =====
-- crates/omni-core/src/chat.rs: the end of a session. The inbox is the list of what is queued.
use silicon_omni.Prelude.{
  ℕ, String, Bool, true, false, ◌&&◌, none, some, List, [], ◌∷◌, ◌++◌, str_eq, if◌then◌else◌,
}
use silicon_omni.Result.{Result, err}
use silicon_omni.Json.{bool}
use silicon_omni.Events.{Event, new, config, from, about, with_extra}
use silicon_omni.Events.EventType
use silicon_omni.Chat.{Chat, Outside, Change, stopped}
use silicon_omni.Chat.Recording.{
  then_do, then_ok, kept, recorded, stop, stop_all_parked, show, called, provider_of, model_of,
}
use silicon_omni.Chat.Parking.{bound, or_stop}
use silicon_omni.Chat.Failing.{requeue}
use silicon_omni.Chat.Hearing.{absorb}

-- What the conductor is asked to do; a number names the acknowledgement that is waited for.
pub data Wake : Type 0 where
  wake_launch : Wake
  launch_ready : ℕ → Wake
  send : String → Wake
  send_durable : String → ℕ → Wake
  heard : Event → Wake
  set : Change → Wake
  configure : List Change → ℕ → Wake
  wake_stop : Wake

module _ {R : Type 0} where
  abbrev pub answer : ℕ → Result String (Unit {0}) → Chat R → Chat R
  answer ack result c = record c { answered = c.answered ++ ((ack, result) ∷ []) }

  abbrev pub reject : String → Wake → Chat R → Chat R
  reject why (send_durable text ack) c = answer ack (err why) c
  reject why (configure changes ack) c = answer ack (err why) c
  reject why (launch_ready ack) c = answer ack (err why) c
  reject why _ c = c

  -- Every caller that waits is released.
  unfoldable pub reject_waiters : String → List Wake → Chat R → Chat R
  reject_waiters why [] c = c
  reject_waiters why (wake ∷ wakes) c = reject_waiters why wakes (reject why wake c)

  abbrev pub at_rest : Chat R → Chat R
  at_rest c = record c { in_turn = false; turn_recorded = false; next_turns = 0 }

module _ {R : Type 0} (o : Outside R) where
  -- One message of the loop of `drain`.
  unfoldable pub drain_one : Wake → Chat R → Chat R
  unfolding absorb
  drain_one (heard event) c = absorb o event c
  drain_one (send_durable text ack) c =
      answer ack (err "session stopped before accepting the message") c
  drain_one (configure changes ack) c = answer ack (err "session stopped before saving settings") c
  drain_one (launch_ready ack) c = answer ack (err "session stopped before provider launch") c
  drain_one _ c = c

  -- Whatever the provider said on its way out still belongs in the log. Once the disk has failed
  -- the rest is left in the inbox.
  unfoldable pub drain : List Wake → Chat R → Chat R × Bool
  unfolding drain_one
  drain [] c = (c, true)
  drain (wake ∷ wakes) c =
      let d = drain_one wake c in if d.terminal then (d, false) else drain wakes d

  unfoldable pub bind_last : R → Chat R → Chat R × Bool
  unfolding bound
  bind_last r c =
      let id = o.runners.native_id c.calls r in
      if str_eq id ""
      then (stop o r c, true)
      else then_ok
          (or_stop o "saving a provider session id" r (kept (bound o (o.runners.name r) id c) c))
          (λ d. (stop o r d, true))

  -- The runner is asked to stop, and its native session is kept.
  unfoldable pub put_down_runner : Chat R → Chat R × Bool
  unfolding bind_last
  put_down_runner c = elim c.runner [
    | none ↦ (c, true)
    | some r ↦
        let d = record c { runner = none } in
        if c.in_turn then bind_last (o.runners.interrupt d.calls r) (called d) else bind_last r d
  ]

  abbrev pub last_end : Chat R → Event
  last_end c = with_extra "stopped" (bool true) (
      with_extra "interrupted" (bool true) (
        about (model_of c.current)
          (from (provider_of c.current) (new (o.now c.calls) EventType.end))))

  abbrev pub record_last_end : Chat R → Chat R × Bool
  record_last_end c = if c.in_turn && c.turn_recorded then recorded o (last_end c) c else (c, true)

  unfoldable pub record_stop : Chat R → Chat R
  unfolding config
  record_stop c = then_do (recorded o (config (o.now c.calls) "stop") c) (show stopped)

  unfoldable pub shutdown : List Wake → Chat R → Chat R
  unfolding put_down_runner drain record_stop new from about with_extra
  shutdown inbox c =
      if c.terminal
      then c
      else then_do (put_down_runner (record c { stopping = true })) (λ d.
        then_do (drain inbox (stop_all_parked o d)) (λ e.
          then_do (record_last_end (record e { runner_epoch = none }))
            (λ f. record_stop (requeue (at_rest f)))))
