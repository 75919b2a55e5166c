-- ===== src/Chat/Watch/Recoveries.antt =====
-- Invariants of the conductor, where a full native session is recovered.
use silicon_omni.Prelude.{
  ◌+◌, String, ℤ, ◌≡◌, subst, Bool, true, false, not, ◌||◌, Option, none, some, [], str_eq, arith,
  if-cases, option-cases, list-cases, is_some,
}
use silicon_omni.Result.{Result, ok, err}
use silicon_omni.Events.{Event}
use silicon_omni.Meta.Load.{PendingMessage}
use silicon_omni.Chat.{
  Chat, Outside, Recovery, RecoveryStage, compacting, retrying, handoff, continuing, resuming, busy,
}
use silicon_omni.Chat.Recording.{recorded, called, show, alive, refresh, stop_all_parked}
use silicon_omni.Chat.Recovering.{
  gave_up, superseded, push_front, retain_other, queued_as, at_stage, retry_of, save_recovery,
  recovery_failed, put_down_all, since_now, recovery_message, start_handoff, handoff_text,
  compacted, compact, recover_context, after_save,
}
use silicon_omni.Chat.Recovering.Stages.{
  is_context, says_failed, after_compaction, come_back, recovery_over, next_queued, stage_done,
  stage_failed, recovery_ended,
}
use silicon_omni.Chat.Failing.{blamed}
use silicon_omni.Chat.Watch.{Same, Watch}
use silicon_omni.Chat.Watch.Rules.{
  same, same_called, same_stop_parked, Kept, Good, Kept-same, then_do-Kept, then_ok-Good,
  guarded_then, recorded-Good, good, Good-Kept,
}
use silicon_omni.Chat.Watch.Failures.{attempt-Good, close_turn-Good}
use silicon_omni.Chat.Watch.Turns.{dispatch_queued-Kept, finish_turn-Kept}

module _ {R : Type 0} (o : Outside R) (w : Watch o) where
  live : (c d : Chat R) → Same c d → w.Live c → w.Live d
  live c d = w.live_same c d

  save_recovery-Good :
      (recovery : Option Recovery) (since : Option ℤ) (message : Option PendingMessage) (c : Chat R)
      → ((m : PendingMessage) → message ≡ some m → w.Fresh c m.id)
      → w.Live c
      → Good o w (save_recovery o recovery since message c)
  unfolding save_recovery
  save_recovery-Good recovery since message c fresh h =
      let old = superseded recovery c.recovery in
      guarded_then o w _ _ _ (w.recovers _ since message old c h fresh) (λ d k. good o w _ (
        live
          (record d {
            outbox = push_front message (retain_other old d.outbox);
            awaiting = retain_other old d.awaiting;
          })
          (after_save recovery since message old d) (same (after_save recovery since message old d))
          k))

  -- A recovery that is saved without a message.
  pub saved_alone-Good :
      (recovery : Option Recovery) (c : Chat R)
      → w.Live c
      → Good o w (save_recovery o recovery none none c)
  saved_alone-Good recovery c h =
      save_recovery-Good recovery none none c (λ m e. absurd (ground (arith, e))) h

  pub recovery_failed-Kept :
      (why : String) (c : Chat R) → w.Live c → Kept o w (recovery_failed o why c)
  unfolding recovery_failed
  recovery_failed-Kept why c h =
      then_do-Kept o w _ _
        (then_ok-Good o w _ _ (close_turn-Good o w _ _ false c h) (saved_alone-Good none))
        (λ d k.
          let e = (recorded o (gave_up o (blamed o "" c) why d) d).0 in
          Kept-same o w e (refresh o e) (same e) (Good-Kept o w _ (recorded-Good o w _ d k)))

  module _ (flush : Chat R → Chat R) (again : (d : Chat R) → w.Live d → Kept o w (flush d)) where
    put_down_all-Good :
        (fresh : Bool) (c : Chat R) → w.Live c → Good o w (put_down_all o flush fresh c)
    put_down_all-Good false c h = good o w c h
    put_down_all-Good true c h = then_ok-Good o w _ _ (close_turn-Good o w _ _ false c h) (λ d k.
        good o w _
          (live d (stop_all_parked o d) (same_stop_parked o d.parked (record d { parked = [] })) k))

    pub recovery_message-Kept :
        (stage : RecoveryStage) (text : String) (fresh : Bool) (c : Chat R)
        → w.Live c
        → Kept o w (recovery_message o flush stage text fresh c)
    unfolding recovery_message
    recovery_message-Kept stage text fresh c h =
        then_do-Kept o w _ _ (put_down_all-Good fresh c h) (λ d k.
          let id = o.fresh d.calls 0 in
          then_do-Kept o w _ _
            (save_recovery-Good (some (at_stage stage id (retry_of stage text)))
              (since_now o flush fresh d) (some (queued_as id text)) (called d) (is_fresh text d k)
              (live d (called d) (same_called d) k))
            (λ e ke.
              let f = show busy (record e { turn_failed = none }) in
              dispatch_queued-Kept o w flush again f (live e f (same e) ke)))
      where
        is_fresh :
            (text : String) (d : Chat R)
            → w.Live d
            → (m : PendingMessage) → some (queued_as (o.fresh d.calls 0) text) ≡ some m
            → w.Fresh (called d) m.id
        is_fresh text d k m e =
            let same_id : o.fresh d.calls 0 ≡ m.id = ground (arith, e) in
            subst (λ i. w.Fresh (called d) i) same_id (w.fresh_id d k)

    pub start_handoff-Kept : (c : Chat R) → w.Live c → Kept o w (start_handoff o flush c)
    unfolding start_handoff
    start_handoff-Kept c h = recovery_message-Kept handoff (handoff_text o flush c) true c h

    compacted-Kept :
        (p : R × Result String Bool) (c : Chat R) → w.Live c → Kept o w (compacted o flush p c)
    unfolding compacted
    compacted-Kept (r, ok true) c h =
        let d = show busy (record (called (record c { runner = some r })) {
          compaction_deadline = some (o.instant (called c).calls + 180);
          in_turn = true;
        }) in
        Good-Kept o w _ (recorded-Good o w _ d (live c d (same_called c) h))
    compacted-Kept (r, ok false) c h =
        let d = called (record c { runner = some r }) in
        start_handoff-Kept d (live c d (same_called c) h)
    compacted-Kept (r, err why) c h =
        let d = called (record c { runner = some r }) in
        start_handoff-Kept d (live c d (same_called c) h)

    compact-Kept : (c : Chat R) → w.Live c → Kept o w (compact o flush c)
    unfolding compact
    compact-Kept c h =
        option-cases (Kept o w) c.runner (λ e. start_handoff-Kept c h)
          (λ r e. compacted-Kept (o.runners.compact c.calls r) c h)

    pub recover_context-Kept :
        (told : Bool) (c : Chat R) → w.Live c → Kept o w (recover_context o flush told c)
    unfolding recover_context
    recover_context-Kept told c h =
        then_do-Kept o w _ _ (saved_alone-Good _ c h)
          (λ d k. let e = record d { turn_failed = none } in compact-Kept e (live d e (same d) k))

    after_compaction-Kept :
        (r : Recovery) (c : Chat R) → w.Live c → Kept o w (after_compaction o flush r c)
    unfolding after_compaction
    after_compaction-Kept r c h =
        if-cases (Kept o w) (not (str_eq r.retry ""))
          (λ e. recovery_message-Kept retrying r.retry false c h)
          (λ e.
            list-cases (Kept o w) c.outbox
              (λ f.
                then_do-Kept o w _ _ (saved_alone-Good none c h) (finish_turn-Kept o w flush again))
              (λ m ms f.
                then_do-Kept o w _ _ (saved_alone-Good _ c h)
                  (dispatch_queued-Kept o w flush again)))

    recovery_over-Kept : (c : Chat R) → w.Live c → Kept o w (recovery_over o flush c)
    unfolding recovery_over come_back
    recovery_over-Kept c h = then_do-Kept o w _ _ (saved_alone-Good none c h) (λ d k.
        if-cases (Kept o w) (alive o d) (λ e. finish_turn-Kept o w flush again d k)
          (λ e. then_do-Kept o w _ _ (attempt-Good o w _ d k) (finish_turn-Kept o w flush again)))

    next_queued-Kept : (r : Recovery) (c : Chat R) → w.Live c → Kept o w (next_queued o flush r c)
    unfolding next_queued
    next_queued-Kept r c h =
        list-cases (Kept o w) c.outbox (λ e. recovery_over-Kept c h)
          (λ m ms e.
            then_do-Kept o w _ _ (saved_alone-Good _ c h) (dispatch_queued-Kept o w flush again))

    stage_done-Kept :
        (r : Recovery) (stage : RecoveryStage) (c : Chat R)
        → w.Live c
        → Kept o w (stage_done o flush r stage c)
    unfolding stage_done
    stage_done-Kept r compacting c h = after_compaction-Kept r c h
    stage_done-Kept r retrying c h = recovery_over-Kept c h
    stage_done-Kept r handoff c h = recovery_message-Kept continuing _ true c h
    stage_done-Kept r continuing c h = next_queued-Kept r c h
    stage_done-Kept r resuming c h = next_queued-Kept r c h

    stage_failed-Kept :
        (stage : RecoveryStage) (why : Option String) (c : Chat R)
        → w.Live c
        → Kept o w (stage_failed o flush stage why c)
    unfolding stage_failed
    stage_failed-Kept compacting why c h = start_handoff-Kept c h
    stage_failed-Kept retrying why c h =
        if-cases (Kept o w) (is_context why) (λ e. start_handoff-Kept c h)
          (λ e. recovery_failed-Kept _ c h)
    stage_failed-Kept handoff why c h = recovery_failed-Kept _ c h
    stage_failed-Kept continuing why c h = recovery_failed-Kept _ c h
    stage_failed-Kept resuming why c h = recovery_failed-Kept _ c h

    pub recovery_ended-Kept :
        (event : Event) (r : Recovery) (c : Chat R)
        → w.Live c
        → Kept o w (recovery_ended o flush event r c)
    unfolding recovery_ended
    recovery_ended-Kept event r c h =
        let d = record c {
          in_turn = false;
          turn_recorded = false;
          unanswered = [];
          turn_failed = none;
        } in
        let k : w.Live d = live c d (same c) h in
        if-cases (Kept o w) (is_some c.turn_failed || says_failed event)
          (λ e. stage_failed-Kept r.stage c.turn_failed d k) (λ e. stage_done-Kept r r.stage d k)
