-- ===== src/Chat/Recovering/Stages.antt =====
-- crates/omni-core/src/chat.rs: the stages that a recovery goes through (`recovery_ended`).
use silicon_omni.Prelude.{
  String, Bool, true, false, not, ◌||◌, Option, none, some, [], ◌∷◌, str_eq, if◌then◌else◌, is_some,
  ◌>>=◌,
}
use silicon_omni.Json.{get, as_bool, as_str}
use silicon_omni.Events.{Event}
use silicon_omni.Events.Kind
use silicon_omni.Chat.{
  Chat, Outside, Recovery, RecoveryStage, compacting, retrying, handoff, continuing, resuming,
}
use silicon_omni.Chat.Recording.{then_do, alive}
use silicon_omni.Chat.Choosing.{is_true}
use silicon_omni.Chat.Failing.{attempt}
use silicon_omni.Chat.Turns.{dispatch_queued, finish_turn}
use silicon_omni.Chat.Recovering.{
  at_stage, save_recovery, recovery_failed, recovery_message, start_handoff,
}

-- What a failed or interrupted turn says of itself.
abbrev pub says_failed : Event → Bool
says_failed event =
    is_true (get "interrupted" event.extra >>= as_bool)
    || elim (get "status" event.extra >>= as_str) [
      | none ↦ false
      | some status ↦ str_eq status "failed" || str_eq status "interrupted"
    ]

abbrev pub is_context : Option String → Bool
is_context none = false
is_context (some kind) = str_eq kind Kind.context_limit

abbrev pub why_of : Option String → String
why_of none = "recovery turn did not complete"
why_of (some kind) = kind

module _ {R : Type 0} (o : Outside R) where
  module _ (flush : Chat R → Chat R) where
    -- After the compaction: what was refused or lost is sent again.
    unfoldable pub after_compaction : Recovery → Chat R → Chat R
    unfolding recovery_message save_recovery dispatch_queued finish_turn
    after_compaction r c =
        if not (str_eq r.retry "")
        then recovery_message o flush retrying r.retry false c
        else elim c.outbox [
          | [] ↦ then_do (save_recovery o none none none c) (finish_turn o flush)
          | message ∷ messages ↦
              then_do (save_recovery o (some (at_stage retrying message.id "")) none none c)
                (dispatch_queued o flush)
        ]

    unfoldable pub come_back : Chat R → Chat R
    unfolding attempt finish_turn
    come_back c =
        if alive o c
        then finish_turn o flush c
        else then_do (attempt o "resuming recovered session" c) (finish_turn o flush)

    unfoldable pub recovery_over : Chat R → Chat R
    unfolding save_recovery come_back
    recovery_over c = then_do (save_recovery o none none none c) come_back

    -- A queued message gets one attempt in the clean session.
    unfoldable pub next_queued : Recovery → Chat R → Chat R
    unfolding save_recovery dispatch_queued recovery_over
    next_queued r c = elim c.outbox [
      | [] ↦ recovery_over c
      | message ∷ messages ↦
          then_do
            (save_recovery o (some (record r { stage = resuming; message_id = message.id })) none
              none c)
            (dispatch_queued o flush)
    ]

    -- The stages, after a turn with no failure.
    unfoldable pub stage_done : Recovery → RecoveryStage → Chat R → Chat R
    unfolding after_compaction recovery_message next_queued recovery_over
    stage_done r compacting c = after_compaction r c
    stage_done r retrying c = recovery_over c
    stage_done r handoff c =
        recovery_message o flush continuing c.context_recovery.new_session_message true c
    stage_done r continuing c = next_queued r c
    stage_done r resuming c = next_queued r c

    unfoldable pub stage_failed : RecoveryStage → Option String → Chat R → Chat R
    unfolding start_handoff recovery_failed
    stage_failed compacting why c = start_handoff o flush c
    stage_failed retrying why c =
        if is_context why then start_handoff o flush c else recovery_failed o (why_of why) c
    stage_failed _ why c = recovery_failed o (why_of why) c

    -- The end of a turn of the recovery.
    unfoldable pub recovery_ended : Event → Recovery → Chat R → Chat R
    unfolding stage_done stage_failed
    recovery_ended event r c =
        let d = record c {
          in_turn = false;
          turn_recorded = false;
          unanswered = [];
          turn_failed = none;
        } in
        if is_some c.turn_failed || says_failed event
        then stage_failed r.stage c.turn_failed d
        else stage_done r r.stage d
