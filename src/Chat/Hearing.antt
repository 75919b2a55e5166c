-- ===== src/Chat/Hearing.antt =====
-- crates/omni-core/src/chat.rs: what a provider says, and what the conductor does about it.
use Prim.Native.String.{◌++◌ as concat}
use silicon_omni.Prelude.{
  ℕ, String, ℤ, pos, succ, pred_ℤ, ltb_ℤ, leb_ℤ, Bool, true, false, not, ◌&&◌, ◌||◌, ◌==◌, Option,
  none, some, List, [], ◌∷◌, str_eq, if◌then◌else◌, ◌>>=◌, is_some,
}
use silicon_omni.Json.{obj, str, bool, get, remove, as_str}
use silicon_omni.Events.{Event, is, is_history, contains, with_extra}
use silicon_omni.Events.EventType
use silicon_omni.Events.Kind
use silicon_omni.Events.Classify.{codes, classify}
use silicon_omni.Meta.Load.{PendingMessage}
use silicon_omni.Runner.{generation_key, confirmed_type, confirmed_as}
use silicon_omni.Chat.{Chat, Outside, Recovery, busy}
use silicon_omni.Chat.Stored.{as_u64}
use silicon_omni.Chat.Recording.{then_do, record_event, show}
use silicon_omni.Chat.Failing.{failed, unauthenticated}
use silicon_omni.Chat.Turns.{complete_message, remember_message, drop_first, finish_turn}
use silicon_omni.Chat.Recovering.{is_compacting, recovery_failed, recover_context, start_handoff}
use silicon_omni.Chat.Recovering.Stages.{recovery_ended}
use silicon_omni.Chat.Recovering.Resume.{model_events, turn_failures, will_retry}
use silicon_omni.Chat.Handing.{in_turn_of, hand_over}

abbrev pub epoch_key : String
epoch_key = "_omni_runner_epoch"

-- `ENDS_THE_TURN` and `ONCE`.
abbrev pub ends_the_turn : List String
ends_the_turn = Kind.limit ∷ Kind.unavailable ∷ []

abbrev pub once : List String
once = "unsupported" ∷ "approximated" ∷ []

abbrev pub epoch_of : Event → Option ℕ
epoch_of event = get epoch_key event.extra >>= as_u64

abbrev pub generation_of : Event → Option ℕ
generation_of event = get generation_key event.extra >>= as_u64

abbrev pub turn_of : ℕ → List (ℕ × ℤ) → Option ℤ
turn_of epoch [] = none
turn_of epoch ((other, turn) ∷ turns) =
    let rest = turn_of epoch turns in if other == epoch then some turn else rest

-- `self.runner_epoch != Some(epoch)`
abbrev pub is_other : Option ℕ → ℕ → Bool
is_other none epoch = true
is_other (some current) epoch = not (current == epoch)

abbrev pub differ : Option ℕ → Option ℕ → Bool
differ (some event) (some current) = not (event == current)
differ _ _ = false

abbrev pub lower_ceiling : Option ℤ → ℤ → ℤ
lower_ceiling none ceiling = ceiling
lower_ceiling (some existing) ceiling = if leb_ℤ existing ceiling then existing else ceiling

abbrev pub without_provenance : Event → Event
without_provenance event = record event {
  extra = remove epoch_key (remove generation_key event.extra);
}

abbrev pub marked_late : Bool → Event → Event
marked_late late event = if late then with_extra "late" (bool true) event else event

module _ {R : Type 0} where
  abbrev pub with_origin : Chat R → Event → Event
  with_origin c event =
      if ltb_ℤ event.turn (pos 0)
      then elim (epoch_of event >>= λ epoch. turn_of epoch c.epoch_turns) [
        | none ↦ event
        | some turn ↦ record event { turn = turn }
      ]
      else event

  abbrev pub hold_back : Event → Chat R → Chat R
  hold_back event c =
      if is_history event && is_some c.runner
      then record c { sync_ceiling = some (lower_ceiling c.sync_ceiling (pred_ℤ event.seq)) }
      else c

  abbrev pub stopped_end : Event → Chat R → Chat R
  stopped_end event c =
      if is EventType.end event
      then record c { in_turn = false; turn_recorded = false; next_turns = 0 }
      else c

  abbrev pub retired : PendingMessage → Event → Chat R → Chat R
  retired message event c =
      show busy
        (record (remember_message message.text (is EventType.start event)
          (record c { awaiting = drop_first c.awaiting })) { turn_recorded = true; in_turn = true })

module _ {R : Type 0} (o : Outside R) where
  -- Context exhaustion is recognised also where an adapter called it something else.
  abbrev pub relabelled : Event → Event
  relabelled event =
      let said = concat event.error (concat " " (o.print (obj event.extra))) in
      if is EventType.error event
        && str_eq (classify o.lower o.alphanumeric (codes said)) Kind.context_limit
      then record event { kind = Kind.context_limit }
      else event

  abbrev pub from_replaced : Chat R → Event → Bool
  from_replaced c event = elim (epoch_of event) [
    | none ↦ false
    | some epoch ↦ is_other c.runner_epoch epoch
  ]

  -- Whether an event came from a provider that the chat has moved on from.
  unfoldable pub straggler : Chat R → Event → Bool
  straggler c event = from_replaced c event || elim c.runner [
    | none ↦ false
    | some r ↦
        (not (str_eq event.provider "") && not (str_eq event.provider (o.runners.name r)))
        || differ (generation_of event) (o.runners.generation c.calls r)
  ]

  abbrev pub said_by : Event → String
  said_by event =
      concat event.text
        (concat "\u{1}" (concat event.provider (concat "\u{1}" (o.print (obj event.extra)))))

  -- Whether this provider has already said that it cannot do this.
  unfoldable pub repeated : Event → Chat R → Chat R × Bool
  repeated event c =
      if not (is EventType.config event) || not (contains once event.text)
      then (c, false)
      else if contains c.announced (said_by event)
      then (c, true)
      else (record c { announced = said_by event ∷ c.announced }, false)

  -- The durable event that an acknowledgement stands for.
  abbrev pub confirmed_event : PendingMessage → String → Event → Chat R → Event
  confirmed_event message opening event c =
      let named =
        with_extra "message_id" (str message.id)
          (record event { event_type = opening; extra = remove confirmed_as event.extra }) in
      if str_eq opening EventType.start
      then record named { turn = succ c.turn }
      else with_extra "landed" (str "same_turn") named

  unfoldable pub confirmed_by : PendingMessage → Chat R × Option Event → Chat R
  unfolding complete_message
  confirmed_by message (c, none) = c
  confirmed_by message (c, some event) =
      then_do (complete_message o message.id (in_turn_of event c)) (retired message event)

  unfoldable pub open_confirmed : PendingMessage → Event → String → Chat R → Chat R
  unfolding confirmed_by with_extra
  open_confirmed message event opening c =
      if str_eq opening EventType.start || str_eq opening EventType.injected
      then confirmed_by message (record_event o (confirmed_event message opening event c) c)
      else c

  unfoldable pub confirm_front : PendingMessage → Event → Chat R → Chat R
  unfolding open_confirmed
  confirm_front message event c =
      if str_eq message.text event.text
      then elim (get confirmed_as event.extra >>= as_str) [
        | none ↦ c
        | some opening ↦ open_confirmed message event opening c
      ]
      else c

  -- An acknowledgement of the oldest write that waits for one.
  unfoldable pub confirm : Event → Chat R → Chat R
  unfolding confirm_front
  confirm event c = elim c.awaiting [ [] ↦ c | message ∷ messages ↦ confirm_front message event c ]

  unfoldable pub over : Event → Option String → Chat R → Chat R
  unfolding recover_context failed finish_turn
  over event none c = finish_turn o (hand_over o) c
  over event (some kind) c =
      if str_eq kind Kind.context_limit
      then recover_context o (hand_over o) true c
      else if c.autoremove
      then failed o (hand_over o) event.provider kind c
      else finish_turn o (hand_over o) c

  -- The end of a native turn.
  unfoldable pub turn_ended : Event → Chat R → Chat R
  unfolding recovery_ended over
  turn_ended event c =
      let d = record c { in_turn = false; turn_recorded = false } in
      elim d.recovery [
        | some r ↦ recovery_ended o (hand_over o) event r d
        | none ↦ over event d.turn_failed (record d { turn_failed = none })
      ]

  unfoldable pub recovery_error : Event → Recovery → Chat R → Chat R
  unfolding start_handoff recovery_failed
  recovery_error event r c =
      let d = record c { turn_failed = some event.kind } in
      if not (contains turn_failures event.kind)
      then c
      else if str_eq event.kind Kind.crash || str_eq event.kind Kind.auth
      then (if is_compacting (some r)
          then start_handoff o (hand_over o) d
          else recovery_failed o event.error d)
      else d

  unfoldable pub plain_error : Event → Chat R → Chat R
  unfolding failed unauthenticated
  plain_error event c =
      if str_eq event.kind Kind.context_limit
      then record c { turn_failed = some Kind.context_limit }
      else if str_eq event.kind Kind.auth
      then unauthenticated o (hand_over o) event c
      else if str_eq event.kind Kind.crash
      then failed o (hand_over o) event.provider Kind.crash c
      else if contains ends_the_turn event.kind && c.in_turn
      then record c { turn_failed = some event.kind }
      else c

  unfoldable pub errored : Event → Chat R → Chat R
  unfolding recovery_error plain_error
  errored event c = elim c.recovery [
    | some r ↦ recovery_error event r c
    | none ↦ plain_error event c
  ]

  -- What follows from an event of the runner that is up.
  unfoldable pub react : Event → Chat R → Chat R
  unfolding turn_ended errored
  react event c =
      if contains model_events event.event_type
      then show busy (record c { turn_failed = none })
      else if is EventType.end event
      then turn_ended event c
      else if is EventType.error event && not (will_retry event)
      then errored event c
      else c

  unfoldable pub heard : Bool → Chat R × Option Event → Chat R
  unfolding react
  heard late (c, none) = c
  heard late (c, some event) =
      if late then hold_back event c else if c.stopping then stopped_end event c else react event c

  unfoldable pub said : Bool → Event → Chat R × Bool → Chat R
  unfolding heard confirm
  said late event (c, true) = c
  said late event (c, false) =
      if is confirmed_type event
      then (if late then c else confirm event c)
      else heard late (record_event o event c)

  unfoldable pub absorb : Event → Chat R → Chat R
  unfolding said straggler repeated classify with_extra
  absorb event c =
      let placed = with_origin c (relabelled event) in
      let late = straggler c placed in
      let public = marked_late late (without_provenance placed) in
      said late public (repeated public c)
