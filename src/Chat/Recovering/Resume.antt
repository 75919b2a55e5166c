-- ===== src/Chat/Recovering/Resume.antt =====
-- crates/omni-core/src/chat.rs: a recovery that the daemon stopped in, taken up again.
use silicon_omni.Prelude.{
  String, ltb_ℤ, eqb_ℤ, Bool, false, not, ◌&&◌, Option, none, some, List, [], ◌∷◌, any, select,
  str_eq, if◌then◌else◌, ◌>>=◌,
}
use silicon_omni.Json.{get, as_bool, as_str}
use silicon_omni.Events.{Event, is, contains}
use silicon_omni.Events.EventType
use silicon_omni.Events.Kind
use silicon_omni.Meta.Load.{PendingMessage}
use silicon_omni.Store.{events_since}
use silicon_omni.Chat.{Chat, Outside, Recovery}
use silicon_omni.Chat.Recording.{then_do}
use silicon_omni.Chat.Choosing.{is_true, is_late}
use silicon_omni.Chat.Failing.{attempt}
use silicon_omni.Chat.Recovering.{is_compacting, start_handoff}
use silicon_omni.Chat.Recovering.Stages.{recovery_ended}

abbrev pub model_events : List String
model_events =
    EventType.text ∷ EventType.thinking ∷ EventType.tool_call ∷ EventType.tool_result ∷ []

-- Errors that fail a turn of a recovery.
abbrev pub turn_failures : List String
turn_failures = Kind.context_limit ∷ Kind.crash ∷ Kind.auth ∷ Kind.limit ∷ Kind.unavailable ∷ []

abbrev pub will_retry : Event → Bool
will_retry event = is_true (get "willRetry" event.extra >>= as_bool)

abbrev pub find_event : (Event → Bool) → List Event → Option Event
find_event test [] = none
find_event test (event ∷ events) =
    let rest = find_event test events in if test event then some event else rest

abbrev pub opens_with : String → Event → Bool
opens_with id event = elim (get "message_id" event.extra >>= as_str) [
  | none ↦ false
  | some other ↦ str_eq other id
]

-- An event of the same turn after the opening, from a runner that had not been replaced.
abbrev pub follows : Event → Event → Bool
follows opening event =
    (ltb_ℤ opening.seq event.seq && eqb_ℤ event.turn opening.turn) && not (is_late event)

abbrev pub failure_step : Option String → Event → Option String
failure_step failure event =
    if (is EventType.error event && contains turn_failures event.kind) && not (will_retry event)
    then some event.kind
    else if contains model_events event.event_type
    then none
    else failure

-- The failure that the events of a turn leave: the last one that the model did not get past.
unfoldable pub failure_after : Option String → List Event → Option String
failure_after failure [] = failure
failure_after failure (event ∷ events) = failure_after (failure_step failure event) events

module _ {R : Type 0} (o : Outside R) (flush : Chat R → Chat R) where
  -- The message was delivered: what its turn came to decides.
  unfoldable pub turn_came_to : Recovery → Event → List Event → Event → Chat R → Chat R
  unfolding start_handoff recovery_ended failure_after
  turn_came_to r opening events done c =
      let between = select (λ event. follows opening event && ltb_ℤ event.seq done.seq) events in
      if is_true (get "interrupted" done.extra >>= as_bool)
      then start_handoff o flush c
      else recovery_ended o flush done r (record c { turn_failed = failure_after none between })

  unfoldable pub delivered : Recovery → List Event → Event → Chat R → Chat R
  unfolding start_handoff turn_came_to
  delivered r events opening c =
      elim (find_event (λ event. follows opening event && is EventType.end event) events) [
        | none ↦ start_handoff o flush c
        | some done ↦ turn_came_to r opening events done c
      ]

  unfoldable pub send_again : Chat R → Chat R
  unfolding attempt
  send_again c = then_do (attempt o "resuming context recovery" c) flush

  unfoldable pub delivered_or_sent : Recovery → Chat R → Chat R
  unfolding delivered send_again
  delivered_or_sent r c =
      let events = events_since c.history_start c.store in
      elim (find_event (opens_with r.message_id) events) [
        | none ↦ send_again c
        | some opening ↦ delivered r events opening c
      ]

  -- A durable handoff must still rotate where the daemon stopped after its end.
  unfoldable pub resume_recovery : Recovery → Chat R → Chat R
  unfolding start_handoff delivered_or_sent send_again
  resume_recovery r c =
      if is_compacting (some r)
      then start_handoff o flush c
      else if any (λ (message : PendingMessage). str_eq message.id r.message_id) c.outbox
      then send_again c
      else delivered_or_sent r c
