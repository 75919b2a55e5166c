-- ===== src/Chat/Handing.antt =====
-- crates/omni-core/src/chat.rs: handing queued messages over to the runner (`flush`).
-- A refused message leads to the handlers of Failing and Recovering, which hand over again. This
-- recursion runs on fuel.
use Prim.Native.String.{◌++◌ as concat}
use silicon_omni.Prelude.{
  ℕ, zero, suc, String, pos, succ, max_ℤ, ◌+◌, Bool, true, false, not, ◌&&◌, ◌||◌, Option, none,
  some, List, [], ◌∷◌, ◌++◌, length, str_eq, if◌then◌else◌,
}
use silicon_omni.Result.{Result, ok, err}
use silicon_omni.Json.{str}
use silicon_omni.Events.{Event, new, saying, from, with_extra, failure}
use silicon_omni.Events.EventType
use silicon_omni.Events.Kind
use silicon_omni.Events.Classify.{codes, classify}
use silicon_omni.Meta.Load.{PendingMessage}
use silicon_omni.Choose.Asking.{decimal}
use silicon_omni.Runner.{Delivery, immediate, echoed, next_turn}
use silicon_omni.Chat.{Chat, Outside, Recovery, busy}
use silicon_omni.Chat.Recording.{
  then_do, then_ok, recorded, record_event, running, alive, show, called, blocked,
}
use silicon_omni.Chat.Choosing.{stale}
use silicon_omni.Chat.Launching.{remember_runner_turn}
use silicon_omni.Chat.Failing.{failed, unauthenticated}
use silicon_omni.Chat.Turns.{complete_message, remember_message, drop_first}
use silicon_omni.Chat.Recovering.{is_compacting, recovery_failed, recover_context}
use silicon_omni.Chat.Recovering.Stages.{recovery_ended}

-- Only the message of a recovery goes out while it lasts, and none during the compaction.
abbrev pub held : Option Recovery → PendingMessage → Bool
held none message = false
held (some r) message = is_compacting (some r) || not (str_eq r.message_id message.id)

abbrev pub lands : Delivery → String
lands immediate = "same_turn"
lands next_turn = "next_turn"
lands echoed = "same_turn"  -- not reached: such a message waits for its echo

abbrev pub is_next_turn : Delivery → Bool
is_next_turn next_turn = true
is_next_turn _ = false

module _ {R : Type 0} where
  -- The message waits for its echo.
  abbrev pub await : PendingMessage → Chat R → Chat R
  await message c = show busy (record c {
    awaiting = c.awaiting ++ (message ∷ []);
    outbox = drop_first c.outbox;
    in_turn = true;
  })

  abbrev pub retired : PendingMessage → Bool → Chat R → Chat R
  retired message later c =
      let d = remember_message message.text later c in
      show busy (record d { outbox = drop_first d.outbox; turn_recorded = true; in_turn = true })

  abbrev pub in_turn_of : Event → Chat R → Chat R
  in_turn_of event c = remember_runner_turn (record c { turn = max_ℤ c.turn event.turn })

  abbrev pub count_later : Bool → Chat R → Chat R
  count_later later c = if later then record c { next_turns = suc c.next_turns } else c

module _ {R : Type 0} (o : Outside R) where
  abbrev pub kind_of : String → String
  kind_of why = classify o.lower o.alphanumeric (codes why)

  abbrev pub carries : PendingMessage → String → Chat R → Event
  carries message event_type c =
      with_extra "message_id" (str message.id)
        (saying message.text (new (o.now c.calls) event_type))

  -- The durable event that opens a turn, or lands in one.
  abbrev pub opening : PendingMessage → Delivery → Chat R → Event
  opening message delivery c =
      if c.in_turn
      then with_extra "landed" (str (lands delivery)) (carries message EventType.injected c)
      else record (carries message EventType.start c) { turn = succ c.turn }

  unfoldable pub took : PendingMessage → Bool → Chat R × Option Event → Chat R × Bool
  unfolding complete_message
  took message later (c, none) = (c, false)
  took message later (c, some event) =
      then_ok (complete_message o message.id (count_later later (in_turn_of event c)))
        (λ d. (retired message later d, true))

  -- The runner has taken the message: it is recorded, and then retired.
  unfoldable pub deliver : PendingMessage → Delivery → Chat R → Chat R × Bool
  unfolding took new saying with_extra
  deliver message delivery c =
      took message (is_next_turn delivery && c.in_turn)
        (record_event o (opening message delivery c) c)

  module _ (again : Chat R → Chat R) where
    -- A message that is too long for the native session.
    abbrev pub too_long : Chat R → Chat R
    too_long c = elim c.recovery [
      | some r ↦
          recovery_ended o again (new (o.now c.calls) EventType.end) r
            (record c { turn_failed = some Kind.context_limit })
      | none ↦
          if c.in_turn
          then record c { turn_failed = some Kind.context_limit }
          else recover_context o again false c
    ]

    unfoldable pub blame : String → String → Chat R × Option Event → Chat R
    unfolding failed unauthenticated
    blame name kind (c, none) = c
    blame name kind (c, some event) =
        if str_eq kind Kind.auth
        then unauthenticated o again event c
        else failed o again name kind c

    abbrev pub would_not : String → String → String
    would_not name why = concat name (concat " would not take the message: " why)

    unfoldable pub refused_plain : String → String → Chat R → Chat R
    unfolding recovery_failed blame failure from
    refused_plain name why c = elim c.recovery [
      | some r ↦ recovery_failed o why c
      | none ↦ blame name (kind_of why) (
          record_event o (from name (failure (o.now c.calls) (kind_of why) (would_not name why))) c)
    ]

    -- A message that the runner refused stays queued.
    unfoldable pub refused : String → Chat R → Chat R
    unfolding recovery_ended recover_context refused_plain new failure from
    refused why c =
        let name = running o c.runner in
        if str_eq (kind_of why) Kind.context_limit
        then then_do (recorded o (from name (failure (o.now c.calls) Kind.context_limit why)) c)
            too_long
        else refused_plain name why c

    unfoldable pub sent :
        (Chat R → Chat R) → PendingMessage → R × Result String Delivery → Chat R → Chat R
    unfolding deliver refused
    sent rest message (r, ok echoed) c = rest (await message (record c { runner = some r }))
    sent rest message (r, ok delivery) c =
        then_do (deliver message delivery (record c { runner = some r })) rest
    sent rest message (r, err why) c = refused why (record c { runner = some r })

    -- The loop of `flush`, over the messages of the outbox.
    unfoldable pub flush_loop : List PendingMessage → Chat R → Chat R
    unfolding sent
    flush_loop [] c = c
    flush_loop (message ∷ messages) c = if held c.recovery message then c else elim c.runner [
      | none ↦ c
      | some r ↦
          sent (flush_loop messages) message (o.runners.send c.calls message.text r) (called c)
    ]

  abbrev pub nothing_runs : Chat R → Chat R
  nothing_runs c =
      let many = decimal (pos (length c.outbox)) in
      elim c.outbox [
        | [] ↦ c
        | message ∷ messages ↦
            if alive o c
            then c
            else blocked o (concat "nothing is running; " (concat many " message(s) still queued"))
                c
      ]

  unfoldable pub flush : ℕ → Chat R → Chat R
  unfolding flush_loop decimal stale
  flush zero c = c
  flush (suc fuel) c =
      if not (alive o c) || stale o c then nothing_runs c else flush_loop (flush fuel) c.outbox c

  -- With the fuel that the nesting of the handlers needs.
  unfoldable pub hand_over : Chat R → Chat R
  unfolding flush
  hand_over c = flush (length c.providers + 6) c
