-- ===== src/Chat/Failing.antt =====
-- crates/omni-core/src/chat.rs: providers that fail, and the turn that they leave.
-- `flush` hands queued messages over; it is an argument, since it comes back to these handlers.
use Prim.Native.String.{◌++◌ as concat}
use silicon_omni.Prelude.{
  ℕ, zero, suc, String, Bool, true, false, not, ◌&&◌, ◌||◌, none, some, List, [], ◌∷◌, ◌++◌, select,
  length, str_eq, if◌then◌else◌,
}
use silicon_omni.Result.{Result, ok, err}
use silicon_omni.Json.{Fields, str, field, end}
use mathlib.Core.List.{flatten}
use silicon_omni.Events.{Event, new, config, from, with_extra, extras, failure}
use silicon_omni.Events.EventType
use silicon_omni.Events.Kind
use silicon_omni.Meta.{messages_of, retry}
use silicon_omni.Choose.Asking.{Pick}
use silicon_omni.Chat.{Chat, Outside, busy, waiting}
use silicon_omni.Chat.Recording.{
  then_do, then_ok, guarded, recorded, refresh, stop, take_runner, contains, usable, show, running,
  blocked,
}
use silicon_omni.Chat.Stored.{texts}
use silicon_omni.Chat.Settings.{save_setting}
use silicon_omni.Chat.Choosing.{rung}
use silicon_omni.Chat.Parking.{find, without}
use silicon_omni.Chat.Launching.{Outcome, rebuild}

abbrev pub is_empty {ℓ} : {A : Type ℓ} → List A → Bool
is_empty [] = true
is_empty (x ∷ xs) = false

abbrev pub culprit_of : Result String Pick → String
culprit_of (ok pick) = pick.provider
culprit_of (err why) = ""

module _ {R : Type 0} where
  -- Writes that were never confirmed go back in front of anything newer.
  abbrev pub requeue : Chat R → Chat R
  requeue c = record c { outbox = c.awaiting ++ c.outbox; awaiting = [] }

  abbrev pub forget_turn : Chat R → Chat R
  forget_turn c = record c { unanswered = []; turn_failed = none; next_turns = 0 }

  abbrev pub at_rest : Bool → Chat R → Chat R
  at_rest again c =
      show (if again && not (is_empty c.outbox) then busy else waiting)
        (record c { in_turn = false })

  abbrev pub others : String → Chat R → List String
  others name c = select (λ provider. not (str_eq provider name)) c.providers

module _ {R : Type 0} (o : Outside R) where
  -- The provider that an event is about: the one it names, else the one running.
  abbrev pub blamed : String → Chat R → String
  blamed provider c = if str_eq provider "" then running o c.runner else provider

  abbrev pub stop_parked_one : String → Chat R → Chat R
  stop_parked_one name c = elim (find name c.parked) [
    | none ↦ c
    | some p ↦ stop o p.runner (record c { parked = without name c.parked })
  ]

  abbrev pub removed : String → String → Chat R → Event
  removed name why c =
      with_extra "left" (texts (usable c))
        (with_extra "why" (str why) (from name (config (o.now c.calls) "provider_removed")))

  abbrev pub refreshed : Chat R × Bool → Chat R × Bool
  refreshed (c, done) = (refresh o c, done)

  -- A provider is off the dial: what it had parked is put down, and the log says so.
  unfoldable pub moved_on : String → String → Chat R → Chat R × Bool
  unfolding config from with_extra
  moved_on name why c =
      let d = stop_parked_one name c in refreshed (recorded o (removed name why d) d)

  -- Whether a provider is left; where none is, all that were set aside get another chance.
  unfoldable pub anyone_left : Chat R → Chat R × Bool
  unfolding failure
  anyone_left c =
      if not (is_empty (usable c))
      then (c, true)
      else if is_empty c.providers
      then (blocked o "every provider is unauthenticated; log one back in and send again" c, false)
      else (
        blocked o "every provider failed; send again to try them all once more"
            (refresh o (record c { benched = [] })),
        false,
      )

  -- A provider is taken off the dial, but not off the chat.
  unfoldable pub sideline : String → String → Chat R → Chat R × Bool
  unfolding moved_on anyone_left
  sideline name why c =
      if not (contains c.providers name) || contains c.benched name
      then (c, false)
      else then_ok (moved_on name why (record c { benched = name ∷ c.benched })) anyone_left

  abbrev pub could_not_start : String → String → String
  could_not_start why error =
      concat "could not start a provider (" (concat why (concat "): " error))

  unfoldable pub sidelined : String → String → Chat R → Chat R × Bool
  unfolding sideline failure from
  sidelined culprit message c =
      then_ok (recorded o (from culprit (failure (o.now c.calls) Kind.crash message)) c)
        (sideline culprit "would not start")

  -- One round of `attempt`, and what goes on in the next.
  unfoldable pub try_next : (Chat R → Chat R × Bool) → String → Outcome R → Chat R × Bool
  unfolding sidelined rung
  try_next again why (c, ok done) = (c, true)
  try_next again why (c, err error) =
      let culprit = culprit_of (rung o c) in
      if c.terminal
      then (c, false)
      else if str_eq culprit "" || not c.autoremove
      then (blocked o (could_not_start why error) c, false)
      else then_ok (sidelined culprit (could_not_start why error) c) again

  -- The loop of `attempt`; a round that goes on has set one more provider aside.
  unfoldable pub attempt_loop : ℕ → String → Chat R → Chat R × Bool
  unfolding try_next rebuild
  attempt_loop zero why c = (c, false)
  attempt_loop (suc n) why c = try_next (attempt_loop n why) why (rebuild o c)

  unfoldable pub attempt : String → Chat R → Chat R × Bool
  unfolding attempt_loop
  attempt why c = attempt_loop (suc (length c.providers)) why c

  unfoldable pub retry_unanswered : Bool → Chat R → Chat R × Bool
  unfolding retry
  retry_unanswered again c =
      let fresh = o.fresh c.calls in
      let messages = messages_of fresh 0 (flatten c.unanswered) in
      if again && not (is_empty c.unanswered)
      then then_ok
          (guarded o "saving failed messages for retry"
            (retry o.metas (o.replacing c.calls) (o.now c.calls) fresh c.unanswered c.meta) c)
          (λ d. (record d { outbox = messages ++ d.outbox }, true))
      else (c, true)

  abbrev pub record_end : String → Fields → Chat R → Chat R × Bool
  record_end provider extra c =
      if c.in_turn && c.turn_recorded
      then recorded o (extras extra (from provider (new (o.now c.calls) EventType.end)))
          (record c { in_turn = false; turn_recorded = false })
      else (c, true)

  -- The runner is put down, and the turn that it was in ends.
  unfoldable pub close_turn : String → Fields → Bool → Chat R → Chat R × Bool
  unfolding retry_unanswered new from extras
  close_turn provider extra again c =
      let down = requeue (record (take_runner o c.runner c) { runner_epoch = none }) in
      then_ok (retry_unanswered again down)
        (λ d. then_ok (record_end provider extra (forget_turn d)) (λ e. (at_rest again e, true)))

  module _ (flush : Chat R → Chat R) where
    -- Another provider is tried, and takes over what is queued.
    abbrev pub go_on : String → Chat R → Chat R
    go_on why c = then_do (attempt why c) flush

    unfoldable pub failed : String → String → Chat R → Chat R
    unfolding close_turn sideline attempt
    failed provider kind c =
        let name = blamed provider c in
        then_do (close_turn name (field "failed" (str kind) end) c.autoremove c) (λ d.
          if not d.autoremove
          then d
          else if contains d.providers name
          then then_do (sideline name kind d) (go_on "provider failed")
          else go_on "provider failed" d)

    unfoldable pub unauthenticated : Event → Chat R → Chat R
    unfolding close_turn save_setting moved_on anyone_left attempt
    unauthenticated event c =
        let name = blamed event.provider c in
        then_do (close_turn name (field "unauthenticated" (str name) end) c.autoremove c) (λ d.
          if not d.autoremove
          then d
          else if not (contains d.providers name)
          then go_on "provider lost its login" d
          else then_do
              (save_setting o "active_providers" (texts (others name d))
                "saving an automatically-removed provider" d)
              (λ e.
                let f = record e {
                  providers = others name d;
                  benched = select (λ provider. not (str_eq provider name)) e.benched;
                } in
                then_do (then_ok (moved_on name "unauthenticated" f) anyone_left)
                  (go_on "provider lost its login")))
