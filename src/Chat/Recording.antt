-- ===== src/Chat/Recording.antt =====
-- crates/omni-core/src/chat.rs: the snapshot, the log, and what happens when the disk fails.
use Prim.Native.String.{◌++◌ as concat}
use silicon_omni.Prelude.{
  suc, String, pos, ltb_ℤ, Bool, true, false, not, Option, none, some, List, [], ◌∷◌, ◌++◌, select,
  any, length, ◌+◌, str_eq, if◌then◌else◌, is_some,
}
use silicon_omni.Meta.{Meta, Status, saved, failed, panicked}
use silicon_omni.Store.{Store, append}
use silicon_omni.Events.{Event, failure, from, about}
use silicon_omni.Daemon.Wiring.{Snapshot}
use silicon_omni.Chat.{Chat, Outside, Parked, Signature, waiting, stopped}

abbrev pub contains : List String → String → Bool
contains names name = any (λ n. str_eq n name) names

-- A test `if !… { return; }` in front of what comes next.
unfoldable pub then_do {ℓ} : {S : Type ℓ} → S × Bool → (S → S) → S
then_do (c, true) next = next c
then_do (c, false) next = c

unfoldable pub then_ok {ℓ} : {S : Type ℓ} → S × Bool → (S → S × Bool) → S × Bool
then_ok (c, true) next = next c
then_ok (c, false) next = (c, false)

abbrev pub provider_of : Option Signature → String
provider_of none = ""
provider_of (some s) = s.provider

abbrev pub model_of : Option Signature → String
model_of none = ""
model_of (some s) = s.model

abbrev pub effort_of : Option Signature → String
effort_of none = ""
effort_of (some s) = s.effort

abbrev pub blank_state : Snapshot → Snapshot
blank_state s = record s { status = stopped; provider = ""; model = ""; effort = "" }

module _ {R : Type 0} where
  abbrev pub called : Chat R → Chat R
  called c = record c { calls = suc c.calls }

  -- What an operation on the metadata leaves, and whether it was saved. That a change of metadata
  -- which was never loaded would panic is counted as a failure.
  unfoldable pub kept : Meta × Status → Chat R → Chat R × Bool
  kept (meta, saved) c = (called (record c { meta = meta }), true)
  kept (meta, failed) c = (called (record c { meta = meta }), false)
  kept (meta, panicked) c = (called (record c { meta = meta }), false)

  -- One write of the shared snapshot.
  abbrev pub settle : (Snapshot → Snapshot) → Chat R → Chat R
  settle change c = record c {
    state = record (change c.state) {
      in_turn = c.in_turn;
      queued = length c.outbox + length c.awaiting;
    };
  }

  abbrev pub show : String → Chat R → Chat R
  show status = settle (λ s. record s { status = status })

  -- The providers of the chat, less those set aside for failing.
  abbrev pub usable : Chat R → List String
  usable c = select (λ provider. not (contains c.benched provider)) c.providers

  abbrev pub publish : Chat R → Chat R
  publish c = record c { published = c.published ++ c.pending; pending = [] }

module _ {R : Type 0} (o : Outside R) where
  -- The name of the runner, if there is one.
  abbrev pub running : Option R → String
  running none = ""
  running (some r) = o.runners.name r

  abbrev pub alive : Chat R → Bool
  alive c = elim c.runner [ none ↦ false | some r ↦ o.runners.alive c.calls r ]

  abbrev pub refresh : Chat R → Chat R
  refresh c =
      settle
        (λ s. record s {
          ask = c.ask;
          providers = usable c;
          cwd = c.config.cwd;
          provider = if str_eq (running c.runner) "" then "" else provider_of c.current;
          model = model_of c.current;
          effort = effort_of c.current;
        })
        c

  -- `runner.stop()`, after which the runner is let go.
  abbrev pub stop : R → Chat R → Chat R
  stop r c = record c { put_down = o.runners.stop c.calls r ∷ c.put_down; calls = suc c.calls }

  abbrev pub stop_parked : List (String × Parked R) → Chat R → Chat R
  stop_parked [] c = c
  stop_parked ((name, p) ∷ parked) c = stop_parked parked (stop p.runner c)

  abbrev pub stop_all_parked : Chat R → Chat R
  stop_all_parked c = stop_parked c.parked (record c { parked = [] })

  -- The runner is taken, interrupted in a turn, and stopped.
  abbrev pub take_runner : Option R → Chat R → Chat R
  take_runner none c = record c { runner = none }
  take_runner (some r) c =
      if c.in_turn
      then stop (o.runners.interrupt c.calls r) (called (record c { runner = none }))
      else stop r (record c { runner = none })

  -- What listeners are told: that the session ends, and why.
  abbrev pub notice : String → String → Chat R → Event
  notice action error c =
      let why = concat "session persistence failed while " (concat action (concat ": " error)) in
      record (about (model_of c.current)
        (from (provider_of c.current) (failure (o.now c.calls) "omni" why))) {
          session = c.session_id;
          turn = c.turn;
        }

  abbrev pub cleared : Chat R → Chat R
  cleared c = record c {
    current = none;
    runner_epoch = none;
    in_turn = false;
    turn_recorded = false;
    outbox = [];
    awaiting = [];
    next_turns = 0;
  }

  -- The end of a session whose disk failed.
  abbrev pub give_up : String → String → Chat R → Chat R
  give_up action error c =
      let ended = record c { terminal = true; stopping = true } in
      let quiet = cleared (stop_all_parked (take_runner c.runner ended)) in
      settle blank_state (record quiet { pending = quiet.pending ++ (notice action error c ∷ []) })

  unfoldable pub persistence_failed : String → String → Chat R → Chat R
  unfolding from about failure
  persistence_failed action error c = if c.terminal then c else give_up action error c

  unfoldable pub or_fail : String → Chat R × Bool → Chat R × Bool
  or_fail action (c, true) = (c, true)
  or_fail action (c, false) = (persistence_failed action (o.error c.calls) c, false)

  -- An operation on the metadata, and the end of the session where it fails.
  abbrev pub guarded : String → Meta × Status → Chat R → Chat R × Bool
  guarded action done c = or_fail action (kept done c)

  abbrev pub named_session : Chat R → Event → Event
  named_session c event =
      if str_eq event.session "" then record event { session = c.session_id } else event

  abbrev pub named_model : Chat R → Event → Event
  named_model c event =
      if str_eq event.model "" then record event { model = model_of c.current } else event

  abbrev pub named_provider : Chat R → Event → Event
  named_provider c event = elim c.runner [
    | none ↦ event
    | some r ↦
        if str_eq event.provider ""
        then named_model c (record event { provider = o.runners.name r })
        else event
  ]

  abbrev pub in_this_turn : Chat R → Event → Event
  in_this_turn c event = if ltb_ℤ event.turn (pos 0) then record event { turn = c.turn } else event

  -- The event as it goes to the log.
  unfoldable pub attributed : Chat R → Event → Event
  attributed c event = in_this_turn c (named_provider c (named_session c event))

  unfoldable pub appended : Chat R → Store × Option Event → Chat R × Option Event
  appended c (store, none) = (
    persistence_failed "appending the session event log" (o.error c.calls)
        (called (record c { store = store })),
    none,
  )
  appended c (store, some event) = (
    settle (λ s. record s { seq = event.seq })
        (called (record c { store = store; pending = c.pending ++ (event ∷ []) })),
    some event,
  )

  -- `record`
  unfoldable pub record_event : Event → Chat R → Chat R × Option Event
  unfolding appended
  record_event event c =
      appended c
        (append o.logs (o.opening c.calls) (o.writing c.calls) c.store (attributed c event))

  unfoldable pub with_success : Chat R × Option Event → Chat R × Bool
  with_success (c, saved_event) = (c, is_some saved_event)

  -- `record(…).is_some()`
  abbrev pub recorded : Event → Chat R → Chat R × Bool
  recorded event c = with_success (record_event event c)

  -- Queued messages stay queued: the next send tries again.
  abbrev pub blocked : String → Chat R → Chat R
  blocked why c = then_do (recorded (failure (o.now c.calls) "crash" why) c) (show waiting)
