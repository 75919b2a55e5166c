-- ===== src/Chat/Launching.antt =====
-- crates/omni-core/src/chat.rs: bringing up the provider that the settings ask for.
use Prim.Native.String.{◌++◌ as concat}
use silicon_omni.Prelude.{
  ℕ, suc, String, ℤ, pos, succ, leb, ◌^◌, ◌-◌, Bool, true, false, not, ◌&&◌, Option, none, some, [],
  ◌∷◌, str_eq, if◌then◌else◌,
}
use silicon_omni.Result.{Result, ok, err}
use silicon_omni.Json.{str, bool}
use silicon_omni.Events.{Event, new, config, from, about, with_extra}
use silicon_omni.Events.EventType
use silicon_omni.Meta.{native}
use silicon_omni.Store.{seq}
use silicon_omni.Choose.Asking.{Pick}
use silicon_omni.Runner.{Config}
use silicon_omni.Chat.{Chat, Outside}
use silicon_omni.Chat.Recording.{then_ok, guarded, recorded, refresh, stop, called, provider_of}
use silicon_omni.Chat.Choosing.{signature, rung, tunable, history_for}
use silicon_omni.Chat.Parking.{bound, marked, park, take_parked}

abbrev pub Outcome : Type 0 → Type 0
Outcome R = Chat R × Result String (Unit {0})

abbrev pub lost : String
lost = "session persistence failed"

module _ {R : Type 0} where
  -- `Err` where what came before failed on the disk.
  unfoldable pub or_lost : Chat R × Bool → (Chat R → Outcome R) → Outcome R
  or_lost (c, true) next = next c
  or_lost (c, false) next = (c, err lost)

  abbrev pub remember_runner_turn : Chat R → Chat R
  remember_runner_turn c = elim c.runner_epoch [
    | none ↦ c
    | some epoch ↦ record c { epoch_turns = (epoch, c.turn) ∷ c.epoch_turns }
  ]

abbrev pub saturating_add_u64 : ℕ → ℕ
saturating_add_u64 n = if leb (2 ^ 64 - 1) n then n else suc n

-- The settings of a runner.
abbrev pub tuned : Pick → Config → Config
tuned pick config = record config { model = pick.model; effort = pick.effort; fast = pick.fast }

module _ {R : Type 0} (o : Outside R) where
  abbrev pub about_pick : Pick → Event → Event
  about_pick pick event = about pick.model (from pick.provider event)

  -- The event that a runner is up.
  abbrev pub launched : Pick → String → Chat R → Event
  launched pick id c = with_extra "native" (str id) (
      with_extra "fast" (bool pick.fast)
        (with_extra "effort" (str pick.effort) (about_pick pick (config (o.now c.calls) "launch"))))

  abbrev pub new_session : Pick → String → Chat R → Event
  new_session pick id c =
      with_extra "native" (str id) (about_pick pick (new (o.now c.calls) EventType.new_session))

  unfoldable pub mark_if_seeded : Bool → Pick → Chat R → Chat R × Bool
  mark_if_seeded true pick c =
      guarded o "saving a provider watermark" (marked o pick.provider (seq c.store) c) c
  mark_if_seeded false pick c = (c, true)

  unfoldable pub record_if_fresh : Bool → Pick → String → Chat R → Chat R × Bool
  record_if_fresh true pick id c = recorded o (new_session pick id c) c
  record_if_fresh false pick id c = (c, true)

  unfoldable pub adopt : R → Option ℕ → Pick → Bool → Chat R → Outcome R
  unfolding bound marked config from about with_extra new
  adopt r epoch pick fresh c =
      let id = o.runners.native_id c.calls r in
      let seeded = o.runners.seeded c.calls r in
      let d =
        remember_runner_turn
          (record c { runner = some r; runner_epoch = epoch; sync_ceiling = none }) in
      let e = record d { current = some (signature pick d) } in
      or_lost
        (then_ok (guarded o "saving a provider session id" (bound o pick.provider id e) e) (λ f.
          then_ok (mark_if_seeded seeded pick f)
            (λ g. then_ok (recorded o (launched pick id g) g) (record_if_fresh fresh pick id))))
        (λ f. (refresh o f, ok tt))

  unfoldable pub started : ℕ → Result String R → Chat R → Chat R × Result String (R × ℕ)
  started epoch (ok r) c = (c, ok (r, epoch))
  started epoch (err why) c = (c, err why)

  unfoldable pub bring_up : Pick → Config → String → ℤ → Chat R → Chat R × Result String (R × ℕ)
  unfolding started history_for
  bring_up pick settings id since c =
      let epoch = c.next_runner_epoch in
      let d = record c {
        next_runner_epoch = saturating_add_u64 epoch;
        epoch_turns = (epoch, c.turn) ∷ c.epoch_turns;
      } in
      elim (o.build d.calls pick.provider d.session_id settings epoch) [
        | none ↦ (called d, err (concat "unknown provider " pick.provider))
        | some r ↦
            let history = history_for pick.provider since (not (str_eq id "")) d in
            started epoch (o.runners.start (suc d.calls) id history r) (called (called d))
      ]

  unfoldable pub adopt_started : Pick → Bool → Chat R × Result String (R × ℕ) → Outcome R
  adopt_started pick fresh (c, ok (r, epoch)) = adopt r (some epoch) pick fresh c
  adopt_started pick fresh (c, err why) = (c, err why)

  -- The provider no longer knows its session: a clean one is started and told everything.
  unfoldable pub reseed : Pick → Config → String → R → Chat R → Outcome R
  unfolding adopt bring_up config from with_extra
  reseed pick settings id r c =
      let d = stop o r c in
      let now_id = o.runners.native_id d.calls r in
      or_lost
        (recorded o
          (with_extra "now" (str now_id)
            (with_extra "lost" (str id) (from pick.provider (config (o.now d.calls) "reseed"))))
          d)
        (λ e. adopt_started pick true (bring_up pick settings "" (pos 0) e))

  unfoldable pub resumed : Pick → Config → String → Chat R × Result String (R × ℕ) → Outcome R
  unfolding adopt reseed
  resumed pick settings id (c, err why) = (c, err why)
  resumed pick settings id (c, ok (r, epoch)) =
      if not (str_eq id "") && not (str_eq (o.runners.native_id c.calls r) id)
      then reseed pick settings id r c
      else adopt r (some epoch) pick (str_eq id "") c

  unfoldable pub launch_fresh : Pick → String × ℤ → Chat R → Outcome R
  unfolding resumed bring_up
  launch_fresh pick (id, synced) c =
      if c.terminal
      then (c, err lost)
      else let settings = tuned pick c.config in
        resumed pick settings id (bring_up pick settings id (succ synced) c)

  unfoldable pub retuned_parked : Pick → String × ℤ → Option ℕ → R × Bool → Chat R → Outcome R
  unfolding adopt launch_fresh
  retuned_parked pick known epoch (r, true) c = adopt r epoch pick false c
  retuned_parked pick known epoch (r, false) c = launch_fresh pick known (stop o r c)

  unfoldable pub launch_from :
      Pick → String × ℤ → Chat R × Option (R × (Option ℕ × Bool)) → Outcome R
  unfolding adopt launch_fresh retuned_parked
  launch_from pick known (c, none) = launch_fresh pick known c
  launch_from pick known (c, some (r, (epoch, true))) = adopt r epoch pick false c
  launch_from pick known (c, some (r, (epoch, false))) =
      retuned_parked pick known epoch (o.runners.retune c.calls pick.model pick.effort r) (called c)

  unfoldable pub launch : Pick → Chat R → Outcome R
  unfolding launch_from take_parked
  launch pick c =
      launch_from pick (native c.meta pick.provider)
        (take_parked o pick.provider (signature pick c) c)

  -- The provider that the chat comes from, also where its runner is gone.
  abbrev pub previous : Chat R → String
  previous c = elim c.runner [ none ↦ provider_of c.current | some r ↦ o.runners.name r ]

  abbrev pub park_running : Chat R → Chat R × Bool
  park_running c = elim c.runner [
    | none ↦ (c, true)
    | some r ↦ park o r (record c { runner = none })
  ]

  abbrev pub switch_event : Pick → String → Chat R → Event
  switch_event pick was c = with_extra "fast" (bool pick.fast) (
      with_extra "to" (str pick.provider) (
        with_extra "from" (str was)
          (about_pick pick (new (o.now c.calls) EventType.switch_provider))))

  abbrev pub switched : Pick → String → Chat R → Chat R × Bool
  switched pick was c =
      if str_eq was pick.provider
      then (c, true)
      else let d = record c { announced = [] } in
        if str_eq was "" then (d, true) else recorded o (switch_event pick was d) d

  unfoldable pub replaced : Pick → Chat R → Outcome R
  unfolding launch new from about with_extra
  replaced pick c =
      let was = previous c in or_lost (then_ok (park_running c) (switched pick was)) (launch pick)

  abbrev pub retune_event : Pick → Chat R → Event
  retune_event pick c =
      with_extra "fast" (bool pick.fast)
        (with_extra "effort" (str pick.effort) (about_pick pick (config (o.now c.calls) "retune")))

  unfoldable pub retuned : Pick → R × Bool → Chat R → Outcome R
  unfolding replaced config from about with_extra
  retuned pick (r, true) c =
      let d = record c { runner = some r; current = some (signature pick c) } in
      or_lost (recorded o (retune_event pick d) d) (λ e. (refresh o e, ok tt))
  retuned pick (r, false) c = replaced pick (record c { runner = some r })

  unfoldable pub rebuilt : Pick → Chat R → Outcome R
  unfolding retuned replaced
  rebuilt pick c = elim c.runner [
    | none ↦ replaced pick c
    | some r ↦
        if tunable o pick c
        then retuned pick (o.runners.retune c.calls pick.model pick.effort r) (called c)
        else replaced pick c
  ]

  unfoldable pub rebuild : Chat R → Outcome R
  unfolding rung rebuilt
  rebuild c = elim (rung o c) [ err why ↦ (c, err why) | ok pick ↦ rebuilt pick c ]
