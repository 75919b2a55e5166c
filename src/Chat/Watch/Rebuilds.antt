-- ===== src/Chat/Watch/Rebuilds.antt =====
-- Invariants of the conductor, where the provider that is asked for is brought up.
use silicon_omni.Prelude.{
  ℕ, String, ℤ, pos, succ, ◌≡◌, inl, inr, refl, Bool, true, false, not, ◌&&◌, Option, none, some,
  Bool-cases, Option-cases, if-cases, option-cases, [], str_eq,
}
use silicon_omni.Result.{Result, ok, err}
use silicon_omni.Choose.Asking.{Pick}
use silicon_omni.Meta.{native}
use silicon_omni.Runner.{Config}
use silicon_omni.Chat.{Chat, Outside}
use silicon_omni.Chat.Recording.{stop, called}
use silicon_omni.Chat.Choosing.{tunable, rung, signature}
use silicon_omni.Chat.Parking.{take_parked}
use silicon_omni.Chat.Launching.{
  started, bring_up, adopt_started, reseed, resumed, launch_fresh, retuned_parked, launch_from,
  launch, replaced, retuned, rebuilt, rebuild, tuned, previous, switched, park_running, lost,
}
use silicon_omni.Chat.Watch.{Same, Watch}
use silicon_omni.Chat.Watch.Rules.{
  still_live, same, same_called, same_twice, Kept, Good, Gives, Comes, then_ok-Good, or_lost-Comes,
  recorded-Good, good, comes, Comes-err, Comes-live, Comes-Kept, Gives-live, Gives-Kept,
}
use silicon_omni.Chat.Watch.Launches.{adopt-Comes, take_parked-Gives, park-Good}

module _ {R : Type 0} (o : Outside R) (w : Watch o) where
  live : (c d : Chat R) → Same c d → w.Live c → w.Live d
  live c d = w.live_same c d

  started-Comes :
      (epoch : ℕ) (r : Result String R) (c : Chat R) → w.Live c → Comes o w (started o epoch r c)
  unfolding started
  started-Comes epoch (ok r) c h = comes o w c _ h
  started-Comes epoch (err why) c h = Comes-err o w _ c why (inl h)

  bring_up-Comes :
      (pick : Pick) (settings : Config) (id : String) (since : ℤ) (c : Chat R)
      → w.Live c
      → Comes o w (bring_up o pick settings id since c)
  unfolding bring_up
  bring_up-Comes pick settings id since c h =
      elim (Option-cases
        (o.build c.calls pick.provider c.session_id settings c.next_runner_epoch)) [
          | inl e ↦ rw (e, bring_up) (Comes-err o w _ _ _ (inl (live c _ (same_called c) h)))
          | inr (r, e) ↦ rw (e, bring_up) (started-Comes _ _ _ (live c _ (same_twice c) h))
        ]

  adopt_started-Comes :
      (pick : Pick) (fresh : Bool) (p : Chat R × Result String (R × ℕ))
      → Comes o w p
      → Comes o w (adopt_started o pick fresh p)
  unfolding adopt_started
  adopt_started-Comes pick fresh (c, ok (r, epoch)) h =
      adopt-Comes o w r (some epoch) pick fresh c (Comes-live o w c (r, epoch) h)
  adopt_started-Comes pick fresh (c, err why) h = Comes-err o w _ c why (Comes-Kept o w _ c why h)

  reseed-Comes :
      (pick : Pick) (settings : Config) (id : String) (r : R) (c : Chat R)
      → w.Live c
      → Comes o w (reseed o pick settings id r c)
  unfolding reseed
  reseed-Comes pick settings id r c h =
      or_lost-Comes o w _ _ (recorded-Good o w _ _ (live c (stop o r c) (same_called c) h))
        (λ d k. adopt_started-Comes pick true _ (bring_up-Comes pick settings "" (pos 0) d k))

  resumed-Comes :
      (pick : Pick) (settings : Config) (id : String) (p : Chat R × Result String (R × ℕ))
      → Comes o w p
      → Comes o w (resumed o pick settings id p)
  unfolding resumed
  resumed-Comes pick settings id (c, err why) h = Comes-err o w _ c why (Comes-Kept o w _ c why h)
  resumed-Comes pick settings id (c, ok (r, epoch)) h =
      let k = Comes-live o w c (r, epoch) h in
      elim (Bool-cases (not (str_eq id "") && not (str_eq (o.runners.native_id c.calls r) id))) [
        | inl e ↦ rw e (reseed-Comes pick settings id r c k)
        | inr e ↦ rw e (adopt-Comes o w r (some epoch) pick (str_eq id "") c k)
      ]

  launch_fresh-Comes :
      (pick : Pick) (known : String × ℤ) (c : Chat R)
      → Kept o w c
      → Comes o w (launch_fresh o pick known c)
  unfolding launch_fresh
  launch_fresh-Comes pick known c k =
      if-cases (Comes o w) c.terminal (λ e. Comes-err o w _ c lost k)
        (λ e.
          let settings = tuned pick c.config in
          resumed-Comes pick settings known.0 _
            (bring_up-Comes pick settings known.0 (succ known.1) c (still_live o w c k e)))

  retuned_parked-Comes :
      (pick : Pick) (known : String × ℤ) (epoch : Option ℕ) (r : R × Bool) (c : Chat R)
      → w.Live c
      → Comes o w (retuned_parked o pick known epoch r c)
  unfolding retuned_parked
  retuned_parked-Comes pick known epoch (r, true) c h = adopt-Comes o w r epoch pick false c h
  retuned_parked-Comes pick known epoch (r, false) c h =
      launch_fresh-Comes pick known (stop o r c) (inl (live c _ (same_called c) h))

  launch_from-Comes :
      (pick : Pick) (known : String × ℤ) (p : Chat R × Option (R × (Option ℕ × Bool)))
      → Gives o w p
      → Comes o w (launch_from o pick known p)
  unfolding launch_from
  launch_from-Comes pick known (c, none) h = launch_fresh-Comes pick known c (Gives-Kept o w _ c h)
  launch_from-Comes pick known (c, some (r, (epoch, true))) h =
      adopt-Comes o w r epoch pick false c (Gives-live o w c (r, (epoch, true)) h)
  launch_from-Comes pick known (c, some (r, (epoch, false))) h =
      retuned_parked-Comes pick known epoch _ (called c)
        (live c (called c) (same_called c) (Gives-live o w c (r, (epoch, false)) h))

  launch-Comes : (pick : Pick) (c : Chat R) → w.Live c → Comes o w (launch o pick c)
  unfolding launch
  launch-Comes pick c h =
      launch_from-Comes pick (native c.meta pick.provider)
        (take_parked o pick.provider (signature pick c) c)
        (take_parked-Gives o w pick.provider (signature pick c) c h)

  switched-Good :
      (pick : Pick) (was : String) (c : Chat R) → w.Live c → Good o w (switched o pick was c)
  switched-Good pick was c h =
      if-cases (Good o w) (str_eq was pick.provider) (λ e. good o w c h)
        (λ e.
          let d = record c { announced = [] } in
          let k : w.Live d = live c d (same c) h in
          if-cases (Good o w) (str_eq was "") (λ f. good o w d k) (λ f. recorded-Good o w _ d k))

  park_running-Good : (c : Chat R) → w.Live c → Good o w (park_running o c)
  park_running-Good c h =
      option-cases (Good o w) c.runner (λ e. good o w c h)
        (λ r e. park-Good o w r (record c { runner = none }) (live c _ (same c) h))

  replaced-Comes : (pick : Pick) (c : Chat R) → w.Live c → Comes o w (replaced o pick c)
  unfolding replaced
  replaced-Comes pick c h =
      or_lost-Comes o w _ _
        (then_ok-Good o w _ _ (park_running-Good c h) (switched-Good pick (previous o c)))
        (launch-Comes pick)

  retuned-Comes :
      (pick : Pick) (r : R × Bool) (c : Chat R) → w.Live c → Comes o w (retuned o pick r c)
  unfolding retuned
  retuned-Comes pick (r, true) c h =
      or_lost-Comes o w _ _ (recorded-Good o w _ _ (live c _ (same c) h))
        (λ d k. comes o w _ _ (live d _ (same d) k))
  retuned-Comes pick (r, false) c h =
      let d = record c { runner = some r } in replaced-Comes pick d (live c d (same c) h)

  rebuilt-Comes : (pick : Pick) (c : Chat R) → w.Live c → Comes o w (rebuilt o pick c)
  unfolding rebuilt
  rebuilt-Comes pick c h =
      option-cases (Comes o w) c.runner (λ e. replaced-Comes pick c h)
        (λ r e.
          if-cases (Comes o w) (tunable o pick c)
            (λ f. retuned-Comes pick _ (called c) (live c _ (same_called c) h))
            (λ f. replaced-Comes pick c h))

  pub rebuild-Comes : (c : Chat R) → w.Live c → Comes o w (rebuild o c)
  unfolding rebuild
  rebuild-Comes c h = go (rung o c) refl
    where
      go : (r : Result String Pick) → rung o c ≡ r → Comes o w (rebuild o c)
      go (ok pick) e = rw (rebuild, e) (rebuilt-Comes pick c h)
      go (err why) e = rw (rebuild, e) (Comes-err o w _ c why (inl h))
