-- ===== src/Chat/Watch/Launches.antt =====
-- Invariants of the conductor, where providers are parked and launched.
use silicon_omni.Prelude.{
  ℕ, String, inl, inr, Bool, true, false, not, ◌&&◌, Option, none, some, Bool-cases, Option-cases,
  str_eq, minus_one,
}
use silicon_omni.Meta.{Meta, Status, saved, failed, panicked}
use silicon_omni.Choose.Asking.{Pick}
use silicon_omni.Chat.{Chat, Outside, Parked, Signature}
use silicon_omni.Chat.Recording.{kept, stop, called}
use silicon_omni.Store.{seq}
use silicon_omni.Chat.Choosing.{same_config, signature, prompts_moved}
use silicon_omni.Chat.Parking
use silicon_omni.Chat.Parking.{
  both, taken_back, with_tuning, bound, marked, or_stop, reopen, set_aside, park, caught_up,
  told_again, unpark, take_parked, find,
}
use silicon_omni.Chat.Launching.{mark_if_seeded, record_if_fresh, adopt, remember_runner_turn}
use silicon_omni.Chat.Watch.{Same, Watch, Ends}
use silicon_omni.Chat.Watch.Rules.{
  good, not_good, gives, Gives-none, comes, Good-live, Good-Kept, Gives-live, Gives-Kept, same,
  same_called, Good, Gives, Comes, then_ok-Good, or_lost-Comes, guarded_then, guarded-Good,
  recorded-Good,
}

module _ {R : Type 0} (o : Outside R) (w : Watch o) where
  live : (c d : Chat R) → Same c d → w.Live c → w.Live d
  live c d = w.live_same c d

  pub or_stop-Good :
      (action : String) (r : R) (p : Chat R × Bool)
      → Ends w.Live w.Torn p
      → Good o w (or_stop o action r p)
  unfolding or_stop Ends
  or_stop-Good action r (c, true) h = good o w c h
  or_stop-Good action r (c, false) h =
      not_good o w _
        (inr (w.gives_up action _ (stop o r c) (w.torn_same c (stop o r c) (same_called c) h)))

  torn_kept : (r : Meta × Status) (c : Chat R) → w.Torn c → w.Torn (kept r c).0
  unfolding kept
  torn_kept (m, saved) c h = w.torn_meta m c h
  torn_kept (m, failed) c h = w.torn_meta m c h
  torn_kept (m, panicked) c h = w.torn_meta m c h

  -- The second of two operations runs also after the first has failed.
  both-Ends :
      (p : Chat R × Bool) (next : Chat R → Meta × Status)
      → Ends w.Live w.Torn p
      → ((d : Chat R) → w.Live d → Ends w.Live w.Torn (kept (next d) d))
      → Ends w.Live w.Torn (both p (λ d. kept (next d) d))
  unfolding both Ends
  both-Ends (c, true) next h k = go (kept (next c) c) (k c h)
    where
      go : (q : Chat R × Bool) → Ends w.Live w.Torn q → Ends w.Live w.Torn (q.0, true && q.1)
      go (d, true) e = e
      go (d, false) e = e
  both-Ends (c, false) next h k = torn_kept (next c) c h

  set_aside-Good :
      (name : String) (epoch : Option ℕ) (r : R) (c : Chat R)
      → w.Live c
      → Good o w (set_aside o name epoch r c)
  unfolding set_aside
  set_aside-Good name epoch r c h = elim (Option-cases c.current) [
    | inl e ↦ rw e (good o w _ (live c _ (same_called c) h))
    | inr (s, e) ↦ elim (Bool-cases (o.runners.parkable c.calls r)) [
      | inl f ↦ rw (e, f) (good o w _ (live c _ (same c) h))
      | inr f ↦ rw (e, f) (good o w _ (live c _ (same_called c) h))
    ]
  ]

  reopen-Good :
      (name was : String) (r : R) (c : Chat R) → w.Live c → Good o w (reopen o name was r c)
  unfolding reopen
  reopen-Good name was r c h =
      guarded_then o w _ _ _
        (both-Ends (kept (bound o name "" (stop o r c)) (stop o r c)) (marked o name minus_one)
          (w.binds name "" (stop o r c) (live c _ (same_called c) h)) (w.marks name minus_one))
        (λ d k. recorded-Good o w _ _ (live d _ (same d) k))

  pub park-Good : (r : R) (c : Chat R) → w.Live c → Good o w (park o r c)
  unfolding park
  park-Good r c h =
      let name = o.runners.name r in
      let id = o.runners.native_id c.calls r in
      let d = record c { runner_epoch = none } in
      let k : w.Live d = live c d (same c) h in
      elim (Bool-cases (str_eq id "")) [
        | inl e ↦ rw e (set_aside-Good name c.runner_epoch r d k)
        | inr e ↦ elim (Bool-cases (not (o.retunes_instructions name) && prompts_moved c)) [
          | inl f ↦ rw (e, f) (reopen-Good name id r d k)
          | inr f ↦
              rw (e, f)
                (then_ok-Good o w _ _ (or_stop-Good _ r _ (w.binds name id d k))
                  (λ x. set_aside-Good name c.runner_epoch r x))
        ]
      ]

  taken_back-Gives :
      (epoch : Option ℕ) (r : R) (p : Chat R × Bool) → Good o w p → Gives o w (taken_back epoch r p)
  unfolding taken_back
  taken_back-Gives epoch r (c, true) h = gives o w c (r, epoch) (Good-live o w c h)
  taken_back-Gives epoch r (c, false) h = Gives-none o w _ c (Good-Kept o w (c, false) h)

  caught_up-Gives :
      (provider : String) (p : Parked R) (r : R) (c : Chat R)
      → w.Live c
      → Gives o w (caught_up o provider p r c)
  unfolding caught_up
  caught_up-Gives provider p r c h = elim (Bool-cases (o.runners.seeded c.calls r)) [
    | inl e ↦
        rw e
          (taken_back-Gives p.epoch r _ (or_stop-Good _ r _ (w.marks provider (seq c.store) c h)))
    | inr e ↦ rw e (gives o w c _ h)
  ]

  told_again-Gives :
      (provider : String) (p : Parked R) (r : R × Bool) (c : Chat R)
      → w.Live c
      → Gives o w (told_again o provider p r c)
  unfolding told_again
  told_again-Gives provider p (r, true) c h = caught_up-Gives provider p r c h
  told_again-Gives provider p (r, false) c h = Gives-none o w _ _ (inl (live c _ (same_called c) h))

  unpark-Gives : (provider : String) (c : Chat R) → w.Live c → Gives o w (unpark o provider c)
  unfolding unpark
  unpark-Gives provider c h = elim (Option-cases (find provider c.parked)) [
    | inl e ↦ rw (e, unpark) (Gives-none o w _ c (inl h))
    | inr (p, e) ↦
        let d = record c { parked = Parking.without provider c.parked } in
        let k : w.Live d = live c d (same c) h in
        elim (Bool-cases (o.runners.alive d.calls p.runner)) [
          | inl f ↦
              rw (e, unpark, f)
                (told_again-Gives provider p _ (called d) (live d (called d) (same_called d) k))
          | inr f ↦ rw (e, unpark, f) (Gives-none o w _ d (inl k))
        ]
  ]

  with_tuning-Gives :
      (b : Bool) (p : Chat R × Option (R × Option ℕ)) → Gives o w p → Gives o w (with_tuning b p)
  unfolding with_tuning
  with_tuning-Gives b (c, none) h = Gives-none o w _ c (Gives-Kept o w _ c h)
  with_tuning-Gives b (c, some (r, e)) h = gives o w c (r, (e, b)) (Gives-live o w c (r, e) h)

  pub take_parked-Gives :
      (provider : String) (wanted : Signature) (c : Chat R)
      → w.Live c
      → Gives o w (take_parked o provider wanted c)
  unfolding take_parked
  take_parked-Gives provider wanted c h = elim (Option-cases (find provider c.parked)) [
    | inl e ↦ rw (e, take_parked) (Gives-none o w _ c (inl h))
    | inr (p, e) ↦ elim (Bool-cases (same_config p.signature.config wanted.config)) [
      | inl f ↦ rw (e, take_parked, f) (with_tuning-Gives _ _ (unpark-Gives provider c h))
      | inr f ↦
          let d = record c { parked = Parking.without provider c.parked } in
          rw (e, take_parked, f) (Gives-none o w _ _ (inl (live c _ (same_called c) h)))
    ]
  ]

  mark_if_seeded-Good :
      (seeded : Bool) (pick : Pick) (c : Chat R)
      → w.Live c
      → Good o w (mark_if_seeded o seeded pick c)
  unfolding mark_if_seeded
  mark_if_seeded-Good true pick c h = guarded-Good o w _ _ (w.marks pick.provider (seq c.store) c h)
  mark_if_seeded-Good false pick c h = good o w c h

  record_if_fresh-Good :
      (fresh : Bool) (pick : Pick) (id : String) (c : Chat R)
      → w.Live c
      → Good o w (record_if_fresh o fresh pick id c)
  unfolding record_if_fresh
  record_if_fresh-Good true pick id c h = recorded-Good o w _ c h
  record_if_fresh-Good false pick id c h = good o w c h

  pub same_remember : (c : Chat R) → Same c (remember_runner_turn c)
  same_remember c = elim (Option-cases c.runner_epoch) [
    | inl e ↦ rw e (same c)
    | inr (n, e) ↦ rw e (same c)
  ]

  pub adopt-Comes :
      (r : R) (epoch : Option ℕ) (pick : Pick) (fresh : Bool) (c : Chat R)
      → w.Live c
      → Comes o w (adopt o r epoch pick fresh c)
  unfolding adopt
  adopt-Comes r epoch pick fresh c h =
      let a = record c { runner = some r; runner_epoch = epoch; sync_ceiling = none } in
      let d = remember_runner_turn a in
      let e = record d { current = some (signature pick d) } in
      let k : w.Live e = live c e (same_remember a) h in
      or_lost-Comes o w _ _
        (then_ok-Good o w _ _ (guarded-Good o w _ _ (w.binds pick.provider _ e k)) (λ f kf.
          then_ok-Good o w _ _ (mark_if_seeded-Good _ pick f kf) (λ g kg.
            then_ok-Good o w _ _ (recorded-Good o w _ g kg) (record_if_fresh-Good fresh pick _))))
        (λ f kf. comes o w _ _ (live f _ (same f) kf))
