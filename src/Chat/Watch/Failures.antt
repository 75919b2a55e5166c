-- ===== src/Chat/Watch/Failures.antt =====
-- Invariants of the conductor, where providers fail and turns are closed.
use silicon_omni.Prelude.{
  ℕ, zero, suc, String, inl, Bool, true, false, not, ◌&&◌, ◌||◌, none, [], ◌∷◌, if-cases,
  option-cases, str_eq, length,
}
use silicon_omni.Result.{ok, err}
use silicon_omni.Json.{Value, Fields}
use silicon_omni.Events.{Event}
use silicon_omni.Chat.{Chat, Outside}
use silicon_omni.Chat.Recording.{refresh, stop, take_runner, contains, usable}
use silicon_omni.Chat.Settings.{save_setting}
use silicon_omni.Chat.Choosing.{rung}
use silicon_omni.Chat.Parking.{find, without}
use silicon_omni.Chat.Launching.{Outcome}
use silicon_omni.Chat.Failing.{
  is_empty, culprit_of, requeue, blamed, stop_parked_one, refreshed, moved_on, anyone_left,
  sideline, sidelined, try_next, attempt_loop, attempt, forget_turn, retry_unanswered, record_end,
  at_rest, close_turn, go_on, failed, unauthenticated,
}
use silicon_omni.Chat.Watch.{Same, Watch}
use silicon_omni.Chat.Watch.Rules.{
  same, same_called, same_take_runner, Kept, Good, Comes, Kept-same, then_do-Kept, then_ok-Good,
  guarded_then, guarded-Good, recorded-Good, blocked-Kept, good, not_good, still_live, Comes-live,
  Comes-Kept, Good-Kept, Good-live,
}
use silicon_omni.Chat.Watch.Rebuilds.{rebuild-Comes}

module _ {R : Type 0} (o : Outside R) (w : Watch o) where
  live : (c d : Chat R) → Same c d → w.Live c → w.Live d
  live c d = w.live_same c d

  refreshed-Good : (p : Chat R × Bool) → Good o w p → Good o w (refreshed o p)
  refreshed-Good (c, true) h = good o w _ (live c _ (same c) (Good-live o w c h))
  refreshed-Good (c, false) h =
      not_good o w _ (Kept-same o w c _ (same c) (Good-Kept o w (c, false) h))

  stop_parked_one-Live : (name : String) (c : Chat R) → w.Live c → w.Live (stop_parked_one o name c)
  stop_parked_one-Live name c h =
      option-cases w.Live (find name c.parked) (λ e. h)
        (λ p e.
          live c (stop o p.runner (record c { parked = without name c.parked })) (same_called c) h)

  pub moved_on-Good : (name why : String) (c : Chat R) → w.Live c → Good o w (moved_on o name why c)
  unfolding moved_on
  moved_on-Good name why c h =
      refreshed-Good _ (recorded-Good o w _ _ (stop_parked_one-Live name c h))

  pub anyone_left-Good : (c : Chat R) → w.Live c → Good o w (anyone_left o c)
  unfolding anyone_left
  anyone_left-Good c h =
      if-cases (Good o w) (not (is_empty (usable c))) (λ e. good o w c h)
        (λ e.
          if-cases (Good o w) (is_empty c.providers) (λ f. not_good o w _ (blocked-Kept o w _ c h))
            (λ f.
              let d = refresh o (record c { benched = [] }) in
              not_good o w _ (blocked-Kept o w _ d (live c d (same c) h))))

  pub sideline-Good : (name why : String) (c : Chat R) → w.Live c → Good o w (sideline o name why c)
  unfolding sideline
  sideline-Good name why c h =
      if-cases (Good o w) (not (contains c.providers name) || contains c.benched name)
        (λ e. not_good o w c (inl h))
        (λ e.
          let d = record c { benched = name ∷ c.benched } in
          then_ok-Good o w _ _ (moved_on-Good name why d (live c d (same c) h)) anyone_left-Good)

  sidelined-Good :
      (culprit message : String) (c : Chat R) → w.Live c → Good o w (sidelined o culprit message c)
  unfolding sidelined
  sidelined-Good culprit message c h =
      then_ok-Good o w _ _ (recorded-Good o w _ c h) (sideline-Good culprit "would not start")

  try_next-Good :
      (again : Chat R → Chat R × Bool) (why : String) (p : Outcome R)
      → ((d : Chat R) → w.Live d → Good o w (again d))
      → Comes o w p
      → Good o w (try_next o again why p)
  unfolding try_next
  try_next-Good again why (c, ok done) k h = good o w c (Comes-live o w c done h)
  try_next-Good again why (c, err error) k h =
      let h' = Comes-Kept o w _ c error h in
      if-cases (Good o w) c.terminal (λ e. not_good o w c h')
        (λ e.
          let l = still_live o w c h' e in
          if-cases (Good o w) (str_eq (culprit_of (rung o c)) "" || not c.autoremove)
            (λ f. not_good o w _ (blocked-Kept o w _ c l))
            (λ f. then_ok-Good o w _ _ (sidelined-Good _ _ c l) k))

  attempt_loop-Good :
      (n : ℕ) (why : String) (c : Chat R) → w.Live c → Good o w (attempt_loop o n why c)
  unfolding attempt_loop
  attempt_loop-Good zero why c h = not_good o w c (inl h)
  attempt_loop-Good (suc n) why c h =
      try_next-Good _ why _ (attempt_loop-Good n why) (rebuild-Comes o w c h)

  pub attempt-Good : (why : String) (c : Chat R) → w.Live c → Good o w (attempt o why c)
  unfolding attempt
  attempt-Good why c h = attempt_loop-Good (suc (length c.providers)) why c h

  retry_unanswered-Good :
      (again : Bool) (c : Chat R) → w.Live c → Good o w (retry_unanswered o again c)
  unfolding retry_unanswered
  retry_unanswered-Good again c h =
      if-cases (Good o w) (again && not (is_empty c.unanswered))
        (λ e. guarded_then o w _ _ _ (w.retries c h) (λ d k. good o w _ k)) (λ e. good o w c h)

  record_end-Good :
      (provider : String) (extra : Fields) (c : Chat R)
      → w.Live c
      → Good o w (record_end o provider extra c)
  record_end-Good provider extra c h =
      if-cases (Good o w) (c.in_turn && c.turn_recorded)
        (λ e.
          let d = record c { in_turn = false; turn_recorded = false } in
          recorded-Good o w _ d (live c d (same c) h))
        (λ e. good o w c h)

  pub close_turn-Good :
      (provider : String) (extra : Fields) (again : Bool) (c : Chat R)
      → w.Live c
      → Good o w (close_turn o provider extra again c)
  unfolding close_turn
  close_turn-Good provider extra again c h =
      let a = take_runner o c.runner c in
      let b = record a { runner_epoch = none } in
      let k : w.Live b = live c b (same_take_runner o c.runner c) h in
      then_ok-Good o w _ _ (retry_unanswered-Good again (requeue b) (w.requeues b k)) (λ d kd.
        let f = forget_turn d in
        then_ok-Good o w _ _ (record_end-Good provider extra f (live d f (same d) kd))
          (λ e ke. good o w (at_rest again e) (live e _ (same e) ke)))

  pub save_setting-Good :
      (key : String) (value : Value) (action : String) (c : Chat R)
      → w.Live c
      → Good o w (save_setting o key value action c)
  unfolding save_setting
  save_setting-Good key value action c h = guarded-Good o w action _ (w.sets key value c h)

  module _ (flush : Chat R → Chat R) (again : (d : Chat R) → w.Live d → Kept o w (flush d)) where
    pub go_on-Kept : (why : String) (c : Chat R) → w.Live c → Kept o w (go_on o flush why c)
    go_on-Kept why c h = then_do-Kept o w _ _ (attempt-Good why c h) again

    pub failed-Kept :
        (provider kind : String) (c : Chat R) → w.Live c → Kept o w (failed o flush provider kind c)
    unfolding failed
    failed-Kept provider kind c h = then_do-Kept o w _ _ (close_turn-Good _ _ _ c h) (λ d k.
        if-cases (Kept o w) (not d.autoremove) (λ e. inl k)
          (λ e.
            if-cases (Kept o w) (contains d.providers (blamed o provider c))
              (λ f. then_do-Kept o w _ _ (sideline-Good _ kind d k) (go_on-Kept "provider failed"))
              (λ f. go_on-Kept "provider failed" d k)))

    pub unauthenticated-Kept :
        (event : Event) (c : Chat R) → w.Live c → Kept o w (unauthenticated o flush event c)
    unfolding unauthenticated
    unauthenticated-Kept event c h = then_do-Kept o w _ _ (close_turn-Good _ _ _ c h) (λ d k.
        if-cases (Kept o w) (not d.autoremove) (λ e. inl k)
          (λ e.
            if-cases (Kept o w) (not (contains d.providers (blamed o event.provider c)))
              (λ f. go_on-Kept _ d k)
              (λ f. then_do-Kept o w _ _ (save_setting-Good _ _ _ d k) (λ x kx.
                then_do-Kept o w _ _
                  (then_ok-Good o w _ _ (moved_on-Good _ "unauthenticated" _ (live x _ (same x) kx))
                    anyone_left-Good)
                  (go_on-Kept _)))))
