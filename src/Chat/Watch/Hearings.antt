-- ===== src/Chat/Watch/Hearings.antt =====
-- Invariants of the conductor, through what a provider says, the resumption of a recovery and the
-- changes of settings.
use silicon_omni.Prelude.{
  String, max_ℤ, ◌≡◌, refl, sym, ap, inl, inr, Bool, true, false, not, ◌&&◌, ◌||◌, Option, none,
  some, List, [], ◌∷◌, str_eq, arith, if-cases, option-cases, list-cases, ◌>>=◌, is_some,
}
use silicon_omni.Json.{get, as_str}
use silicon_omni.Events.{Event, is, contains, is_history}
use silicon_omni.Events.EventType
use silicon_omni.Events.Kind
use silicon_omni.Meta.{Meta, Status, saved, failed, panicked}
use silicon_omni.Meta.Load.{PendingMessage}
use silicon_omni.Runner.{confirmed_type, confirmed_as}
use silicon_omni.Chat.{
  Chat, Outside, Recovery, Change, set_providers, set_model, set_system_prompt,
  set_append_system_prompt, set_subagents, set_mcp, set_autoremove, set_cwd, set_context_recovery,
}
use silicon_omni.Chat.Recording.{then_do, called, or_fail, kept, refresh}
use silicon_omni.Chat.Settings.{apply, apply_all, taken}
use silicon_omni.Chat.Turns.{complete_message, drop_first}
use silicon_omni.Chat.Recovering.{is_compacting}
use silicon_omni.Chat.Recovering.Resume.{model_events, turn_failures, will_retry}
use silicon_omni.Chat.Handing.{in_turn_of, hand_over}
use silicon_omni.Chat.Hearing.{
  ends_the_turn, once, said_by, repeated, retired, confirmed_by, open_confirmed, confirm_front,
  confirm, over, turn_ended, recovery_error, plain_error, errored, react, heard, said, absorb,
  with_origin, relabelled, straggler, marked_late, without_provenance,
}
use silicon_omni.Chat.Watch.{Same, Watch, Ends}
use silicon_omni.Chat.Watch.Rules.{
  same, Kept, Good, Gives, then_ok-Good, recorded-Good, good, Gives-live, Gives-Kept,
  record_event-Gives,
}
use silicon_omni.Chat.Watch.Launches.{same_remember}
use silicon_omni.Chat.Watch.Failures.{failed-Kept, unauthenticated-Kept, save_setting-Good}
use silicon_omni.Chat.Watch.Turns.{finish_turn-Kept}
use silicon_omni.Chat.Watch.Recoveries.{
  recover_context-Kept, recovery_ended-Kept, recovery_failed-Kept, start_handoff-Kept,
}
use silicon_omni.Chat.Watch.Handovers.{Queued, record_event-Queued, hand_over-Kept}

module _ {R : Type 0} (o : Outside R) (w : Watch o) where
  live : (c d : Chat R) → Same c d → w.Live c → w.Live d
  live c d = w.live_same c d

  retired-Kept :
      (message : PendingMessage) (messages : List PendingMessage) (event : Event) (action : String)
      (c : Chat R) (r : Meta × Status)
      → c.awaiting ≡ message ∷ messages
      → Ends (λ d. w.Live (record d { awaiting = messages })) w.Torn (kept r c)
      → Kept o w (then_do (or_fail o action (kept r c)) (retired message event))
  unfolding kept or_fail then_do Ends
  retired-Kept message messages event action c (m, saved) e h =
      let p : messages ≡ drop_first c.awaiting = ap drop_first (sym e) in
      let d = called (record c { meta = m }) in
      inl (
        live (record d { awaiting = messages }) (retired message event d)
          (refl, refl, refl, refl, refl, refl, refl, p, omega arith, refl) h)
  retired-Kept message messages event action c (m, failed) e h = inr (w.gives_up action _ _ h)
  retired-Kept message messages event action c (m, panicked) e h = inr (w.gives_up action _ _ h)

  confirmed_by-Kept :
      (message : PendingMessage) (messages : List PendingMessage) (c : Chat R)
      (p : Chat R × Option Event)
      → c.awaiting ≡ message ∷ messages
      → Queued o w c p
      → Kept o w (confirmed_by o message p)
  unfolding confirmed_by complete_message
  confirmed_by-Kept message messages c (d, none) e h = h
  confirmed_by-Kept message messages c (d, some event) e (h, out, wait) =
      let x = in_turn_of event d in
      let s = same_remember o w (record d { turn = max_ℤ d.turn event.turn }) in
      let q : x.awaiting ≡ message ∷ messages = ground (arith, s, wait, e) in
      retired-Kept message messages event _ x _ q (w.confirms message messages x (live d x s h) q)

  open_confirmed-Kept :
      (message : PendingMessage) (messages : List PendingMessage) (event : Event) (opening : String)
      (c : Chat R)
      → w.Live c
      → c.awaiting ≡ message ∷ messages
      → Kept o w (open_confirmed o message event opening c)
  unfolding open_confirmed
  open_confirmed-Kept message messages event opening c h e =
      if-cases (Kept o w) (str_eq opening EventType.start || str_eq opening EventType.injected)
        (λ f. confirmed_by-Kept message messages c _ e (record_event-Queued o w _ c h)) (λ f. inl h)

  confirm-Kept : (event : Event) (c : Chat R) → w.Live c → Kept o w (confirm o event c)
  unfolding confirm confirm_front
  confirm-Kept event c h =
      list-cases (Kept o w) c.awaiting (λ e. inl h)
        (λ m ms e.
          if-cases (Kept o w) (str_eq m.text event.text)
            (λ f.
              option-cases (Kept o w) (get confirmed_as event.extra >>= as_str) (λ g. inl h)
                (λ opening g. open_confirmed-Kept m ms event opening c h e))
            (λ f. inl h))

  over-Kept :
      (event : Event) (why : Option String) (c : Chat R) → w.Live c → Kept o w (over o event why c)
  unfolding over
  over-Kept event none c h = finish_turn-Kept o w (hand_over o) (hand_over-Kept o w) c h
  over-Kept event (some kind) c h =
      if-cases (Kept o w) (str_eq kind Kind.context_limit)
        (λ e. recover_context-Kept o w (hand_over o) (hand_over-Kept o w) true c h)
        (λ e.
          if-cases (Kept o w) c.autoremove
            (λ f. failed-Kept o w (hand_over o) (hand_over-Kept o w) event.provider kind c h)
            (λ f. finish_turn-Kept o w (hand_over o) (hand_over-Kept o w) c h))

  turn_ended-Kept : (event : Event) (c : Chat R) → w.Live c → Kept o w (turn_ended o event c)
  unfolding turn_ended
  turn_ended-Kept event c h =
      let d = record c { in_turn = false; turn_recorded = false } in
      let e = record d { turn_failed = none } in
      option-cases (Kept o w) c.recovery
        (λ f. over-Kept event c.turn_failed e (live c e (same c) h))
        (λ r f.
          recovery_ended-Kept o w (hand_over o) (hand_over-Kept o w) event r d
            (live c d (same c) h))

  recovery_error-Kept :
      (event : Event) (r : Recovery) (c : Chat R) → w.Live c → Kept o w (recovery_error o event r c)
  unfolding recovery_error
  recovery_error-Kept event r c h =
      let d = record c { turn_failed = some event.kind } in
      let k : w.Live d = live c d (same c) h in
      if-cases (Kept o w) (not (contains turn_failures event.kind)) (λ e. inl h)
        (λ e.
          if-cases (Kept o w) (str_eq event.kind Kind.crash || str_eq event.kind Kind.auth)
            (λ f.
              if-cases (Kept o w) (is_compacting (some r))
                (λ g. start_handoff-Kept o w (hand_over o) (hand_over-Kept o w) d k)
                (λ g. recovery_failed-Kept o w event.error d k))
            (λ f. inl k))

  plain_error-Kept : (event : Event) (c : Chat R) → w.Live c → Kept o w (plain_error o event c)
  unfolding plain_error
  plain_error-Kept event c h =
      if-cases (Kept o w) (str_eq event.kind Kind.context_limit) (λ e. inl (live c _ (same c) h))
        (λ e.
          if-cases (Kept o w) (str_eq event.kind Kind.auth)
            (λ f. unauthenticated-Kept o w (hand_over o) (hand_over-Kept o w) event c h)
            (λ f.
              if-cases (Kept o w) (str_eq event.kind Kind.crash)
                (λ g.
                  failed-Kept o w (hand_over o) (hand_over-Kept o w) event.provider Kind.crash c h)
                (λ g.
                  if-cases (Kept o w) (contains ends_the_turn event.kind && c.in_turn)
                    (λ i. inl (live c _ (same c) h)) (λ i. inl h))))

  react-Kept : (event : Event) (c : Chat R) → w.Live c → Kept o w (react o event c)
  unfolding react errored
  react-Kept event c h =
      if-cases (Kept o w) (contains model_events event.event_type) (λ e. inl (live c _ (same c) h))
        (λ e.
          if-cases (Kept o w) (is EventType.end event) (λ f. turn_ended-Kept event c h)
            (λ f.
              if-cases (Kept o w) (is EventType.error event && not (will_retry event))
                (λ g.
                  option-cases (Kept o w) c.recovery (λ i. plain_error-Kept event c h)
                    (λ r i. recovery_error-Kept event r c h))
                (λ g. inl h)))

  heard-Kept : (late : Bool) (p : Chat R × Option Event) → Gives o w p → Kept o w (heard o late p)
  unfolding heard
  heard-Kept late (c, none) h = Gives-Kept o w _ c h
  heard-Kept late (c, some event) h =
      let k = Gives-live o w c event h in
      if-cases (Kept o w) late
        (λ e.
          if-cases (Kept o w) (is_history event && is_some c.runner)
            (λ f. inl (live c _ (same c) k)) (λ f. inl k))
        (λ e.
          if-cases (Kept o w) c.stopping
            (λ f.
              if-cases (Kept o w) (is EventType.end event) (λ g. inl (live c _ (same c) k))
                (λ g. inl k))
            (λ f. react-Kept event c k))

  said-Kept :
      (late : Bool) (event : Event) (p : Chat R × Bool)
      → w.Live p.0
      → Kept o w (said o late event p)
  unfolding said
  said-Kept late event (c, true) h = inl h
  said-Kept late event (c, false) h =
      if-cases (Kept o w) (is confirmed_type event)
        (λ e. if-cases (Kept o w) late (λ f. inl h) (λ f. confirm-Kept event c h))
        (λ e. heard-Kept late _ (record_event-Gives o w event c h))

  repeated-Live : (event : Event) (c : Chat R) → w.Live c → w.Live (repeated o event c).0
  unfolding repeated
  repeated-Live event c h =
      if-cases (λ (p : Chat R × Bool). w.Live p.0)
        (not (is EventType.config event) || not (contains once event.text)) (λ e. h)
        (λ e.
          if-cases (λ (p : Chat R × Bool). w.Live p.0) (contains c.announced (said_by o event))
            (λ f. h) (λ f. live c _ (same c) h))

  pub absorb-Kept : (event : Event) (c : Chat R) → w.Live c → Kept o w (absorb o event c)
  unfolding absorb
  absorb-Kept event c h =
      let placed = with_origin c (relabelled o event) in
      let late = straggler o c placed in
      let public = marked_late late (without_provenance placed) in
      said-Kept late public (repeated o public c) (repeated-Live public c h)

  pub apply-Good : (change : Change) (c : Chat R) → w.Live c → Good o w (apply o change c)
  unfolding apply
  apply-Good change c h = then_ok-Good o w _ _ (save_setting-Good o w _ _ _ c h) (λ d k.
      let e = taken o change d in
      then_ok-Good o w _ _ (recorded-Good o w _ e (live d e (same_taken change d) k))
        (λ f kf. good o w (refresh o f) (live f (refresh o f) (same f) kf)))
    where
      same_taken : (change : Change) (d : Chat R) → Same d (taken o change d)
      same_taken (set_providers names) d = same d
      same_taken (set_model ask) d = same d
      same_taken (set_system_prompt text) d = same d
      same_taken (set_append_system_prompt text) d = same d
      same_taken (set_subagents on) d = same d
      same_taken (set_mcp on) d = same d
      same_taken (set_autoremove on) d = same d
      same_taken (set_cwd path) d = same d
      same_taken (set_context_recovery messages) d = same d

  pub apply_all-Good :
      (changes : List Change) (c : Chat R) → w.Live c → Good o w (apply_all o changes c)
  unfolding apply_all
  apply_all-Good [] c h = good o w c h
  apply_all-Good (change ∷ changes) c h =
      then_ok-Good o w _ _ (apply-Good change c h) (apply_all-Good changes)
