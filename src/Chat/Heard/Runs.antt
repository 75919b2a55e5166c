-- ===== src/Chat/Heard/Runs.antt =====
-- What listeners heard when the conductor is done.
use silicon_omni.Prelude.{
  ℕ, String, minus_one, ◌≡◌, refl, ◌∙◌, ◌⊎◌, inl, inr, Bool, true, false, List, [], ◌∷◌, ◌++◌,
  append-nil, arith, if-cases, bool-cases, option-cases,
}
use silicon_omni.Events.{Event}
use silicon_omni.Chat.{Chat, Outside, waiting}
use silicon_omni.Chat.Settings.{apply_all}
use silicon_omni.Chat.Recovering.{is_compacting}
use silicon_omni.Chat.Recording.{show, kept}
use silicon_omni.Chat.Ending.{
  Wake, wake_launch, launch_ready, send, send_durable, heard, set, configure, wake_stop, reject,
  reject_waiters,
}
use silicon_omni.Chat.Conductor.{
  Arrival, arrived, timed_out, wakes_of, stops, round, handle, launch_and_answer, accept,
  configured, run_loop, run,
}
use silicon_omni.Chat.Watch.Endings.{run-Kept}
use silicon_omni.Chat.Turns.{enqueue_message}
use silicon_omni.Chat.Heard.{IsTold, telling, telling_answers}

module _ {R : Type 0} where
  -- The listeners heard the events that came to the log after `base`, or those and a last one.
  abbrev pub IsHeard : List Event → Chat R → Type 0
  IsHeard base c =
      ((c.terminal ≡ false) × (c.store.events ≡ base ++ c.published))
      ⊎ ((c.terminal ≡ true)
          × (saved : List Event) × (last : Event) × (c.published ≡ saved ++ (last ∷ []))
          × (last.seq ≡ minus_one)
          × (c.store.events ≡ base ++ saved))

module _ {R : Type 0} (o : Outside R) where
  accept_published : (ack : ℕ) (p : Chat R × Bool) → (accept o ack p).pending ≡ []
  unfolding accept
  accept_published ack (c, false) = refl
  accept_published ack (c, true) =
      if-cases (λ (d : Chat R). d.pending ≡ []) c.terminal (λ e. refl) (λ e. refl)

  round_published :
      (arrival : Arrival) (c : Chat R) → c.pending ≡ [] → (round o arrival c).pending ≡ []
  unfolding round handle launch_and_answer configured
  round_published (arrived wake_launch) c h = refl
  round_published (arrived (launch_ready ack)) c h = refl
  round_published (arrived (send text)) c h = refl
  round_published (arrived (send_durable text ack)) c h =
      accept_published ack (enqueue_message o text c)
  round_published (arrived (heard event)) c h = refl
  round_published (arrived (set change)) c h = refl
  round_published (arrived (configure changes ack)) c h = go (apply_all o changes c)
    where
      go : (p : Chat R × Bool) → (configured o ack p).pending ≡ []
      go (d, true) = refl
      go (d, false) = refl
  round_published (arrived wake_stop) c h = h
  round_published timed_out c h =
      if-cases (λ (d : Chat R). d.pending ≡ []) (is_compacting c.recovery) (λ e. refl) (λ e. h)

  rejected_published :
      (why : String) (wakes : List Wake) (c : Chat R)
      → (reject_waiters why wakes c).pending ≡ c.pending
  unfolding reject_waiters
  rejected_published why [] c = refl
  rejected_published why (wake ∷ wakes) c =
      rejected_published why wakes (reject why wake c) ∙ rejected wake
    where
      rejected : (wake : Wake) → (reject why wake c).pending ≡ c.pending
      rejected (heard event) = refl
      rejected (send_durable text ack) = refl
      rejected (configure changes ack) = refl
      rejected (launch_ready ack) = refl
      rejected wake_launch = refl
      rejected (send text) = refl
      rejected (set change) = refl
      rejected wake_stop = refl

  loop_published :
      (arrivals : List Arrival) (c : Chat R) → c.pending ≡ [] → (run_loop o arrivals c).pending ≡ []
  unfolding run_loop
  loop_published [] c h = refl
  loop_published (arrival ∷ arrivals) c h =
      let d = round o arrival c in
      let k = round_published arrival c h in
      bool-cases (λ (x : Chat R). x.pending ≡ []) (stops arrival) (λ e. refl)
        (λ e.
          bool-cases (λ (x : Chat R). x.pending ≡ []) d.terminal
            (λ f. rejected_published _ (wakes_of arrivals) d ∙ k)
            (λ f. loop_published arrivals d k))

  run_published :
      (arrivals : List Arrival) (c : Chat R) → c.pending ≡ [] → (run o arrivals c).pending ≡ []
  unfolding run
  run_published arrivals c h =
      option-cases (λ (x : Chat R). x.pending ≡ []) c.startup_error
        (λ e. loop_published arrivals (show waiting c) h)
        (λ error e. rejected_published _ (wakes_of arrivals) _)

  -- From a session that has told nothing yet, whatever arrives and whatever the disk, the clock and
  -- the providers answer: when the conductor is done, the listeners heard exactly the events that
  -- it added to the log, each once and in their order; or the disk failed, and they heard exactly
  -- those and then one last event, whose negative position says that it is not in the log.
  pub run-IsHeard :
      (arrivals : List Arrival) (c : Chat R)
      → c.terminal ≡ false
      → c.published ≡ []
      → c.pending ≡ []
      → IsHeard c.store.events (run o arrivals c)
  unfolding telling
  run-IsHeard arrivals c t p q =
      let base = c.store.events in
      let told : IsTold base c = (t, ground (arith, p, q, append-nil base)) in
      let empty = run_published arrivals c q in
      elim (run-Kept o (telling o base) (telling_answers o base) arrivals c told told) [
        | inl h ↦ inl (h.0, ground (arith, h, empty, append-nil (run o arrivals c).published))
        | inr (e, kept, last, f, g, i) ↦
            inr (
              e,
              kept,
              last,
              ground (arith, f, empty, append-nil (run o arrivals c).published),
              g,
              i,
            )
      ]
