-- ===== src/Chat/Answered/Rounds.antt =====
-- Who is answered by a round of the conductor, and while it stops.
use silicon_omni.Prelude.{
  ℕ, String, ◌≡◌, refl, ap, ◌∙◌, ◌⊎◌, inl, inr, Bool, true, false, List, [], ◌∷◌, ◌++◌,
  append_assoc, arith, if-cases,
}
use silicon_omni.Result.{Result, ok}
use silicon_omni.Chat.{Chat, Outside}
use silicon_omni.Chat.Recording.{publish}
use silicon_omni.Chat.Settings.{apply, apply_all}
use silicon_omni.Chat.Turns.{enqueue_message, dispatch, dispatch_queued}
use silicon_omni.Chat.Recovering.{is_compacting, start_handoff}
use silicon_omni.Chat.Handing.{hand_over}
use silicon_omni.Chat.Hearing.{absorb}
use silicon_omni.Chat.Ending.{
  Wake, wake_launch, launch_ready, send, send_durable, heard, set, configure, wake_stop, answer,
  drain_one, drain,
}
use silicon_omni.Chat.Conductor.{
  Arrival, arrived, timed_out, round, handle, launch_once, launch_and_answer, accept, configured,
}
use silicon_omni.Chat.Watch.Rules.{Kept, Good, Good-live, Good-Kept}
use silicon_omni.Chat.Watch.Turns.{enqueue_message-Good, dispatch-Kept, dispatch_queued-Kept}
use silicon_omni.Chat.Watch.Recoveries.{start_handoff-Kept}
use silicon_omni.Chat.Watch.Handovers.{hand_over-Kept}
use silicon_omni.Chat.Watch.Hearings.{absorb-Kept, apply_all-Good, apply-Good}
use silicon_omni.Chat.Watch.Rounds.{launch_once-Kept}
use silicon_omni.Chat.Answered.{silent}
use silicon_omni.Chat.Answered.Callers.{
  caller, callers, caller_of, acks, Answers, nobody, somebody, later,
}

module _ {R : Type 0} (o : Outside R) where
  pub quiet :
      (base : List (ℕ × Result String (Unit {0}))) (c : Chat R)
      → Kept o (silent o base) c
      → c.answered ≡ base
  unfolding silent
  quiet base c (inl h) = h.1
  quiet base c (inr h) = h.1

  accept-answered :
      (ack : ℕ) (p : Chat R × Bool) (c : Chat R)
      → Good o (silent o c.answered) p
      → Answers (ack ∷ []) c (accept o ack p)
  unfolding accept silent
  accept-answered ack (d, false) c h =
      somebody ack _ c d (quiet c.answered d (Good-Kept o (silent o c.answered) (d, false) h))
  accept-answered ack (d, true) c h =
      let live = Good-live o (silent o c.answered) d h in
      let e = answer ack (ok tt) (publish d) in
      let s = somebody ack (ok tt) c d live.1 in
      if-cases (Answers (ack ∷ []) c) e.terminal (λ t. s)
        (λ t.
          let x = dispatch_queued o (hand_over o) e in
          let w = silent o e.answered in
          s' e x s (
            quiet e.answered x
              (dispatch_queued-Kept o w (hand_over o) (hand_over-Kept o w) e (t, refl))))
    where
      s' :
          (e x : Chat R)
          → Answers (ack ∷ []) c e
          → x.answered ≡ e.answered
          → Answers (ack ∷ []) c (publish x)
      s' e x s q = ap acks q ∙ s

  configured-answered :
      (ack : ℕ) (p : Chat R × Bool) (c : Chat R)
      → Good o (silent o c.answered) p
      → Answers (ack ∷ []) c (configured o ack p)
  unfolding configured
  configured-answered ack (d, true) c h =
      somebody ack _ c d (quiet c.answered d (Good-Kept o (silent o c.answered) (d, true) h))
  configured-answered ack (d, false) c h =
      somebody ack _ c d (quiet c.answered d (Good-Kept o (silent o c.answered) (d, false) h))

  pub round-answered :
      (arrival : Arrival) (c : Chat R)
      → c.terminal ≡ false
      → Answers (caller_of arrival) c (round o arrival c)
  unfolding round handle launch_and_answer silent
  round-answered (arrived wake_launch) c t =
      let w = silent o c.answered in
      nobody c (handle o wake_launch c)
        (quiet c.answered (launch_once o c) (launch_once-Kept o w c (t, refl)))
  round-answered (arrived (launch_ready ack)) c t =
      let w = silent o c.answered in
      somebody ack _ c (launch_once o c)
        (quiet c.answered (launch_once o c) (launch_once-Kept o w c (t, refl)))
  round-answered (arrived (send text)) c t =
      let w = silent o c.answered in
      nobody c (handle o (send text) c) (
        quiet c.answered (dispatch o (hand_over o) text c)
          (dispatch-Kept o w (hand_over o) (hand_over-Kept o w) text c (t, refl)))
  round-answered (arrived (send_durable text ack)) c t =
      accept-answered ack (enqueue_message o text c) c
        (enqueue_message-Good o (silent o c.answered) text c (t, refl))
  round-answered (arrived (heard event)) c t =
      nobody c (handle o (heard event) c) (
        quiet c.answered (absorb o event c) (absorb-Kept o (silent o c.answered) event c (t, refl)))
  round-answered (arrived (set change)) c t =
      let w = silent o c.answered in
      nobody c (handle o (set change) c) (
        quiet c.answered (apply o change c).0
          (Good-Kept o w (apply o change c) (apply-Good o w change c (t, refl))))
  round-answered (arrived (configure changes ack)) c t =
      configured-answered ack (apply_all o changes c) c
        (apply_all-Good o (silent o c.answered) changes c (t, refl))
  round-answered (arrived wake_stop) c t = nobody c c refl
  round-answered timed_out c t =
      let w = silent o c.answered in
      if-cases (Answers [] c) (is_compacting c.recovery)
        (λ e. nobody c (publish (start_handoff o (hand_over o) c)) (
          quiet c.answered (start_handoff o (hand_over o) c)
            (start_handoff-Kept o w (hand_over o) (hand_over-Kept o w) c (t, refl))))
        (λ e. nobody c c refl)

  drain_one-answered :
      (wake : Wake) (c : Chat R) → c.terminal ≡ false → Answers (caller wake) c (drain_one o wake c)
  unfolding drain_one silent
  drain_one-answered (heard event) c t =
      nobody c (absorb o event c) (
        quiet c.answered (absorb o event c) (absorb-Kept o (silent o c.answered) event c (t, refl)))
  drain_one-answered (send_durable text ack) c t = somebody ack _ c c refl
  drain_one-answered (configure changes ack) c t = somebody ack _ c c refl
  drain_one-answered (launch_ready ack) c t = somebody ack _ c c refl
  drain_one-answered wake_launch c t = nobody c c refl
  drain_one-answered (send text) c t = nobody c c refl
  drain_one-answered (set change) c t = nobody c c refl
  drain_one-answered wake_stop c t = nobody c c refl

  -- What is left of the inbox when the disk fails is not answered.
  abbrev pub Drained : List ℕ → Chat R → Chat R × Bool → Type 0
  Drained who c p =
      ((p.1 ≡ true) × (p.0.terminal ≡ false) × Answers who c p.0)
      ⊎ ((p.1 ≡ false)
          × (p.0.terminal ≡ true)
          × (done : List ℕ) × (rest : List ℕ) × (who ≡ done ++ rest)
          × Answers done c p.0)

  pub drain-answered :
      (wakes : List Wake) (c : Chat R)
      → c.terminal ≡ false
      → Drained (callers wakes) c (drain o wakes c)
  unfolding drain
  drain-answered [] c t = inl (refl, t, nobody c c refl)
  drain-answered (wake ∷ wakes) c t =
      let d = drain_one o wake c in
      let k = drain_one-answered wake c t in
      if-cases (Drained (caller wake ++ callers wakes) c) d.terminal
        (λ e. inr (refl, e, caller wake, callers wakes, refl, k))
        (λ e. elim (drain-answered wakes d e) [
          | inl (p, q, r) ↦
              inl (p, q, later (caller wake) (callers wakes) c d (drain o wakes d).0 k r)
          | inr (p, q, done, rest, r, a) ↦ inr (
            p,
            q,
            caller wake ++ done,
            rest,
            ground (arith, r, append_assoc (caller wake) done rest),
            later (caller wake) done c d (drain o wakes d).0 k a,
          )
        ])
