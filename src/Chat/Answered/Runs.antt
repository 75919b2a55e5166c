-- ===== src/Chat/Answered/Runs.antt =====
-- What those who wait for an acknowledgement got when the conductor is done.
use silicon_omni.Prelude.{
  Bool-cases, ◌⊎◌, ℕ, String, ◌≡◌, refl, sym, ap, ◌∙◌, inl, inr, Bool, true, false, none, List, [],
  ◌∷◌, ◌++◌, append_assoc, arith, str_eq, if-cases, option-cases,
}
use silicon_omni.Result.{Result}
use silicon_omni.Chat.{Chat, Outside, waiting}
use silicon_omni.Chat.Recording.{
  publish, show, then_do, then_ok, called, stop, stop_all_parked, persistence_failed,
}
use silicon_omni.Chat.Parking.{or_stop}
use silicon_omni.Chat.Failing.{requeue}
use silicon_omni.Chat.Ending
use silicon_omni.Chat.Ending.{
  Wake, wake_launch, launch_ready, send, send_durable, heard, set, configure, wake_stop,
  reject_waiters, drain, bind_last, put_down_runner, record_last_end, record_stop, shutdown,
}
use silicon_omni.Chat.Conductor.{Arrival, arrived, timed_out, wakes_of, stops, round, run_loop, run}
use silicon_omni.Chat.Watch.Rules.{Good, Good-live, Good-Kept, same_stop_parked}
use silicon_omni.Chat.Watch.Endings.{put_down_runner-Good, record_last_end-Good, record_stop-Kept}
use silicon_omni.Chat.Answered.{silent, gives_up}
use silicon_omni.Chat.Answered.Callers.{
  callers, caller_of, acks, callers-arrivals, Answers, AnswersOrEnds, nobody, later,
  reject_waiters-answered,
}
use silicon_omni.Chat.Answered.Rounds.{quiet, round-answered, Drained, drain-answered}

stops-nobody : (arrival : Arrival) → stops arrival ≡ true → caller_of arrival ≡ []
stops-nobody (arrived wake_stop) e = refl
stops-nobody (arrived wake_launch) e = refl
stops-nobody (arrived (launch_ready ack)) e = absurd (ground (arith, e))
stops-nobody (arrived (send text)) e = refl
stops-nobody (arrived (send_durable text ack)) e = absurd (ground (arith, e))
stops-nobody (arrived (heard event)) e = refl
stops-nobody (arrived (set change)) e = refl
stops-nobody (arrived (configure changes ack)) e = absurd (ground (arith, e))
stops-nobody timed_out e = refl

-- Those who asked before the session was told to stop, and those after.
abbrev pub asked_before : List Arrival → List ℕ
asked_before [] = []
asked_before (arrival ∷ arrivals) =
    let rest = asked_before arrivals in
    elim (stops arrival) [ true ↦ [] | false ↦ caller_of arrival ++ rest ]

abbrev pub asked_after : List Arrival → List ℕ
asked_after [] = []
asked_after (arrival ∷ arrivals) =
    let rest = asked_after arrivals in
    elim (stops arrival) [ true ↦ callers (wakes_of arrivals) | false ↦ rest ]

module _ {R : Type 0} where
  -- Nobody more is answered afterwards.
  then_nobody :
      (who : List ℕ) (c d e : Chat R) → Answers who c d → e.answered ≡ d.answered → Answers who c e
  then_nobody who c d e h k = ap acks k ∙ h

  joined :
      (arrival : Arrival) (arrivals : List Arrival) (c d : Chat R)
      → Answers (caller_of arrival ++ callers (wakes_of arrivals)) c d
      → Answers (callers (wakes_of (arrival ∷ arrivals))) c d
  joined arrival arrivals c d h =
      h ∙ ap (λ (ys : List ℕ). acks c.answered ++ ys) (sym (callers-arrivals arrival arrivals))

module _ {R : Type 0} (o : Outside R) where
  stopped_quiet : (c : Chat R) → c.terminal ≡ false → (record_stop o c).answered ≡ c.answered
  unfolding silent
  stopped_quiet c t =
      quiet o c.answered (record_stop o c) (record_stop-Kept o (silent o c.answered) c (t, refl))

  -- The end of the last turn and of the session answer nobody.
  ended_quiet :
      (base : List (ℕ × Result String (Unit {0}))) (p : Chat R × Bool)
      → Good o (silent o base) p
      → (then_do p (λ f. record_stop o (requeue (Ending.at_rest f)))).answered ≡ base
  unfolding then_do silent
  ended_quiet base (f, true) h =
      let k = Good-live o (silent o base) f h in
      stopped_quiet (requeue (Ending.at_rest f)) k.0 ∙ k.1
  ended_quiet base (f, false) h = quiet o base f (Good-Kept o (silent o base) (f, false) h)

  after_drain : Chat R × Bool → Chat R
  after_drain p = then_do p (λ e.
      then_do (record_last_end o (record e { runner_epoch = none }))
        (λ f. record_stop o (requeue (Ending.at_rest f))))

  after_drain-answered :
      (who : List ℕ) (c : Chat R) (p : Chat R × Bool)
      → Drained o who c p
      → AnswersOrEnds who c (after_drain p)
  unfolding after_drain then_do silent
  after_drain-answered who c (e, true) (inl (h, t, k)) =
      let x = record e { runner_epoch = none } in
      let w = silent o e.answered in
      inl (
        then_nobody who c e (after_drain (e, true)) k
          (ended_quiet e.answered (record_last_end o x) (record_last_end-Good o w x (t, refl))))
  after_drain-answered who c (e, true) (inr (h, t, done, rest, k, a)) = absurd (ground (arith, h))
  after_drain-answered who c (e, false) (inl (h, t, k)) = absurd (ground (arith, h))
  after_drain-answered who c (e, false) (inr (h, t, done, rest, k, a)) = inr (t, done, rest, k, a)

  -- Only a disk that failed keeps a runner from being put down.
  abbrev Falls : Chat R × Bool → Type 0
  Falls p = p.1 ≡ false → p.0.terminal ≡ true

  or_stop-Falls :
      (action : String) (r : R) (p : Chat R × Bool)
      → Falls (then_ok (or_stop o action r p) (λ d. (stop o r d, true)))
  unfolding then_ok or_stop
  or_stop-Falls action r (c, true) e = absurd (ground (arith, e))
  or_stop-Falls action r (c, false) e =
      let d = stop o r c in (gives_up o d.answered action (o.error c.calls) d refl).0

  bind_last-Falls : (r : R) (c : Chat R) → Falls (bind_last o r c)
  unfolding bind_last
  bind_last-Falls r c =
      if-cases Falls (str_eq (o.runners.native_id c.calls r) "") (λ e f. absurd (ground (arith, f)))
        (λ e. or_stop-Falls _ r _)

  put_down_runner-Falls : (c : Chat R) → Falls (put_down_runner o c)
  unfolding put_down_runner
  put_down_runner-Falls c =
      option-cases Falls c.runner (λ e f. absurd (ground (arith, f)))
        (λ r e.
          let d = record c { runner = none } in
          if-cases Falls c.in_turn (λ f. bind_last-Falls _ (called d)) (λ f. bind_last-Falls r d))

  -- The stop that follows once the runner is down.
  then_drained : List Wake → Chat R × Bool → Chat R
  then_drained inbox p = then_do p (λ d. after_drain (drain o inbox (stop_all_parked o d)))

  then_drained-answered :
      (inbox : List Wake) (c : Chat R) (p : Chat R × Bool)
      → Good o (silent o c.answered) p
      → Falls p
      → AnswersOrEnds (callers inbox) c (then_drained inbox p)
  unfolding then_drained then_do silent
  then_drained-answered inbox c (d, true) h f =
      let k = Good-live o (silent o c.answered) d h in
      let s = same_stop_parked o d.parked (record d { parked = [] }) in
      let x = stop_all_parked o d in
      let t : x.terminal ≡ false = ground (arith, k, s) in
      let q : x.answered ≡ c.answered = ground (arith, k, s) in
      elim (after_drain-answered (callers inbox) x (drain o inbox x) (drain-answered o inbox x t)) [
        | inl a ↦ inl (a ∙ ap (λ ys. acks ys ++ callers inbox) q)
        | inr (e, done, rest, p, a) ↦ inr (e, done, rest, p, a ∙ ap (λ ys. acks ys ++ done) q)
      ]
  then_drained-answered inbox c (d, false) h f =
      let q = quiet o c.answered d (Good-Kept o (silent o c.answered) (d, false) h) in
      inr (f refl, [], callers inbox, refl, nobody c d q)

  shutdown-answered :
      (inbox : List Wake) (c : Chat R)
      → c.terminal ≡ false
      → AnswersOrEnds (callers inbox) c (shutdown o inbox c)
  unfolding shutdown silent then_drained after_drain
  shutdown-answered inbox c t =
      let b = record c { stopping = true } in
      let w = silent o c.answered in
      rw t (
        then_drained-answered inbox c (put_down_runner o b) (put_down_runner-Good o w b (t, refl))
          (put_down_runner-Falls b))

  -- The state of the loop when it is told to stop, or when nothing comes any more.
  abbrev pub at_stop : List Arrival → Chat R → Chat R
  at_stop [] c = c
  at_stop (arrival ∷ arrivals) c =
      let later = at_stop arrivals (round o arrival c) in
      elim (stops arrival) [ true ↦ c | false ↦ later ]

  -- Everyone was answered; or the session ran until it was told to stop, then ended, and of those
  -- who asked after that the last were not answered.
  abbrev pub AnswersUntilStop : List Arrival → Chat R → Chat R → Type 0
  AnswersUntilStop arrivals c d =
      Answers (callers (wakes_of arrivals)) c d
      ⊎ (((at_stop arrivals c).terminal ≡ false)
          × (d.terminal ≡ true)
          × (done : List ℕ) × (rest : List ℕ) × (asked_after arrivals ≡ done ++ rest)
          × Answers (asked_before arrivals ++ done) c d)

  stopped-answered :
      (arrival : Arrival) (arrivals : List Arrival) (c : Chat R)
      → c.terminal ≡ false
      → stops arrival ≡ true
      → AnswersUntilStop (arrival ∷ arrivals) c (run_loop o (arrival ∷ arrivals) c)
  unfolding run_loop
  stopped-answered arrival arrivals c t e =
      let none_asked = stops-nobody arrival e in
      let x = publish (shutdown o (wakes_of arrivals) c) in
      let who = callers (wakes_of arrivals) in
      rw (e, run_loop, at_stop, asked_after, asked_before)
        (elim (shutdown-answered (wakes_of arrivals) c t) [
          | inl a ↦ inl (
              joined arrival arrivals c x
                (a ∙ ap (λ (ys : List ℕ). acks c.answered ++ (ys ++ who)) (sym none_asked)))
          | inr (k, done, rest, q, a) ↦ inr (t, k, done, rest, q, a)
        ])

  rejected-answered :
      (arrival : Arrival) (arrivals : List Arrival) (c : Chat R)
      → c.terminal ≡ false
      → stops arrival ≡ false
      → (round o arrival c).terminal ≡ true
      → AnswersUntilStop (arrival ∷ arrivals) c (run_loop o (arrival ∷ arrivals) c)
  unfolding run_loop
  rejected-answered arrival arrivals c t e f =
      let d = round o arrival c in
      let x = reject_waiters "session persistence failed" (wakes_of arrivals) d in
      rw (e, run_loop, f)
        (inl (
          joined arrival arrivals c x (
            later (caller_of arrival) (callers (wakes_of arrivals)) c d x
              (round-answered o arrival c t) (reject_waiters-answered _ (wakes_of arrivals) d))))

  went_on :
      (arrival : Arrival) (arrivals : List Arrival) (c : Chat R)
      → c.terminal ≡ false
      → stops arrival ≡ false
      → (round o arrival c).terminal ≡ false
      → AnswersUntilStop arrivals (round o arrival c) (run_loop o arrivals (round o arrival c))
      → AnswersUntilStop (arrival ∷ arrivals) c (run_loop o (arrival ∷ arrivals) c)
  unfolding run_loop
  went_on arrival arrivals c t e f (inl a) =
      let d = round o arrival c in
      rw (e, run_loop, f)
        (inl (
          joined arrival arrivals c (run_loop o arrivals d) (
            later (caller_of arrival) (callers (wakes_of arrivals)) c d (run_loop o arrivals d)
              (round-answered o arrival c t) a)))
  went_on arrival arrivals c t e f (inr (s, p, done, rest, q, a)) =
      let d = round o arrival c in
      let before = asked_before arrivals in
      rw (e, run_loop, at_stop, asked_after, asked_before, f)
        (inr (
          s,
          p,
          done,
          rest,
          q,
          later (caller_of arrival) (before ++ done) c d (run_loop o arrivals d)
                (round-answered o arrival c t) a
              ∙ ap (λ (ys : List ℕ). acks c.answered ++ ys)
                  (sym (append_assoc (caller_of arrival) before done)),
        ))

  run_loop-answered :
      (arrivals : List Arrival) (c : Chat R)
      → c.terminal ≡ false
      → AnswersUntilStop arrivals c (run_loop o arrivals c)
  unfolding run_loop
  run_loop-answered [] c t = elim (shutdown-answered [] c t) [
    | inl a ↦ inl a
    | inr (k, done, rest, q, a) ↦ inr (t, k, done, rest, q, a)
  ]
  run_loop-answered (arrival ∷ arrivals) c t = elim (Bool-cases (stops arrival)) [
    | inl e ↦ stopped-answered arrival arrivals c t e
    | inr e ↦ elim (Bool-cases (round o arrival c).terminal) [
      | inl f ↦ rejected-answered arrival arrivals c t e f
      | inr f ↦ went_on arrival arrivals c t e f (run_loop-answered arrivals (round o arrival c) f)
    ]
  ]

  -- The same of the whole run, which is no loop where the session could not start.
  abbrev pub RunAnswers : List Arrival → Chat R → Chat R → Type 0
  RunAnswers arrivals c d =
      Answers (callers (wakes_of arrivals)) c d
      ⊎ ((c.startup_error ≡ none)
          × ((at_stop arrivals (show waiting c)).terminal ≡ false)
          × (d.terminal ≡ true)
          × (done : List ℕ) × (rest : List ℕ) × (asked_after arrivals ≡ done ++ rest)
          × Answers (asked_before arrivals ++ done) c d)

  -- From a session that runs, whatever arrives and whatever the disk, the clock and the providers
  -- answer: when the conductor is done, everyone who asked for an acknowledgement has got exactly
  -- one, in the order in which they asked, also where the session could not start or ended in the
  -- middle. There is one exception: where the session still ran when it was told to stop, and ended
  -- while it was stopping, all who had asked before that have got theirs, and of those who asked
  -- later the last may have got none.
  pub run-answered :
      (arrivals : List Arrival) (c : Chat R)
      → c.terminal ≡ false
      → RunAnswers arrivals c (run o arrivals c)
  unfolding run
  run-answered arrivals c t =
      let wakes = wakes_of arrivals in
      option-cases (RunAnswers arrivals c) c.startup_error
        (λ e. elim (run_loop-answered arrivals (show waiting c) t) [
          | inl a ↦ inl a
          | inr (u, k, done, rest, q, a) ↦ inr (e, u, k, done, rest, q, a)
        ])
        (λ error e.
          let x = record c { startup_error = none } in
          let d = publish (persistence_failed o "opening durable session state" error x) in
          let q = gives_up o c.answered "opening durable session state" error x refl in
          let k : Answers [] c d = nobody c d q.1 in
          let done = reject_waiters "session persistence failed" wakes d in
          inl (later [] (callers wakes) c d done k (reject_waiters-answered _ wakes d)))
