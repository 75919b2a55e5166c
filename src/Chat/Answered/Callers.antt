-- ===== src/Chat/Answered/Callers.antt =====
-- Who waits for an acknowledgement, and who got one between two states of the conductor.
use silicon_omni.Prelude.{
  ℕ, String, ◌≡◌, refl, sym, ap, ◌∙◌, ◌⊎◌, true, List, [], ◌∷◌, ◌++◌, append_assoc, append-nil,
  arith,
}
use silicon_omni.Result.{Result}
use silicon_omni.Chat.{Chat}
use silicon_omni.Chat.Ending.{
  Wake, wake_launch, launch_ready, send, send_durable, heard, set, configure, wake_stop, answer,
  reject, reject_waiters,
}
use silicon_omni.Chat.Conductor.{Arrival, arrived, timed_out, wakes_of}

abbrev pub caller : Wake → List ℕ
caller (send_durable text ack) = ack ∷ []
caller (configure changes ack) = ack ∷ []
caller (launch_ready ack) = ack ∷ []
caller _ = []

-- Those who wait for an acknowledgement, in the order in which they asked.
abbrev pub callers : List Wake → List ℕ
callers [] = []
callers (wake ∷ wakes) = caller wake ++ callers wakes

abbrev pub caller_of : Arrival → List ℕ
caller_of (arrived wake) = caller wake
caller_of timed_out = []

abbrev pub acks : List (ℕ × Result String (Unit {0})) → List ℕ
acks [] = []
acks ((ack, result) ∷ answered) = ack ∷ acks answered

acks-append :
    (xs : List (ℕ × Result String (Unit {0}))) (ack : ℕ) (result : Result String (Unit {0}))
    → acks (xs ++ ((ack, result) ∷ [])) ≡ acks xs ++ (ack ∷ [])
acks-append [] ack result = refl
acks-append ((a, r) ∷ xs) ack result = ap (λ ys. a ∷ ys) (acks-append xs ack result)

pub callers-arrivals :
    (arrival : Arrival) (arrivals : List Arrival)
    → callers (wakes_of (arrival ∷ arrivals)) ≡ caller_of arrival ++ callers (wakes_of arrivals)
callers-arrivals (arrived wake) arrivals = refl
callers-arrivals timed_out arrivals = refl

module _ {R : Type 0} where
  -- Between the two states exactly `who` were answered, in that order.
  abbrev pub Answers : List ℕ → Chat R → Chat R → Type 0
  Answers who c d = acks d.answered ≡ acks c.answered ++ who

  -- The same, or the session has ended and the last of them were not answered.
  abbrev pub AnswersOrEnds : List ℕ → Chat R → Chat R → Type 0
  AnswersOrEnds who c d =
      Answers who c d
      ⊎ ((d.terminal ≡ true)
          × (done : List ℕ) × (rest : List ℕ) × (who ≡ done ++ rest)
          × Answers done c d)

  pub nobody : (c d : Chat R) → d.answered ≡ c.answered → Answers [] c d
  nobody c d e = ap acks e ∙ sym (append-nil (acks c.answered))

  pub somebody :
      (ack : ℕ) (result : Result String (Unit {0})) (c d : Chat R)
      → d.answered ≡ c.answered
      → Answers (ack ∷ []) c (answer ack result d)
  somebody ack result c d e = rw e (acks-append c.answered ack result)

  pub later :
      (who others : List ℕ) (c d e : Chat R)
      → Answers who c d
      → Answers others d e
      → Answers (who ++ others) c e
  later who others c d e h k = ground (arith, h, k, append_assoc (acks c.answered) who others)

  pub reject-answered :
      (why : String) (wake : Wake) (c : Chat R) → Answers (caller wake) c (reject why wake c)
  reject-answered why (heard event) c = nobody c c refl
  reject-answered why (send_durable text ack) c = somebody ack _ c c refl
  reject-answered why (configure changes ack) c = somebody ack _ c c refl
  reject-answered why (launch_ready ack) c = somebody ack _ c c refl
  reject-answered why wake_launch c = nobody c c refl
  reject-answered why (send text) c = nobody c c refl
  reject-answered why (set change) c = nobody c c refl
  reject-answered why wake_stop c = nobody c c refl

  pub reject_waiters-answered :
      (why : String) (wakes : List Wake) (c : Chat R)
      → Answers (callers wakes) c (reject_waiters why wakes c)
  unfolding reject_waiters
  reject_waiters-answered why [] c = nobody c c refl
  reject_waiters-answered why (wake ∷ wakes) c =
      let d = reject why wake c in
      later (caller wake) (callers wakes) c d (reject_waiters why wakes d)
        (reject-answered why wake c) (reject_waiters-answered why wakes d)
