-- ===== src/Chat/Heard.antt =====
-- What is watched of the listeners of a session and of its log.
pub mod Runs
use silicon_omni.Prelude.{
  ℕ, String, ℤ, minus_one, ◌≡◌, refl, sym, ap, ◌∙◌, ◌⊎◌, inl, inr, Bool, true, false, Option, none,
  some, List, [], ◌∷◌, ◌++◌, append_assoc, append-nil, arith, if-cases, bool-cases, option-cases,
  Bool-cases, Option-cases,
}
use silicon_omni.Result.{Result, ok, err}
use silicon_omni.Events.{Event, new, failure, from, about}
use silicon_omni.Jsonl.{Bytes, Codec}
use silicon_omni.Jsonl.Write.{Opening, Writing, Appender}
use silicon_omni.Store.{Store, append, stamped}
use silicon_omni.Store.Numbered.{append_cases}
use silicon_omni.Meta.{Meta, Status, saved, failed, panicked}
use silicon_omni.Chat.{Chat, Outside, waiting}
use silicon_omni.Chat.Settings.{apply_all}
use silicon_omni.Chat.Recovering.{is_compacting}
use silicon_omni.Chat.Recording.{
  show, called, kept, record_event, appended, persistence_failed, give_up, notice, publish,
  attributed, cleared, stop_all_parked, take_runner,
}
use silicon_omni.Chat.Ending.{
  Wake, wake_launch, launch_ready, send, send_durable, heard, set, configure, wake_stop, answer,
  reject, reject_waiters, shutdown,
}
use silicon_omni.Chat.Conductor.{
  Arrival, arrived, timed_out, wakes_of, stops, round, handle, launch_and_answer, accept,
  configured, run_loop, run,
}
use silicon_omni.Chat.Watch.{Same, Watch, Answering, Ends, Recorded}
use silicon_omni.Chat.Watch.Rules.{same, same_trans, same_stop_parked, same_take_runner, Kept}
use silicon_omni.Chat.Watch.Endings.{run-Kept}

-- An append adds the event that it returns to the events of the log, or leaves them as they were.
abbrev Added : Store → Store × Option Event → Type 0
Added s (s', none) = s'.events ≡ s.events
Added s (s', some e) = s'.events ≡ s.events ++ (e ∷ [])

append-Added :
    (logs : Codec) (o : Opening) (w : Writing) (s : Store) (e : Event)
    → Added s (append logs o w s e)
append-Added logs o w s e = go (append logs o w s e) (append_cases logs o w s e)
  where
    go :
        (r : Store × Option Event)
        → ((r.1 ≡ none) × (r.0.events ≡ s.events))
          ⊎ ((r.1 ≡ some (stamped s e)) × (r.0.events ≡ s.events ++ (stamped s e ∷ [])))
        → Added s r
    go (t, none) h = ground (arith, h)
    go (t, some x) h = ground (arith, h)

module _ {R : Type 0} (base : List Event) where
  -- All that was recorded since the log was `base` has been or will be told to the listeners.
  abbrev pub IsTold : Chat R → Type 0
  IsTold c = (c.terminal ≡ false) × (c.store.events ≡ base ++ (c.published ++ c.pending))

  -- The listeners are told, last, that the session ends.
  abbrev pub IsOver : Chat R → Type 0
  IsOver c =
      (c.terminal ≡ true)
      × (saved : List Event) × (last : Event) × (c.published ++ c.pending ≡ saved ++ (last ∷ []))
      × (last.seq ≡ minus_one)
      × (c.store.events ≡ base ++ saved)

  told_same : (c d : Chat R) → Same c d → IsTold c → IsTold d
  told_same c d s h = ground (arith, s, h)

  over_same : (c d : Chat R) → Same c d → IsOver c → IsOver d
  over_same c d s (t, kept, last, p, q, r) =
      (ground (arith, s, t), kept, last, ground (arith, s, p), q, ground (arith, s, r))

module _ {R : Type 0} (o : Outside R) (base : List Event) where
  quiet_same :
      (c : Chat R)
      → Same
          (record c { terminal = true })
          (stop_all_parked o
            (take_runner o c.runner (record c { terminal = true; stopping = true })))
  quiet_same c =
      let a = record c { terminal = true; stopping = true } in
      let b = take_runner o c.runner a in
      same_trans a b (stop_all_parked o b) (same_take_runner o c.runner a)
        (same_stop_parked o b.parked (record b { parked = [] }))

  gives_up :
      (action error : String) (c : Chat R)
      → IsTold base c
      → IsOver base (persistence_failed o action error c)
  unfolding persistence_failed failure new from about
  gives_up action error c (t, h) =
      let q = quiet_same c in
      rw t (
        sym q.5,
        c.published ++ c.pending,
        notice o action error c,
        ground (arith, q, append_assoc c.published c.pending (notice o action error c ∷ [])),
        refl,
        ground (arith, q, h),
      )

  appended-Recorded :
      (c : Chat R) (r : Store × Option Event)
      → IsTold base c
      → Added c.store r
      → Recorded (IsTold base) (IsOver base) (appended o c r)
  unfolding appended Recorded
  appended-Recorded c (s, none) (t, h) e =
      gives_up _ _ (called (record c { store = s })) (t, ground (arith, h, e))
  appended-Recorded c (s, some event) (t, h) e = (
    t,
    ground (
      arith,
      h,
      e,
      append_assoc c.published c.pending (event ∷ []),
      append_assoc base (c.published ++ c.pending) (event ∷ []),
    ),
  )

  records :
      (event : Event) (c : Chat R)
      → IsTold base c
      → Recorded (IsTold base) (IsOver base) (record_event o event c)
  unfolding record_event
  records event c h = appended-Recorded c _ h (append-Added _ _ _ c.store (attributed o c event))

  -- The invariant says nothing of the metadata and the queues, so an operation on them keeps it.
  kept_told :
      {P : Chat R → Type 0}
      → ((d : Chat R) → IsTold base d → P d)
      → (r : Meta × Status) (c : Chat R) → IsTold base c
      → Ends P (IsTold base) (kept r c)
  unfolding kept Ends
  kept_told k (m, saved) c h = k _ h
  kept_told k (m, failed) c h = h
  kept_told k (m, panicked) c h = h

  pub telling : Watch o
  telling = record {
    Live = IsTold base;
    Torn = IsTold base;
    Over = IsOver base;
    Fresh = λ c id. Unit;
    live_same = told_same base;
    torn_same = told_same base;
    over_same = over_same base;
    live_runs = λ c h. h.0;
    over_ended = λ c h. h.0;
    fresh_id = λ c h. tt;
    fresh_same = λ c d id s h. tt;
    gives_up = gives_up;
    torn_meta = λ m c h. h;
    records = records;
    publishes = λ c h. (h.0, ground (arith, h, append-nil (c.published ++ c.pending)));
    publishes_over = λ c (t, kept, last, p, q, r).
        (t, kept, last, ground (arith, p, append-nil (c.published ++ c.pending)), q, r);
    binds = λ name id c. kept_told (λ d h. h) _ c;
    marks = λ name seq c. kept_told (λ d h. h) _ c;
    sets = λ key value c. kept_told (λ d h. h) _ c;
    enqueues = λ text c. kept_told (λ d h. h) _ c;
    delivers = λ message messages c h e. kept_told (λ d k. k) _ c h;
    confirms = λ message messages c h e. kept_told (λ d k. k) _ c h;
    retries = λ c. kept_told (λ d h. h) _ c;
    recovers = λ state since message old c h fresh. kept_told (λ d k. k) _ c h;
    requeues = λ c h. h;
    awaits = λ message messages c h e. h;
  }

  pub telling_answers : Answering telling
  unfolding telling
  telling_answers = record { answers = λ ack result c h. h; answers_over = λ ack result c h. h }
