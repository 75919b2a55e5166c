-- ===== src/Chat/Answered.antt =====
-- What is watched of those who wait for an acknowledgement.
pub mod Callers
pub mod Rounds
pub mod Runs
use silicon_omni.Prelude.{
  ℕ, String, ◌≡◌, refl, sym, Bool, true, false, Option, none, some, List, [], ◌∷◌, ◌++◌, arith,
  if-cases,
}
use silicon_omni.Result.{Result, ok, err}
use silicon_omni.Events.{Event}
use silicon_omni.Store.{Store, append}
use silicon_omni.Meta.{Meta, Status, saved, failed, panicked}
use silicon_omni.Chat.{Chat, Outside}
use silicon_omni.Chat.Recording.{
  called, kept, record_event, appended, persistence_failed, attributed, stop_all_parked,
  take_runner,
}
use silicon_omni.Chat.Watch.{Same, Watch, Ends, Recorded}
use silicon_omni.Chat.Watch.Rules.{same_trans, same_stop_parked, same_take_runner}

module _ {R : Type 0} (base : List (ℕ × Result String (Unit {0}))) where
  abbrev pub IsQuiet : Bool → Chat R → Type 0
  IsQuiet ended c = (c.terminal ≡ ended) × (c.answered ≡ base)

  -- Nobody was answered, and the session may have ended or not.
  abbrev pub IsSilent : Chat R → Type 0
  IsSilent c = c.answered ≡ base

module _ {R : Type 0} (o : Outside R) (base : List (ℕ × Result String (Unit {0}))) where
  gives_up :
      (action error : String) (c : Chat R)
      → IsSilent base c
      → IsQuiet base true (persistence_failed o action error c)
  unfolding persistence_failed
  gives_up action error c h =
      if-cases (IsQuiet base true) c.terminal (λ e. (e, h))
        (λ e.
          let a = record c { terminal = true; stopping = true } in
          let b = take_runner o c.runner a in
          let s =
            same_trans a b (stop_all_parked o b) (same_take_runner o c.runner a)
              (same_stop_parked o b.parked (record b { parked = [] })) in
          (ground (arith, s), ground (arith, s, h)))

  appended-Recorded :
      (c : Chat R) (r : Store × Option Event)
      → IsQuiet base false c
      → Recorded (IsQuiet base false) (IsQuiet base true) (appended o c r)
  unfolding appended Recorded
  appended-Recorded c (s, none) (t, h) = gives_up _ _ (called (record c { store = s })) h
  appended-Recorded c (s, some event) h = h

  records :
      (event : Event) (c : Chat R)
      → IsQuiet base false c
      → Recorded (IsQuiet base false) (IsQuiet base true) (record_event o event c)
  unfolding record_event
  records event c h =
      appended-Recorded c
        (append o.logs (o.opening c.calls) (o.writing c.calls) c.store (attributed o c event)) h

  kept_quiet :
      {P : Chat R → Type 0}
      → ((d : Chat R) → IsQuiet base false d → P d)
      → (r : Meta × Status) (c : Chat R) → IsQuiet base false c
      → Ends P (IsSilent base) (kept r c)
  unfolding kept Ends
  kept_quiet k (m, saved) c h = k _ h
  kept_quiet k (m, failed) c h = h.1
  kept_quiet k (m, panicked) c h = h.1

  pub silent : Watch o
  silent = record {
    Live = IsQuiet base false;
    Torn = IsSilent base;
    Over = IsQuiet base true;
    Fresh = λ c id. Unit;
    live_same = λ c d s h. ground (arith, s, h);
    torn_same = λ c d s h. ground (arith, s, h);
    over_same = λ c d s h. ground (arith, s, h);
    live_runs = λ c h. h.0;
    over_ended = λ c h. h.0;
    fresh_id = λ c h. tt;
    fresh_same = λ c d id s h. tt;
    gives_up = gives_up;
    torn_meta = λ m c h. h;
    records = records;
    publishes = λ c h. h;
    publishes_over = λ c h. h;
    binds = λ name id c. kept_quiet (λ d h. h) _ c;
    marks = λ name seq c. kept_quiet (λ d h. h) _ c;
    sets = λ key value c. kept_quiet (λ d h. h) _ c;
    enqueues = λ text c. kept_quiet (λ d h. h) _ c;
    delivers = λ message messages c h e. kept_quiet (λ d k. k) _ c h;
    confirms = λ message messages c h e. kept_quiet (λ d k. k) _ c h;
    retries = λ c. kept_quiet (λ d h. h) _ c;
    recovers = λ state since message old c h fresh. kept_quiet (λ d k. k) _ c h;
    requeues = λ c h. h;
    awaits = λ message messages c h e. h;
  }
