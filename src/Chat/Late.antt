-- ===== src/Chat/Late.antt =====
-- What comes late from a provider that the chat has moved on from.
use silicon_omni.Prelude.{
  List, String, ℤ, pred_ℤ, ◌≡◌, ◌++◌, ◌∷◌, if◌then◌else◌, true, ◌&&◌, Option, none, some, [],
  is_some, ◌⊎◌,
}
use silicon_omni.Events.{Event, is, is_history, contains}
use silicon_omni.Events.EventType
use silicon_omni.Store.{Store, append}
use silicon_omni.Runner.{confirmed_type}
use silicon_omni.Chat.{Chat, Outside}
use silicon_omni.Chat.Recording.{settle, attributed}
use silicon_omni.Chat.Hearing.{said_by, once, repeated, lower_ceiling}

module _ {R : Type 0} where
  -- The two states differ at most in the log, in what listeners are still to be told, in the
  -- snapshot, in the count of calls, in the ceiling of the watermarks and in the notices that were
  -- made already.
  abbrev pub Unmoved : Chat R → Chat R → Type 0
  Unmoved c d = d ≡ record c {
    store = d.store;
    pending = d.pending;
    state = d.state;
    calls = d.calls;
    sync_ceiling = d.sync_ceiling;
    announced = d.announced;
  }

  -- The ceiling of the watermarks after the event was saved: what belongs to the history, and what
  -- the runner that is up did not say, holds it back.
  abbrev pub ceiling_after : Event → Chat R → Option ℤ
  ceiling_after event c =
      if is_history event && is_some c.runner
      then some (lower_ceiling c.sync_ceiling (pred_ℤ event.seq))
      else c.sync_ceiling

module _ {R : Type 0} (o : Outside R) where
  -- What the log does with the event.
  abbrev pub logged : Event → Chat R → Store × Option Event
  logged event c =
      append o.logs (o.opening c.calls) (o.writing c.calls) c.store (attributed o c event)

  -- The event is saved and told, and lowers the ceiling; or the disk fails. `notices` are the
  -- notices that were made then.
  abbrev Saved : List String → Store × Option Event → Chat R → Chat R → Type 0
  Saved notices r c d =
      ((e : Event) × (r.1 ≡ some e)
        × (d.store ≡ r.0)
        × (d.pending ≡ c.pending ++ (e ∷ []))
        × (d.state ≡ (settle (λ s. record s { seq = e.seq }) c).state)
        × (d.sync_ceiling ≡ ceiling_after e c)
        × (d.announced ≡ notices)
        × Unmoved c d)
      ⊎ ((r.1 ≡ none) × (d.terminal ≡ true))

  -- A notice that this provider made already.
  abbrev pub IsSaidBefore : Event → Chat R → Type 0
  IsSaidBefore event c =
      (is EventType.config event ≡ true)
      × (contains once event.text ≡ true)
      × (contains c.announced (said_by o event) ≡ true)

  -- What becomes of a late event.
  abbrev pub IsLate : Event → Chat R → Chat R → Type 0
  IsLate event c d =
      (IsSaidBefore event c × (d ≡ c))
      ⊎ ((is confirmed_type event ≡ true) × (d ≡ (repeated o event c).0))
      ⊎ Saved (repeated o event c).0.announced (logged event c) c d
