-- ===== src/Chat/Watch/Rules.antt =====
-- The rules by which an invariant is followed through the conductor's code: early returns,
-- snapshots, runners that are stopped, and operations on the metadata.
use silicon_omni.Prelude.{
  String, ◌≡◌, ◌⊎◌, inl, inr, refl, Bool, true, false, Option, none, some, List, [], ◌∷◌, is_some,
  arith, Bool-cases,
}
use silicon_omni.Result.{Result, ok, err}
use silicon_omni.Events.{Event}
use silicon_omni.Events
use silicon_omni.Chat.{Chat, Outside, Parked}
use silicon_omni.Chat.Recording.{
  with_success, then_do, then_ok, called, stop, stop_parked, take_runner, or_fail, recorded,
  record_event, blocked, publish,
}
use silicon_omni.Chat.Launching.{Outcome, or_lost}
use silicon_omni.Chat.Watch.{Same, Watch, Ends, Recorded}

module _ {R : Type 0} where
  -- A record that differs in nothing that is watched.
  pub same : (c : Chat R) → Same c c
  same c = (refl, refl, refl, refl, refl, refl, refl, refl, omega arith, refl)

  pub same_called : (c : Chat R) → Same c (called c)
  same_called c = (refl, refl, refl, refl, refl, refl, refl, refl, omega arith, refl)

  pub same_twice : (c : Chat R) → Same c (called (called c))
  same_twice c = (refl, refl, refl, refl, refl, refl, refl, refl, omega arith, refl)

  pub same_trans : (c d e : Chat R) → Same c d → Same d e → Same c e
  same_trans c d e h k = ground (arith, h, k)

module _ {R : Type 0} (o : Outside R) where
  pub same_stop : (r : R) (c : Chat R) → Same c (stop o r c)
  same_stop r c = same_called c

  pub same_take_runner : (r : Option R) (c : Chat R) → Same c (take_runner o r c)
  same_take_runner none c = same c
  same_take_runner (some r) c = elim (Bool-cases c.in_turn) [
    | inl e ↦ rw e (same_twice c)
    | inr e ↦ rw e (same_called c)
  ]

  pub same_stop_parked :
      (parked : List (String × Parked R)) (c : Chat R) → Same c (stop_parked o parked c)
  same_stop_parked [] c = same c
  same_stop_parked ((name, p) ∷ parked) c =
      let d = stop o p.runner c in
      same_trans c d (stop_parked o parked d) (same_called c) (same_stop_parked parked d)

  module _ (w : Watch o) where
    abbrev pub Kept : Chat R → Type 0
    Kept c = w.Live c ⊎ w.Over c

    pub Good : Chat R × Bool → Type 0
    Good (c, true) = w.Live c
    Good (c, false) = Kept c

    pub Gives : {A : Type 0} → Chat R × Option A → Type 0
    Gives (c, some a) = w.Live c
    Gives (c, none) = Kept c

    pub Comes : {A : Type 0} → Chat R × Result String A → Type 0
    Comes (c, ok a) = w.Live c
    Comes (c, err e) = Kept c

    pub good : (c : Chat R) → w.Live c → Good (c, true)
    unfolding Good
    good c h = h

    pub not_good : (c : Chat R) → Kept c → Good (c, false)
    unfolding Good
    not_good c h = h

    pub gives : {A : Type 0} (c : Chat R) (a : A) → w.Live c → Gives (c, some a)
    unfolding Gives
    gives c a h = h

    pub Gives-none : (A : Type 0) (c : Chat R) → Kept c → Gives {A = A} (c, none)
    unfolding Gives
    Gives-none A c h = h

    pub comes : {A : Type 0} (c : Chat R) (a : A) → w.Live c → Comes (c, ok a)
    unfolding Comes
    comes c a h = h

    pub Comes-err : (A : Type 0) (c : Chat R) (e : String) → Kept c → Comes {A = A} (c, err e)
    unfolding Comes
    Comes-err A c e h = h

    pub Kept-same : (c d : Chat R) → Same c d → Kept c → Kept d
    Kept-same c d s (inl h) = inl (w.live_same c d s h)
    Kept-same c d s (inr h) = inr (w.over_same c d s h)

    pub then_do-Kept :
        (r : Chat R × Bool) (next : Chat R → Chat R)
        → Good r
        → ((d : Chat R) → w.Live d → Kept (next d))
        → Kept (then_do r next)
    unfolding then_do Good
    then_do-Kept (c, true) next h k = k c h
    then_do-Kept (c, false) next h k = h

    pub then_ok-Good :
        (r : Chat R × Bool) (next : Chat R → Chat R × Bool)
        → Good r
        → ((d : Chat R) → w.Live d → Good (next d))
        → Good (then_ok r next)
    unfolding then_ok Good
    then_ok-Good (c, true) next h k = k c h
    then_ok-Good (c, false) next h k = h

    pub or_lost-Comes :
        (r : Chat R × Bool) (next : Chat R → Outcome R)
        → Good r
        → ((d : Chat R) → w.Live d → Comes (next d))
        → Comes (or_lost r next)
    unfolding or_lost Good Comes
    or_lost-Comes (c, true) next h k = k c h
    or_lost-Comes (c, false) next h k = h

    pub Good-live : (c : Chat R) → Good (c, true) → w.Live c
    unfolding Good
    Good-live c h = h

    pub Gives-live : {A : Type 0} (c : Chat R) (a : A) → Gives (c, some a) → w.Live c
    unfolding Gives
    Gives-live c a h = h

    pub Gives-Kept : (A : Type 0) (c : Chat R) → Gives {A = A} (c, none) → Kept c
    unfolding Gives
    Gives-Kept A c h = h

    pub Comes-live : {A : Type 0} (c : Chat R) (a : A) → Comes (c, ok a) → w.Live c
    unfolding Comes
    Comes-live c a h = h

    pub Comes-Kept : (A : Type 0) (c : Chat R) (e : String) → Comes {A = A} (c, err e) → Kept c
    unfolding Comes
    Comes-Kept A c e h = h

    pub Good-Kept : (r : Chat R × Bool) → Good r → Kept r.0
    unfolding Good
    Good-Kept (c, true) h = inl h
    Good-Kept (c, false) h = h

    -- A failed operation on the metadata ends the session.
    pub guarded_then :
        {P : Chat R → Type 0}
        → (action : String) (r : Chat R × Bool) (next : Chat R → Chat R × Bool) → Ends P w.Torn r
        → ((d : Chat R) → P d → Good (next d))
        → Good (then_ok (or_fail o action r) next)
    unfolding then_ok or_fail Ends Good
    guarded_then action (c, true) next h k = k c h
    guarded_then action (c, false) next h k = inr (w.gives_up action (o.error c.calls) c h)

    pub guarded-Good :
        (action : String) (r : Chat R × Bool) → Ends w.Live w.Torn r → Good (or_fail o action r)
    unfolding or_fail Ends Good
    guarded-Good action (c, true) h = h
    guarded-Good action (c, false) h = inr (w.gives_up action (o.error c.calls) c h)

    pub recorded_from : (r : Chat R × Option Event) → Recorded w.Live w.Over r → Gives r
    unfolding Recorded Gives
    recorded_from (c, none) h = inr h
    recorded_from (c, some e) h = h

    pub record_event-Gives :
        (event : Event) (c : Chat R) → w.Live c → Gives (record_event o event c)
    record_event-Gives event c h = recorded_from (record_event o event c) (w.records event c h)

    pub recorded-Good : (event : Event) (c : Chat R) → w.Live c → Good (recorded o event c)
    unfolding Good with_success Recorded
    recorded-Good event c h = go (record_event o event c) (w.records event c h)
      where
        go : (r : Chat R × Option Event) → Recorded w.Live w.Over r → Good (r.0, is_some r.1)
        go (d, none) k = inr k
        go (d, some e) k = k

    pub blocked-Kept : (why : String) (c : Chat R) → w.Live c → Kept (blocked o why c)
    blocked-Kept why c h =
        then_do-Kept (recorded o (Events.failure (o.now c.calls) "crash" why) c) _
          (recorded-Good _ c h) (λ d k. inl (w.live_same d _ (same d) k))

    pub publish-Kept : (c : Chat R) → Kept c → Kept (publish c)
    publish-Kept c (inl h) = inl (w.publishes c h)
    publish-Kept c (inr h) = inr (w.publishes_over c h)

    pub still_live : (c : Chat R) → Kept c → c.terminal ≡ false → w.Live c
    still_live c (inl h) e = h
    still_live c (inr h) e = absurd (ground (arith, w.over_ended c h, e))
