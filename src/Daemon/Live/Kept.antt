-- ===== src/Daemon/Live/Kept.antt =====
-- Who listens to a session, through attaching and detaching.
use silicon_omni.Prelude.{
  ℕ, ℤ, ◌≡◌, ◌≢◌, refl, sym, ap, ◌∙◌, ◌⊎◌, inl, inr, Bool, true, false, not, ◌||◌, Option, none,
  List, [], ◌∷◌, ◌++◌, select, ◌==◌, ==_iff, All, arith, Bool-cases,
}
use silicon_omni.Store.{Store}
use silicon_omni.Daemon.Wiring.{Connection, Listener, Attempt}
use silicon_omni.Daemon.Live.{Live, others, if_alone, subscribe, attach, is_stopped, detach}

-- No connection listens twice.
abbrev pub IsDistinct : List Listener → Type 0
IsDistinct [] = Unit
IsDistinct (l ∷ ls) = All (λ (m : Listener). m.conn.id ≢ l.conn.id) ls × IsDistinct ls

-- No connection listens twice, and the session counts as left alone only if nobody listens.
pub record IsKept (live : Live) : Type 0 where
  pub distinct : IsDistinct live.listeners
  pub heard : (live.listeners ≡ []) ⊎ (live.alone_since ≡ none)

module _ (test : Listener → Bool) where
  All-select : (P : Listener → Type 0) (ls : List Listener) → All P ls → All P (select test ls)
  All-select P [] h = tt
  All-select P (l ∷ ls) h =
      elim (test l)
        as (λ b. All P (elim b [ true ↦ l ∷ select test ls | false ↦ select test ls ])) [
          | true ↦ (h.0, All-select P ls h.1)
          | false ↦ All-select P ls h.1
        ]

  IsDistinct-select : (ls : List Listener) → IsDistinct ls → IsDistinct (select test ls)
  IsDistinct-select [] h = tt
  IsDistinct-select (l ∷ ls) h =
      let fresh = All-select (λ (m : Listener). m.conn.id ≢ l.conn.id) ls h.0 in
      let rest = IsDistinct-select ls h.1 in
      elim (test l)
        as (λ b. IsDistinct (elim b [ true ↦ l ∷ select test ls | false ↦ select test ls ])) [
          | true ↦ (fresh, rest)
          | false ↦ rest
        ]

others-All : (id : ℕ) (ls : List Listener) → All (λ (m : Listener). m.conn.id ≢ id) (others id ls)
unfolding others
others-All id [] = tt
others-All id (l ∷ ls) = elim (Bool-cases (l.conn.id == id)) [
  | inl e ↦ rw (e, All) (others-All id ls)
  | inr e ↦ rw (e, All) ((λ p. ground (arith, ==_iff l.conn.id id)), others-All id ls)
]

IsDistinct-snoc :
    (l : Listener) (ls : List Listener)
    → All (λ (m : Listener). m.conn.id ≢ l.conn.id) ls
    → IsDistinct ls
    → IsDistinct (ls ++ (l ∷ []))
IsDistinct-snoc l [] fresh h = (tt, tt)
IsDistinct-snoc l (m ∷ ls) fresh h = (All-snoc ls h.0, IsDistinct-snoc l ls fresh.1 h.1)
  where
    All-snoc :
        (ms : List Listener)
        → All (λ (k : Listener). k.conn.id ≢ m.conn.id) ms
        → All (λ (k : Listener). k.conn.id ≢ m.conn.id) (ms ++ (l ∷ []))
    All-snoc [] k = ((λ e. fresh.0 (sym e)), tt)
    All-snoc (x ∷ ms) k = (k.0, All-snoc ms k.1)

if_alone_lem :
    (now : ℕ) (ls : List Listener) (since : Option ℕ)
    → (ls ≡ []) ⊎ (since ≡ none)
    → (ls ≡ []) ⊎ (if_alone now ls since ≡ none)
if_alone_lem now [] since h = inl refl
if_alone_lem now (l ∷ ls) since (inl e) = absurd (ground (arith, e))
if_alone_lem now (l ∷ ls) since (inr e) = inr e

others_heard :
    (id : ℕ) (ls : List Listener) (since : Option ℕ)
    → (ls ≡ []) ⊎ (since ≡ none)
    → (others id ls ≡ []) ⊎ (since ≡ none)
unfolding others
others_heard id ls since (inl e) = inl (ap (others id) e)
others_heard id ls since (inr e) = inr e

others_self : (l : Listener) → others l.conn.id (l ∷ []) ≡ []
unfolding others
others_self l = ground (arith, ==_iff l.conn.id l.conn.id)

others-IsDistinct : (id : ℕ) (ls : List Listener) → IsDistinct ls → IsDistinct (others id ls)
unfolding others
others-IsDistinct id ls h = IsDistinct-select _ ls h

joined_heard :
    (l : Listener) (ls : List Listener) (since : Option ℕ)
    → (ls ≡ []) ⊎ (since ≡ none)
    → (others l.conn.id (others l.conn.id ls ++ (l ∷ [])) ≡ []) ⊎ (since ≡ none)
unfolding others
joined_heard l ls since (inl e) = inl (
    ap (λ (ms : List Listener). others l.conn.id (others l.conn.id ms ++ (l ∷ []))) e
    ∙ others_self l)
joined_heard l ls since (inr e) = inr e

joined-IsDistinct :
    (l : Listener) (ls : List Listener)
    → IsDistinct ls
    → IsDistinct (others l.conn.id ls ++ (l ∷ []))
unfolding others
joined-IsDistinct l ls h =
    IsDistinct-snoc l (others l.conn.id ls) (others-All l.conn.id ls) (IsDistinct-select _ ls h)

-- After `detach` the connection does not listen, no connection listens twice, and the session
-- counts as left alone only if nobody listens, where the last two held before.
pub detach-IsKept :
    (now conn_id : ℕ) (live : Live)
    → IsKept live
    → IsKept (detach now conn_id live)
      × All (λ (m : Listener). m.conn.id ≢ conn_id) (detach now conn_id live).listeners
unfolding detach others
detach-IsKept now conn_id live h = (
  record {
    distinct = IsDistinct-select _ live.listeners h.distinct;
    heard =
        if_alone_lem now (others conn_id live.listeners) live.alone_since
          (others_heard conn_id live.listeners live.alone_since h.heard);
  },
  others-All conn_id live.listeners,
)

subscribe-IsKept :
    (now : ℕ) (closed : Bool) (l : Listener) (replayed : ℕ) (live : Live)
    → IsKept live
    → IsKept (subscribe now closed l replayed live).0
unfolding subscribe
subscribe-IsKept now closed l replayed live h =
    let all = others l.conn.id live.listeners ++ (l ∷ []) in
    let distinct = joined-IsDistinct l live.listeners h.distinct in
    elim (Bool-cases (closed || not l.conn.is_open)) [
      | inl e ↦
          rw (e, subscribe)
            (record {
              distinct = others-IsDistinct l.conn.id all distinct;
              heard =
                  if_alone_lem now (others l.conn.id all) live.alone_since
                    (joined_heard l live.listeners live.alone_since h.heard);
            })
      | inr e ↦ rw (e, subscribe) (record { distinct = distinct; heard = inr refl })
    ]

-- On every branch of `attach`, errors included, no connection listens twice afterwards, and the
-- session counts as left alone only if nobody listens, where both held before.
pub attach-IsKept :
    (now : ℕ) (closed : Bool) (tries : ℤ → List Attempt) (store : Store) (conn : Connection)
    (from : ℤ) (live : Live)
    → IsKept live
    → IsKept (attach now closed tries store conn from live).0
unfolding attach
attach-IsKept now closed tries store conn from live h = elim (Bool-cases (not conn.is_open)) [
  | inl e ↦ rw (e, attach) h
  | inr e ↦
      rw (e, attach)
        (elim (Bool-cases (is_stopped live)) [
          | inl stopped ↦ rw (stopped, attach) h
          | inr running ↦ rw (running, attach) (subscribe-IsKept now closed _ _ live h)
        ])
]
