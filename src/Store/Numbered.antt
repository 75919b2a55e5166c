-- ===== src/Store/Numbered.antt =====
-- The positions of the events of a store.
use native.Mathlib.Nat.{add-zero, zero-add}
use silicon_omni.Prelude.{
  ℕ, suc, ◌+◌, String, pos, succ, eqb_ℤ_iff, ◌≡◌, ◌≢◌, refl, ap, sym, subst, ◌∙◌, ◌⊎◌, inl, inr,
  Option, none, some, List, [], ◌∷◌, ◌++◌, length, get_last?, eq_iff, arith, Option-cases,
}
use silicon_omni.Events.{Event, schema_version}
use silicon_omni.Events.Serial.{from_value}
use silicon_omni.Jsonl.{Bytes, Codec}
use silicon_omni.Jsonl.Read.{Reading, Record, read_checked}
use silicon_omni.Jsonl.Write.{Opening, Writing}
use silicon_omni.Store.{
  Store, Checked, good, bad, expected, check, load, open_store, seq, stamped, append,
}

-- What a store holds of one event at the position `n` of the session `session_id`.
pub record IsEntry (session_id : String) (n : ℕ) (e : Event) : Type 0 where
  pub version : e.v ≡ schema_version
  pub named : e.event_type ≢ ""
  pub position : e.seq ≡ pos n
  pub own : (e.session ≡ "") ⊎ (e.session ≡ session_id)

-- Entries at the positions from `n` on.
abbrev pub IsLog : String → ℕ → List Event → Type 0
IsLog session_id n [] = Unit {0}
IsLog session_id n (e ∷ es) = IsEntry session_id n e × IsLog session_id (suc n) es

suc_add : (n m : ℕ) → n + suc m ≡ suc n + m
suc_add n m = omega arith

pub IsLog-append :
    (id : String) (n : ℕ) (es : List Event) (e : Event)
    → IsLog id n es
    → IsEntry id (n + length es) e
    → IsLog id n (es ++ (e ∷ []))
IsLog-append id n [] e h k = (rw add-zero at k, tt)
IsLog-append id n (x ∷ es) e h k =
    (h.0, IsLog-append id (suc n) es e h.1 (subst (λ m. IsEntry id m e) (suc_add n (length es)) k))

last_entry :
    (id : String) (n : ℕ) (e : Event) (es : List Event)
    → IsLog id n (e ∷ es)
    → (x : Event) × (get_last? (e ∷ es) ≡ some x) × (x.seq ≡ pos (n + length es))
last_entry id n e [] h = (e, refl, rw add-zero h.0.position)
last_entry id n e (x ∷ es) h =
    let (y, l, p) = last_entry id (suc n) x es h.1 in (y, l, p ∙ ap pos (omega arith))

pub expected_lem : (id : String) (es : List Event) → IsLog id 0 es → expected es ≡ pos (length es)
unfolding expected
expected_lem id [] h = refl
expected_lem id (e ∷ es) h = let (y, l, p) = last_entry id 0 e es h in ground (arith, l, p)

-- An event that passes the checks of `open` continues the log.
check-IsEntry :
    (id : String) (es : List Event) (r : Record) {e : Event}
    → IsLog id 0 es
    → check id es r ≡ good e
    → IsEntry id (length es) e
unfolding check
check-IsEntry id es r {e} h k = elim (Option-cases (from_value r.value)) [
  | inl none_read ↦ absurd (cc)
  | inr (x, read) ↦ grind (arith, expected_lem id es h, eqb_ℤ_iff, eq_iff)
]

pub load-IsLog :
    (id : String) (es : List Event) (rs : List Record)
    → IsLog id 0 es
    → IsLog id 0 (load id es rs).0
unfolding load
load-IsLog id es [] h = h
load-IsLog id es (r ∷ rs) h = go (λ es'. load-IsLog id es' rs) (check id es r) refl
  where
    go :
        ((es' : List Event) → IsLog id 0 es' → IsLog id 0 (load id es' rs).0)
        → (k : Checked) → check id es r ≡ k
        → IsLog id 0 (load id es (r ∷ rs)).0
    go rest (bad error) e = rw (e, load) h
    go rest (good event) e =
        let entry =
          subst (λ m. IsEntry id m event) (sym (zero-add (length es)))
            (check-IsEntry id es r h e) in
        rw (e, load) (rest (es ++ (event ∷ [])) (IsLog-append id 0 es event h entry))

module _ (c : Codec) where
  -- Whatever the file holds, the events of an opened store are numbered from zero with no gap,
  -- have the known schema and a type, and belong to the session.
  pub open_store-IsLog :
      (reading : Reading) (id : String) (file : Option Bytes)
      → IsLog id 0 (open_store c reading id file).events
  unfolding open_store
  open_store-IsLog reading id file = load-IsLog id [] (read_checked c reading file).records tt

  -- What the caller of `append` hands over.
  pub record IsFresh (s : Store) (event : Event) : Type 0 where
    pub version : event.v ≡ schema_version
    pub named : event.event_type ≢ ""
    pub own : (event.session ≡ "") ⊎ (event.session ≡ s.session_id)

  seq_lem : (s : Store) → IsLog s.session_id 0 s.events → succ (seq s) ≡ pos (length s.events)
  unfolding seq
  seq_lem s h = go s.events refl h
    where
      go :
          (es : List Event)
          → s.events ≡ es
          → IsLog s.session_id 0 es
          → succ (seq s) ≡ pos (length s.events)
      go [] e h = ground arith
      go (x ∷ es) e h = let (y, l, p) = last_entry s.session_id 0 x es h in ground (arith, l, p)

  -- An append saves the event at the next position, or changes no event and gives none back.
  pub append_cases :
      (o : Opening) (w : Writing) (s : Store) (event : Event)
      → (((append c o w s event).1 ≡ none) × ((append c o w s event).0.events ≡ s.events))
        ⊎ (((append c o w s event).1 ≡ some (stamped s event))
            × ((append c o w s event).0.events ≡ s.events ++ (stamped s event ∷ [])))
  unfolding append
  append_cases o w s event = ground arith

  pub stamped-IsEntry :
      (s : Store) (event : Event)
      → IsLog s.session_id 0 s.events
      → IsFresh s event
      → IsEntry s.session_id (length s.events) (stamped s event)
  unfolding stamped
  stamped-IsEntry s event h f = ground (arith, seq_lem s h)

  -- From a numbered log, an append either saves the event at the next position, which is the
  -- number of events so far, or takes no position; the log stays numbered.
  pub append-IsLog :
      (o : Opening) (w : Writing) (s : Store) (event : Event)
      → IsLog s.session_id 0 s.events
      → IsFresh s event
      → IsLog s.session_id 0 (append c o w s event).0.events
        × ((((append c o w s event).1 ≡ none) × ((append c o w s event).0.events ≡ s.events))
            ⊎ ((e : Event) × ((append c o w s event).1 ≡ some e)
                × ((append c o w s event).0.events ≡ s.events ++ (e ∷ []))
                × (e.seq ≡ pos (length s.events))))
  append-IsLog o w s event h f =
      let entry = stamped-IsEntry s event h f in
      elim (append_cases o w s event) [
        | inl (failed, same) ↦ (rw same h, inl (failed, same))
        | inr (saved, longer) ↦ (
          rw longer (
              IsLog-append s.session_id 0 s.events (stamped s event) h (
                subst (λ m. IsEntry s.session_id m (stamped s event))
                  (sym (zero-add (length s.events))) entry)),
          inr (stamped s event, saved, longer, entry.position),
        )
      ]
