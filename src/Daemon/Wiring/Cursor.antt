-- ===== src/Daemon/Wiring/Cursor.antt =====
-- The cursor of a listener.
use silicon_omni.Prelude.{
  ℕ, suc, String, pos, leb_ℤ, ◌≡◌, refl, sym, ap, ◌∙◌, Bool, true, List, [], ◌∷◌, ◌++◌, select, map,
  arith, append_assoc, append-nil, length, ◌+◌, ◌≤◌, Bool-cases, inl, inr, ltb,
}
use silicon_omni.Events.{Event}
use silicon_omni.Store.Numbered.{IsLog}
use silicon_omni.Daemon.Wiring.{
  Snapshot, Frame, event_frame, Connection, taken, Listener, tell, frame, push,
}

-- A connection with another outbox, and a position.
abbrev pub with_outbox : Connection → List Frame → ℕ → Listener
with_outbox conn fs next = record { conn = record conn { outbox = fs }; next = pos next }

-- A way of sending that takes every frame while the connection is open.
abbrev pub IsOpenTo : (Frame → Connection → Connection × Bool) → Type 0
IsOpenTo send =
    (f : Frame) (conn : Connection) → conn.is_open ≡ true → send f conn ≡ (push f conn, true)

pub frame-IsOpenTo : IsOpenTo (frame taken)
unfolding frame
frame-IsOpenTo f conn h = rw h refl

module _ (send : Frame → Connection → Connection × Bool) (session : String)
    (snapshots : Event → Snapshot) where
  -- Telling events one after another.
  abbrev pub tell_all : List Event → Listener → Listener
  tell_all [] l = l
  tell_all (e ∷ es) l = tell_all es (tell send session e (snapshots e) l).0

  abbrev pub frames : List Event → List Frame
  frames = map (λ e. event_frame session e (snapshots e))

  -- A connection with some more frames, and a position.
  abbrev pub at : Connection → List Frame → ℕ → Listener
  at conn fs next = with_outbox conn (conn.outbox ++ fs) next

  tell_past :
      (e : Event) (n k : ℕ) (conn : Connection)
      → e.seq ≡ pos n
      → ltb n k ≡ true
      → (tell send session e (snapshots e) (record { conn = conn; next = pos k })).0
        ≡ record { conn = conn; next = pos k }
  tell_past e n k conn h past = ground (arith, h, past)

  tell_next :
      (e : Event) (n : ℕ) (conn : Connection)
      → IsOpenTo send
      → e.seq ≡ pos n
      → conn.is_open ≡ true
      → (tell send session e (snapshots e) (record { conn = conn; next = pos n })).0
        ≡ record { conn = push (event_frame session e (snapshots e)) conn; next = pos (suc n) }
  tell_next e n conn takes h up =
      ground (arith, h, takes (event_frame session e (snapshots e)) conn up)

  tell_all_next :
      (id : String) (n : ℕ) (es : List Event) (conn : Connection)
      → IsOpenTo send
      → IsLog id n es
      → conn.is_open ≡ true
      → tell_all es (record { conn = conn; next = pos n }) ≡ at conn (frames es) (n + length es)
  tell_all_next id n [] conn takes h up =
      rw (append-nil conn.outbox) (ap (with_outbox conn conn.outbox) (omega arith))
  tell_all_next id n (e ∷ es) conn takes h up =
      let f = event_frame session e (snapshots e) in
      ap (tell_all es) (tell_next e n conn takes h.0.position up)
      ∙ tell_all_next id (suc n) es (push f conn) takes h.1 up
      ∙ ap (λ (o : List Frame). with_outbox conn o (suc n + length es))
          (append_assoc conn.outbox (f ∷ []) (frames es))
      ∙ ap (with_outbox conn (conn.outbox ++ frames (e ∷ es))) (omega arith)

  select_later :
      (id : String) (n k : ℕ) (es : List Event)
      → IsLog id n es
      → k ≤ n
      → select (λ e. leb_ℤ (pos k) e.seq) es ≡ es
  select_later id n k [] h le = refl
  select_later id n k (e ∷ es) h le =
      ground (arith, h.0.position, le, select_later id (suc n) k es h.1 (omega (arith, le)))

  -- Of a numbered log that starts at the cursor or before it and reaches it, a listener whose
  -- connection takes every frame is told exactly the events from its cursor on, each once and in
  -- order, however much of the log it was told before; and its cursor ends after the last one.
  pub tell_all-IsLog :
      (id : String) (n k : ℕ) (es : List Event) (conn : Connection)
      → IsOpenTo send
      → IsLog id n es
      → conn.is_open ≡ true
      → n ≤ k
      → k ≤ n + length es
      → tell_all es (record { conn = conn; next = pos k }) ≡ record {
        conn = record conn {
          outbox = conn.outbox ++ frames (select (λ e. leb_ℤ (pos k) e.seq) es);
        };
        next = pos (n + length es);
      }
  tell_all-IsLog id n k [] conn takes h up le ge =
      rw (append-nil conn.outbox) (ap (with_outbox conn conn.outbox) (omega (arith, le, ge)))
  tell_all-IsLog id n k (e ∷ es) conn takes h up le ge = elim (Bool-cases (ltb n k)) [
    | inl past ↦
        let skip : select (λ x. leb_ℤ (pos k) x.seq) (e ∷ es)
            ≡ select (λ x. leb_ℤ (pos k) x.seq) es =
          ground (arith, h.0.position, past) in
        ap (tell_all es) (tell_past e n k conn h.0.position past)
        ∙ tell_all-IsLog id (suc n) k es conn takes h.1 up (ground (arith, past))
            (omega (arith, ge))
        ∙ ap (λ (s : List Event). with_outbox conn (conn.outbox ++ frames s) (suc n + length es))
            (sym skip)
        ∙ ap (with_outbox conn (conn.outbox ++ frames (select (λ x. leb_ℤ (pos k) x.seq) (e ∷ es))))
            (omega arith)
    | inr here ↦
        let same : n ≡ k = ground (arith, here, le) in
        ap (λ (j : ℕ). tell_all (e ∷ es) (record { conn = conn; next = pos j })) (sym same)
        ∙ tell_all_next id n (e ∷ es) conn takes h up
        ∙ ap (λ (s : List Event). with_outbox conn (conn.outbox ++ frames s) (n + length (e ∷ es)))
            (sym (select_later id n k (e ∷ es) h (omega (arith, same))))
  ]
