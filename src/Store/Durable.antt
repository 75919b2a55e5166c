-- ===== src/Store/Durable.antt =====
-- A store and the next one that opens its file.
use silicon_omni.Prelude.{
  ℕ, suc, String, eqb_ℤ_iff, ◌≡◌, refl, ap, subst, ◌∙◌, ◌⊎◌, inl, inr, true, false, Option, none,
  some, List, [], ◌∷◌, ◌++◌, length, unwrap_or, eq_iff, arith,
}
use silicon_omni.Events.{Event, schema_version}
use silicon_omni.Events.Serial.{to_value}
use silicon_omni.Events.Serial.RoundTrip.{IsMachine, placed, from_value-to_value_placed}
use silicon_omni.Jsonl.{Bytes, Codec, IsJson}
use silicon_omni.Jsonl.Read.{opened, Record, read_checked, scan, lines}
use silicon_omni.Jsonl.Read.Lines.{healthy, scanned}
use silicon_omni.Jsonl.Write.{opens, written, Appender, open_appender, append_record, repair_tail}
use silicon_omni.Jsonl.Write.Append.{appended, append_whole, complete-appended, repair_complete}
use silicon_omni.Store.{
  Store, Checked, good, bad, LoadError, expected, check, load, open_store, stamped, append,
}
use silicon_omni.Store.Numbered.{IsEntry, IsLog, load-IsLog, IsFresh, expected_lem, stamped-IsEntry}

-- An event whose numbers are in the range of `i64`, with no turn below -1.
pub record IsPlain (e : Event) : Type 0 where
  pub machine : IsMachine e
  pub turn : placed e.turn ≡ e.turn

-- The next event passes the checks of `open`.
check-to_value :
    (id : String) (es : List Event) (line : ℕ) (e : Event)
    → IsLog id 0 es
    → IsEntry id (length es) e
    → IsPlain e
    → check id es (record { line = line; value = to_value e }) ≡ good e
unfolding check
check-to_value id es line e h k p = ground (
  arith,
  from_value-to_value_placed e p.machine (ground arith) p.turn,
  expected_lem id es h,
  eqb_ℤ_iff e.v schema_version,
  eqb_ℤ_iff e.seq (expected es),
  eq_iff e.event_type "",
  eq_iff e.session "",
  eq_iff e.session id,
)

pub load-append :
    (id : String) (es : List Event) (rs : List Record) (r : Record) (fs : List Event)
    → load id es rs ≡ (fs, none)
    → load id es (rs ++ (r ∷ [])) ≡ load id fs (r ∷ [])
unfolding load
load-append id es [] r fs h = ground arith
load-append id es (x ∷ rs) r fs h = go (λ es'. load-append id es' rs r fs) (check id es x) refl
  where
    go :
        ((es' : List Event)
          → load id es' rs ≡ (fs, none)
          → load id es' (rs ++ (r ∷ [])) ≡ load id fs (r ∷ []))
        → (k : Checked) → check id es x ≡ k
        → load id es (x ∷ (rs ++ (r ∷ []))) ≡ load id fs (r ∷ [])
    go rest (bad error) e = absurd (ground (arith, e))
    go rest (good event) e = ground (arith, e, rest (es ++ (event ∷ [])))

module _ (c : Codec) where
  abbrev pub bytes : Store → Bytes
  bytes s = unwrap_or s.file []

  -- The file of the store reads as the events in memory, and its appender, if there is one, is at
  -- the end of the file.
  pub record IsDurable (s : Store) : Type 0 where
    pub sound : s.load_error ≡ none
    pub reads : (scanned c (bytes s)).error ≡ none
    pub loads : load s.session_id [] (scanned c (bytes s)).records ≡ (s.events, none)
    pub ready :
        (s.appender ≡ none)
        ⊎ ((a : Appender) × (s.appender ≡ some a)
            × (a.writable ≡ true)
            × (repair_tail c (bytes s) ≡ (bytes s, a.prefix_newline)))

  pub read_file :
      (file : Option Bytes)
      → ((read_checked c (opened healthy) file).records ≡ (scanned c (unwrap_or file [])).records)
        × ((read_checked c (opened healthy) file).error ≡ (scanned c (unwrap_or file [])).error)
  unfolding read_checked scan lines
  read_file none = (refl, refl)
  read_file (some file) = (refl, refl)

  unfoldable pub reopened : Store → Store
  reopened s = open_store c (opened healthy) s.session_id s.file

  -- Opening the file again finds the events in memory, and no error.
  pub reopened_lem :
      (s : Store)
      → IsDurable s
      → ((reopened s).events ≡ s.events) × ((reopened s).load_error ≡ none)
  unfolding reopened open_store
  reopened_lem s h = ground (arith, read_file s.file)

  -- A store that opens without an error is in step with its file.
  pub open_store-IsDurable :
      (id : String) (file : Option Bytes)
      → (open_store c (opened healthy) id file).load_error ≡ none
      → IsDurable (open_store c (opened healthy) id file)
  unfolding open_store
  open_store-IsDurable id file h = record {
    sound = h;
    reads = ground (arith, read_file file);
    loads = ground (arith, read_file file);
    ready = inl refl;
  }

module _ (c : Codec) (json : IsJson c) where
  -- The record of the next event reads back as that event.
  loads-append :
      (s : Store) (file : Bytes) (e : Event)
      → (scanned c file).error ≡ none
      → load s.session_id [] (scanned c file).records ≡ (s.events, none)
      → IsLog s.session_id 0 s.events
      → IsEntry s.session_id (length s.events) e
      → IsPlain e
      → ((scanned c (appended c json written file (to_value e))).error ≡ none)
        × (load s.session_id [] (scanned c (appended c json written file (to_value e))).records
            ≡ (s.events ++ (e ∷ []), none))
  unfolding load
  loads-append s file e reads loads h k p = rw (append_whole c json file (to_value e) reads) (
    refl,
    load-append s.session_id [] (scanned c file).records _ s.events loads
        ∙ ground (
          arith,
          check-to_value s.session_id s.events (suc (length (scanned c file).records)) e h k p,
        ),
  )

  durable-IsLog : (s : Store) → IsDurable c s → IsLog s.session_id 0 s.events
  durable-IsLog s h =
      subst (λ (r : List Event × Option LoadError). IsLog s.session_id 0 r.0) h.loads
        (load-IsLog s.session_id [] (scanned c (bytes c s)).records tt)

  -- The store after a successful append.
  saved : Store → Event → Store
  saved s e = record s {
    file = some (appended c json written (bytes c s) (to_value e));
    events = s.events ++ (e ∷ []);
    appender = some (record { writable = true; prefix_newline = false });
  }

  append-saved :
      (s : Store) (event : Event)
      → IsDurable c s
      → append c opens written s event ≡ (saved s (stamped s event), some (stamped s event))
  unfolding append open_appender append_record saved
  append-saved s event h = elim h.ready [
    | inl fresh ↦ ground (arith, h.sound, fresh)
    | inr (a, there, able, kept) ↦ ground (arith, h.sound, there, able, kept)
  ]

  -- A successful append leaves the store and its file in step, with the event at the end.
  append-IsDurable :
      (s : Store) (event : Event)
      → IsDurable c s
      → IsFresh c s event
      → IsPlain (stamped s event)
      → IsDurable c (append c opens written s event).0
  append-IsDurable s event h f p =
      let e = stamped s event in
      let v = to_value e in
      let (reads, loads) =
        loads-append s (bytes c s) e h.reads h.loads (durable-IsLog s h)
          (stamped-IsEntry c s event (durable-IsLog s h) f) p in
      let done =
        repair_complete c (appended c json written (bytes c s) v)
          (complete-appended c json (bytes c s) v) in
      rw (append-saved s event h) (
        unfold saved in
        record {
          sound = h.sound;
          reads = reads;
          loads = loads;
          ready = inr (record { writable = true; prefix_newline = false }, refl, refl, done);
        })

  -- From a store in step with its file, an append of a fresh event with numbers in range, whose
  -- write succeeds, saves the event at the end, and the next store that opens the file finds every
  -- event in memory with no error.
  pub append-reopened :
      (s : Store) (event : Event)
      → IsDurable c s
      → IsFresh c s event
      → IsPlain (stamped s event)
      → ((append c opens written s event).1 ≡ some (stamped s event))
        × ((reopened c (append c opens written s event).0).events
            ≡ s.events ++ (stamped s event ∷ []))
        × ((reopened c (append c opens written s event).0).load_error ≡ none)
  append-reopened s event h f p =
      let after = (append c opens written s event).0 in
      let (same, clean) = reopened_lem c after (append-IsDurable s event h f p) in
      let e = append-saved s event h in
      (
        ap (λ (r : Store × Option Event). r.1) e,
        same ∙ ap (λ (r : Store × Option Event). r.0.events) e ∙ unfold saved in refl,
        clean,
      )
