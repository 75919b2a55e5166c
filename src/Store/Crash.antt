-- ===== src/Store/Crash.antt =====
-- A store whose append is cut short, and the next one that opens its file.
use silicon_omni.Prelude.{
  ℕ, String, ◌≡◌, refl, ap, ◌∙◌, ◌⊎◌, inl, inr, Option, none, some, List, [], ◌∷◌, ◌++◌, arith,
}
use silicon_omni.Events.{Event}
use silicon_omni.Events.Serial.{to_value}
use silicon_omni.Jsonl.{Codec, IsJson}
use silicon_omni.Jsonl.Read.{Record}
use silicon_omni.Jsonl.Read.Lines.{scanned, next_record}
use silicon_omni.Jsonl.Write.{opens, broken, open_appender, append_record}
use silicon_omni.Jsonl.Write.Append.{appended, append_broken}
use silicon_omni.Store.{
  Store, Checked, good, bad, check, load, LoadError, open_store, stamped, append,
}
use silicon_omni.Store.Durable.{IsDurable, bytes, reopened, load-append, read_file}

-- One more record is one more event at most.
load_one :
    (id : String) (es : List Event) (r : Record)
    → ((load id es (r ∷ [])).0 ≡ es) ⊎ ((x : Event) × ((load id es (r ∷ [])).0 ≡ es ++ (x ∷ [])))
unfolding load
load_one id es r = go (check id es r) refl
  where
    go :
        (k : Checked)
        → check id es r ≡ k
        → ((load id es (r ∷ [])).0 ≡ es)
          ⊎ ((x : Event) × ((load id es (r ∷ [])).0 ≡ es ++ (x ∷ [])))
    go (bad error) e = inl (rw (e, load) refl)
    go (good x) e = inr (x, rw (e, load) refl)

module _ (c : Codec) (json : IsJson c) where
  -- The file that an append leaves that breaks off after `n` bytes.
  file_broken :
      (n : ℕ) (s : Store) (event : Event)
      → IsDurable c s
      → ((append c opens (broken n) s event).1 ≡ none)
        × ((append c opens (broken n) s event).0.session_id ≡ s.session_id)
        × ((append c opens (broken n) s event).0.events ≡ s.events)
        × ((append c opens (broken n) s event).0.file
            ≡ some (appended c json (broken n) (bytes c s) (to_value (stamped s event))))
  unfolding append open_appender append_record
  file_broken n s event h = elim h.ready [
    | inl fresh ↦ ground (arith, h.sound, fresh)
    | inr (a, there, able, kept) ↦ ground (arith, h.sound, there, able, kept)
  ]

  -- From a store in step with its file, an append that breaks off anywhere saves no event in
  -- memory, and the next store that opens the file finds every event that was saved, and at most
  -- one more.
  pub append-broken_reopened :
      (n : ℕ) (s : Store) (event : Event)
      → IsDurable c s
      → ((append c opens (broken n) s event).1 ≡ none)
        × ((append c opens (broken n) s event).0.events ≡ s.events)
        × (((reopened c (append c opens (broken n) s event).0).events ≡ s.events)
            ⊎ ((x : Event) × ((reopened c (append c opens (broken n) s event).0).events
                  ≡ s.events ++ (x ∷ []))))
  unfolding reopened open_store
  append-broken_reopened n s event h =
      let (failed, id, same, file) = file_broken n s event h in
      let f' = appended c json (broken n) (bytes c s) (to_value (stamped s event)) in
      let (clean, cases) =
        append_broken c json (bytes c s) n (to_value (stamped s event)) h.reads in
      (
        failed,
        same,
        rw (id, file, (read_file c (some f')).0)
            (elim cases [
              | inl e ↦ inl (
                  ap (λ (rs : List Record). (load s.session_id [] rs).0) e
                  ∙ ap (λ (r : List Event × Option LoadError). r.0) h.loads)
              | inr (v, e) ↦
                  let r = next_record c (bytes c s) v in
                  rw
                    (
                      e,
                      load-append s.session_id [] (scanned c (bytes c s)).records r s.events
                          h.loads,
                    )
                    (load_one s.session_id s.events r)
            ]),
      )
