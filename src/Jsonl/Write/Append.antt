-- ===== src/Jsonl/Write/Append.antt =====
-- What an append, whole or cut short, leaves for the next reader.
use silicon_omni.Prelude.{
  Bool, true, false, ℕ, zero, suc, ◌≡◌, refl, ap, ◌⊎◌, inl, inr, false, none, some, [], ◌∷◌, ◌++◌,
  take, length, append_assoc, append-nil,
}
use silicon_omni.Json.{Value}
use silicon_omni.Jsonl.{Bytes, newline, Codec, IsJson, IsTerminated, IsOneLine}
use silicon_omni.Jsonl.Read.{complete, read_checked, opened}
use silicon_omni.Jsonl.Read.Lines.{complete-newline, healthy, scanned, next_record, scanned-append}
use silicon_omni.Jsonl.Write.{
  Writing, written, broken, opens, arrives, prefixed, repair_tail, append,
}
use silicon_omni.Jsonl.Write.Settle.{scan_tail, scan_record, settle}

module _ (c : Codec) (json : IsJson c) where
  -- The bytes of a file that an append with the outcome `w` leaves.
  abbrev pub appended : Writing → Bytes → Value → Bytes
  appended w file v =
      (repair_tail c file).0
      ++ arrives w (prefixed (repair_tail c file).1 (c.print v ++ (newline ∷ [])))

  -- A file that reads as `before` does, but for one more record at most.
  abbrev pub LosesNothing : Bytes → Bytes → Type 0
  LosesNothing before after =
      ((scanned c after).error ≡ none)
      × (((scanned c after).records ≡ (scanned c before).records)
          ⊎ ((v : Value) × ((scanned c after).records
                ≡ (scanned c before).records ++ (next_record c before v ∷ []))))

  append_line :
      (file u t : Bytes)
      → IsTerminated u
      → scanned c u ≡ scanned c file
      → (scanned c file).error ≡ none
      → IsOneLine t
      → LosesNothing file (u ++ t)
  append_line file u t ku same h kt =
      rw (scanned-append c u t ku (rw same h), same)
        (let (clean, cases) = scan_tail c json (length (scanned c file).records) t kt in
          (
            clean,
            elim cases [
              | inl e ↦ inl (rw e (append-nil (scanned c file).records))
              | inr (v, e) ↦ inr (v, rw e refl)
            ],
          ))

  append_record_line :
      (file u : Bytes) (v : Value)
      → IsTerminated u
      → scanned c u ≡ scanned c file
      → (scanned c file).error ≡ none
      → scanned c (u ++ (c.print v ++ (newline ∷ [])))
        ≡ record { records = (scanned c file).records ++ (next_record c file v ∷ []); error = none }
  append_record_line file u v ku same h =
      rw (scanned-append c u _ ku (rw same h), scan_record c json, same)

  take_body :
      (n : ℕ) (p : Bytes)
      → IsOneLine p
      → IsOneLine (take n (p ++ (newline ∷ [])))
        ⊎ (take n (p ++ (newline ∷ [])) ≡ p ++ (newline ∷ []))
  take_body zero p k = inl tt
  take_body (suc zero) [] k = inr refl
  take_body (suc (suc n)) [] k = inr refl
  take_body (suc n) (b ∷ p) k = elim (take_body n p k.1) [
    | inl h ↦ inl (k.0, h)
    | inr h ↦ inr (ap (λ (r : Bytes). b ∷ r) h)
  ]

  append_part :
      (file u : Bytes) (n : ℕ) (v : Value)
      → IsTerminated u
      → scanned c u ≡ scanned c file
      → (scanned c file).error ≡ none
      → LosesNothing file (u ++ take n (c.print v ++ (newline ∷ [])))
  append_part file u n v ku same h = elim (take_body n (c.print v) (json.one_line v)) [
    | inl k ↦ append_line file u _ ku same h k
    | inr e ↦ rw (e, append_record_line file u v ku same h) (refl, inr (v, refl))
  ]

  pub append_broken :
      (file : Bytes) (n : ℕ) (v : Value)
      → (scanned c file).error ≡ none
      → LosesNothing file (appended (broken n) file v)
  append_broken file n v h = elim (settle c json file h) [
    | inl (u, repaired, ku, same) ↦ rw repaired (append_part file u n v ku same h)
    | inr (repaired, same) ↦ rw repaired (pending n same)
  ]
    where
      pending :
          (n : ℕ)
          → scanned c (file ++ (newline ∷ [])) ≡ scanned c file
          → LosesNothing file (file ++ take n (newline ∷ (c.print v ++ (newline ∷ []))))
      pending zero same = rw append-nil (h, inl refl)
      pending (suc n) same =
          rw (← append_assoc file (newline ∷ []) (take n (c.print v ++ (newline ∷ []))))
            (append_part file (file ++ (newline ∷ [])) n v (inr (file, refl)) same h)

  pub append_whole :
      (file : Bytes) (v : Value)
      → (scanned c file).error ≡ none
      → scanned c (appended written file v)
        ≡ record { records = (scanned c file).records ++ (next_record c file v ∷ []); error = none }
  append_whole file v h = elim (settle c json file h) [
    | inl (u, repaired, ku, same) ↦ rw repaired (append_record_line file u v ku same h)
    | inr (repaired, same) ↦
        rw (repaired, ← append_assoc file (newline ∷ []) (c.print v ++ (newline ∷ [])))
          (append_record_line file (file ++ (newline ∷ [])) v (inr (file, refl)) same h)
  ]

  -- Appending to a file that reads without error adds one record at the end, also where the file
  -- ends in a torn line or lacks its last newline, and the file reads without error again.
  pub read_checked-append :
      (file : Bytes) (v : Value)
      → (read_checked c (opened healthy) (some file)).error ≡ none
      → read_checked c (opened healthy) (append c opens written (some file) v).0 ≡ record {
        missing = false;
        records =
            (read_checked c (opened healthy) (some file)).records ++ (next_record c file v ∷ []);
        error = none;
      }
  unfolding read_checked append
  read_checked-append file v h = rw (append_whole file v h)

  -- A write that breaks off anywhere leaves a file that reads without error, with the records it
  -- had, and one more at most.
  pub read_checked-append_broken :
      (file : Bytes) (n : ℕ) (v : Value)
      → (read_checked c (opened healthy) (some file)).error ≡ none
      → ((append c opens (broken n) (some file) v).1 ≡ false)
        × ((after : Bytes) × ((append c opens (broken n) (some file) v).0 ≡ some after)
            × LosesNothing file after)
  unfolding read_checked append
  read_checked-append_broken file n v h =
      (refl, (appended (broken n) file v, refl, append_broken file n v h))

-- A file whose last line is complete wants no repair.
pub repair_complete :
    (c : Codec) (file : Bytes) → complete file ≡ true → repair_tail c file ≡ (file, false)
unfolding repair_tail
repair_complete c [] h = refl
repair_complete c (b ∷ s) h = rw h

complete-append : (s t : Bytes) → complete (s ++ (t ++ (newline ∷ []))) ≡ true
complete-append s t = rw (← append_assoc s t (newline ∷ [])) (complete-newline (s ++ t))

pub complete-appended :
    (c : Codec) (json : IsJson c) (file : Bytes) (v : Value)
    → complete (appended c json written file v) ≡ true
complete-appended c json file v = go (repair_tail c file)
  where
    go : (r : Bytes × Bool) → complete (r.0 ++ prefixed r.1 (c.print v ++ (newline ∷ []))) ≡ true
    go (s, true) = complete-append s (newline ∷ c.print v)
    go (s, false) = complete-append s (c.print v)
