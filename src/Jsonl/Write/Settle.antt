-- ===== src/Jsonl/Write/Settle.antt =====
-- What the repair of a file before an append leaves.
use silicon_omni.Prelude.{
  ℕ, suc, ◌≡◌, refl, ap, sym, ◌∙◌, ◌⊎◌, inl, inr, true, false, none, some, [], ◌∷◌, ◌++◌, take,
  length, is_some, arith, Bool-cases, Option-cases, append_assoc, append-nil, take-length_append,
}
use silicon_omni.Json.{Value}
use silicon_omni.Jsonl.{Bytes, newline, Codec, IsJson, IsTerminated, IsOneLine}
use silicon_omni.Jsonl.Tail.{unterminated_tail}
use silicon_omni.Jsonl.Tail.Search.{unterminated_tail_lem}
use silicon_omni.Jsonl.Read.{lines, complete, scan, stopped}
use silicon_omni.Jsonl.Read.Lines.{
  healthy, lines-append, lines-one_line, lines-complete_line, lines-IsComplete, complete-one_line,
  scan-append_left, scanned, scanned-append, complete-IsTerminated, complete-newline,
}
use silicon_omni.Jsonl.Write.{repair_tail}

module _ (c : Codec) (json : IsJson c) where
  -- One unterminated line is a record or is ignored, and never an error.
  pub scan_tail :
      (n : ℕ) (t : Bytes)
      → IsOneLine t
      → ((scan c healthy n (lines t)).error ≡ none)
        × (((scan c healthy n (lines t)).records ≡ [])
            ⊎ ((v : Value) × ((scan c healthy n (lines t)).records
                  ≡ record { line = suc n; value = v } ∷ [])))
  unfolding scan lines
  scan_tail n [] k = (refl, inl refl)
  scan_tail n (b ∷ t) k = rw (lines-one_line b t k) (elim (Option-cases (c.parse (b ∷ t))) [
    | inl e ↦ rw (e, complete-one_line (b ∷ t) k) (refl, inl refl)
    | inr (v, e) ↦ rw e (refl, inr (v, refl))
  ])

  pub scan_record :
      (n : ℕ) (v : Value)
      → scan c healthy n (lines (c.print v ++ (newline ∷ [])))
        ≡ record { records = record { line = suc n; value = v } ∷ []; error = none }
  unfolding scan
  scan_record n v = rw (
    lines-complete_line (c.print v) (json.one_line v),
    json.parse-newline (c.print v),
    json.parse-print v,
  )

  scan_ignored :
      (n b : ℕ) (t : Bytes)
      → IsOneLine (b ∷ t)
      → c.parse (b ∷ t) ≡ none
      → scan c healthy n (lines (b ∷ t)) ≡ stopped none
  unfolding scan
  scan_ignored n b t k e = rw (lines-one_line b t k, e, complete-one_line (b ∷ t) k)

  scan_kept :
      (n b : ℕ) (t : Bytes) (v : Value)
      → IsOneLine (b ∷ t)
      → c.parse (b ∷ t) ≡ some v
      → scan c healthy n (lines ((b ∷ t) ++ (newline ∷ []))) ≡ scan c healthy n (lines (b ∷ t))
  unfolding scan
  scan_kept n b t v k e =
      rw (lines-complete_line (b ∷ t) k, lines-one_line b t k, json.parse-newline (b ∷ t), e)

  -- What the repair of a file leaves: complete lines that read as the file does, or the file, if
  -- it wants nothing but its last newline.
  abbrev pub Settled : Bytes → Type 0
  Settled file =
      ((u : Bytes) × (repair_tail c file ≡ (u, false))
        × IsTerminated u
        × (scanned c u ≡ scanned c file))
      ⊎ ((repair_tail c file ≡ (file, true))
          × (scanned c (file ++ (newline ∷ [])) ≡ scanned c file))

  settle_tail :
      (s : Bytes) (b : ℕ) (t : Bytes)
      → IsTerminated s
      → IsOneLine (b ∷ t)
      → (scanned c (s ++ (b ∷ t))).error ≡ none
      → ((c.parse (b ∷ t) ≡ none) × (scanned c s ≡ scanned c (s ++ (b ∷ t))))
        ⊎ ((is_some (c.parse (b ∷ t)) ≡ true)
            × (scanned c ((s ++ (b ∷ t)) ++ (newline ∷ [])) ≡ scanned c (s ++ (b ∷ t))))
  settle_tail s b t ks kt h = elim (Option-cases (c.parse (b ∷ t))) [
    | inl e ↦ inl (e, ignored e)
    | inr (v, e) ↦ inr (ap is_some e, kept v e)
  ]
    where
      before : (scanned c s).error ≡ none
      before =
          scan-append_left c 0 (lines s) (lines (b ∷ t)) (lines-IsComplete s ks)
            (rw (lines-append s (b ∷ t) ks) at h)

      ignored : c.parse (b ∷ t) ≡ none → scanned c s ≡ scanned c (s ++ (b ∷ t))
      ignored e =
          let records = (scanned c s).records in
          ground (
            arith,
            scanned-append c s (b ∷ t) ks before,
            scan_ignored (length records) b t kt e,
            append-nil records,
            before,
          )

      kept :
          (v : Value)
          → c.parse (b ∷ t) ≡ some v
          → scanned c ((s ++ (b ∷ t)) ++ (newline ∷ [])) ≡ scanned c (s ++ (b ∷ t))
      kept v e =
          ap (scanned c) (append_assoc s (b ∷ t) (newline ∷ []))
          ∙ scanned-append c s ((b ∷ t) ++ (newline ∷ [])) ks before
          ∙ rw (scan_kept (length (scanned c s).records) b t v kt e)
              (sym (scanned-append c s (b ∷ t) ks before))

  settle_cut :
      (x : ℕ) (r s t : Bytes)
      → (x ∷ r) ≡ s ++ t
      → IsTerminated s
      → IsOneLine t
      → unterminated_tail (x ∷ r) ≡ some (length s, t)
      → complete (x ∷ r) ≡ false
      → (scanned c (x ∷ r)).error ≡ none
      → Settled (x ∷ r)
  unfolding repair_tail
  settle_cut x r s [] e (inl ks) kt found unfinished h = absurd (cc)
  settle_cut x r s [] e (inr (p, ks)) kt found unfinished h =
      absurd (cc (append-nil s, complete-newline p, ap complete (e ∙ append-nil s ∙ ks)))
  settle_cut x r s (b ∷ t) e ks kt found unfinished h = elim (settle_tail s b t ks kt (rw e at h)) [
    | inl (torn, same) ↦ inl (
      s,
      rw (unfinished, found, torn)
          (ap (λ (f : Bytes). (take (length s) f, false)) e
            ∙ ap (λ (f : Bytes). (f, false)) (take-length_append s (b ∷ t))),
      ks,
      same ∙ ap (scanned c) (sym e),
    )
    | inr (read, same) ↦ inr (
      rw (unfinished, found, read) refl,
      ap (λ (f : Bytes). scanned c (f ++ (newline ∷ []))) e ∙ same ∙ ap (scanned c) (sym e),
    )
  ]

  pub settle : (file : Bytes) → (scanned c file).error ≡ none → Settled file
  unfolding repair_tail
  settle [] h = inl ([], refl, inl refl, refl)
  settle (x ∷ r) h = elim (Bool-cases (complete (x ∷ r))) [
    | inl e ↦ inl (x ∷ r, rw e refl, inr (complete-IsTerminated (x ∷ r) e), refl)
    | inr e ↦
        let (s, t, cut, ks, kt, found) = unterminated_tail_lem (x ∷ r) in
        settle_cut x r s t cut ks kt found e h
  ]
