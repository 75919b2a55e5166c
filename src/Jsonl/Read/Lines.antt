-- ===== src/Jsonl/Read/Lines.antt =====
-- The lines of a file, and what the scan of complete lines yields.
use native.Mathlib.Nat.{add-zero, zero-add}
use silicon_omni.Prelude.{
  ℕ, suc, ◌+◌, ◌==◌, ◌≡◌, refl, ap, ◌∙◌, inl, inr, Bool, true, false, none, List, [], ◌∷◌, ◌++◌,
  All, length, arith, Bool-cases, append_assoc,
}
use silicon_omni.Json.{Value}
use silicon_omni.Jsonl.{Bytes, newline, Codec, IsTerminated, IsOneLine}
use silicon_omni.Jsonl.Read.{lines, complete, scan, Found, Record}

abbrev pub IsComplete : List Bytes → Type 0
IsComplete = All (λ l. complete l ≡ true)

pub complete-newline : (t : Bytes) → complete (t ++ (newline ∷ [])) ≡ true
complete-newline [] = refl
complete-newline (x ∷ []) = refl
complete-newline (x ∷ y ∷ t) = complete-newline (y ∷ t)

pub complete-one_line : (t : Bytes) → IsOneLine t → complete t ≡ false
complete-one_line [] h = refl
complete-one_line (x ∷ []) h = ground arith
complete-one_line (x ∷ y ∷ t) h = complete-one_line (y ∷ t) h.1

lines_cons : (p t : Bytes) → (l : Bytes) × (ls : List Bytes) × (lines (p ++ (newline ∷ t)) ≡ l ∷ ls)
unfolding lines
lines_cons [] t = (newline ∷ [], lines t, refl)
lines_cons (x ∷ p) t = elim (Bool-cases (x == newline)) [
  | inl e ↦ (newline ∷ [], lines (p ++ (newline ∷ t)), rw e)
  | inr e ↦ let (l, ls, h) = lines_cons p t in (x ∷ l, ls, rw (e, h))
]

lines-newline : (p t : Bytes) → lines (p ++ (newline ∷ t)) ≡ lines (p ++ (newline ∷ [])) ++ lines t
unfolding lines
lines-newline [] t = refl
lines-newline (x ∷ p) t = ground (arith, lines-newline p t, (lines_cons p []).2)

-- Complete lines are read as they are, whatever follows them.
pub lines-append : (s t : Bytes) → IsTerminated s → lines (s ++ t) ≡ lines s ++ lines t
unfolding lines
lines-append s t (inl e) = rw e refl
lines-append s t (inr (p, e)) = rw (e, append_assoc) (lines-newline p t)

pub lines-one_line : (b : ℕ) (t : Bytes) → IsOneLine (b ∷ t) → lines (b ∷ t) ≡ (b ∷ t) ∷ []
unfolding lines
lines-one_line b [] h = ground arith
lines-one_line b (x ∷ t) h = ground (arith, lines-one_line x t h.1)

pub lines-complete_line :
    (t : Bytes) → IsOneLine t → lines (t ++ (newline ∷ [])) ≡ (t ++ (newline ∷ [])) ∷ []
unfolding lines
lines-complete_line [] h = refl
lines-complete_line (x ∷ t) h = ground (arith, lines-complete_line t h.1)

pub complete-IsTerminated :
    (s : Bytes) → complete s ≡ true → (p : Bytes) × (s ≡ p ++ (newline ∷ []))
complete-IsTerminated [] h = absurd (cc)
complete-IsTerminated (x ∷ []) h = ([], ground arith)
complete-IsTerminated (x ∷ y ∷ s) h =
    let (p, e) = complete-IsTerminated (y ∷ s) h in (x ∷ p, ap (λ (r : Bytes). x ∷ r) e)

complete-extend_first :
    (x : ℕ) (l : Bytes) (ls : List Bytes) → complete l ≡ true → complete (x ∷ l) ≡ true
complete-extend_first x [] ls h = absurd (cc)
complete-extend_first x (y ∷ l) ls h = h

lines-newline-IsComplete : (p : Bytes) → IsComplete (lines (p ++ (newline ∷ [])))
unfolding lines
lines-newline-IsComplete [] = (refl, tt)
lines-newline-IsComplete (x ∷ p) = elim (Bool-cases (x == newline)) [
  | inl e ↦ rw e (refl, lines-newline-IsComplete p)
  | inr e ↦
      let (l, ls, h) = lines_cons p [] in
      let rest = rw h at (lines-newline-IsComplete p) in
      rw (e, h) (complete-extend_first x l ls rest.0, rest.1)
]

pub lines-IsComplete : (s : Bytes) → IsTerminated s → IsComplete (lines s)
unfolding lines
lines-IsComplete s (inl e) = rw e tt
lines-IsComplete s (inr (p, e)) = rw e (lines-newline-IsComplete p)

-- No read of the operating system fails.
abbrev pub healthy : ℕ → Bool
healthy line = false

module _ (c : Codec) where
  -- After complete lines that are all read, the scan goes on with the rest.
  pub scan-append :
      (n : ℕ) (ls ms : List Bytes)
      → IsComplete ls
      → (scan c healthy n ls).error ≡ none
      → scan c healthy n (ls ++ ms) ≡ record {
        records = (scan c healthy n ls).records ++ (scan c healthy (n + length ls) ms).records;
        error = (scan c healthy (n + length ls) ms).error;
      }
  unfolding scan
  scan-append n [] ms k h = rw add-zero
  scan-append n (l ∷ ls) ms k h =
      let shift : suc n + length ls ≡ n + suc (length ls) = omega arith in
      ground (arith, scan-append (suc n) ls ms k.1, ap (λ (m : ℕ). scan c healthy m ms) shift)

  -- Nor does it go on after an error.
  pub scan-append_left :
      (n : ℕ) (ls ms : List Bytes)
      → IsComplete ls
      → (scan c healthy n (ls ++ ms)).error ≡ none
      → (scan c healthy n ls).error ≡ none
  unfolding scan
  scan-append_left n [] ms k h = refl
  scan-append_left n (l ∷ ls) ms k h = ground (arith, scan-append_left (suc n) ls ms k.1)

  pub length-scan :
      (n : ℕ) (ls : List Bytes)
      → IsComplete ls
      → (scan c healthy n ls).error ≡ none
      → length (scan c healthy n ls).records ≡ length ls
  unfolding scan
  length-scan n [] k h = refl
  length-scan n (l ∷ ls) k h = ground (arith, length-scan (suc n) ls k.1)

  abbrev pub scanned : Bytes → Found
  scanned file = scan c healthy 0 (lines file)

  -- The record that an append to a file adds.
  abbrev pub next_record : Bytes → Value → Record
  next_record file v = record { line = suc (length (scanned file).records); value = v }

  -- Reading goes through complete lines that are all read.
  pub scanned-append :
      (u t : Bytes)
      → IsTerminated u
      → (scanned u).error ≡ none
      → scanned (u ++ t) ≡ record {
        records =
            (scanned u).records ++ (scan c healthy (length (scanned u).records) (lines t)).records;
        error = (scan c healthy (length (scanned u).records) (lines t)).error;
      }
  scanned-append u t k h =
      let full = lines-IsComplete u k in
      rw (lines-append u t k, length-scan 0 (lines u) full h)
        (scan-append 0 (lines u) (lines t) full h ∙ rw zero-add)
