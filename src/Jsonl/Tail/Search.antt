-- ===== src/Jsonl/Tail/Search.antt =====
-- The search by chunks, and a search of the whole file.
use mathlib.Core.List.{flatten}
use native.Mathlib.Numerals.{add-one}
use silicon_omni.Prelude.{
  ℕ, zero, suc, ◌+◌, ◌-◌, ◌<◌, ◌≤◌, ◌≡◌, refl, ap, ◌==◌, Option, none, some, List, [], ◌∷◌, ◌++◌,
  take, drop, length, take-append-drop, arith, inl, inr, drop-length, Option-cases, ==_iff,
  Bool-cases, sym, ◌∙◌, drop-drop, drop-append_left, length-take_of_le,
}
use silicon_omni.Jsonl.{Bytes, newline, IsOneLine, IsTerminated}
use silicon_omni.Jsonl.Tail.{chunk_size, rposition, tail_loop, unterminated_tail}

-- Where the bytes after the last newline start.
abbrev pub after_newline : Option ℕ → ℕ
after_newline none = 0
after_newline (some i) = i + 1

pub tail_start : Bytes → ℕ
tail_start file = after_newline (rposition file)

rposition-append :
    (a b : Bytes)
    → rposition (a ++ b)
      ≡ (elim (rposition b) [ some i ↦ some (length a + i) | none ↦ rposition a ])
unfolding rposition
rposition-append [] b = ground arith
rposition-append (x ∷ a) b = ground (arith, rposition-append a b)

rposition-lt : (s : Bytes) (i : ℕ) → rposition s ≡ some i → i < length s
unfolding rposition
rposition-lt [] i h = absurd (cc)
rposition-lt (x ∷ s) i h = elim (Option-cases (rposition s)) [
  | inl e ↦ ground arith
  | inr (j, e) ↦ ground (arith, rposition-lt s j e)
]

module _ (file : Bytes) {start cursor : ℕ} (order : start ≤ cursor) where
  -- The chunk between two positions, and what follows it.
  chunk_rest : drop start file ≡ take (cursor - start) (drop start file) ++ drop cursor file
  chunk_rest =
      sym (take-append-drop (cursor - start) (drop start file))
      ∙ ap (λ (r : Bytes). take (cursor - start) (drop start file) ++ r)
          (drop-drop (cursor - start) start file ∙ ap (λ (k : ℕ). drop k file) (omega arith))

  -- A newline in the chunk is the last of the file if none follows the chunk.
  rposition_chunk :
      cursor ≤ length file
      → rposition (drop cursor file) ≡ none
      → rposition file ≡ (elim (rposition (take (cursor - start) (drop start file))) [
        | some i ↦ some (start + i)
        | none ↦ rposition (take start file)
      ])
  rposition_chunk h e = ground (
    arith,
    ap rposition (take-append-drop start file),
    rposition-append (take start file) (drop start file),
    ap rposition chunk_rest,
    rposition-append (take (cursor - start) (drop start file)) (drop cursor file),
    length-take_of_le start file,
  )

  tail_chunk :
      (i : ℕ)
      → i < length (take (cursor - start) (drop start file))
      → drop (start + i + 1) file
        ≡ drop (i + 1) (take (cursor - start) (drop start file)) ++ drop cursor file
  tail_chunk i h =
      ap (λ (k : ℕ). drop k file) (omega arith)
      ∙ sym (drop-drop (i + 1) start file)
      ∙ ap (drop (i + 1)) chunk_rest
      ∙ drop-append_left (i + 1) _ (drop cursor file) (omega arith)

-- From a position after which there is no newline, the loop ends with the position after the last
-- newline of the file and all that follows.
tail_loop_lem :
    (fuel size : ℕ) (file : Bytes) (cursor : ℕ) (later : List Bytes)
    → 0 < size
    → cursor < fuel
    → cursor ≤ length file
    → rposition (drop cursor file) ≡ none
    → flatten later ≡ drop cursor file
    → tail_loop fuel size file cursor later ≡ some (tail_start file, drop (tail_start file) file)
unfolding tail_loop tail_start flatten rposition
tail_loop_lem zero size file cursor later hs hf hc hn hl = elim hf [ ]
tail_loop_lem (suc fuel) size file cursor later hs hf hc hn hl =
    let start = cursor - size in
    let chunk = take (cursor - start) (drop start file) in
    let last = rposition_chunk file {start = start} (omega arith) hc hn in
    let joined = chunk_rest file {start = start} {cursor = cursor} (omega arith) in
    elim (Option-cases (rposition chunk)) [
      | inl e ↦ elim (Bool-cases (start == 0)) [
        | inl first ↦
            let zero_start : start ≡ 0 = (==_iff start 0).0 first in
            ground (
              arith,
              last,
              joined,
              ap (λ (k : ℕ). rposition (take k file)) zero_start,
              ap (λ (k : ℕ). drop k file) zero_start,
            )
        | inr further ↦
            let rest =
              tail_loop_lem fuel size file start (chunk ∷ later) hs (ground arith) (omega arith)
                (ap rposition joined ∙ rposition-append chunk (drop cursor file) ∙ ground arith)
                (ap (λ (r : Bytes). chunk ++ r) hl ∙ sym joined) in
            ground (arith, rest)
      ]
      | inr (i, e) ↦ ground (
        arith,
        last,
        tail_chunk file {start = start} {cursor = cursor} (omega arith) i (rposition-lt chunk i e),
      )
    ]

no_newline : (s : Bytes) → rposition s ≡ none → IsOneLine s
unfolding rposition
no_newline [] h = tt
no_newline (x ∷ s) h = ground (arith, no_newline s)

last_newline :
    (s : Bytes) (i : ℕ)
    → rposition s ≡ some i
    → ((p : Bytes) × (take (suc i) s ≡ p ++ (newline ∷ []))) × IsOneLine (drop (suc i) s)
unfolding rposition
last_newline [] i h = absurd (cc)
last_newline (x ∷ s) i h = elim (Option-cases (rposition s)) [
  | inl e ↦ let first : i ≡ 0 = ground arith in rw first (([], ground arith), no_newline s e)
  | inr (j, e) ↦
      let later : i ≡ suc j = ground arith in
      let ((p, ends), clear) = last_newline s j e in
      rw later ((x ∷ p, ap (λ (r : Bytes). x ∷ r) ends), clear)
]

tail_cut :
    (file : Bytes)
    → IsTerminated (take (tail_start file) file) × IsOneLine (drop (tail_start file) file)
unfolding tail_start
tail_cut file = elim (Option-cases (rposition file)) [
  | inl e ↦ rw e (inl refl, no_newline file e)
  | inr (i, e) ↦ let (ends, clear) = last_newline file i e in rw (e, add-one) (inr ends, clear)
]

tail_start-le : (file : Bytes) → tail_start file ≤ length file
unfolding tail_start
tail_start-le file = grind (arith, rposition-lt)

search_whole :
    (file : Bytes) → unterminated_tail file ≡ some (tail_start file, drop (tail_start file) file)
unfolding unterminated_tail flatten rposition
search_whole file =
    tail_loop_lem (suc (length file)) chunk_size file (length file) [] (omega arith) (omega arith)
      (omega arith) (ap rposition (drop-length file)) (sym (drop-length file))

-- Reading backwards in chunks always ends, and cuts the file into complete lines and the bytes
-- after the last newline, with the position where those start.
pub unterminated_tail_lem :
    (file : Bytes)
    → (lines : Bytes) × (tail : Bytes) × (file ≡ lines ++ tail)
      × IsTerminated lines
      × IsOneLine tail
      × (unterminated_tail file ≡ some (length lines, tail))
unterminated_tail_lem file =
    let k = tail_start file in
    let (complete, clear) = tail_cut file in
    (
      take k file,
      drop k file,
      sym (take-append-drop k file),
      complete,
      clear,
      search_whole file
          ∙ ap (λ (n : ℕ). some (n, drop k file))
              (sym (length-take_of_le k file (tail_start-le file))),
    )
