-- ===== src/Jsonl/Tail.antt =====
-- crates/omni-core/src/shared/jsonl.rs: `unterminated_tail`, which reads a file backwards in chunks.
pub mod Search
use mathlib.Core.List.{flatten}
use silicon_omni.Prelude.{
  ℕ, zero, suc, ◌+◌, ◌-◌, ◌*◌, ◌==◌, Option, none, some, List, [], ◌∷◌, ◌++◌, take, drop, length,
  if◌then◌else◌,
}
use silicon_omni.Jsonl.{Bytes, newline}

-- `rposition(|byte| byte == b'\n')`
unfoldable pub rposition : Bytes → Option ℕ
rposition [] = none
rposition (b ∷ bs) = elim (rposition bs) [
  | some i ↦ some (suc i)
  | none ↦ if b == newline then some 0 else none
]

abbrev pub chunk_size : ℕ
chunk_size = 8 * 1024

-- The loop of `unterminated_tail`; `later` holds the chunks read so far, the newest first.
-- `none` means that the fuel ran out.
pub tail_loop : ℕ → ℕ → Bytes → ℕ → List Bytes → Option (ℕ × Bytes)
tail_loop zero size file cursor later = none
tail_loop (suc fuel) size file cursor later =
    let start = cursor - size in
    let chunk = take (cursor - start) (drop start file) in
    let further = tail_loop fuel size file start (chunk ∷ later) in
    elim (rposition chunk) [
      | some newline ↦ some (start + newline + 1, drop (newline + 1) chunk ++ flatten later)
      | none ↦ if start == 0 then some (0, flatten (chunk ∷ later)) else further
    ]

unfoldable pub unterminated_tail : Bytes → Option (ℕ × Bytes)
unfolding tail_loop
unterminated_tail file = tail_loop (suc (length file)) chunk_size file (length file) []
