-- ===== src/Jsonl.antt =====
-- crates/omni-core/src/shared/jsonl.rs: the append-only JSONL file.
-- A file is its bytes; a path with no file is `none`. What the operating system answers is an
-- argument of each operation. `Codec` is the JSON reader and printer of `serde_json`.
pub mod Tail
pub mod Read
pub mod Write
use silicon_omni.Prelude.{
  ℕ, suc, ◌≡◌, ◌≢◌, ◌⊎◌, Bool, true, false, not, Option, none, some, List, [], ◌∷◌, ◌++◌, All, ◌==◌,
}
use silicon_omni.Json.{Value}

abbrev pub Bytes : Type 0
Bytes = List ℕ

abbrev pub newline : ℕ
newline = 10

-- Nothing, or complete lines.
abbrev pub IsTerminated : Bytes → Type 0
IsTerminated s = (s ≡ []) ⊎ ((p : Bytes) × (s ≡ p ++ (newline ∷ [])))

abbrev pub IsOneLine : Bytes → Type 0
IsOneLine = All (λ b. b ≢ newline)

pub record Codec : Type 0 where
  pub parse : Bytes → Option Value
  pub print : Value → Bytes

-- What is documented of `serde_json`: what it prints it reads back, the compact form has no line
-- break, and white space after a value does not matter.
pub record IsJson (c : Codec) : Type 0 where
  pub parse-print : (v : Value) → c.parse (c.print v) ≡ some v
  pub one_line : (v : Value) → IsOneLine (c.print v)
  pub parse-newline : (s : Bytes) → c.parse (s ++ (newline ∷ [])) ≡ c.parse s
