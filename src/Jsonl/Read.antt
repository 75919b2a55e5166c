-- ===== src/Jsonl/Read.antt =====
-- crates/omni-core/src/shared/jsonl.rs: `read_checked` and its report.
pub mod Lines
use silicon_omni.Prelude.{
  ℕ, suc, ◌+◌, ◌==◌, String, Bool, true, false, not, Option, none, some, List, [], ◌∷◌, ◌++◌,
  get_last?, select, is_some, if◌then◌else◌,
}
use silicon_omni.Json.{Value}
use silicon_omni.Jsonl.{Bytes, newline, Codec}

pub record Record : Type 0 where
  pub line : ℕ
  pub value : Value

-- An error of the reader; the texts of the operating system and of the parser are left out.
pub data ReadError : Type 0 where
  io : Option ℕ → ReadError
  malformed : ℕ → ReadError

pub record ReadReport : Type 0 where
  pub missing : Bool
  pub records : List Record
  pub error : Option ReadError

-- What the operating system answers: the file cannot be opened, or reading fails at some lines.
pub data Reading : Type 0 where
  unopened : Reading
  opened : (ℕ → Bool) → Reading

abbrev pub extend_first : ℕ → List Bytes → List Bytes
extend_first b [] = (b ∷ []) ∷ []
extend_first b (l ∷ ls) = (b ∷ l) ∷ ls

-- What the calls of `read_until(b'\n', ..)` return: each line with its newline, if it has one.
unfoldable pub lines : Bytes → List Bytes
lines [] = []
lines (b ∷ s) =
    let rest = lines s in if b == newline then (newline ∷ []) ∷ rest else extend_first b rest

abbrev pub is_newline : Option ℕ → Bool
is_newline none = false
is_newline (some b) = b == newline

-- `bytes.last() == Some(&b'\n')`
abbrev pub complete : Bytes → Bool
complete l = is_newline (get_last? l)

pub record Found : Type 0 where
  pub records : List Record
  pub error : Option ReadError

abbrev pub found : Record → Found → Found
found r f = record { records = r ∷ f.records; error = f.error }

abbrev pub stopped : Option ReadError → Found
stopped error = record { records = []; error = error }

module _ (c : Codec) where
  -- The loop of `read_checked`, after `line` lines.
  unfoldable pub scan : (ℕ → Bool) → ℕ → List Bytes → Found
  scan fails line [] = stopped (if fails (suc line) then some (io (some (suc line))) else none)
  scan fails line (l ∷ ls) =
      let rest = scan fails (suc line) ls in
      if fails (suc line) then stopped (some (io (some (suc line)))) else elim (c.parse l) [
        | some value ↦ found (record { line = suc line; value = value }) rest
        | none ↦ stopped (if complete l then some (malformed (suc line)) else none)
      ]

  report_of : Found → ReadReport
  report_of f = record { missing = false; records = f.records; error = f.error }

  unfoldable pub read_checked : Reading → Option Bytes → ReadReport
  unfolding scan report_of
  read_checked reading none = record { missing = true; records = []; error = none }
  read_checked unopened (some file) = record {
    missing = false;
    records = [];
    error = some (io none);
  }
  read_checked (opened fails) (some file) = report_of (scan fails 0 (lines file))
