-- ===== src/Choose/Asking.antt =====
-- crates/omni-core/src/choose.rs: what may answer a turn (`Pick`) and the ways to ask (`Ask`).
-- `str::trim` and `to_ascii_lowercase` are parameters; a number is printed by `decimal`.
use Prim.Native.String.{◌++◌}
use silicon_omni.Prelude.{
  ℕ, zero, suc, String, ℤ, pos, negsuc, Bool, false, Option, none, some, List, [], ◌∷◌, ltb, ◌==◌,
  ltb_ℤ, str_eq, ◌/◌, ◌%◌, if◌then◌else◌,
}

pub record Pick : Type 0 where
  pub provider : String
  pub model : String
  pub effort : String
  pub fast : Bool

abbrev pub new : String → String → String → Pick
new provider model effort = record {
  provider = provider;
  model = model;
  effort = effort;
  fast = false;
}

pub data Ask : Type 0 where
  by_key : String → Ask
  by_intelligence : ℤ → Option String → Ask
  by_model : Option String → String → String → Bool → Ask

-- `default`
abbrev pub default_ask : Ask
default_ask = by_intelligence (pos 5) none

abbrev pub intelligence : ℤ → Ask
intelligence value = by_intelligence value none

abbrev pub fast : Bool → Ask → Ask
fast hot (by_model provider model effort _) = by_model provider model effort hot
fast hot other = other

module _ (trim : String → String) where
  abbrev pub key : (String → String) → String → Ask
  key to_ascii_lowercase word = by_key (to_ascii_lowercase (trim word))

  -- A number, judged on a particular board.
  abbrev pub on : String → Ask → Ask
  on board (by_intelligence value _) = by_intelligence value (some (trim board))
  on board other = other

  abbrev pub model : String → Ask
  model name = by_model none (trim name) "" false

  abbrev pub from : String → Ask → Ask
  from name (by_model _ model effort fast) = by_model (some (trim name)) model effort fast
  from name other = other

  abbrev pub effort : String → Ask → Ask
  effort level (by_model provider model _ fast) = by_model provider model (trim level) fast
  effort level other = other

abbrev pub digit : ℕ → String
digit n =
    if n == 0
    then "0"
    else if n == 1
    then "1"
    else if n == 2
    then "2"
    else if n == 3
    then "3"
    else if n == 4
    then "4"
    else if n == 5
    then "5"
    else if n == 6
    then "6"
    else if n == 7
    then "7"
    else if n == 8
    then "8"
    else "9"

-- The decimal digits of a number below `10 ^ suc fuel`.
unfoldable pub decimal_ℕ : ℕ → ℕ → String
decimal_ℕ zero n = digit n
decimal_ℕ (suc fuel) n =
    let front = decimal_ℕ fuel (n / 10) in if ltb n 10 then digit n else front ++ digit (n % 10)

-- `to_string` of an `i64`, which has 19 digits at most.
unfoldable pub decimal : ℤ → String
unfolding decimal_ℕ
decimal (pos n) = decimal_ℕ 18 n
decimal (negsuc n) = "-" ++ decimal_ℕ 18 (suc n)

-- `value.clamp(0, INTELLIGENCE_VALUES - 1)`
abbrev pub clamp : ℤ → ℤ
clamp value = if ltb_ℤ value (pos 0) then pos 0 else if ltb_ℤ (pos 10) value then pos 10 else value

abbrev pub bench_query : Option String → List (String × String)
bench_query none = []
bench_query (some bench) = ("bench", bench) ∷ []

unfoldable pub query : Ask → List (String × String)
unfolding decimal
query (by_key key) = ("key", key) ∷ []
query (by_intelligence value bench) = ("intelligence", decimal (clamp value)) ∷ bench_query bench
query (by_model _ _ _ _) = []

-- `fmt`
unfoldable pub display : Ask → String
unfolding decimal
display (by_key key) = key
display (by_intelligence value none) = decimal value
display (by_intelligence value (some bench)) = (decimal value ++ " on ") ++ bench
display (by_model _ model effort fast) =
    (model ++ (if str_eq effort "" then "" else " " ++ effort)) ++ (if fast then " fast" else "")
