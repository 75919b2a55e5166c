-- ===== src/Choose/Url.antt =====
-- crates/omni-core/src/choose.rs: the address of a question to the registry, as its bytes.
pub mod Decode
use Prim.Native.Char.{code}
use Prim.Native.String
use silicon_omni.Prelude.{
  ℕ, suc, String, Bool, true, false, ◌&&◌, ◌||◌, Option, none, some, List, [], ◌∷◌, ◌++◌, ltb, leb,
  ◌==◌, ◌+◌, ◌/◌, ◌%◌, ◌*◌, if◌then◌else◌, unwrap_or,
}
use silicon_omni.Jsonl.{Bytes}

-- The bytes of a character in UTF-8.
abbrev pub utf8_char : ℕ → Bytes
utf8_char c =
    if ltb c 128
    then c ∷ []
    else if ltb c 2048
    then (192 + c / 64) ∷ (128 + c % 64) ∷ []
    else if ltb c 65536
    then (224 + c / 4096) ∷ (128 + c / 64 % 64) ∷ (128 + c % 64) ∷ []
    else (240 + c / 262144) ∷ (128 + c / 4096 % 64) ∷ (128 + c / 64 % 64) ∷ (128 + c % 64) ∷ []

-- `text.bytes()`
abbrev pub bytes : String → Bytes
bytes String.[] = []
bytes (String.◌∷◌ c s) = utf8_char (code c) ++ bytes s

abbrev pub between : ℕ → ℕ → ℕ → Bool
between low high b = leb low b && leb b high

-- A-Z a-z 0-9 - _ . ~
abbrev pub is_unreserved : ℕ → Bool
is_unreserved b =
    between 65 90 b
    || between 97 122 b
    || between 48 57 b
    || b == 45
    || b == 95
    || b == 46
    || b == 126

-- An upper-case hexadecimal digit.
abbrev pub hex : ℕ → ℕ
hex d = if ltb d 10 then 48 + d else 55 + d

unfoldable pub urlencode : Bytes → Bytes
urlencode [] = []
urlencode (b ∷ text) =
    (if is_unreserved b then b ∷ [] else 37 ∷ hex (b / 16) ∷ hex (b % 16) ∷ []) ++ urlencode text

abbrev pub is_empty : List ℕ → Bool
is_empty [] = true
is_empty (x ∷ xs) = false

-- `trim_end_matches(c)`
unfoldable pub trim_end_matches : ℕ → Bytes → Bytes
trim_end_matches c [] = []
trim_end_matches c (b ∷ text) =
    let rest = trim_end_matches c text in if is_empty rest && b == c then [] else b ∷ rest

-- The value of an environment variable, if it is there and not empty.
abbrev pub filled : Option Bytes → Option Bytes
filled none = none
filled (some []) = none
filled (some (b ∷ value)) = some (b ∷ value)

-- `backend()`, from the value of OMNI_BACKEND.
unfoldable pub backend : Option Bytes → Bytes
unfolding trim_end_matches
backend omni_backend =
    trim_end_matches 47
      (unwrap_or (filled omni_backend) (bytes "https://backend.omni.teamofsilicons.com"))

-- `remote()`, from the values of OMNI_REGISTRY and OMNI_BACKEND.
unfoldable pub remote : Option Bytes → Option Bytes → Bytes
unfolding backend
remote omni_registry omni_backend =
    unwrap_or (filled omni_registry) (backend omni_backend ++ bytes "/choose.json")

-- name=value pairs, joined by `&`
unfoldable pub tail : List (String × String) → Bytes
unfolding urlencode
tail [] = []
tail ((name, value) ∷ []) = urlencode (bytes name) ++ (61 ∷ urlencode (bytes value))
tail ((name, value) ∷ next ∷ query) =
    urlencode (bytes name) ++ (61 ∷ urlencode (bytes value)) ++ (38 ∷ tail (next ∷ query))
