-- ===== src/Events/Classify.antt =====
-- crates/omni-core/src/events.rs: `classify`. A text is the list of its code points. What Rust's
-- standard library does by its Unicode tables is a parameter: `lower` is `str::to_lowercase`, and
-- `alphanumeric` is `char::is_alphanumeric`.
pub mod Words
pub mod Sigma
pub mod Context
use Prim.Native.Char.{code}
use Prim.Native.String
use silicon_omni.Prelude.{
  ℕ, zero, suc, String, Bool, true, false, not, ◌&&◌, ◌||◌, List, [], ◌∷◌, ◌++◌, map, any, select,
  length, take, ltb, ◌==◌, if◌then◌else◌,
}
use silicon_omni.Events.Kind

abbrev pub Word : Type 0
Word = List ℕ

-- The code points of a text.
abbrev pub codes : String → Word
codes String.[] = []
codes (String.◌∷◌ c s) = code c ∷ codes s

pub eq_word : Word → Word → Bool
eq_word [] [] = true
eq_word (a ∷ v) (b ∷ w) = a == b && eq_word v w
eq_word _ _ = false

unfoldable pub eq_words : List Word → List Word → Bool
unfolding eq_word
eq_words [] [] = true
eq_words (v ∷ vs) (w ∷ ws) = eq_word v w && eq_words vs ws
eq_words _ _ = false

abbrev pub extend_head : ℕ → List Word → List Word
extend_head c [] = (c ∷ []) ∷ []
extend_head c (w ∷ ws) = (c ∷ w) ∷ ws

-- `split(|c| ..)`: the parts between the characters that satisfy `p`.
pub split : (ℕ → Bool) → Word → List Word
split p [] = [] ∷ []
split p (c ∷ s) = let rest = split p s in if p c then [] ∷ rest else extend_head c rest

abbrev pub is_empty : Word → Bool
is_empty [] = true
is_empty (c ∷ w) = false

-- `windows(n)`: the runs of `n` elements, in order.
pub windows {ℓ} : {A : Type ℓ} → ℕ → List A → List (List A)
windows n [] = []
windows n (w ∷ ws) =
    let rest = windows n ws in if ltb (length (w ∷ ws)) n then [] else take n (w ∷ ws) ∷ rest

pub has : List String → List Word → Bool
unfolding eq_word
has wanted words = any (λ word. any (λ w. eq_word word (codes w)) wanted) words

pub phrase : List String → List Word → Bool
unfolding eq_words windows
phrase wanted words =
    any (λ window. eq_words window (map codes wanted)) (windows (length wanted) words)

pub is_context_limit : List Word → Bool
unfolding has phrase
is_context_limit words =
    has ("contextwindowexceeded" ∷ "contextlengthexceeded" ∷ []) words
    || phrase ("context" ∷ "window" ∷ "exceeded" ∷ []) words
    || phrase ("context" ∷ "length" ∷ "exceeded" ∷ []) words
    || phrase ("context" ∷ "limit" ∷ []) words
    || phrase ("prompt" ∷ "is" ∷ "too" ∷ "long" ∷ []) words
    || phrase ("prompt" ∷ "too" ∷ "long" ∷ []) words
    || phrase ("input" ∷ "is" ∷ "too" ∷ "long" ∷ []) words
    || phrase ("maximum" ∷ "context" ∷ "length" ∷ []) words
    || phrase ("exceeds" ∷ "the" ∷ "context" ∷ "window" ∷ []) words
    || (phrase ("context" ∷ "window" ∷ []) words
        && phrase ("ran" ∷ "out" ∷ "of" ∷ "room" ∷ []) words)
    || (has ("tokens" ∷ []) words && phrase ("exceeds" ∷ "the" ∷ "maximum" ∷ []) words)

pub is_auth : List Word → Bool
unfolding has phrase
is_auth words =
    has
      ("auth" ∷ "oauth" ∷ "authentication" ∷ "authorization" ∷ "unauthenticated" ∷ "unauthorized"
        ∷ "login" ∷ "signin" ∷ "401" ∷ [])
      words
    || phrase ("sign" ∷ "in" ∷ []) words

pub is_limit : List Word → Bool
unfolding has
is_limit words =
    has ("rate" ∷ "ratelimit" ∷ "ratelimits" ∷ "limit" ∷ "limited" ∷ "quota" ∷ "429" ∷ []) words

pub is_unavailable : List Word → Bool
unfolding has phrase
is_unavailable words =
    has
      ("overload" ∷ "overloaded" ∷ "unavailable" ∷ "disconnect" ∷ "disconnected" ∷ "disconnection"
        ∷ "timeout" ∷ "timeouts" ∷ "404" ∷ "502" ∷ "503" ∷ [])
      words
    || phrase ("timed" ∷ "out" ∷ []) words
    || phrase ("model" ∷ "not" ∷ "found" ∷ []) words
    || phrase ("invalid" ∷ "model" ∷ []) words

pub classify_words : List Word → String
unfolding is_context_limit is_auth is_limit is_unavailable
classify_words words =
    if is_context_limit words
    then Kind.context_limit
    else if is_auth words
    then Kind.auth
    else if is_limit words
    then Kind.limit
    else if is_unavailable words
    then Kind.unavailable
    else Kind.crash

module _ (lower : Word → Word) (alphanumeric : ℕ → Bool) where
  pub words_of : Word → List Word
  unfolding split
  words_of text =
      select (λ word. not (is_empty word)) (split (λ c. not (alphanumeric c)) (lower text))

  unfoldable pub classify : Word → String
  unfolding words_of classify_words
  classify text = classify_words (words_of text)
