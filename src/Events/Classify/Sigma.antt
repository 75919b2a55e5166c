-- ===== src/Events/Classify/Sigma.antt =====
-- The two lower-case forms of the letter sigma. `str::to_lowercase` takes each character for itself,
-- but for a capital sigma, whose form depends on whether it ends a word.
use silicon_omni.Prelude.{
  ℕ, zero, suc, String, ◌≡◌, refl, ap, sym, ◌∙◌, Bool, true, false, not, ◌&&◌, List, [], ◌∷◌, ◌++◌,
  map, any, select, length, take, ◌==◌, ==_iff, arith, Bool-cases, inl, inr, if◌then◌else◌,
}
use silicon_omni.Events.Classify.{
  Word, codes, eq_word, eq_words, is_empty, split, windows, has, phrase, words_of, is_context_limit,
}
use silicon_omni.Events.Classify.Words.{split-append, select-append, split_cons}

-- The final form as the other one.
abbrev pub fold : ℕ → ℕ
fold c = if c == 962 then 963 else c

abbrev pub folded : Word → Word
folded = map fold

-- What is documented of `str::to_lowercase`: on the two parts of a text it does what it does on the
-- whole, but for the form of a sigma. Both forms are letters.
pub record IsLower (lower : Word → Word) (alphanumeric : ℕ → Bool) : Type 0 where
  pub parts : (a b : Word) → folded (lower (a ++ b)) ≡ folded (lower a) ++ folded (lower b)
  pub sigma : alphanumeric 963 ≡ true
  pub final_sigma : alphanumeric 962 ≡ true

-- `c` separates words: it is no letter or digit, and has no other case.
pub record IsSeparator (lower : Word → Word) (alphanumeric : ℕ → Bool) (c : ℕ) : Type 0 where
  pub same : lower (c ∷ []) ≡ c ∷ []
  pub mark : alphanumeric c ≡ false

-- No sigma is in a wanted word.
abbrev pub plain : Word → Bool
plain [] = true
plain (c ∷ w) = not (c == 962) && not (c == 963) && plain w

abbrev pub all_plain : List String → Bool
all_plain [] = true
all_plain (w ∷ ws) = plain (codes w) && all_plain ws

eq_word-folded : (v w : Word) → plain w ≡ true → eq_word (folded v) w ≡ eq_word v w
unfolding eq_word
eq_word-folded [] [] h = refl
eq_word-folded [] (b ∷ w) h = refl
eq_word-folded (a ∷ v) [] h = refl
eq_word-folded (a ∷ v) (b ∷ w) h =
    ground (
      arith,
      eq_word-folded v w,
      ==_iff a 962,
      ==_iff a b,
      ==_iff 963 b,
      ==_iff b 962,
      ==_iff b 963,
    )

any_wanted-folded :
    (wanted : List String) (word : Word)
    → all_plain wanted ≡ true
    → any (λ w. eq_word (folded word) (codes w)) wanted ≡ any (λ w. eq_word word (codes w)) wanted
any_wanted-folded [] word h = refl
any_wanted-folded (w ∷ wanted) word h =
    ground (arith, any_wanted-folded wanted word, eq_word-folded word (codes w))

has-folded :
    (wanted : List String) (ws : List Word)
    → all_plain wanted ≡ true
    → has wanted (map folded ws) ≡ has wanted ws
unfolding has
has-folded wanted [] h = refl
has-folded wanted (w ∷ ws) h = ground (arith, has-folded wanted ws h, any_wanted-folded wanted w h)

eq_words-folded :
    (ws : List Word) (wanted : List String)
    → all_plain wanted ≡ true
    → eq_words (map folded ws) (map codes wanted) ≡ eq_words ws (map codes wanted)
unfolding eq_words
eq_words-folded [] [] h = refl
eq_words-folded [] (w ∷ wanted) h = refl
eq_words-folded (v ∷ ws) [] h = refl
eq_words-folded (v ∷ ws) (w ∷ wanted) h =
    ground (arith, eq_words-folded ws wanted, eq_word-folded v (codes w))

length-folded : (ws : List Word) → length (map folded ws) ≡ length ws
length-folded [] = refl
length-folded (w ∷ ws) = ground (arith, length-folded ws)

take-folded : (n : ℕ) (ws : List Word) → take n (map folded ws) ≡ map folded (take n ws)
take-folded zero ws = refl
take-folded (suc n) [] = refl
take-folded (suc n) (w ∷ ws) = ap (λ (r : List Word). folded w ∷ r) (take-folded n ws)

phrase_windows-folded :
    (wanted : List String) (n : ℕ) (ws : List Word)
    → all_plain wanted ≡ true
    → any (λ window. eq_words window (map codes wanted)) (windows n (map folded ws))
      ≡ any (λ window. eq_words window (map codes wanted)) (windows n ws)
unfolding windows
phrase_windows-folded wanted n [] h = refl
phrase_windows-folded wanted n (w ∷ ws) h = ground (
  arith,
  phrase_windows-folded wanted n ws h,
  length-folded ws,
  take-folded n (w ∷ ws),
  eq_words-folded (take n (w ∷ ws)) wanted h,
)

phrase-folded :
    (wanted : List String) (ws : List Word)
    → all_plain wanted ≡ true
    → phrase wanted (map folded ws) ≡ phrase wanted ws
unfolding phrase
phrase-folded wanted ws h = phrase_windows-folded wanted (length wanted) ws h

-- A context limit is recognised whichever form a sigma has.
pub is_context_limit-folded :
    (ws : List Word) → is_context_limit (map folded ws) ≡ is_context_limit ws
unfolding is_context_limit
is_context_limit-folded ws = ground (
  arith,
  has-folded ("contextwindowexceeded" ∷ "contextlengthexceeded" ∷ []) ws refl,
  phrase-folded ("context" ∷ "window" ∷ "exceeded" ∷ []) ws refl,
  phrase-folded ("context" ∷ "length" ∷ "exceeded" ∷ []) ws refl,
  phrase-folded ("context" ∷ "limit" ∷ []) ws refl,
  phrase-folded ("prompt" ∷ "is" ∷ "too" ∷ "long" ∷ []) ws refl,
  phrase-folded ("prompt" ∷ "too" ∷ "long" ∷ []) ws refl,
  phrase-folded ("input" ∷ "is" ∷ "too" ∷ "long" ∷ []) ws refl,
  phrase-folded ("maximum" ∷ "context" ∷ "length" ∷ []) ws refl,
  phrase-folded ("exceeds" ∷ "the" ∷ "context" ∷ "window" ∷ []) ws refl,
  phrase-folded ("context" ∷ "window" ∷ []) ws refl,
  phrase-folded ("ran" ∷ "out" ∷ "of" ∷ "room" ∷ []) ws refl,
  has-folded ("tokens" ∷ []) ws refl,
  phrase-folded ("exceeds" ∷ "the" ∷ "maximum" ∷ []) ws refl,
)

module _ (lower : Word → Word) (alphanumeric : ℕ → Bool) (l : IsLower lower alphanumeric) where
  mark-folded : (c : ℕ) → alphanumeric (fold c) ≡ alphanumeric c
  mark-folded c = elim (Bool-cases (c == 962)) [
    | inl e ↦ rw (e, (==_iff c 962).0 e) (l.sigma ∙ sym l.final_sigma)
    | inr e ↦ rw e refl
  ]

  split-folded :
      (s : Word)
      → split (λ c. not (alphanumeric c)) (folded s)
        ≡ map folded (split (λ c. not (alphanumeric c)) s)
  unfolding split
  split-folded [] = refl
  split-folded (c ∷ s) =
      ground (arith, split-folded s, mark-folded c, (split_cons (λ x. not (alphanumeric x)) s).2)

  select-folded :
      (ws : List Word)
      → select (λ word. not (is_empty word)) (map folded ws)
        ≡ map folded (select (λ word. not (is_empty word)) ws)
  select-folded [] = refl
  select-folded ([] ∷ ws) = select-folded ws
  select-folded ((c ∷ w) ∷ ws) = ap (λ (r : List Word). folded (c ∷ w) ∷ r) (select-folded ws)

  -- The words of a text whose lower-case form is `s`.
  abbrev words_in : Word → List Word
  words_in s = select (λ word. not (is_empty word)) (split (λ c. not (alphanumeric c)) s)

  words_in-folded : (s : Word) → words_in (folded s) ≡ map folded (words_in s)
  words_in-folded s =
      ap (select (λ word. not (is_empty word))) (split-folded s)
      ∙ select-folded (split (λ c. not (alphanumeric c)) s)

  -- But for the form of a sigma, the words on the two sides of a separator are the words of the
  -- whole.
  pub words_of-append :
      (a : Word) (c : ℕ) (b : Word)
      → IsSeparator lower alphanumeric c
      → map folded (words_of lower alphanumeric (a ++ (c ∷ b)))
        ≡ map folded (words_of lower alphanumeric a) ++ map folded (words_of lower alphanumeric b)
  unfolding words_of
  words_of-append a c b h =
      let p = λ (x : ℕ). not (alphanumeric x) in
      let mark : alphanumeric (fold c) ≡ false = mark-folded c ∙ h.mark in
      let whole : folded (lower (a ++ (c ∷ b))) ≡ folded (lower a) ++ (fold c ∷ folded (lower b)) =
        l.parts a (c ∷ b)
        ∙ ap (λ (r : Word). folded (lower a) ++ r)
            (l.parts (c ∷ []) b ∙ ap (λ (r : Word). folded r ++ folded (lower b)) h.same) in
      sym (words_in-folded (lower (a ++ (c ∷ b))))
      ∙ ap words_in whole
      ∙ ap (select (λ word. not (is_empty word)))
          (split-append p (folded (lower a)) (fold c) (folded (lower b)) (ap not mark))
      ∙ select-append (λ word. not (is_empty word)) (split p (folded (lower a)))
          (split p (folded (lower b)))
      ∙ ap (λ (r : List Word). r ++ words_in (folded (lower b))) (words_in-folded (lower a))
      ∙ ap (λ (r : List Word). map folded (words_in (lower a)) ++ r) (words_in-folded (lower b))
