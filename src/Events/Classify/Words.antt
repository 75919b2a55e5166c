-- ===== src/Events/Classify/Words.antt =====
-- The words of a text, and what a phrase is.
use silicon_omni.Prelude.{
  ℕ, zero, suc, ◌<◌, ◌≤◌, String, ◌≡◌, refl, ap, ◌↔◌, Bool, true, ◌||◌, List, [], ◌∷◌, ◌++◌, map,
  any, select, length, length-append, take, ltb, ==_iff, arith, take-append-drop, drop, Bool-cases,
  inl, inr, sym,
}
use silicon_omni.Events.Classify.{Word, codes, eq_word, eq_words, split, windows, has, phrase}

any-append {ℓ} :
    {A : Type ℓ} (p : A → Bool) (xs ys : List A) → any p (xs ++ ys) ≡ (any p xs || any p ys)
any-append p [] ys = refl
any-append p (x ∷ xs) ys = ground (arith, any-append p xs ys)

-- A word is found in a longer list of words too.
pub has-append :
    (wanted : List String) (pre ws post : List Word)
    → has wanted ws ≡ true
    → has wanted (pre ++ (ws ++ post)) ≡ true
unfolding has
has-append wanted pre ws post h = rw (any-append, any-append) (ground arith)

pub eq_word_iff : (v w : Word) → (eq_word v w ≡ true) ↔ (v ≡ w)
unfolding eq_word
eq_word_iff [] [] = ground arith
eq_word_iff [] (b ∷ w) = ground arith
eq_word_iff (a ∷ v) [] = ground arith
eq_word_iff (a ∷ v) (b ∷ w) = ground (arith, eq_word_iff v w, ==_iff a b)

pub eq_words_iff : (v w : List Word) → (eq_words v w ≡ true) ↔ (v ≡ w)
unfolding eq_words
eq_words_iff [] [] = ground arith
eq_words_iff [] (b ∷ w) = ground arith
eq_words_iff (a ∷ v) [] = ground arith
eq_words_iff (a ∷ v) (b ∷ w) = ground (arith, eq_words_iff v w, eq_word_iff a b)

take-append {ℓ} :
    {A : Type ℓ} (n : ℕ) (xs ys : List A) → n ≤ length xs → take n (xs ++ ys) ≡ take n xs
take-append zero xs ys h = refl
take-append (suc n) [] ys h = absurd (omega arith)
take-append (suc n) (x ∷ xs) ys h = ap (λ (r : List _). x ∷ r) (take-append n xs ys (omega arith))

take-length {ℓ} : {A : Type ℓ} (xs : List A) → take (length xs) xs ≡ xs
take-length [] = refl
take-length (x ∷ xs) = ap (λ (r : List _). x ∷ r) (take-length xs)

windows_short {ℓ} : {A : Type ℓ} (n : ℕ) (ws : List A) → length ws < n → windows n ws ≡ []
unfolding windows
windows_short n [] h = refl
windows_short n (w ∷ ws) h = ground arith

module _ {ℓ} {A : Type ℓ} (p : List A → Bool) (n : ℕ) where
  windows-cons :
      (w : A) (ws : List A) → any p (windows n ws) ≡ true → any p (windows n (w ∷ ws)) ≡ true
  unfolding windows
  windows-cons w ws h = ground (arith, windows_short n ws)

  windows-append_left :
      (pre ws : List A) → any p (windows n ws) ≡ true → any p (windows n (pre ++ ws)) ≡ true
  windows-append_left [] ws h = h
  windows-append_left (w ∷ pre) ws h = windows-cons w (pre ++ ws) (windows-append_left pre ws h)

  windows-append_right :
      (ws post : List A) → any p (windows n ws) ≡ true → any p (windows n (ws ++ post)) ≡ true
  unfolding windows
  windows-append_right [] post h = ground arith
  windows-append_right (w ∷ ws) post h =
      ground
        (arith, windows-append_right ws post, take-append n (w ∷ ws) post, length-append ws post)

-- A phrase is found in a longer list of words too.
pub phrase-append :
    (wanted : List String) (pre ws post : List Word)
    → phrase wanted ws ≡ true
    → phrase wanted (pre ++ (ws ++ post)) ≡ true
unfolding phrase
phrase-append wanted pre ws post h =
    windows-append_left _ (length wanted) pre (ws ++ post)
      (windows-append_right _ (length wanted) ws post h)

phrase_found :
    (wanted : List Word) (n : ℕ) (ws : List Word)
    → any (λ window. eq_words window wanted) (windows n ws) ≡ true
    → (pre : List Word) × (post : List Word) × (ws ≡ pre ++ (wanted ++ post))
unfolding windows
phrase_found wanted n [] h = absurd (ground arith)
phrase_found wanted n (w ∷ ws) h = elim (Bool-cases (ltb (length (w ∷ ws)) n)) [
  | inl short ↦ absurd (ground arith)
  | inr long ↦ elim (Bool-cases (eq_words (take n (w ∷ ws)) wanted)) [
    | inl here ↦ (
      [],
      drop n (w ∷ ws),
      rw (← (eq_words_iff (take n (w ∷ ws)) wanted).0 here) (sym (take-append-drop n (w ∷ ws))),
    )
    | inr later ↦
        let (pre, post, e) = phrase_found wanted n ws (ground arith) in
        (w ∷ pre, post, ap (λ (r : List Word). w ∷ r) e)
  ]
]

length-map-codes : (l : List String) → length (map codes l) ≡ length l
length-map-codes [] = refl
length-map-codes (w ∷ l) = ap suc (length-map-codes l)

take-map-codes : (l : List String) → take (length l) (map codes l) ≡ map codes l
take-map-codes [] = refl
take-map-codes (w ∷ l) = ap (λ (r : List Word). codes w ∷ r) (take-map-codes l)

phrase_whole :
    (w : String) (wanted : List String) → phrase (w ∷ wanted) (map codes (w ∷ wanted)) ≡ true
unfolding phrase
phrase_whole w wanted = ground (
  arith,
  take-map-codes wanted,
  length-map-codes wanted,
  (eq_words_iff (map codes (w ∷ wanted)) (map codes (w ∷ wanted))).1 refl,
)

-- `phrase` finds the wanted words exactly where they stand next to one another, in order.
pub phrase_iff :
    (w : String) (wanted : List String) (ws : List Word)
    → (phrase (w ∷ wanted) ws ≡ true)
      ↔ ((pre : List Word) × (post : List Word) × (ws ≡ pre ++ (map codes (w ∷ wanted) ++ post)))
unfolding phrase
phrase_iff w wanted ws = (
  phrase_found (map codes (w ∷ wanted)) (length (w ∷ wanted)) ws,
  λ (pre, post, e).
      rw e (phrase-append (w ∷ wanted) pre (map codes (w ∷ wanted)) post (phrase_whole w wanted)),
)

pub split_cons : (p : ℕ → Bool) (s : Word) → (w : Word) × (ws : List Word) × (split p s ≡ w ∷ ws)
unfolding split
split_cons p [] = ([], [], refl)
split_cons p (c ∷ s) = elim (Bool-cases (p c)) [
  | inl e ↦ ([], split p s, rw e)
  | inr e ↦ let (w, ws, h) = split_cons p s in (c ∷ w, ws, rw (e, h))
]

pub split-append :
    (p : ℕ → Bool) (a : Word) (c : ℕ) (b : Word)
    → p c ≡ true
    → split p (a ++ (c ∷ b)) ≡ split p a ++ split p b
unfolding split
split-append p [] c b h = rw h
split-append p (x ∷ a) c b h = ground (arith, split-append p a c b h, (split_cons p a).2)

pub select-append {ℓ} :
    {A : Type ℓ} (p : A → Bool) (xs ys : List A) → select p (xs ++ ys) ≡ select p xs ++ select p ys
select-append p [] ys = refl
select-append p (x ∷ xs) ys = ground (arith, select-append p xs ys)
