-- ===== src/Events/Classify/Context.antt =====
-- Context limits in the middle of longer texts.
use silicon_omni.Prelude.{ℕ, ◌≡◌, ap, sym, ◌∙◌, Bool, true, List, ◌∷◌, ◌++◌, map, arith, eq_iff}
use silicon_omni.Events.Kind
use silicon_omni.Events.Classify.{Word, is_context_limit, classify_words, classify, words_of}
use silicon_omni.Events.Classify.Words.{has-append, phrase-append}
use silicon_omni.Events.Classify.Sigma.{
  IsLower, IsSeparator, folded, is_context_limit-folded, words_of-append,
}

is_context_limit-append :
    (pre ws post : List Word)
    → is_context_limit ws ≡ true
    → is_context_limit (pre ++ (ws ++ post)) ≡ true
unfolding is_context_limit
is_context_limit-append pre ws post h = grind (arith, has-append, phrase-append)

classify_words_context :
    (ws : List Word) → classify_words ws ≡ Kind.context_limit → is_context_limit ws ≡ true
unfolding classify_words
classify_words_context ws h = ground (
  arith,
  eq_iff Kind.auth Kind.context_limit,
  eq_iff Kind.limit Kind.context_limit,
  eq_iff Kind.unavailable Kind.context_limit,
  eq_iff Kind.crash Kind.context_limit,
)

context_classify_words :
    (ws : List Word) → is_context_limit ws ≡ true → classify_words ws ≡ Kind.context_limit
unfolding classify_words
context_classify_words ws h = rw h

module _ (lower : Word → Word) (alphanumeric : ℕ → Bool) (l : IsLower lower alphanumeric) where
  -- A text that is classified as a context limit is so classified within any longer text, whatever
  -- else that text says, where a separator stands on each side of it, and where lower-casing does
  -- what it is documented to do.
  pub classify-append :
      (a b text : Word) (c d : ℕ)
      → IsSeparator lower alphanumeric c
      → IsSeparator lower alphanumeric d
      → classify lower alphanumeric text ≡ Kind.context_limit
      → classify lower alphanumeric (a ++ (c ∷ (text ++ (d ∷ b)))) ≡ Kind.context_limit
  unfolding classify
  classify-append a b text c d hc hd h =
      let words = words_of lower alphanumeric in
      let whole = words (a ++ (c ∷ (text ++ (d ∷ b)))) in
      let before = map folded (words a) in
      let inside = map folded (words text) in
      let after = map folded (words b) in
      let parts : map folded whole ≡ before ++ (inside ++ after) =
        words_of-append lower alphanumeric l a c (text ++ (d ∷ b)) hc
        ∙ ap (λ (r : List Word). before ++ r) (words_of-append lower alphanumeric l text d b hd) in
      let there : is_context_limit inside ≡ true =
        is_context_limit-folded (words text) ∙ classify_words_context (words text) h in
      context_classify_words whole (
        sym (is_context_limit-folded whole)
        ∙ ap is_context_limit parts
        ∙ is_context_limit-append before inside after there)
