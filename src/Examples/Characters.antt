-- ===== src/Examples/Characters.antt =====
-- Characters by their numbers.
use Prim.Native.Nat.{Ordering, compare as compare_ℕ}
use Prim.Native.Char.{Char, char, code, nul, IsLt}
use text.Mathlib.TextEquality.{Char-path}
use silicon_omni.Prelude.{ℕ, ◌≡◌, refl}

decide_lt : (o : Ordering) → Dec (IsLt o)
decide_lt Ordering.lt = yes tt
decide_lt Ordering.eq = no (λ e. e)
decide_lt Ordering.gt = no (λ e. e)

abbrev Above : Ordering → Ordering → Type 0
Above Ordering.lt q = IsLt q
Above Ordering.eq q = ⊥
Above Ordering.gt q = ⊥

decide_above : (p q : Ordering) → Dec (Above p q)
decide_above Ordering.lt q = decide_lt q
decide_above Ordering.eq q = no (λ e. e)
decide_above Ordering.gt q = no (λ e. e)

-- A character below the surrogates, or one above them.
abbrev IsEither : Ordering → Ordering → Ordering → Type 0
IsEither Ordering.lt p q = Unit
IsEither Ordering.eq p q = Above p q
IsEither Ordering.gt p q = Above p q

decide_either : (o p q : Ordering) → Dec (IsEither o p q)
decide_either Ordering.lt p q = yes tt
decide_either Ordering.eq p q = decide_above p q
decide_either Ordering.gt p q = decide_above p q

unfoldable pub to_char : ℕ → Char
unfolding decide_either decide_above decide_lt
to_char n = elim (decide_either (compare_ℕ n 55296) (compare_ℕ 57343 n) (compare_ℕ n 1114112)) [
  | yes s ↦ char n s
  | no _ ↦ nul
]

pub to_char-code : (c : Char) → to_char (code c) ≡ c
unfolding to_char
to_char-code (char n s) =
    elim (decide_either (compare_ℕ n 55296) (compare_ℕ 57343 n) (compare_ℕ n 1114112))
      as (λ d. (elim d [ yes s' ↦ char n s' | no _ ↦ nul ]) ≡ char n s) [
        | yes s' ↦ Char-path (char n s') (char n s) refl
        | no f ↦ absurd (f s)
      ]
