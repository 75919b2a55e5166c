-- ===== src/Examples/Texts.antt =====
-- Conversations and error messages.
use silicon_omni.Prelude.{
  ℕ, String, ◌≡◌, ◌↔◌, refl, ap, Bool, true, List, [], ◌∷◌, ◌++◌, map, ◌||◌, ◌&&◌, leb,
}
use silicon_omni.Json.{Value}
use silicon_omni.Events.{Event, new, saying}
use silicon_omni.Events.EventType
use silicon_omni.Events.Kind
use silicon_omni.Events.Classify.{Word, codes, phrase, classify}
use silicon_omni.Events.Classify.Words.{phrase_iff}
use silicon_omni.Events.Classify.Sigma.{IsLower, IsSeparator, fold, folded}
use silicon_omni.Events.Classify.Context.{classify-append}
use silicon_omni.Translate.{transcript, flatten}
use silicon_omni.Translate.Turns.{
  Group, turn_of, ungroup, IsAlternating, spoken, transcript-groups, flatten-nil_iff,
}

abbrev print : Value → String
print v = "{}"

abbrev trim : String → String
trim text = text

abbrev conversation : List Event
conversation =
    saying "hello" (new "t" EventType.start)
    ∷ saying "hi" (new "t" EventType.text)
    ∷ saying "there" (new "t" EventType.text)
    ∷ []

transcript-groups_example :
    (gs : List Group) × (transcript print trim conversation ≡ map turn_of gs)
    × (ungroup gs ≡ spoken print trim conversation)
    × IsAlternating gs
transcript-groups_example = transcript-groups print trim conversation

flatten-nil_iff_example :
    (flatten print trim conversation "seed" ≡ "") ↔ (spoken print trim conversation ≡ [])
flatten-nil_iff_example = flatten-nil_iff print trim conversation "seed"

-- Texts in lower case, of ASCII and sigma.
abbrev lower : Word → Word
lower text = text

abbrev alphanumeric : ℕ → Bool
alphanumeric c = (leb 97 c && leb c 122) || (leb 48 c && leb c 57) || (leb 962 c && leb c 963)

map-append-folded : (a b : Word) → folded (a ++ b) ≡ folded a ++ folded b
map-append-folded [] b = refl
map-append-folded (c ∷ a) b = ap (λ (r : Word). fold c ∷ r) (map-append-folded a b)

lower-IsLower : IsLower lower alphanumeric
lower-IsLower = record { parts = map-append-folded; sigma = refl; final_sigma = refl }

space : IsSeparator lower alphanumeric 32
space = record { same = refl; mark = refl }

abbrev limit_text : Word
limit_text = codes "prompt too long"

limited : classify lower alphanumeric limit_text ≡ Kind.context_limit
unfolding classify
limited = refl

classify-append_example :
    classify lower alphanumeric (codes "auth" ++ (32 ∷ (limit_text ++ (32 ∷ codes "429"))))
    ≡ Kind.context_limit
classify-append_example =
    classify-append lower alphanumeric lower-IsLower (codes "auth") (codes "429") limit_text 32 32
      space space limited

phrase_iff_example :
    (phrase ("timed" ∷ "out" ∷ []) (map codes ("it" ∷ "timed" ∷ "out" ∷ [])) ≡ true) ↔ (
      (pre : List Word) × (post : List Word) × (map codes ("it" ∷ "timed" ∷ "out" ∷ [])
        ≡ pre ++ (map codes ("timed" ∷ "out" ∷ []) ++ post)))
phrase_iff_example = phrase_iff "timed" ("out" ∷ []) (map codes ("it" ∷ "timed" ∷ "out" ∷ []))
