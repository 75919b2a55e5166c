-- ===== src/Choose/Url/Decode.antt =====
-- Reading back what a query encodes.
use mathlib.Core.Bool.{true, false≢true}
use silicon_omni.Prelude.{
  sym, ℕ, ◌≡◌, ◌≢◌, refl, ap, ◌∙◌, [], ◌∷◌, ltb, ◌==◌, ◌+◌, ◌-◌, ◌/◌, ◌%◌, ◌*◌, ◌<◌, if◌then◌else◌,
  All, arith, Bool-cases, inl, inr,
}
use silicon_omni.Jsonl.{Bytes}
use silicon_omni.Choose.Url.{is_unreserved, hex, urlencode}

abbrev pub unhex : ℕ → ℕ
unhex c = if ltb c 58 then c - 48 else c - 55

-- The percent decoding of RFC 3986.
abbrev pub urldecode : Bytes → Bytes
urldecode [] = []
urldecode (b ∷ []) = b ∷ []
urldecode (b ∷ c ∷ []) = let rest = urldecode (c ∷ []) in b ∷ rest
urldecode (b ∷ c ∷ d ∷ text) =
    let plain = urldecode (c ∷ d ∷ text) in
    let coded = urldecode text in if b == 37 then (unhex c * 16 + unhex d) ∷ coded else b ∷ plain

unhex-hex : (d : ℕ) → d < 16 → unhex (hex d) ≡ d
unhex-hex d h = ground arith

urldecode-plain : (b : ℕ) (text : Bytes) → b ≢ 37 → urldecode (b ∷ text) ≡ b ∷ urldecode text
urldecode-plain b [] h = refl
urldecode-plain b (c ∷ []) h = refl
urldecode-plain b (c ∷ d ∷ text) h = ground arith

unreserved_plain : (b : ℕ) → is_unreserved b ≡ true → b ≢ 37
unreserved_plain b h e = false≢true (sym (ap is_unreserved e) ∙ h)

urldecode-coded :
    (h l : ℕ) (text : Bytes)
    → urldecode (37 ∷ h ∷ l ∷ text) ≡ (unhex h * 16 + unhex l) ∷ urldecode text
urldecode-coded h l text = refl

byte_halves : (b : ℕ) → b < 256 → unhex (hex (b / 16)) * 16 + unhex (hex (b % 16)) ≡ b
byte_halves b h =
    ap (λ (x : ℕ). x * 16 + unhex (hex (b % 16))) (unhex-hex (b / 16) (omega (arith, h)))
    ∙ ap (λ (x : ℕ). b / 16 * 16 + x) (unhex-hex (b % 16) (omega arith))
    ∙ omega arith

-- Percent decoding gives back the bytes, numbers below 256, that `urlencode` encoded.
pub urldecode-urlencode :
    (text : Bytes) → All (λ b. b < 256) text → urldecode (urlencode text) ≡ text
unfolding urlencode
urldecode-urlencode [] h = refl
urldecode-urlencode (b ∷ text) h =
    let rest = urldecode-urlencode text h.1 in
    elim (Bool-cases (is_unreserved b)) [
      | inl plain ↦ rw plain (
          urldecode-plain b (urlencode text) (unreserved_plain b plain)
          ∙ ap (λ (r : Bytes). b ∷ r) rest)
      | inr coded ↦ rw coded (
          urldecode-coded (hex (b / 16)) (hex (b % 16)) (urlencode text)
          ∙ ap (λ (x : ℕ). x ∷ urldecode (urlencode text)) (byte_halves b h.0)
          ∙ ap (λ (r : Bytes). b ∷ r) rest)
    ]
