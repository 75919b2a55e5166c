-- ===== src/Examples/Coding.antt =====
-- A reader and a printer of JSON values that keep the documented laws, as small as they can be: a
-- value is written as tagged numbers, none of which is a line break.
use Prim.Native.Char.{code}
use silicon_omni.Prelude.{
  ℕ, zero, suc, ◌+◌, ◌-◌, ◌≤◌, String, ℤ, pos, negsuc, ◌≡◌, refl, ap, ◌∙◌, true, false, not, Option,
  none, some, [], ◌∷◌, ◌++◌, select, ◌==◌, if◌then◌else◌, ◌>>=◌, arith, append_assoc, append-nil,
  subst,
}
use silicon_omni.Json.{
  Value, Items, Fields, null, bool, num, real, str, arr, obj, nil, cons, end, field,
}
use silicon_omni.Jsonl.{Bytes, newline, IsOneLine}
use silicon_omni.Jsonl
use silicon_omni.Meta.Load
use silicon_omni.Examples.Characters.{to_char, to_char-code}

-- A text: its characters, from 12 on, and an 11 at the end.
abbrev put_text : String → Bytes
put_text String.[] = 11 ∷ []
put_text (String.◌∷◌ c s) = (12 + code c) ∷ put_text s

get_text : Bytes → Option (String × Bytes)
get_text [] = none
get_text (b ∷ text) =
    let rest = get_text text in
    if b == 11
    then some (String.[], text)
    else (do (s, left) ← rest; some (String.◌∷◌ (to_char (b - 12)) s, left))

read_char : (c : ℕ) → 12 + c - 12 ≡ c
read_char c = omega arith

get_text-put_text : (s : String) (left : Bytes) → get_text (put_text s ++ left) ≡ some (s, left)
unfolding get_text
get_text-put_text String.[] left = refl
get_text-put_text (String.◌∷◌ c s) left =
    ground (arith, get_text-put_text s left, ap to_char (read_char (code c)) ∙ to_char-code c)

mutual
  put : Value → Bytes
  put null = 11 ∷ []
  put (bool true) = 12 ∷ []
  put (bool false) = 13 ∷ []
  put (num (pos n)) = 14 ∷ (11 + n) ∷ []
  put (num (negsuc n)) = 15 ∷ (11 + n) ∷ []
  put (real s) = 16 ∷ put_text s
  put (str s) = 17 ∷ put_text s
  put (arr xs) = 18 ∷ put_items xs
  put (obj m) = 19 ∷ put_fields m

  put_items : Items → Bytes
  put_items nil = 20 ∷ []
  put_items (cons v xs) = 21 ∷ (put v ++ put_items xs)

  put_fields : Fields → Bytes
  put_fields end = 22 ∷ []
  put_fields (field k v m) = 23 ∷ (put_text k ++ (put v ++ put_fields m))

-- How deep a value is, as the reader counts.
mutual
  depth : Value → ℕ
  depth (arr xs) = suc (items_depth xs)
  depth (obj m) = suc (fields_depth m)
  depth _ = 1

  items_depth : Items → ℕ
  items_depth nil = 1
  items_depth (cons v xs) = suc (depth v + items_depth xs)

  fields_depth : Fields → ℕ
  fields_depth end = 1
  fields_depth (field k v m) = suc (depth v + fields_depth m)

-- What the reader does after a tag.
data Tag : Type 0 where
  t_null t_true t_false t_pos t_neg t_real t_str t_arr t_obj t_none : Tag

abbrev tag : ℕ → Tag
tag b =
    if b == 11
    then t_null
    else if b == 12
    then t_true
    else if b == 13
    then t_false
    else if b == 14
    then t_pos
    else if b == 15
    then t_neg
    else if b == 16
    then t_real
    else if b == 17
    then t_str
    else if b == 18
    then t_arr
    else if b == 19
    then t_obj
    else t_none

abbrev get_number : (ℕ → ℤ) → Bytes → Option (Value × Bytes)
get_number f [] = none
get_number f (n ∷ left) = some (num (f (n - 11)), left)

abbrev as_value : (String → Value) → Option (String × Bytes) → Option (Value × Bytes)
as_value f none = none
as_value f (some (s, left)) = some (f s, left)

abbrev choose :
    Tag → Bytes → Option (Items × Bytes) → Option (Fields × Bytes) → Option (Value × Bytes)
choose t_null text items fields = some (null, text)
choose t_true text items fields = some (bool true, text)
choose t_false text items fields = some (bool false, text)
choose t_pos text items fields = get_number pos text
choose t_neg text items fields = get_number negsuc text
choose t_real text items fields = as_value real (get_text text)
choose t_str text items fields = as_value str (get_text text)
choose t_arr text items fields = items >>= (λ (r : Items × Bytes). some (arr r.0, r.1))
choose t_obj text items fields = fields >>= (λ (r : Fields × Bytes). some (obj r.0, r.1))
choose t_none text items fields = none

mutual
  get : ℕ → Bytes → Option (Value × Bytes)
  get zero text = none
  get (suc n) [] = none
  get (suc n) (b ∷ text) = choose (tag b) text (get_items n text) (get_fields n text)

  get_items : ℕ → Bytes → Option (Items × Bytes)
  get_items zero text = none
  get_items (suc n) [] = none
  get_items (suc n) (b ∷ text) =
      let first = get n text in
      if b == 20
      then some (nil, text)
      else (first >>= (λ (r : Value × Bytes).
          get_items n r.1 >>= (λ (q : Items × Bytes). some (cons r.0 q.0, q.1))))

  get_fields : ℕ → Bytes → Option (Fields × Bytes)
  get_fields zero text = none
  get_fields (suc n) [] = none
  get_fields (suc n) (b ∷ text) =
      if b == 22
      then some (end, text)
      else (get_text text >>= (λ (k : String × Bytes). get n k.1 >>= (λ (r : Value × Bytes).
          get_fields n r.1 >>= (λ (q : Fields × Bytes). some (field k.0 r.0 q.0, q.1)))))

read_number : (n : ℕ) → 11 + n - 11 ≡ n
read_number n = omega arith

depth_pos : (v : Value) → depth v ≤ 0 → ⊥
unfolding depth
depth_pos null h = omega (arith, h)
depth_pos (bool b) h = omega (arith, h)
depth_pos (num n) h = omega (arith, h)
depth_pos (real s) h = omega (arith, h)
depth_pos (str s) h = omega (arith, h)
depth_pos (arr xs) h = omega (arith, h)
depth_pos (obj m) h = omega (arith, h)

mutual
  unfolding get put depth get_items put_items items_depth get_fields put_fields fields_depth

  get-put :
      (n : ℕ) (v : Value) (left : Bytes) → depth v ≤ n → get n (put v ++ left) ≡ some (v, left)
  get-put zero v left h = absurd (depth_pos v h)
  get-put (suc n) null left h = refl
  get-put (suc n) (bool true) left h = refl
  get-put (suc n) (bool false) left h = refl
  get-put (suc n) (num (pos k)) left h = ground (arith, read_number k)
  get-put (suc n) (num (negsuc k)) left h = ground (arith, read_number k)
  get-put (suc n) (real s) left h = rw (get_text-put_text s left) refl
  get-put (suc n) (str s) left h = rw (get_text-put_text s left) refl
  get-put (suc n) (arr xs) left h = rw (get_items-put n xs left (omega (arith, h))) refl
  get-put (suc n) (obj m) left h = rw (get_fields-put n m left (omega (arith, h))) refl

  get_items-put :
      (n : ℕ) (xs : Items) (left : Bytes)
      → items_depth xs ≤ n
      → get_items n (put_items xs ++ left) ≡ some (xs, left)
  get_items-put zero nil left h = absurd (omega (arith, h))
  get_items-put zero (cons v xs) left h = absurd (omega (arith, h))
  get_items-put (suc n) nil left h = refl
  get_items-put (suc n) (cons v xs) left h = rw (append_assoc (put v) (put_items xs) left) (
      rw (get-put n v (put_items xs ++ left) (omega (arith, h)))
        (rw (get_items-put n xs left (omega (arith, h))) refl))

  get_fields-put :
      (n : ℕ) (m : Fields) (left : Bytes)
      → fields_depth m ≤ n
      → get_fields n (put_fields m ++ left) ≡ some (m, left)
  get_fields-put zero end left h = absurd (omega (arith, h))
  get_fields-put zero (field k v m) left h = absurd (omega (arith, h))
  get_fields-put (suc n) end left h = refl
  get_fields-put (suc n) (field k v m) left h =
      rw (append_assoc (put_text k) (put v ++ put_fields m) left) (
        rw (append_assoc (put v) (put_fields m) left) (
          rw (get_text-put_text k (put v ++ (put_fields m ++ left))) (
            rw (get-put n v (put_fields m ++ left) (omega (arith, h)))
              (rw (get_fields-put n m left (omega (arith, h))) refl))))

All-append : (s t : Bytes) → IsOneLine s → IsOneLine t → IsOneLine (s ++ t)
All-append [] t h k = k
All-append (b ∷ s) t h k = (h.0, All-append s t h.1 k)

put_text-IsOneLine : (s : String) → IsOneLine (put_text s)
put_text-IsOneLine String.[] = (λ e. omega (arith, e), tt)
put_text-IsOneLine (String.◌∷◌ c s) = (λ e. omega (arith, e), put_text-IsOneLine s)

mutual
  unfolding put put_items put_fields

  put-IsOneLine : (v : Value) → IsOneLine (put v)
  put-IsOneLine null = (λ e. omega (arith, e), tt)
  put-IsOneLine (bool true) = (λ e. omega (arith, e), tt)
  put-IsOneLine (bool false) = (λ e. omega (arith, e), tt)
  put-IsOneLine (num (pos n)) = (λ e. omega (arith, e), (λ e. omega (arith, e), tt))
  put-IsOneLine (num (negsuc n)) = (λ e. omega (arith, e), (λ e. omega (arith, e), tt))
  put-IsOneLine (real s) = (λ e. omega (arith, e), put_text-IsOneLine s)
  put-IsOneLine (str s) = (λ e. omega (arith, e), put_text-IsOneLine s)
  put-IsOneLine (arr xs) = (λ e. omega (arith, e), put_items-IsOneLine xs)
  put-IsOneLine (obj m) = (λ e. omega (arith, e), put_fields-IsOneLine m)

  put_items-IsOneLine : (xs : Items) → IsOneLine (put_items xs)
  put_items-IsOneLine nil = (λ e. omega (arith, e), tt)
  put_items-IsOneLine (cons v xs) = (
    λ e. omega (arith, e),
    All-append (put v) (put_items xs) (put-IsOneLine v) (put_items-IsOneLine xs),
  )

  put_fields-IsOneLine : (m : Fields) → IsOneLine (put_fields m)
  put_fields-IsOneLine end = (λ e. omega (arith, e), tt)
  put_fields-IsOneLine (field k v m) = (
    λ e. omega (arith, e),
    All-append (put_text k) (put v ++ put_fields m) (put_text-IsOneLine k)
        (All-append (put v) (put_fields m) (put-IsOneLine v) (put_fields-IsOneLine m)),
  )

abbrev visible : Bytes → Bytes
visible = select (λ b. not (b == 10))

visible-IsOneLine : (s : Bytes) → IsOneLine s → visible s ≡ s
visible-IsOneLine [] h = refl
visible-IsOneLine (b ∷ s) h = ground (arith, visible-IsOneLine s h.1, h.0)

visible-newline : (s : Bytes) → visible (s ++ (newline ∷ [])) ≡ visible s
visible-newline [] = refl
visible-newline (b ∷ s) = ground (arith, visible-newline s)

abbrev whole : Option (Value × Bytes) → Option Value
whole (some (v, [])) = some v
whole _ = none

abbrev parse_visible : Bytes → Option Value
parse_visible [] = none
parse_visible (n ∷ text) = whole (get (n - 11) text)

pub print : Value → Bytes
unfolding put depth
print v = (11 + depth v) ∷ put v

pub parse : Bytes → Option Value
unfolding get
parse text = parse_visible (visible text)

pub print-IsOneLine : (v : Value) → IsOneLine (print v)
unfolding print
print-IsOneLine v = (λ e. omega (arith, e), put-IsOneLine v)

put_nil : (v : Value) → get (11 + depth v - 11) (put v) ≡ some (v, [])
put_nil v =
    subst (λ s. get (11 + depth v - 11) s ≡ some (v, [])) (append-nil (put v))
      (get-put (11 + depth v - 11) v [] (omega arith))

pub parse-print : (v : Value) → parse (print v) ≡ some v
unfolding parse print
parse-print v = rw (visible-IsOneLine (print v) (print-IsOneLine v)) (rw (put_nil v) refl)

abbrev pub lines_codec : Jsonl.Codec
lines_codec = record { parse = parse; print = print }

pub lines_IsJson : Jsonl.IsJson lines_codec
unfolding parse
lines_IsJson = record {
  parse-print = parse-print;
  one_line = print-IsOneLine;
  parse-newline = λ s. ap parse_visible (visible-newline s);
}

abbrev pub meta_codec : Load.Codec
meta_codec = record { parse = parse; pretty = λ m. print (obj m) }

pub meta_IsJson : Load.IsJson meta_codec
meta_IsJson = record { parse-pretty = λ m. parse-print (obj m) }

-- A record and its line, and what is no record.
pub print_null : print null ≡ 12 ∷ 11 ∷ []
unfolding print put depth
print_null = refl

pub parse_torn : parse (99 ∷ []) ≡ none
unfolding parse get
parse_torn = refl

pub parse_null : parse (12 ∷ 11 ∷ newline ∷ []) ≡ some null
unfolding parse get
parse_null = refl
