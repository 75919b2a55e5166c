-- ===== src/Chat/Stored/Asked.antt =====
-- crates/omni-core/src/choose.rs: the JSON form of a question (`Ask`).
use silicon_omni.Prelude.{
  String, Bool, true, Option, none, some, [], ◌∷◌, ◌>>=◌, str_eq, if◌then◌else◌, ◌≡◌, refl,
  fits_i64, arith,
}
use silicon_omni.Json.{Value, Fields, bool, num, str, arr, obj, end, field, cons, get, as_i64}
use silicon_omni.Choose.Asking.{Ask, by_key, by_intelligence, by_model}
use silicon_omni.Chat.Stored.{fields_of, required, or_default, flag, optional}

abbrev if_some : String → Option String → Fields → Fields
if_some key none m = m
if_some key (some text) m = field key (str text) m

unfoldable pub to_value : Ask → Value
to_value (by_key key) = obj (field "how" (str "key") (field "key" (str key) end))
to_value (by_intelligence value bench) =
    obj (field "how" (str "intelligence") (field "value" (num value) (if_some "bench" bench end)))
to_value (by_model provider model effort fast) = obj (
    field "how" (str "model") (
      if_some "provider" provider
        (field "model" (str model) (field "effort" (str effort) (field "fast" (bool fast) end)))))

abbrev key_of : Fields → Option Ask
key_of m = do key ← required (get "key" m); some (by_key key)

abbrev intelligence_of : Fields → Option Ask
intelligence_of m = do
  value ← get "value" m >>= as_i64
  bench ← optional (get "bench" m)
  some (by_intelligence value bench)

abbrev model_of : Fields → Option Ask
model_of m = do
  provider ← optional (get "provider" m)
  model ← required (get "model" m)
  effort ← or_default "" (get "effort" m)
  fast ← flag (get "fast" m)
  some (by_model provider model effort fast)

of_kind : String → Value → Option Ask
unfolding fields_of
of_kind how v =
    if str_eq how "key"
    then fields_of ("key" ∷ []) v >>= key_of
    else if str_eq how "intelligence"
    then fields_of ("value" ∷ "bench" ∷ []) v >>= intelligence_of
    else if str_eq how "model"
    then fields_of ("provider" ∷ "model" ∷ "effort" ∷ "fast" ∷ []) v >>= model_of
    else none

unfoldable pub from_value : Value → Option Ask
unfolding of_kind
from_value (obj m) = do how ← required (get "how" m); of_kind how (obj m)
from_value (arr (cons (str how) items)) = of_kind how (arr items)
from_value _ = none

-- Whether the number of a question is one of `i64`.
abbrev pub has_range : Ask → Bool
has_range (by_intelligence value bench) = fits_i64 value
has_range _ = true

-- A question whose number, if it has one, is in the range of `i64` is read back from its JSON form.
pub asked-to_value : (ask : Ask) → has_range ask ≡ true → from_value (to_value ask) ≡ some ask
unfolding from_value to_value of_kind fields_of get
asked-to_value (by_key key) h = refl
asked-to_value (by_intelligence value none) h = ground (arith, h)
asked-to_value (by_intelligence value (some bench)) h = ground (arith, h)
asked-to_value (by_model none model effort fast) h = refl
asked-to_value (by_model (some provider) model effort fast) h = refl
