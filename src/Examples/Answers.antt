-- ===== src/Examples/Answers.antt =====
-- A registry that answers one question, and the cache after that. Seconds are whole numbers here.
use silicon_omni.Prelude.{
  ℕ, String, pos, ◌≡◌, ◌≢◌, refl, Bool, true, false, Option, none, some, [], ◌∷◌, ltb, ◌-◌, arith,
  eq_iff,
}
use silicon_omni.Result.{ok}
use silicon_omni.Json.{Value, num, obj, field, end, get}
use silicon_omni.Jsonl.{Bytes}
use silicon_omni.Choose.Asking.{Pick, Ask, by_key, query}
use silicon_omni.Choose.Asking
use silicon_omni.Choose.Cache.{
  Doubles, saved, to_value, from_value, read_cache, write_cache, cached,
}
use silicon_omni.Choose.{
  pin, AvailableModels, World, contains, resolve, fetch_with_models, available_models,
  cache_name_with_models, cache_name, providers_key, unwrap,
}
use silicon_omni.Choose.Allowed.{resolve-allowed}
use silicon_omni.Choose.Stored.{read_cache-write_cache}
use silicon_omni.Choose.Offline.{resolve-offline, resolve-pin, resolve-fresh, name_of}
use silicon_omni.Choose.Url.{urlencode}
use silicon_omni.Choose.Url.Decode.{urldecode, urldecode-urlencode}
use silicon_omni.Examples.Coding.{lines_codec as c, lines_IsJson as json, parse-print}

abbrev seconds_of : Value → Option ℕ
seconds_of (num (pos n)) = some n
seconds_of _ = none

abbrev seconds : Doubles
seconds = record {
  F64 = ℕ;
  minus = λ a b. a - b;
  above = λ a b. ltb b a;
  nought = 0;
  cache_ttl = 3600;
  quiet_ttl = 300;
  as_f64 = seconds_of;
  to_value = λ n. num (pos n);
}

abbrev trim : String → String
trim text = text

abbrev print_models : AvailableModels → String
print_models models = "{}"

abbrev pick : Pick
pick = Asking.new "claude" "opus" "high"

abbrev envelope : Value
envelope = obj (field "pick" (to_value pick) end)

abbrev world : World ℕ
world = record {
  omni_registry = none;
  omni_backend = none;
  inventory = [];
  now = 0;
  later = 1;
  saving = saved;
  reply = λ address. some (c.print envelope);
}

abbrev offline : World ℕ
offline = record world { now = 100; reply = λ address. none }

abbrev question : Ask
question = by_key "code"

fetched :
    fetch_with_models trim print_models c seconds world question
      ("claude" ∷ [])
      (available_models (some ("claude" ∷ [])) [])
    ≡ some pick
unfolding fetch_with_models unwrap from_value get
fetched = rw (parse-print envelope) refl

nothing_cached :
    read_cache c seconds
      (name_of trim print_models c seconds world question ("claude" ∷ []))
      true
      0
      none
    ≡ none
unfolding read_cache cached get
nothing_cached = refl

named : name_of trim print_models c seconds world question ("claude" ∷ []) ≢ "version"
unfolding cache_name_with_models cache_name providers_key query
named e = ground (arith, eq_iff "claude|key=code" "version")

resolve-fresh_example :
    let r = resolve trim print_models c seconds world question ("claude" ∷ []) none in
    (r.1 ≡ ok pick)
    × (resolve trim print_models c seconds offline question ("claude" ∷ []) r.0 ≡ (r.0, ok pick))
resolve-fresh_example =
    resolve-fresh trim print_models c seconds json world offline question "claude" [] none pick tt
      refl refl named refl refl refl nothing_cached fetched refl

resolve-allowed_example : contains ("claude" ∷ []) pick.provider ≡ true
resolve-allowed_example =
    resolve-allowed trim print_models c seconds world question ("claude" ∷ []) none pick
      resolve-fresh_example.0

abbrev stored : Option Bytes
stored =
    write_cache c seconds saved
      (name_of trim print_models c seconds offline question ("claude" ∷ [])) pick 300 1 none

read_cache-write_cache_example :
    ((later : ℕ)
      → read_cache c seconds "q" false later (write_cache c seconds saved "q" pick 300 1 none)
        ≡ some pick)
    × ((later : ℕ)
        → ltb 300 (later - 1) ≡ false
        → read_cache c seconds "q" true later (write_cache c seconds saved "q" pick 300 1 none)
          ≡ some pick)
    × ((other : String) (fresh_only : Bool) (later : ℕ)
        → other ≢ "version"
        → other ≢ "q"
        → read_cache c seconds other fresh_only later
            (write_cache c seconds saved "q" pick 300 1 none)
          ≡ read_cache c seconds other fresh_only later none)
read_cache-write_cache_example =
    read_cache-write_cache c json seconds "q" pick 300 1 none
      (λ e. ground (arith, eq_iff "q" "version")) refl refl

resolve-offline_example :
    (resolve trim print_models c seconds offline question ("claude" ∷ []) stored).1 ≡ ok pick
resolve-offline_example =
    resolve-offline trim print_models c seconds offline question "claude" [] stored pick tt
      (λ address. refl)
      ((read_cache-write_cache c json seconds
          (name_of trim print_models c seconds offline question ("claude" ∷ [])) pick 300 1 none
          named refl refl).0
        100)
      refl

urldecode-urlencode_example :
    urldecode (urlencode (97 ∷ 32 ∷ 38 ∷ 255 ∷ [])) ≡ 97 ∷ 32 ∷ 38 ∷ 255 ∷ []
urldecode-urlencode_example =
    urldecode-urlencode (97 ∷ 32 ∷ 38 ∷ 255 ∷ [])
      (omega arith, (omega arith, (omega arith, (omega arith, tt))))

resolve-pin_example :
    let pinned = pin trim print_models c seconds world question ("claude" ∷ []) pick 300 none in
    resolve trim print_models c seconds offline question ("claude" ∷ []) pinned ≡ (pinned, ok pick)
resolve-pin_example =
    resolve-pin trim print_models c seconds json world offline question "claude" [] none pick 300 tt
      refl refl named refl refl refl refl
