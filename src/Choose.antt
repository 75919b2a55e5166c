-- ===== src/Choose.antt =====
-- crates/omni-core/src/choose.rs: what should answer a turn.
-- Parameters: the reader and printer of JSON text, `f64`, `str::trim`, and the JSON text of the
-- available models. What the environment, the clock, the disk and the registry answer stands in
-- `World`.
pub mod Asking
pub mod Url
pub mod Cache
pub mod Allowed
pub mod Stored
pub mod Offline
use Prim.Native.String.{◌++◌ as concat, compare}
use text.Mathlib.Text.{is_le}
use silicon_omni.Prelude.{
  ℕ, String, ◌≡◌, Bool, true, false, not, ◌&&◌, Option, none, some, List, [], ◌∷◌, ◌++◌, map, any,
  str_eq, if◌then◌else◌, ◌>>=◌, is_none,
}
use silicon_omni.Result.{Result, ok, err}
use silicon_omni.Json.{Value, field_of}
use silicon_omni.Jsonl.{Bytes, Codec}
use Asking.{Pick, Ask, by_key, by_intelligence, by_model, query}
use Url.{bytes, remote, tail}
use Cache.{Doubles, Saving, from_value, read_cache, write_cache}

-- `sort_unstable` on texts, in the order of their bytes.
pub insert_sorted : String → List String → List String
insert_sorted x [] = x ∷ []
insert_sorted x (y ∷ ys) =
    let rest = insert_sorted x ys in if is_le (compare x y) then x ∷ y ∷ ys else y ∷ rest

pub sort_unstable : List String → List String
unfolding insert_sorted
sort_unstable [] = []
sort_unstable (x ∷ xs) = insert_sorted x (sort_unstable xs)

pub dedup : List String → List String
dedup [] = []
dedup (x ∷ []) = x ∷ []
dedup (x ∷ y ∷ xs) = let rest = dedup (y ∷ xs) in if str_eq x y then rest else x ∷ rest

abbrev pub join : String → List String → String
join separator [] = ""
join separator (x ∷ []) = x
join separator (x ∷ y ∷ xs) = concat x (concat separator (join separator (y ∷ xs)))

-- One answer per set of providers.
unfoldable pub providers_key : List String → String
unfolding sort_unstable dedup
providers_key providers = join "+" (dedup (sort_unstable providers))

abbrev pub AvailableModels : Type 0
AvailableModels = List (String × List String)

abbrev pub antigravity_cli : String
antigravity_cli = "antigravity-cli"

abbrev pub contains : List String → String → Bool
contains names name = any (λ n. str_eq n name) names

-- `inventory` is what the antigravity CLI says it has.
abbrev pub available_models : Option (List String) → List String → AvailableModels
available_models none inventory = (antigravity_cli, inventory) ∷ []
available_models (some names) inventory =
    if contains names antigravity_cli then (antigravity_cli, inventory) ∷ [] else []

abbrev equation : String × String → String
equation (name, value) = concat name (concat "=" value)

-- Base cache identity: the providers and ask, before the inventory of conditional models.
unfoldable pub cache_name : Ask → List String → String
unfolding providers_key query
cache_name ask providers = join "|" (providers_key providers ∷ map equation (query ask))

-- Why there is no answer; the texts are left out.
pub data NoAnswer : Type 0 where
  no_providers no_model ambiguous unreachable : NoAnswer
  not_available answered_with : String → NoAnswer

-- `allowed.len() == 1`, and the one provider.
abbrev pub only : List String → Option String
only (x ∷ []) = some x
only _ = none

abbrev pub is_blank : (String → String) → String → Bool
is_blank trim text = str_eq (trim text) ""

pub record World (F64 : Type 0) : Type 0 where
  pub omni_registry : Option Bytes
  pub omni_backend : Option Bytes
  pub inventory : List String
  pub now : F64  -- when the cache is read
  pub later : F64  -- when it is written
  pub saving : Saving
  pub reply : Bytes → Option Bytes  -- what comes back for a URL, if anything does in time

abbrev pub usable : List String → Option Pick → Option Pick
usable allowed none = none
usable allowed (some pick) = if contains allowed pick.provider then some pick else none

-- A named model: what is wrong with it, or who runs it.
abbrev pub runs : List String → Option String → Result NoAnswer String
runs allowed (some named) = if contains allowed named then ok named else err (not_available named)
runs allowed none = elim (only allowed) [ none ↦ err ambiguous | some provider ↦ ok provider ]

module _ (trim : String → String) (print : AvailableModels → String) where
  -- A pick out of the envelope of the registry.
  unfoldable pub unwrap : Value → Option Pick
  unfolding from_value
  unwrap payload = do
    v ← field_of "pick" payload
    pick ← from_value v
    if not (is_blank trim pick.provider) && not (is_blank trim pick.model) then some pick else none

  unfoldable pub cache_name_with_models : Ask → List String → AvailableModels → String
  unfolding cache_name
  cache_name_with_models ask providers [] = cache_name ask providers
  cache_name_with_models ask providers (m ∷ models) =
      concat (cache_name ask providers) (concat "|available_models=" (print (m ∷ models)))

  abbrev pub named_pick : String → String → Bool → Result NoAnswer String → Result NoAnswer Pick
  named_pick model effort fast (ok provider) =
      ok (record { provider = provider; model = trim model; effort = effort; fast = fast })
  named_pick model effort fast (err why) = err why

  unfoldable pub resolve_model :
      List String → Option String → String → String → Bool → Result NoAnswer Pick
  resolve_model allowed provider model effort fast =
      if is_blank trim model
      then err no_model
      else named_pick model effort fast (runs allowed provider)

  module _ (c : Codec) (d : Doubles) where
    -- The URL of a question.
    unfoldable pub url : World d.F64 → Ask → List String → AvailableModels → Bytes
    unfolding providers_key query remote tail
    url world ask providers models =
        remote world.omni_registry world.omni_backend
        ++ (63
            ∷ tail (
                ("providers", providers_key providers)
                ∷ (query ask ++ (("available_models", print models) ∷ []))))

    unfoldable pub fetch_with_models :
        World d.F64 → Ask → List String → AvailableModels → Option Pick
    unfolding url unwrap
    fetch_with_models world ask providers models = do
      body ← world.reply (url world ask providers models)
      payload ← c.parse body
      unwrap payload

    -- The closure `keep` of `resolve`.
    abbrev pub keep :
        World d.F64
        → List String
        → String
        → d.F64
        → Pick
        → Option Bytes
        → Option Bytes × Result NoAnswer Pick
    keep world allowed name ttl pick file =
        if contains allowed pick.provider
        then (write_cache c d world.saving name pick ttl world.later file, ok pick)
        else (file, err (answered_with pick.provider))

    -- The last two steps: the registry, then what is cached at any age.
    unfoldable pub ask_registry :
        World d.F64
        → List String
        → String
        → Option Pick
        → Option Bytes
        → Option Bytes × Result NoAnswer Pick
    unfolding read_cache write_cache
    ask_registry world allowed name (some found) file =
        keep world allowed name d.cache_ttl found file
    ask_registry world allowed name none file = elim (read_cache c d name false world.now file) [
      | none ↦ (file, err unreachable)
      | some stale ↦ keep world allowed name d.quiet_ttl stale file
    ]

    unfoldable pub look_up :
        World d.F64
        → Ask
        → List String
        → List String
        → Option Bytes
        → Option Bytes × Result NoAnswer Pick
    unfolding read_cache fetch_with_models ask_registry cache_name_with_models
    look_up world ask providers allowed file =
        let models = available_models (some providers) world.inventory in
        let name = cache_name_with_models ask providers models in
        elim (usable allowed (read_cache c d name true world.now file)) [
          | some fresh ↦ (file, ok fresh)
          | none ↦
              ask_registry world allowed name (fetch_with_models world ask providers models) file
        ]

    -- What should answer, and the cache file after that.
    unfoldable pub resolve :
        World d.F64 → Ask → List String → Option Bytes → Option Bytes × Result NoAnswer Pick
    unfolding resolve_model look_up
    resolve world ask [] file = (file, err no_providers)
    resolve world (by_model provider model effort fast) (p ∷ ps) file =
        (file, resolve_model (dedup (sort_unstable (p ∷ ps))) provider model effort fast)
    resolve world ask (p ∷ ps) file =
        look_up world ask (p ∷ ps) (dedup (sort_unstable (p ∷ ps))) file

    -- The cache file after an answer was put there ahead of the question.
    unfoldable pub pin :
        World d.F64 → Ask → List String → Pick → d.F64 → Option Bytes → Option Bytes
    unfolding write_cache cache_name_with_models
    pin world ask providers pick ttl file =
        let models = available_models (some providers) world.inventory in
        write_cache c d world.saving (cache_name_with_models ask providers models) pick ttl
          world.later file
