-- ===== src/Choose/Allowed.antt =====
-- The providers that were made available, and the answers of `resolve`.
use silicon_omni.Prelude.{
  String, ◌≡◌, refl, sym, ap, ◌∙◌, Bool, true, ◌||◌, Option, none, some, List, [], ◌∷◌, str_eq,
  eq_iff, arith, Option-cases, inl, inr,
}
use silicon_omni.Result.{ok}
use silicon_omni.Jsonl.{Bytes, Codec}
use silicon_omni.Choose.Asking.{Pick, Ask, by_key, by_intelligence, by_model}
use silicon_omni.Choose.Cache.{Doubles, read_cache}
use silicon_omni.Choose.{
  AvailableModels, World, insert_sorted, sort_unstable, dedup, contains, only, resolve_model,
  ask_registry, look_up, resolve, keep, usable, cache_name_with_models, available_models,
  fetch_with_models,
}

contains-insert_sorted :
    (x y : String) (ys : List String)
    → contains (insert_sorted y ys) x ≡ (str_eq y x || contains ys x)
unfolding insert_sorted
contains-insert_sorted x y [] = refl
contains-insert_sorted x y (z ∷ ys) = ground (arith, contains-insert_sorted x y ys)

contains-sort_unstable :
    (x : String) (ys : List String) → contains (sort_unstable ys) x ≡ contains ys x
unfolding sort_unstable
contains-sort_unstable x [] = refl
contains-sort_unstable x (y ∷ ys) =
    contains-insert_sorted x y (sort_unstable ys)
    ∙ ap (λ b. str_eq y x || b) (contains-sort_unstable x ys)

contains-dedup : (x : String) (ys : List String) → contains (dedup ys) x ≡ contains ys x
unfolding dedup
contains-dedup x [] = refl
contains-dedup x (y ∷ []) = refl
contains-dedup x (y ∷ z ∷ ys) = ground (arith, contains-dedup x (z ∷ ys), eq_iff y z)

-- The set of the providers has the providers.
pub contains-allowed :
    (x : String) (ys : List String) → contains (dedup (sort_unstable ys)) x ≡ contains ys x
contains-allowed x ys = contains-dedup x (sort_unstable ys) ∙ contains-sort_unstable x ys

only-contains :
    (allowed : List String) (x : String) → only allowed ≡ some x → contains allowed x ≡ true
only-contains [] x h = absurd (ground arith)
only-contains (y ∷ []) x h = ground (arith, eq_iff y x)
only-contains (y ∷ z ∷ ys) x h = absurd (ground arith)

module _ (trim : String → String) (print : AvailableModels → String) where
  resolve_model-allowed :
      (allowed : List String) (provider : Option String) (model effort : String) (fast : Bool)
      (pick : Pick)
      → resolve_model trim print allowed provider model effort fast ≡ ok pick
      → contains allowed pick.provider ≡ true
  unfolding resolve_model
  resolve_model-allowed allowed none model effort fast pick h =
      ground (arith, only-contains allowed pick.provider)
  resolve_model-allowed allowed (some named) model effort fast pick h = ground arith

  module _ (c : Codec) (d : Doubles) where
    keep-allowed :
        (world : World d.F64) (allowed : List String) (name : String) (ttl : d.F64)
        (found pick : Pick) (file : Option Bytes)
        → (keep trim print c d world allowed name ttl found file).1 ≡ ok pick
        → contains allowed pick.provider ≡ true
    keep-allowed world allowed name ttl found pick file h = ground arith

    ask_registry-allowed :
        (world : World d.F64) (allowed : List String) (name : String) (fetched : Option Pick)
        (file : Option Bytes) (pick : Pick)
        → (ask_registry trim print c d world allowed name fetched file).1 ≡ ok pick
        → contains allowed pick.provider ≡ true
    unfolding ask_registry
    ask_registry-allowed world allowed name (some found) file pick h =
        keep-allowed world allowed name d.cache_ttl found pick file h
    ask_registry-allowed world allowed name none file pick h = ground arith

    usable-allowed :
        (allowed : List String) (o : Option Pick) (pick : Pick)
        → usable allowed o ≡ some pick
        → contains allowed pick.provider ≡ true
    usable-allowed allowed none pick h = absurd (ground arith)
    usable-allowed allowed (some p) pick h = ground arith

    look_up-allowed :
        (world : World d.F64) (ask : Ask) (providers allowed : List String) (file : Option Bytes)
        (pick : Pick)
        → (look_up trim print c d world ask providers allowed file).1 ≡ ok pick
        → contains allowed pick.provider ≡ true
    unfolding look_up
    look_up-allowed world ask providers allowed file pick h =
        let models = available_models (some providers) world.inventory in
        let name = cache_name_with_models trim print ask providers models in
        let cached = read_cache c d name true world.now file in
        elim (Option-cases (usable allowed cached)) [
          | inl e ↦
              ask_registry-allowed world allowed name
                (fetch_with_models trim print c d world ask providers models) file pick
                (ground (arith, h, e))
          | inr (fresh, e) ↦ ground (arith, h, e, usable-allowed allowed cached fresh e)
        ]

    -- Whatever the cache holds and whatever the registry answers, a pick that `resolve` gives names
    -- a provider that the caller made available.
    pub resolve-allowed :
        (world : World d.F64) (ask : Ask) (providers : List String) (file : Option Bytes)
        (pick : Pick)
        → (resolve trim print c d world ask providers file).1 ≡ ok pick
        → contains providers pick.provider ≡ true
    unfolding resolve
    resolve-allowed world ask [] file pick h = absurd (ground arith)
    resolve-allowed world (by_model provider model effort fast) (p ∷ ps) file pick h =
        sym (contains-allowed pick.provider (p ∷ ps))
        ∙ resolve_model-allowed _ provider model effort fast pick h
    resolve-allowed world (by_key key) (p ∷ ps) file pick h =
        sym (contains-allowed pick.provider (p ∷ ps))
        ∙ look_up-allowed world (by_key key) (p ∷ ps) _ file pick h
    resolve-allowed world (by_intelligence n bench) (p ∷ ps) file pick h =
        sym (contains-allowed pick.provider (p ∷ ps))
        ∙ look_up-allowed world (by_intelligence n bench) (p ∷ ps) _ file pick h
