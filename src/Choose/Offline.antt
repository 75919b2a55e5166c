-- ===== src/Choose/Offline.antt =====
-- The file of answers, as `resolve` uses it.
use silicon_omni.Prelude.{
  String, ◌≡◌, ◌≢◌, refl, sym, ap, ◌∙◌, true, false, Option, none, some, List, ◌∷◌, arith,
  Option-cases, inl, inr,
}
use silicon_omni.Result.{Result, ok}
use silicon_omni.Jsonl.{Bytes, Codec, IsJson}
use silicon_omni.Choose.Asking.{Pick, Ask, by_key, by_intelligence, by_model}
use silicon_omni.Choose.Cache.{Doubles, saved, read_cache, write_cache}
use silicon_omni.Choose.{
  AvailableModels, World, NoAnswer, sort_unstable, dedup, contains, ask_registry, look_up, resolve,
  cache_name_with_models, available_models, fetch_with_models, url, pin,
}
use silicon_omni.Choose.Allowed.{contains-allowed}
use silicon_omni.Choose.Stored.{read_cache-any, read_cache-write_cache}

module _ (trim : String → String) (print : AvailableModels → String) (c : Codec) (d : Doubles) where
  -- The name of the cached answer to a question.
  abbrev pub name_of : World d.F64 → Ask → List String → String
  name_of world ask providers =
      cache_name_with_models trim print ask providers
        (available_models (some providers) world.inventory)

  abbrev pub IsAsked : Ask → Type 0
  IsAsked (by_model _ _ _ _) = ⊥
  IsAsked _ = Unit

  resolve-look_up :
      (world : World d.F64) (ask : Ask) (p : String) (ps : List String) (file : Option Bytes)
      → IsAsked ask
      → resolve trim print c d world ask (p ∷ ps) file
        ≡ look_up trim print c d world ask (p ∷ ps) (dedup (sort_unstable (p ∷ ps))) file
  unfolding resolve
  resolve-look_up world (by_model _ _ _ _) p ps file h = elim h [ ]
  resolve-look_up world (by_key key) p ps file h = refl
  resolve-look_up world (by_intelligence n bench) p ps file h = refl

  -- The cases of `look_up`, and of its last two steps.
  fetch-silent :
      (world : World d.F64) (ask : Ask) (providers : List String) (models : AvailableModels)
      → ((address : Bytes) → world.reply address ≡ none)
      → fetch_with_models trim print c d world ask providers models ≡ none
  unfolding fetch_with_models
  fetch-silent world ask providers models silent =
      rw (silent (url trim print c d world ask providers models)) refl

  look_up-missing :
      (world : World d.F64) (ask : Ask) (providers allowed : List String) (file : Option Bytes)
      → read_cache c d (name_of world ask providers) true world.now file ≡ none
      → look_up trim print c d world ask providers allowed file
        ≡ ask_registry trim print c d world allowed
            (name_of world ask providers)
            (fetch_with_models trim print c d world ask providers
              (available_models (some providers) world.inventory))
            file
  unfolding look_up
  look_up-missing world ask providers allowed file e = rw (e, look_up) refl

  look_up-fresh :
      (world : World d.F64) (ask : Ask) (providers allowed : List String) (file : Option Bytes)
      (pick : Pick)
      → read_cache c d (name_of world ask providers) true world.now file ≡ some pick
      → contains allowed pick.provider ≡ true
      → look_up trim print c d world ask providers allowed file ≡ (file, ok pick)
  unfolding look_up
  look_up-fresh world ask providers allowed file pick e h = rw (e, look_up) (rw h refl)

  ask_registry-stale :
      (world : World d.F64) (allowed : List String) (name : String) (file : Option Bytes)
      (pick : Pick)
      → read_cache c d name false world.now file ≡ some pick
      → contains allowed pick.provider ≡ true
      → (ask_registry trim print c d world allowed name none file).1 ≡ ok pick
  unfolding ask_registry
  ask_registry-stale world allowed name file pick e h = rw (e, ask_registry) (rw h refl)

  ask_registry-found :
      (world : World d.F64) (allowed : List String) (name : String) (file : Option Bytes)
      (pick : Pick)
      → contains allowed pick.provider ≡ true
      → ask_registry trim print c d world allowed name (some pick) file
        ≡ (write_cache c d world.saving name pick d.cache_ttl world.later file, ok pick)
  unfolding ask_registry
  ask_registry-found world allowed name file pick h = rw h refl

  -- Where the registry does not answer, an allowed pick in the cache, however old, is the answer
  -- to a question by key or intelligence.
  pub resolve-offline :
      (world : World d.F64) (ask : Ask) (p : String) (ps : List String) (file : Option Bytes)
      (pick : Pick)
      → IsAsked ask
      → ((address : Bytes) → world.reply address ≡ none)
      → read_cache c d (name_of world ask (p ∷ ps)) false world.now file ≡ some pick
      → contains (p ∷ ps) pick.provider ≡ true
      → (resolve trim print c d world ask (p ∷ ps) file).1 ≡ ok pick
  resolve-offline world ask p ps file pick asked silent there allowed =
      let name = name_of world ask (p ∷ ps) in
      let open_to = contains-allowed pick.provider (p ∷ ps) ∙ allowed in
      rw (resolve-look_up world ask p ps file asked)
        (elim (Option-cases (read_cache c d name true world.now file)) [
          | inl e ↦
              rw (look_up-missing world ask (p ∷ ps) (dedup (sort_unstable (p ∷ ps))) file e) (
                rw
                  (fetch-silent world ask (p ∷ ps)
                    (available_models (some (p ∷ ps)) world.inventory) silent)
                  (ask_registry-stale world _ name file pick there open_to))
          | inr (fresh, e) ↦
              let same : fresh ≡ pick =
                ground (arith, there, read_cache-any c d name world.now file fresh e) in
              ap (λ (r : Option Bytes × Result NoAnswer Pick). r.1)
                (look_up-fresh world ask (p ∷ ps) _ file pick (e ∙ ap some same) open_to)
        ])

  -- Where the cache has nothing fresh, an allowed answer of the registry is given; and if it was
  -- written down, times survive JSON and the inventory is the same, the same question gets it
  -- again for an hour without asking and without a change of the file.
  pub resolve-fresh :
      (json : IsJson c) (first second : World d.F64) (ask : Ask) (p : String) (ps : List String)
      (file : Option Bytes) (pick : Pick)
      → IsAsked ask
      → first.inventory ≡ second.inventory
      → first.saving ≡ saved
      → name_of first ask (p ∷ ps) ≢ "version"
      → d.as_f64 (d.to_value first.later) ≡ some first.later
      → d.as_f64 (d.to_value d.cache_ttl) ≡ some d.cache_ttl
      → d.above (d.minus second.now first.later) d.cache_ttl ≡ false
      → read_cache c d (name_of first ask (p ∷ ps)) true first.now file ≡ none
      → fetch_with_models trim print c d first ask
          (p ∷ ps)
          (available_models (some (p ∷ ps)) first.inventory)
        ≡ some pick
      → contains (p ∷ ps) pick.provider ≡ true
      → let r = resolve trim print c d first ask (p ∷ ps) file in
        (r.1 ≡ ok pick) × (resolve trim print c d second ask (p ∷ ps) r.0 ≡ (r.0, ok pick))
  resolve-fresh json first second ask p ps file pick asked same written h real_now real_ttl young
        missing found allowed =
      let set = dedup (sort_unstable (p ∷ ps)) in
      let name = name_of first ask (p ∷ ps) in
      let file' = write_cache c d saved name pick d.cache_ttl first.later file in
      let open_to = contains-allowed pick.provider (p ∷ ps) ∙ allowed in
      let done : resolve trim print c d first ask (p ∷ ps) file ≡ (file', ok pick) =
        resolve-look_up first ask p ps file asked
        ∙ look_up-missing first ask (p ∷ ps) set file missing
        ∙ ap (λ o. ask_registry trim print c d first set name o file) found
        ∙ ask_registry-found first set name file pick open_to
        ∙ ap (λ w. (write_cache c d w name pick d.cache_ttl first.later file, ok pick)) written in
      let read =
        (read_cache-write_cache c json d name pick d.cache_ttl first.later file h real_now
            real_ttl).1
          second.now young in
      let again : resolve trim print c d second ask (p ∷ ps) file' ≡ (file', ok pick) =
        resolve-look_up second ask p ps file' asked
        ∙ look_up-fresh second ask (p ∷ ps) set file' pick
            (ap
                (λ models.
                  read_cache c d
                    (cache_name_with_models trim print ask (p ∷ ps)
                      (available_models (some (p ∷ ps)) models))
                    true second.now file')
                (sym same)
              ∙ read)
            open_to in
      rw done (refl, again)

  -- Where a pick of one of the providers was pinned to a question by key or intelligence and
  -- written down, not under the name "version", times survive JSON and the inventory is the same,
  -- the pick is the answer to the question for its time to live, whatever the registry would say
  -- and whatever was in the file before, and the file stays as it is.
  pub resolve-pin :
      (json : IsJson c) (first second : World d.F64) (ask : Ask) (p : String) (ps : List String)
      (file : Option Bytes) (pick : Pick) (ttl : d.F64)
      → IsAsked ask
      → first.inventory ≡ second.inventory
      → first.saving ≡ saved
      → name_of first ask (p ∷ ps) ≢ "version"
      → d.as_f64 (d.to_value first.later) ≡ some first.later
      → d.as_f64 (d.to_value ttl) ≡ some ttl
      → d.above (d.minus second.now first.later) ttl ≡ false
      → contains (p ∷ ps) pick.provider ≡ true
      → let pinned = pin trim print c d first ask (p ∷ ps) pick ttl file in
        resolve trim print c d second ask (p ∷ ps) pinned ≡ (pinned, ok pick)
  unfolding pin
  resolve-pin json first second ask p ps file pick ttl asked same written h real_now real_ttl young
        allowed =
      let set = dedup (sort_unstable (p ∷ ps)) in
      let name = name_of first ask (p ∷ ps) in
      let pinned = pin trim print c d first ask (p ∷ ps) pick ttl file in
      let e : pinned ≡ write_cache c d saved name pick ttl first.later file =
        ap (λ w. write_cache c d w name pick ttl first.later file) written in
      let read : read_cache c d name true second.now pinned ≡ some pick =
        ap (read_cache c d name true second.now) e
        ∙ (read_cache-write_cache c json d name pick ttl first.later file h real_now real_ttl).1
            second.now young in
      resolve-look_up second ask p ps pinned asked
      ∙ look_up-fresh second ask (p ∷ ps) set pinned pick
          (ap
              (λ models.
                read_cache c d
                  (cache_name_with_models trim print ask (p ∷ ps)
                    (available_models (some (p ∷ ps)) models))
                  true second.now pinned)
              (sym same)
            ∙ read)
          (contains-allowed pick.provider (p ∷ ps) ∙ allowed)
