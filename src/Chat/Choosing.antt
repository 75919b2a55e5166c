-- ===== src/Chat/Choosing.antt =====
-- crates/omni-core/src/chat.rs: which provider the settings ask for, and whether the one that runs
-- still is that one.
use silicon_omni.Prelude.{
  String, ℤ, max_ℤ, Bool, true, false, not, ◌&&◌, ◌||◌, Option, none, some, List, select, str_eq,
  ◌>>=◌,
}
use silicon_omni.Result.{Result, ok, err}
use silicon_omni.Json.{get, as_bool}
use silicon_omni.Events.{Event}
use silicon_omni.Store.{history}
use silicon_omni.Choose.Asking.{Pick}
use silicon_omni.Runner.{Config}
use silicon_omni.Chat.{Chat, Outside, Signature}
use silicon_omni.Chat.Recording.{usable, alive}

abbrev pub same : Bool → Bool → Bool
same true b = b
same false b = not b

abbrev pub is_true : Option Bool → Bool
is_true none = false
is_true (some b) = b

-- An event of a runner that had been replaced.
abbrev pub is_late : Event → Bool
is_late event = is_true (get "late" event.extra >>= as_bool)

abbrev pub same_config : Config → Config → Bool
same_config a b =
    (str_eq a.model b.model && (str_eq a.effort b.effort && same a.fast b.fast))
    && ((str_eq a.system_prompt b.system_prompt
          && str_eq a.append_system_prompt b.append_system_prompt)
        && (same a.disable_subagents b.disable_subagents
            && (same a.disable_mcp b.disable_mcp && str_eq a.cwd b.cwd)))

abbrev pub same_tuning : Signature → Signature → Bool
same_tuning a b = str_eq a.model b.model && str_eq a.effort b.effort

abbrev pub same_signature : Signature → Signature → Bool
same_signature a b =
    str_eq a.provider b.provider && (same_tuning a b && same_config a.config b.config)

abbrev pub is_missed : Bool → String → Event → Bool
is_missed continuing_native provider event =
    not continuing_native || (not (str_eq event.provider provider) || is_late event)

abbrev pub tunes : Signature → Signature → Bool
tunes current wanted =
    str_eq current.provider wanted.provider
    && (same_config current.config wanted.config && not (same_tuning current wanted))

module _ {R : Type 0} where
  abbrev pub prompts_moved : Chat R → Bool
  prompts_moved c = elim c.current [
    | none ↦ false
    | some was ↦
        not (str_eq was.config.system_prompt c.config.system_prompt)
        || not (str_eq was.config.append_system_prompt c.config.append_system_prompt)
  ]

  abbrev pub signature : Pick → Chat R → Signature
  signature pick c = record {
    provider = pick.provider;
    model = pick.model;
    effort = pick.effort;
    config = c.config;
  }

  abbrev pub differs_from : Signature → Chat R → Result String Pick → Bool
  differs_from current c (ok pick) = not (same_signature current (signature pick c))
  differs_from current c (err why) = true

  -- The history that a native session missed.
  unfoldable pub history_for : String → ℤ → Bool → Chat R → List Event
  history_for provider since continuing_native c =
      select (is_missed continuing_native provider) (history (max_ℤ since c.history_start) c.store)

module _ {R : Type 0} (o : Outside R) where
  unfoldable pub rung : Chat R → Result String Pick
  rung c = o.resolve c.calls c.ask (usable c)

  -- Whether anything was asked for that the running CLI cannot honour.
  unfoldable pub stale : Chat R → Bool
  unfolding rung
  stale c = elim c.current [ none ↦ false | some current ↦ differs_from current c (rung c) ]

  -- Only the model or the effort is to change.
  unfoldable pub tunable : Pick → Chat R → Bool
  tunable pick c = elim c.current [
    | none ↦ false
    | some current ↦ alive o c && tunes current (signature pick c)
  ]
