-- ===== src/Chat/Settings.antt =====
-- crates/omni-core/src/chat.rs: the settings of a session, which are durable before they count.
use Prim.Native.String.{count}
use silicon_omni.Prelude.{String, pos, Bool, true, not, List, [], ◌∷◌}
use silicon_omni.Json.{Value, Fields, str, num, bool, obj, field, end}
use silicon_omni.Meta.{set_setting}
use silicon_omni.Events.{config, extras}
use silicon_omni.Runner.{at}
use silicon_omni.Chat.{
  Chat, Outside, Change, set_providers, set_model, set_system_prompt, set_append_system_prompt,
  set_subagents, set_mcp, set_autoremove, set_cwd, set_context_recovery,
}
use silicon_omni.Chat.Stored.{texts}
use silicon_omni.Chat.Stored.Asked
use silicon_omni.Chat.Stored.Texts
use silicon_omni.Chat.Recording.{then_ok, guarded, recorded, refresh}

module _ {R : Type 0} (o : Outside R) where
  unfoldable pub save_setting : String → Value → String → Chat R → Chat R × Bool
  save_setting key value action c =
      guarded o action (set_setting o.metas (o.replacing c.calls) (o.now c.calls) key value c.meta)
        c

  -- The key of a change in the metadata, and what is saved there.
  abbrev pub entry : Change → Chat R → String × Value
  entry (set_providers names) c = ("active_providers", texts names)
  entry (set_model ask) c = ("ask", Asked.to_value ask)
  entry (set_system_prompt text) c = ("system_prompt", str text)
  entry (set_append_system_prompt text) c = ("append_system_prompt", str text)
  entry (set_subagents on) c = ("subagents", bool on)
  entry (set_mcp on) c = ("mcp", bool on)
  entry (set_autoremove on) c = ("autoremove", bool on)
  entry (set_cwd path) c = ("cwd", str (at o.real path c.config).cwd)
  entry (set_context_recovery messages) c = ("context_recovery", Texts.to_value messages)

  abbrev pub action_of : Change → String
  action_of (set_providers names) = "saving active-provider metadata"
  action_of (set_model ask) = "saving model metadata"
  action_of (set_system_prompt text) = "saving system-prompt metadata"
  action_of (set_append_system_prompt text) = "saving appended-system-prompt metadata"
  action_of (set_subagents on) = "saving subagent metadata"
  action_of (set_mcp on) = "saving MCP metadata"
  action_of (set_autoremove on) = "saving provider-autoremove metadata"
  action_of (set_cwd path) = "saving working-directory metadata"
  action_of (set_context_recovery messages) = "saving context recovery texts"

  -- What the conductor itself holds, after the save.
  abbrev pub taken : Change → Chat R → Chat R
  taken (set_providers names) c = record c { providers = names; benched = [] }
  taken (set_model ask) c = record c { ask = ask }
  taken (set_system_prompt text) c = record c { config = record c.config { system_prompt = text } }
  taken (set_append_system_prompt text) c = record c {
    config = record c.config { append_system_prompt = text };
  }
  taken (set_subagents on) c = record c {
    config = record c.config { disable_subagents = not on };
    announced = [];
  }
  taken (set_mcp on) c = record c {
    config = record c.config { disable_mcp = not on };
    announced = [];
  }
  taken (set_autoremove on) c = record c { autoremove = on }
  taken (set_cwd path) c = record c { config = at o.real path c.config }
  taken (set_context_recovery messages) c = record c { context_recovery = messages }

  -- The text and the extra fields of the event.
  abbrev pub told : Change → Chat R → String × Value
  told (set_providers names) c = ("providers", obj (field "providers" (texts names) end))
  told (set_model ask) c = ("model", obj (field "ask" (Asked.to_value ask) end))
  told (set_system_prompt text) c =
      ("system_prompt", obj (field "chars" (num (pos (count text))) end))
  told (set_append_system_prompt text) c =
      ("append_system_prompt", obj (field "chars" (num (pos (count text))) end))
  told (set_subagents on) c = ("subagents", obj (field "on" (bool on) end))
  told (set_mcp on) c = ("mcp", obj (field "on" (bool on) end))
  told (set_autoremove on) c = ("autoremove_unauthenticated", obj (field "on" (bool on) end))
  told (set_cwd path) c = ("cwd", obj (field "cwd" (str c.config.cwd) end))
  told (set_context_recovery messages) c = ("context_recovery", Texts.to_value messages)

  abbrev pub fields : Value → Fields
  fields (obj m) = m
  fields _ = end

  abbrev pub refreshed : Chat R × Bool → Chat R × Bool
  refreshed r = then_ok r (λ c. (refresh o c, true))

  unfoldable pub apply : Change → Chat R → Chat R × Bool
  unfolding save_setting config extras
  apply change c =
      let (key, value) = entry change c in
      then_ok (save_setting key value (action_of change) c) (λ saved.
        let next = taken change saved in
        let (text, extra) = told change next in
        refreshed (recorded o (extras (fields extra) (config (o.now next.calls) text)) next))

  -- In order, up to the first that fails.
  unfoldable pub apply_all : List Change → Chat R → Chat R × Bool
  unfolding apply
  apply_all [] c = (c, true)
  apply_all (change ∷ changes) c = then_ok (apply change c) (apply_all changes)
