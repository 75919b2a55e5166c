-- ===== src/Events/EventType.antt =====
-- crates/omni-core/src/events.rs: `mod event_type`, the names of what can happen.
use silicon_omni.Prelude.{String, List, [], ◌∷◌}

abbrev pub start : String
start = "start"

abbrev pub text : String
text = "text"

abbrev pub thinking : String
thinking = "thinking"

abbrev pub tool_call : String
tool_call = "tool.call"

abbrev pub tool_result : String
tool_result = "tool.result"

abbrev pub end : String
end = "end"

abbrev pub injected : String
injected = "injected"

abbrev pub error : String
error = "error"

abbrev pub switch_provider : String
switch_provider = "switch_provider"

abbrev pub new_session : String
new_session = "new_session"

abbrev pub config : String
config = "config"

-- The types that carry conversation.
abbrev pub history_types : List String
history_types = start ∷ injected ∷ text ∷ thinking ∷ tool_call ∷ tool_result ∷ []
