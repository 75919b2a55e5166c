-- ===== src/Translate.antt =====
-- crates/omni-core/src/translate.rs: history as text for a provider that did not live through it.
-- The printer of `serde_json` and `str::trim` are parameters, `print` and `trim`.
pub mod Turns
use Prim.Native.String.{◌++◌}
use silicon_omni.Prelude.{
  ℕ, String, Bool, true, false, List, [], ◌∷◌, ◌||◌, map, str_eq, if◌then◌else◌, ◌==◌,
}
use silicon_omni.Json.{Value, Fields, null, str, obj, end, field, len}
use silicon_omni.Events.{Event}
use silicon_omni.Events.EventType

-- The two roles, for which the source has the texts "user" and "assistant".
pub data Role : Type 0 where
  user assistant : Role

abbrev pub same_role : Role → Role → Bool
same_role user user = true
same_role assistant assistant = true
same_role _ _ = false

pub record Turn : Type 0 where
  pub role : Role
  pub text : String

-- `role.to_uppercase()`
abbrev pub to_uppercase : Role → String
to_uppercase user = "USER"
to_uppercase assistant = "ASSISTANT"

-- `last.text.push('\n'); last.text.push_str(&text)`
abbrev pub with_line : String → String → String
with_line text line = (text ++ "\n") ++ line

-- `args.values().next().unwrap_or(&Value::Null)`
abbrev pub first_value : Fields → Value
first_value end = null
first_value (field k v m) = v

abbrev pub role_of : Event → Role
role_of e =
    if str_eq e.event_type EventType.start || str_eq e.event_type EventType.injected
    then user
    else assistant

-- The body of the loop of `transcript` for a text that is not empty.
unfoldable pub say : Role → String → List Turn → List Turn
say role text [] = record { role = role; text = text } ∷ []
say role text (last ∷ []) =
    if same_role last.role role
    then record last { text = with_line last.text text } ∷ []
    else last ∷ record { role = role; text = text } ∷ []
say role text (turn ∷ next ∷ out) = turn ∷ say role text (next ∷ out)

abbrev pub join : String → List String → String
join separator [] = ""
join separator (text ∷ []) = text
join separator (text ∷ next ∷ texts) = (text ++ separator) ++ join separator (next ∷ texts)

abbrev pub line_of : Turn → String
line_of turn = (to_uppercase turn.role ++ ": ") ++ turn.text

abbrev pub with_header : String → List Turn → String
with_header header [] = ""
with_header header (turn ∷ turns) = (header ++ "\n\n") ++ join "\n\n" (map line_of (turn ∷ turns))

module _ (print : Value → String) (trim : String → String) where
  -- A value as text. `quote` keeps a string quoted, the way an argument reads.
  unfoldable pub readable : Value → Bool → String
  readable (str text) false = trim text
  readable null quote = ""
  readable v quote = print v

  abbrev pub call_body : Fields → String
  call_body args =
      if len args == 1 then readable (first_value args) true else readable (obj args) false

  abbrev pub result_text : Event → String
  result_text e =
      let tool = if str_eq e.tool "" then "tool" else e.tool in
      let status = if e.ok then "" else " failed" in
      (((("[" ++ tool) ++ " result") ++ status) ++ ": ") ++ (readable e.result false ++ "]")

  -- One history event as the text a foreign provider should read.
  unfoldable pub render : Event → String
  render e =
      if str_eq e.event_type EventType.start
        || str_eq e.event_type EventType.injected
        || str_eq e.event_type EventType.text
      then e.text
      else if str_eq e.event_type EventType.tool_call
      then ((("[" ++ e.tool) ++ ": ") ++ call_body e.args) ++ "]"
      else if str_eq e.event_type EventType.tool_result
      then result_text e
      else ""

  -- The loop of `transcript` from the turns made so far.
  unfoldable pub transcript_loop : List Turn → List Event → List Turn
  unfolding render say
  transcript_loop out [] = out
  transcript_loop out (e ∷ events) =
      let text = render e in
      transcript_loop (if str_eq text "" then out else say (role_of e) text out) events

  unfoldable pub transcript : List Event → List Turn
  unfolding transcript_loop
  transcript events = transcript_loop [] events

  -- History as one message, for providers that accept nothing else.
  unfoldable pub flatten : List Event → String → String
  unfolding transcript
  flatten events header = with_header header (transcript events)
