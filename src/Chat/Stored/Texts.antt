-- ===== src/Chat/Stored/Texts.antt =====
-- crates/omni-core/src/chat.rs: the JSON form of the texts of a recovery.
use silicon_omni.Prelude.{Option, some, [], ◌∷◌, ◌>>=◌}
use silicon_omni.Json.{Value, str, obj, end, field, get}
use silicon_omni.Chat.{ContextRecovery}
use silicon_omni.Chat.Stored.{fields_of, or_default}

-- The default texts, of which the header is `SEED_HEADER` of crates/omni-core/src/translate.rs.
abbrev pub default_recovery : ContextRecovery
default_recovery = record {
  limit_message = "Session Limit was hit. New Session will be started";
  new_session_message = "New session was auto-started due to context limit. Check on pending work.";
  transcript_header =
      "Earlier in this conversation (carried over from another model, shown as a transcript — do not re-run anything in it):";
}

unfoldable pub to_value : ContextRecovery → Value
to_value r = obj (
    field "limit_message" (str r.limit_message) (
      field "new_session_message" (str r.new_session_message)
        (field "transcript_header" (str r.transcript_header) end)))

unfoldable pub from_value : Value → Option ContextRecovery
unfolding fields_of
from_value v = do
  m ← fields_of ("limit_message" ∷ "new_session_message" ∷ "transcript_header" ∷ []) v
  limit ← or_default default_recovery.limit_message (get "limit_message" m)
  fresh ← or_default default_recovery.new_session_message (get "new_session_message" m)
  header ← or_default default_recovery.transcript_header (get "transcript_header" m)
  some (record { limit_message = limit; new_session_message = fresh; transcript_header = header })
