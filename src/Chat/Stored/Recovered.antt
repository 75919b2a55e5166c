-- ===== src/Chat/Stored/Recovered.antt =====
-- crates/omni-core/src/chat.rs: the JSON form of a recovery in progress.
use silicon_omni.Prelude.{
  String, Option, none, some, [], ◌∷◌, ◌>>=◌, str_eq, if◌then◌else◌, ◌≡◌, refl,
}
use silicon_omni.Json.{Value, null, str, obj, end, field, get}
use silicon_omni.Chat.{Recovery, RecoveryStage, compacting, retrying, handoff, continuing, resuming}
use silicon_omni.Chat.Stored.{fields_of, required}

abbrev name_of : RecoveryStage → String
name_of compacting = "Compacting"
name_of retrying = "Retrying"
name_of handoff = "Handoff"
name_of continuing = "Continuing"
name_of resuming = "Resuming"

stage_named : String → Option RecoveryStage
stage_named name =
    if str_eq name "Compacting"
    then some compacting
    else if str_eq name "Retrying"
    then some retrying
    else if str_eq name "Handoff"
    then some handoff
    else if str_eq name "Continuing"
    then some continuing
    else if str_eq name "Resuming"
    then some resuming
    else none

stage_of : Value → Option RecoveryStage
unfolding stage_named
stage_of (str name) = stage_named name
stage_of (obj (field name null end)) = stage_named name
stage_of _ = none

-- The value of `json!(recovery)`, in which no recovery is a null.
unfoldable pub to_value : Option Recovery → Value
to_value none = null
to_value (some r) = obj (
    field "stage" (str (name_of r.stage))
      (field "message_id" (str r.message_id) (field "retry" (str r.retry) end)))

unfoldable pub from_value : Value → Option Recovery
unfolding fields_of stage_of
from_value v = do
  m ← fields_of ("stage" ∷ "message_id" ∷ "retry" ∷ []) v
  stage ← get "stage" m >>= stage_of
  id ← required (get "message_id" m)
  retry ← required (get "retry" m)
  some (record { stage = stage; message_id = id; retry = retry })

-- A recovery that the conductor keeps is the recovery that the next open reads.
pub recovered-to_value : (r : Recovery) → from_value (to_value (some r)) ≡ some r
unfolding from_value to_value fields_of stage_of stage_named get
recovered-to_value r = go r.stage
  where
    go :
        (s : RecoveryStage)
        → let r' = record r { stage = s } in from_value (to_value (some r')) ≡ some r'
    go compacting = refl
    go retrying = refl
    go handoff = refl
    go continuing = refl
    go resuming = refl
