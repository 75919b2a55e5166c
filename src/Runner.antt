-- ===== src/Runner.antt =====
-- crates/omni-core/src/providers/base.rs: what drives one provider for one session.
-- The trait `Runner` is a record of its methods over the states of a runner. Each takes the number
-- of calls that left the session before it, so that what it answers may change in between.
use silicon_omni.Prelude.{ℕ, String, Bool, true, false, Option, List}
use silicon_omni.Result.{Result}
use silicon_omni.Json.{Value, end, field, null, obj, str}
use silicon_omni.Events.{Event, new, saying, with_extra, failure, from}
use silicon_omni.Events.Kind
use Prim.Native.String.{◌++◌ as concat}

abbrev pub generation_key : String
generation_key = "_omni_generation"

abbrev pub confirmed_type : String
confirmed_type = "_omni_send_confirmed"

abbrev pub confirmed_as : String
confirmed_as = "_omni_confirmed_as"

-- The first argument is the text of the time.
unfoldable pub confirmed : String → String → String → Event
unfolding new saying with_extra
confirmed now text opening =
    with_extra confirmed_as (str opening) (saying text (new now confirmed_type))

-- What a successful `send` means.
pub data Delivery : Type 0 where
  immediate echoed next_turn : Delivery

pub record Config : Type 0 where
  pub model : String
  pub effort : String
  pub fast : Bool
  pub system_prompt : String
  pub append_system_prompt : String
  pub disable_subagents : Bool
  pub disable_mcp : Bool
  pub cwd : String

-- `default`, with what `here()` answers.
unfoldable pub default_config : String → Config
default_config here = record {
  model = "";
  effort = "";
  fast = false;
  system_prompt = "";
  append_system_prompt = "";
  disable_subagents = true;
  disable_mcp = true;
  cwd = here;
}

-- `at`, with the function `real` of the file system.
abbrev pub at : (String → String) → String → Config → Config
at real cwd config = record config { cwd = real cwd }

abbrev pub blank : Value
blank = obj (field "used" null (field "reset" null end))

-- An event of a CLI that is gone; `code` is the text of its exit code.
unfoldable pub exited : String → String → String → String → Event
unfolding failure from
exited now name cli code =
    from name (failure now Kind.crash (concat cli (concat " exited with " code)))

pub record Runners (R : Type 0) : Type 0 where
  pub name : R → String
  pub native_id : ℕ → R → String
  pub generation : ℕ → R → Option ℕ
  pub start : ℕ → String → List Event → R → Result String R
  pub seeded : ℕ → R → Bool
  pub send : ℕ → String → R → R × Result String Delivery
  pub compact : ℕ → R → R × Result String Bool
  pub retune : ℕ → String → String → R → R × Bool
  pub catch_up : ℕ → List Event → R → R × Bool
  pub interrupt : ℕ → R → R
  pub stop : ℕ → R → R
  pub alive : ℕ → R → Bool
  pub parkable : ℕ → R → Bool
