-- ===== src/Events/Kind.antt =====
-- crates/omni-core/src/events.rs: the classifications of an error event.
use silicon_omni.Prelude.{String}

abbrev pub auth : String
auth = "auth"

abbrev pub limit : String
limit = "limit"

abbrev pub context_limit : String
context_limit = "context_limit"

abbrev pub unavailable : String
unavailable = "unavailable"

abbrev pub crash : String
crash = "crash"
