-- ===== src/Examples/Listening.antt =====
-- A client that has heard one of two events, and a session that it listens to.
use silicon_omni.Prelude.{
  map, str_eq, Bool-cases, arith, inr, ℕ, String, pos, leb_ℤ, ◌≡◌, ◌≢◌, refl, true, false, none,
  some, List, [], ◌∷◌, ◌++◌, select, All, arith, inl, eq_iff, ◌+◌, length,
}
use silicon_omni.Events.{Event, new}
use silicon_omni.Events.EventType
use silicon_omni.Store.{Store}
use silicon_omni.Store.Numbered.{IsLog}
use silicon_omni.Choose.Asking.{default_ask}
use silicon_omni.Daemon.Wiring.{Snapshot, Connection, Listener, took, frame, taken}
use silicon_omni.Daemon.Wiring.Cursor.{frame-IsOpenTo, tell_all, frames, tell_all-IsLog}
use silicon_omni.Daemon.Live.Reap.{IsUsed, IsLeft, find-reap}
use silicon_omni.Daemon.Live.{Sessions, find, eligible, reap, Live, attach, detach, cold}
use silicon_omni.Daemon.Live.Kept.{IsKept, attach-IsKept, detach-IsKept}

abbrev snapshot : Snapshot
snapshot = record {
  session = "s";
  status = "waiting";
  ask = default_ask;
  providers = "claude" ∷ [];
  provider = "claude";
  model = "opus";
  effort = "";
  cwd = "/";
  seq = pos 1;
  in_turn = false;
  queued = 0;
}

abbrev said : ℕ → Event
said n = record (new "t" EventType.text) { seq = pos n; text = "hi" }

abbrev log : List Event
log = said 0 ∷ said 1 ∷ []

text_named : ◌≢◌ {A = String} EventType.text ""
text_named e = ground (arith, eq_iff EventType.text "")

log-IsLog : IsLog "s" 0 log
unfolding new
log-IsLog = (
  record { version = refl; named = text_named; position = refl; own = inl refl },
  (record { version = refl; named = text_named; position = refl; own = inl refl }, tt),
)

abbrev client : Connection
client = record { id = 7; is_open = true; outbox = [] }

tell_all-IsLog_example :
    tell_all (frame taken) "s" (λ e. snapshot) log (record { conn = client; next = pos 1 })
    ≡ record {
      conn = record client {
        outbox =
            client.outbox
            ++ frames (frame taken) "s" (λ e. snapshot) (select (λ e. leb_ℤ (pos 1) e.seq) log);
      };
      next = pos (0 + length log);
    }
tell_all-IsLog_example =
    tell_all-IsLog (frame taken) "s" (λ e. snapshot) "s" 0 1 log client frame-IsOpenTo log-IsLog
      refl (omega arith) (omega arith)

abbrev store : Store
store = record { session_id = "s"; file = none; events = log; load_error = none; appender = none }

abbrev live : Live
live = record {
  session_id = "s";
  snapshot = snapshot;
  listeners = [];
  stopping = false;
  alone_since = some 5;
}

live-IsKept : IsKept live
live-IsKept = record { distinct = tt; heard = inl refl }

attach-IsKept_example : IsKept (attach 10 false (λ n. took ∷ []) store client (pos 0) live).0
attach-IsKept_example =
    attach-IsKept 10 false (λ n. took ∷ []) store client (pos 0) live live-IsKept

detach-IsKept_example :
    IsKept (detach 20 7 (attach 10 false (λ n. took ∷ []) store client (pos 0) live).0)
    × All
        (λ (m : Listener). m.conn.id ≢ 7)
        (detach 20 7 (attach 10 false (λ n. took ∷ []) store client (pos 0) live).0).listeners
detach-IsKept_example =
    detach-IsKept 20 7 (attach 10 false (λ n. took ∷ []) store client (pos 0) live).0
      (attach-IsKept 10 false (λ n. took ∷ []) store client (pos 0) live live-IsKept)

found : find "s" (("s", live) ∷ []) ≡ some live
unfolding find
found = refl

-- The first pass finds the session cold; then a client comes back to it.
found_cold : eligible 1000 100 live ≡ true
unfolding cold
found_cold = refl

abbrev come_back : String × Live → String × Live
come_back s = (s.0, record s.1 { snapshot = snapshot; alone_since = none })

abbrev meanwhile : ℕ → Sessions → Sessions
meanwhile n = map come_back

find-come_back :
    (sessions : Sessions) (l : Live)
    → find "s" sessions ≡ some l
    → find "s" (map come_back sessions) ≡ some (come_back ("s", l)).1
unfolding find
find-come_back [] l h = absurd (ground (arith, h))
find-come_back ((name, k) ∷ sessions) l h = elim (Bool-cases (str_eq name "s")) [
  | inl e ↦ ground (arith, e, h)
  | inr e ↦ ground (arith, e, h, find-come_back sessions l)
]

used : IsUsed (λ n. 2000) meanwhile 100 "s"
unfolding cold
used n sessions l h = ((come_back ("s", l)).1, find-come_back sessions l h, refl)

find-reap_example :
    (left : Live) × (find "s" (reap 1000 (λ n. 2000) meanwhile 100 (("s", live) ∷ [])).0
      ≡ some left)
    × IsLeft (λ n. 2000) meanwhile 100 "s" live left
find-reap_example = find-reap (λ n. 2000) meanwhile 100 "s" 1000 (("s", live) ∷ []) live used found
