-- ===== src/Daemon/Wiring.antt =====
-- crates/omni-daemon/src/wiring.rs: the connection of a client, and its interest in one session.
-- A connection is its open flag and the frames that its outbox has taken, in order. What the
-- bounded outbox answers, and what other threads do to the flag, are arguments.
pub mod Cursor
use silicon_omni.Prelude.{
  ℕ, String, ℤ, pos, succ, leb_ℤ, ltb_ℤ, Bool, true, false, Option, List, [], ◌∷◌, ◌++◌,
  if◌then◌else◌,
}
use silicon_omni.Events.{Event}
use silicon_omni.Choose.Asking.{Ask}

-- crates/omni-core/src/chat.rs: what a session is doing.
pub record Snapshot : Type 0 where
  pub session : String
  pub status : String
  pub ask : Ask
  pub providers : List String
  pub provider : String
  pub model : String
  pub effort : String
  pub cwd : String
  pub seq : ℤ
  pub in_turn : Bool
  pub queued : ℕ

pub data Frame : Type 0 where
  event_frame : String → Event → Snapshot → Frame
  gone : String → Snapshot → Frame

pub record Connection : Type 0 where
  pub id : ℕ
  pub is_open : Bool
  pub outbox : List Frame

abbrev pub close : Connection → Connection
close conn = record conn { is_open = false }

abbrev pub push : Frame → Connection → Connection
push frame conn = record conn { outbox = conn.outbox ++ (frame ∷ []) }

-- What `try_send` answers.
pub data Sending : Type 0 where
  taken full disconnected : Sending

-- `frame`, by `write`: the outbox takes the frame, or the connection is closed at once.
unfoldable pub frame : Sending → Frame → Connection → Connection × Bool
frame taken f conn = if conn.is_open then (push f conn, true) else (conn, false)
frame _ f conn = if conn.is_open then (close conn, false) else (conn, false)

-- One round of the loop of `write_replay`: another thread has closed the connection; the frame is
-- taken; the writer is gone; or the outbox is full, and time remains or not.
pub data Attempt : Type 0 where
  shut took left : Attempt
  crowded : Bool → Attempt

-- The loop of `write_replay`. The end of the list is the end of the time.
unfoldable pub replay_loop : List Attempt → Frame → Connection → Connection × Bool
replay_loop [] f conn = (close conn, false)
replay_loop (shut ∷ attempts) f conn = (close conn, false)
replay_loop (took ∷ attempts) f conn = (push f conn, true)
replay_loop (left ∷ attempts) f conn = (close conn, false)
replay_loop (crowded false ∷ attempts) f conn = (close conn, false)
replay_loop (crowded true ∷ attempts) f conn = replay_loop attempts f conn

-- `replay_frame`, by `write_replay`.
unfoldable pub replay_frame : List Attempt → Frame → Connection → Connection × Bool
unfolding replay_loop
replay_frame attempts f conn = if conn.is_open then replay_loop attempts f conn else (conn, false)

pub record Listener : Type 0 where
  pub conn : Connection
  pub next : ℤ

abbrev pub with_conn : Listener → Connection × Bool → Listener × Bool
with_conn l (conn, sent) = (record l { conn = conn }, sent)

-- What `deliver` and `replay` share: the cursor, and how the frame is sent.
abbrev pub tell :
    (Frame → Connection → Connection × Bool)
    → String
    → Event
    → Snapshot
    → Listener
    → Listener × Bool
tell send session e snapshot l =
    if leb_ℤ (pos 0) e.seq
    then (if ltb_ℤ e.seq l.next
        then (l, true)
        else with_conn (record l { next = succ e.seq })
            (send (event_frame session e snapshot) l.conn))
    else with_conn l (send (event_frame session e snapshot) l.conn)

-- Send this event on, unless this listener has already had it.
unfoldable pub deliver : Sending → String → Event → Snapshot → Listener → Listener × Bool
unfolding frame
deliver sending = tell (frame sending)

-- Replay a persisted event.
unfoldable pub replay : List Attempt → String → Event → Snapshot → Listener → Listener × Bool
unfolding replay_frame
replay attempts = tell (replay_frame attempts)
