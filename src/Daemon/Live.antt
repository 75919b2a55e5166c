-- ===== src/Daemon/Live.antt =====
-- crates/omni-daemon/src/registry.rs: `Live`, one session that is held open, and the decisions of
-- `Registry` over all of them.
-- An instant is a number of milliseconds. `snapshot` is what the handle of the session answers.
-- Where a lock is held from the first to the last step of an operation, the operation is one step.
-- `reap` takes the lock on the sessions several times. That it then has idle servers of a provider
-- put down is left out.
pub mod Kept
pub mod Reap
use silicon_omni.Prelude.{
  ℕ, String, ℤ, pos, succ, ltb_ℤ, Bool, true, false, not, ◌&&◌, ◌||◌, Option, none, some, List, [],
  ◌∷◌, ◌++◌, select, length, ltb, ◌==◌, ◌-◌, str_eq, if◌then◌else◌, map, is_some, suc,
}
use silicon_omni.Result.{Result, ok, err}
use silicon_omni.Events.{Event}
use silicon_omni.Store.{Store, events_since}
use silicon_omni.Daemon.Wiring.{
  Snapshot, Frame, gone, Connection, close, Sending, frame, Attempt, Listener, replay,
}

pub record Live : Type 0 where
  pub session_id : String
  pub snapshot : Snapshot
  pub listeners : List Listener
  pub stopping : Bool
  pub alone_since : Option ℕ

pub data AttachError : Type 0 where
  connection_closed session_stopped : AttachError

-- `listeners.retain(|listener| listener.conn.id != conn_id)`
unfoldable pub others : ℕ → List Listener → List Listener
others conn_id = select (λ l. not (l.conn.id == conn_id))

-- The loop over the events to replay, which ends at the first that is not sent.
unfoldable pub replay_all :
    (ℤ → List Attempt) → String → Snapshot → List Event → Listener → Listener
unfolding replay
replay_all tries session snapshot [] l = l
replay_all tries session snapshot (e ∷ es) l =
    let (l', sent) = replay (tries e.seq) session e snapshot l in
    let further = replay_all tries session snapshot es l' in if sent then further else l'

abbrev pub if_alone : ℕ → List Listener → Option ℕ → Option ℕ
if_alone now [] since = some now
if_alone now (l ∷ ls) since = since

abbrev pub start_from : ℤ → Snapshot → ℤ
start_from from snapshot = if ltb_ℤ from (pos 0) then succ snapshot.seq else from

-- The end of `attach`, with the listener that was told what it has to be told. `closed` is whether
-- the connection is found closed.
unfoldable pub subscribe : ℕ → Bool → Listener → ℕ → Live → Live × Result AttachError ℕ
unfolding others
subscribe now closed l replayed live =
    let listeners = others l.conn.id live.listeners in
    if closed || not l.conn.is_open
    then (
      record live {
        listeners = others l.conn.id (listeners ++ (l ∷ []));
        alone_since = if_alone now (others l.conn.id (listeners ++ (l ∷ []))) live.alone_since;
      },
      err connection_closed,
    )
    else (record live { listeners = listeners ++ (l ∷ []); alone_since = none }, ok replayed)

abbrev pub is_stopped : Live → Bool
is_stopped live = live.stopping || str_eq live.snapshot.status "stopped"

unfoldable pub attach :
    ℕ → Bool → (ℤ → List Attempt) → Store → Connection → ℤ → Live → Live × Result AttachError ℕ
unfolding replay_all subscribe
attach now closed tries store conn from live =
    let start = start_from from live.snapshot in
    let replayed = events_since start store in
    let l =
      replay_all tries live.session_id live.snapshot replayed
        (record { conn = conn; next = start }) in
    if not conn.is_open
    then (live, err connection_closed)
    else if is_stopped live
    then (live, err session_stopped)
    else subscribe now closed l (length replayed) live

unfoldable pub detach : ℕ → ℕ → Live → Live
unfolding others
detach now conn_id live = record live {
  listeners = others conn_id live.listeners;
  alone_since = if_alone now (others conn_id live.listeners) live.alone_since;
}

-- Has nobody been listening for longer than the grace?
unfoldable pub cold : ℕ → ℕ → Live → Bool
cold now grace live =
    if str_eq live.snapshot.status "busy" || live.snapshot.in_turn
    then false
    else elim live.alone_since [ none ↦ false | some since ↦ ltb grace (now - since) ]

-- `snapshots`, `forget` and `reap` of `Registry`, over the sessions by name.
abbrev pub Sessions : Type 0
Sessions = List (String × Live)

unfoldable pub forget : ℕ → ℕ → Sessions → Sessions
unfolding detach
forget now conn_id = map (λ (s : String × Live). (s.0, detach now conn_id s.1))

abbrev pub eligible : ℕ → ℕ → Live → Bool
eligible now grace live = str_eq live.snapshot.status "stopped" || cold now grace live

-- `farewell`: `sends` is what each connection's outbox answers.
unfoldable pub farewell : (ℕ → Sending) → Live → Live
unfolding frame
farewell sends live = record live {
  listeners =
      map
        (λ (l : Listener). record l {
          conn = (frame (sends l.conn.id) (gone live.session_id live.snapshot) l.conn).0;
        })
        live.listeners;
}

-- `final` is the snapshot once the thread of the session has ended.
unfoldable pub shut : (ℕ → Sending) → Snapshot → Live → Live
unfolding farewell
shut sends final live =
    if live.stopping
    then live
    else farewell sends (record live { stopping = true; snapshot = final })

unfoldable pub find : String → Sessions → Option Live
find name [] = none
find name ((n, live) ∷ sessions) = if str_eq n name then some live else find name sessions

unfoldable pub remove : String → Sessions → Sessions
remove name [] = []
remove name ((n, live) ∷ sessions) =
    let rest = remove name sessions in if str_eq n name then rest else (n, live) ∷ rest

-- The sessions that are left, and the one that is to be shut.
unfoldable pub stop_locked_if : (Live → Bool) → String → Sessions → Sessions × Option Live
unfolding find remove
stop_locked_if test name sessions = elim (find name sessions) [
  | none ↦ (sessions, none)
  | some live ↦ if test live then (remove name sessions, some live) else (sessions, none)
]

abbrev pub candidates : ℕ → ℕ → Sessions → List String
candidates now grace sessions =
    map (λ (s : String × Live). s.0)
      (select (λ (s : String × Live). eligible now grace s.1) sessions)

-- The second pass of `reap`, which looks again at each candidate. The lock on the sessions is taken
-- for each look alone: `meanwhile n` is what other threads did to the sessions before the look
-- number `n`, and `later n` is the time of that look.
unfoldable pub reap_all :
    (ℕ → ℕ) → (ℕ → Sessions → Sessions) → ℕ → ℕ → List String → Sessions → Sessions × ℕ
unfolding stop_locked_if
reap_all later meanwhile grace n [] sessions = (sessions, 0)
reap_all later meanwhile grace n (name ∷ names) sessions =
    let (left, gone_one) = stop_locked_if (eligible (later n) grace) name (meanwhile n sessions) in
    let (rest, count) = reap_all later meanwhile grace (suc n) names left in
    (rest, if is_some gone_one then suc count else count)

-- The candidates are found at `now`.
unfoldable pub reap : ℕ → (ℕ → ℕ) → (ℕ → Sessions → Sessions) → ℕ → Sessions → Sessions × ℕ
unfolding reap_all
reap now later meanwhile grace sessions =
    reap_all later meanwhile grace 0 (candidates now grace sessions) sessions
