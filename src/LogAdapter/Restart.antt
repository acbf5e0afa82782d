-- ===== src/LogAdapter/Restart.antt =====
-- A member that starts from a snapshot, beside the one that took it
-- (src/service/ServiceSnapshotTaker.h, src/service/ServiceSnapshotLoader.cpp and
-- src/service/BoundedLogAdapter.cpp).
use mathlib.Core.Option
use aeron_cluster_cpp.Prelude.{ℤ, if◌then◌else◌, List, [], ◌∷◌, Option, none, some, ◌==ℤ◌}
use aeron_cluster_cpp.Snapshot.Format.{SavedSession}
use aeron_cluster_cpp.Snapshot.Loader.{Loader}
use aeron_cluster_cpp.Agent.State.{Agent}
use aeron_cluster_cpp.Agent.Driver.{Driver}
use aeron_cluster_cpp.LogAdapter.Replica.{Replica}

abbrev find_saved : ℤ → List SavedSession → Option SavedSession
find_saved id [] = none
find_saved id (s ∷ ss) = if s.cluster_session_id ==ℤ id then some s else find_saved id ss

-- A session, and a replica, without the principals.
abbrev pub anonymous : SavedSession → SavedSession
anonymous s = record s { encoded_principal = [] }

abbrev pub without_principals : Replica → Replica
without_principals r = record r { sessions = λ id. Option.map anonymous (r.sessions id) }

-- An agent with the sessions that a loader read, at the place in the log of another.
abbrev pub restored : Loader → Agent → Agent → Agent
restored l a b = record b {
  table = l.table;
  log_position = a.log_position;
  cluster_time = a.cluster_time;
  leadership_term_id = a.leadership_term_id;
}
