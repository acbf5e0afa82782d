-- ===== src/Agent/Duty/Snapshot.antt =====
-- A snapshot whose writing throws (src/service/ClusteredServiceAgent.cpp, `SnapshotState::doWork`).
use aeron_cluster_cpp.Prelude.{ℕ}
use aeron_cluster_cpp.Aeron.{Constants}
use aeron_cluster_cpp.Snapshot.Taker.{SnapshotPublication}
use aeron_cluster_cpp.Agent.State.{Agent, SnapshotState}
use aeron_cluster_cpp.Agent.Driver.{Driver}

module _ ⦃c : Constants⦄ (d : Driver) where
  -- The snapshot after the throw: the recording is known, and the output ends where it threw.
  abbrev pub half_written : SnapshotState → ℕ → SnapshotPublication → SnapshotState
  half_written s publication q = record s {
    recording_counter_id = d.recording_counter_of (d.publication_session_id publication);
    recording_id =
        d.recording_id_of (d.recording_counter_of (d.publication_session_id publication));
    output = q;
  }
