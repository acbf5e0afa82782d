-- ===== src/Cycle/Snapshot.antt =====
-- The work on a snapshot (src/service/ClusteredServiceAgent.cpp, `SnapshotState::doWork`) keeps what a duty
-- cycle's few changes keep.
use aeron_cluster_cpp.Prelude.{ℕ, true, false, some, ℤ, ◌==ℤ◌}
use aeron_cluster_cpp.Prelude.Outcome.{returns, pure}
use aeron_cluster_cpp.Prelude.Keeps.{
  Keeps, Keeps-bind, Keeps-if, Keeps-choice, Keeps-maybe, Keeps_outcome,
}
use aeron_cluster_cpp.Aeron.{Constants}
use aeron_cluster_cpp.Snapshot.Taker.{snapshot_state}
use aeron_cluster_cpp.Agent.State.{SnapshotState, on_take_snapshot}
use aeron_cluster_cpp.Agent.Driver.{Driver}
use aeron_cluster_cpp.Agent.Service.{ack, notify}
use aeron_cluster_cpp.Agent.Duty.{
  acknowledge_snapshot, complete_snapshot, set_snapshot, write_sessions, find_recording,
  snapshot_do_work,
}
use aeron_cluster_cpp.Cycle.Stable.{Part, Holds, IsStable}

module _ ⦃c : Constants⦄ (P : Part) (laws : IsStable P) (d : Driver) where
  acknowledge_snapshot-Keeps :
      (s : SnapshotState) (publication : ℕ) → Keeps (Holds P) (acknowledge_snapshot d s publication)
  unfolding acknowledge_snapshot
  acknowledge_snapshot-Keeps s publication =
      Keeps-if (Holds P) _ (pure false) (ack s.recording_id) (λ b k. k)
        (laws.ack_keeps s.recording_id)

  complete_snapshot-Keeps :
      (s : SnapshotState) (publication : ℕ) → Keeps (Holds P) (complete_snapshot d s publication)
  unfolding complete_snapshot set_snapshot
  complete_snapshot-Keeps s publication =
      Keeps-if (Holds P) s.snapshot_complete (acknowledge_snapshot d s publication) _
        (acknowledge_snapshot-Keeps s publication)
        (Keeps-bind (Holds P) (notify (on_take_snapshot publication)) _
          (laws.notify_keeps (on_take_snapshot publication))
          (λ complete b k.
            Keeps-if (Holds P) complete
              (acknowledge_snapshot d (record s { snapshot_complete = true }) publication)
              (pure false)
              (acknowledge_snapshot-Keeps (record s { snapshot_complete = true }) publication)
              (λ b1 k1. k1)
              (record b { current_snapshot = some (record s { snapshot_complete = complete }) }) k))

  write_sessions-Keeps :
      (rounds : ℕ) (s : SnapshotState) (publication : ℕ)
      → Keeps (Holds P) (write_sessions rounds d s publication)
  unfolding write_sessions set_snapshot
  write_sessions-Keeps rounds s publication a h =
      Keeps_outcome (Holds P)
        (snapshot_state rounds a.log_position a.leadership_term_id a.ctx.app_version
          a.table.sessions s.output)
        _ _ (λ x p. complete_snapshot-Keeps (record s { output = p }) publication _ h) (λ e p. h)

  find_recording-Keeps :
      (rounds : ℕ) (s : SnapshotState) (publication : ℕ)
      → Keeps (Holds P) (find_recording rounds d s publication)
  unfolding find_recording set_snapshot
  find_recording-Keeps rounds s publication a h =
      let id : ℤ = d.recording_counter_of (d.publication_session_id publication) in
      Keeps-choice (Holds P) (s.recording_counter_id ==ℤ c.null_counter_id) _ _
        (Keeps-choice (Holds P) (id ==ℤ c.null_counter_id) _ _
          (Keeps-choice (Holds P) d.archive_fine (returns false a) _ h h)
          (write_sessions-Keeps rounds
            (record s { recording_counter_id = id; recording_id = d.recording_id_of id })
            publication
            (record a {
              current_snapshot =
                  some
                    (record s { recording_counter_id = id; recording_id = d.recording_id_of id });
            })
            h))
        (complete_snapshot-Keeps s publication a h)

  pub snapshot_do_work-Keeps :
      (rounds : ℕ) (s : SnapshotState) → Keeps (Holds P) (snapshot_do_work rounds d s)
  unfolding snapshot_do_work set_snapshot
  snapshot_do_work-Keeps rounds s a h =
      Keeps-maybe (Holds P) s.publication _ _
        (Keeps-maybe (Holds P) (d.find_exclusive_publication s.publication_id) (returns false a) _ h
          (λ p.
            let s' : SnapshotState = record s {
              publication = some p;
              output = record (s.output) { answers = d.offer_answers p };
            } in
            Keeps-choice (Holds P) d.recording_starts _ _
              (find_recording-Keeps rounds s' p (record a { current_snapshot = some s' }) h) h))
        (λ p. find_recording-Keeps rounds s p a h)
