-- ===== src/Snapshot/Taker.antt =====
-- src/service/SnapshotTaker.{h,cpp}, src/service/ServiceSnapshotTaker.{h,cpp}, and `snapshotState` of
-- src/service/ClusteredServiceAgent.cpp.
pub mod Written
use aeron_cluster_cpp.Prelude.{
  ℕ, zero, suc, if◌then◌else◌, Bool, true, false, List, [], ◌∷◌, ◌++◌, ℤ, pos, ltb_ℤ,
}
use aeron_cluster_cpp.Prelude.Outcome.{
  M, Outcome, returns, throws, bad_publication_state, out_of_fuel, pure, throw, ◌>>=◌, ◌>>◌,
}
use aeron_cluster_cpp.Aeron.{Constants}
use aeron_cluster_cpp.Publication.{Publication, is_fatal}
use aeron_cluster_cpp.Sessions.{ClientSession}
use aeron_cluster_cpp.Snapshot.Format.{
  unit_nanos, SnapshotMark, mark_begin, mark_end, SnapshotMessage, SavedSession, marker,
  saved_session,
}

abbrev pub SnapshotPublication : Type 0
SnapshotPublication = Publication SnapshotMessage

-- Configuration::SNAPSHOT_TYPE_ID
abbrev pub snapshot_type_id : ℤ
snapshot_type_id = pos 2

-- The fields that `snapshotSession` encodes.
unfoldable pub saved : ClientSession → SavedSession
saved s = record {
  cluster_session_id = s.id;
  response_stream_id = s.response_stream_id;
  response_channel = s.response_channel;
  encoded_principal = s.encoded_principal;
}

module _ ⦃c : Constants⦄ where
  -- `checkResult`.
  unfoldable pub check_result : ℤ → M SnapshotPublication (Unit {0})
  unfolding is_fatal
  check_result result = if is_fatal result then throw bad_publication_state else pure tt

  -- `m_publication->offer(buffer, offset, length)`: a message goes out with a positive answer.
  unfoldable pub offer_once : SnapshotMessage → M SnapshotPublication ℤ
  offer_once m p =
      let result = p.answers p.calls in
      returns result (record p {
        calls = suc p.calls;
        sent = if ltb_ℤ (pos 0) result then p.sent ++ m ∷ [] else p.sent;
      })

  -- `offer`: `while (true)`, here by rounds.
  unfoldable pub offer : ℕ → SnapshotMessage → M SnapshotPublication (Unit {0})
  unfolding offer_once check_result
  offer zero m = throw out_of_fuel
  offer (suc rounds) m = do
    result ← offer_once m
    let again : M SnapshotPublication (Unit {0}) = (do check_result result; offer rounds m)
    if ltb_ℤ (pos 0) result then pure tt else again

  unfoldable pub mark_snapshot :
      ℕ → ℤ → ℤ → ℤ → ℤ → SnapshotMark → ℤ → M SnapshotPublication (Unit {0})
  unfolding offer
  mark_snapshot rounds type_id log_position leadership_term_id index mark app_version =
      offer rounds (
        marker (record {
          type_id = type_id;
          log_position = log_position;
          leadership_term_id = leadership_term_id;
          index = index;
          mark = mark;
          time_unit = unit_nanos;
          app_version = app_version;
        }))

  unfoldable pub snapshot_session : ℕ → ClientSession → M SnapshotPublication (Unit {0})
  unfolding offer saved
  snapshot_session rounds s = offer rounds (saved_session (saved s))

  -- `for (auto &&session: m_sessions)`.
  unfoldable pub snapshot_sessions : ℕ → List ClientSession → M SnapshotPublication (Unit {0})
  unfolding snapshot_session
  snapshot_sessions rounds [] = pure tt
  snapshot_sessions rounds (s ∷ ss) = do snapshot_session rounds s; snapshot_sessions rounds ss

  -- `ClusteredServiceAgent::snapshotState`: `markBegin`, the sessions, `markEnd`.
  unfoldable pub snapshot_state :
      ℕ → ℤ → ℤ → ℤ → List ClientSession → M SnapshotPublication (Unit {0})
  unfolding mark_snapshot snapshot_sessions
  snapshot_state rounds log_position leadership_term_id app_version ss = do
    mark_snapshot rounds snapshot_type_id log_position leadership_term_id (pos 0) mark_begin
        app_version
    snapshot_sessions rounds ss
    mark_snapshot rounds snapshot_type_id log_position leadership_term_id (pos 0) mark_end
        app_version
