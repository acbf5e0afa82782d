-- ===== src/Snapshot/Format.antt =====
-- The messages of a snapshot, with the fields that src/service/SnapshotTaker.h and
-- src/service/ServiceSnapshotTaker.h set and src/service/ServiceSnapshotLoader.cpp reads.
use aeron_cluster_cpp.Prelude.{ℤ, Text}

pub data SnapshotMark : Type 0 where
  mark_begin mark_section mark_end mark_null : SnapshotMark

-- codecs::ClusterTimeUnit.
pub data ClusterTimeUnit : Type 0 where
  unit_millis unit_micros unit_nanos : ClusterTimeUnit

pub record SnapshotMarker : Type 0 where
  pub type_id : ℤ
  pub log_position : ℤ
  pub leadership_term_id : ℤ
  pub index : ℤ
  pub mark : SnapshotMark
  pub time_unit : ClusterTimeUnit
  pub app_version : ℤ

-- A codecs::ClientSession.
pub record SavedSession : Type 0 where
  pub cluster_session_id : ℤ
  pub response_stream_id : ℤ
  pub response_channel : Text
  pub encoded_principal : Text

-- A message by its template; `other` is any template that the loader does not read, such as the
-- messages of the application.
pub data SnapshotMessage : Type 0 where
  marker : SnapshotMarker → SnapshotMessage
  saved_session : SavedSession → SnapshotMessage
  other : Text → SnapshotMessage
