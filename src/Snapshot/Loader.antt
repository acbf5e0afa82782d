-- ===== src/Snapshot/Loader.antt =====
-- src/service/ServiceSnapshotLoader.{h,cpp}: a snapshot is read message by message into the table of
-- sessions of the agent.
pub mod Reload
pub mod Replay
use aeron_cluster_cpp.Prelude.{
  ℕ, ◌==◌, if◌then◌else◌, Bool, true, false, not, List, [], ◌∷◌, ℤ, ◌==ℤ◌, Text, Option, none, some,
}
use aeron_cluster_cpp.Prelude.Outcome.{
  M, Outcome, returns, throws, bad_schema, bad_snapshot_type, already_in_snapshot,
  missing_begin_snapshot, buffer_too_short, pure, throw, ◌>>=◌, ◌>>◌, modify, when,
}
use aeron_cluster_cpp.Aeron.{Constants, PollAction, continue, break}
use aeron_cluster_cpp.Sessions.{SessionTable, add_session}
use aeron_cluster_cpp.Snapshot.Format.{
  SnapshotMark, mark_begin, mark_section, mark_end, mark_null, SnapshotMarker, SavedSession,
  SnapshotMessage, marker, saved_session, other,
}
use aeron_cluster_cpp.Snapshot.Taker.{snapshot_type_id}

-- FRAGMENT_LIMIT
abbrev pub fragment_limit : ℕ
fragment_limit = 10

pub record Loader : Type 0 where
  pub in_snapshot : Bool
  pub is_done : Bool
  -- Not initialised by the constructor.
  pub app_version : ℤ
  -- The part of `m_agent` that the loader changes.
  pub table : SessionTable

unfoldable pub new_loader : ℤ → SessionTable → Loader
new_loader app_version table = record {
  in_snapshot = false;
  is_done = false;
  app_version = app_version;
  table = table;
}

-- The generated decoders of the loader: the id of their schema, and what the constructor of the vector
-- reads for the principal of a session. `encodedPrincipal()` moves the decoder past the field each time it
-- is called, and the code calls it twice and the length after it, so that the bytes are not the field; a
-- decoder that checks the bounds of its buffer throws, which is `none`.
pub record SnapshotCodec : Type 0 where
  pub schema_id : ℕ
  pub read_principal : SavedSession → Option Text

-- A fragment as the generated decoders see it: the schema of its header, and its message.
pub record SnapshotFragment : Type 0 where
  pub schema_id : ℕ
  pub message : SnapshotMessage

-- The `switch` on the mark, and what the function returns after it.
unfoldable pub on_mark : SnapshotMarker → SnapshotMark → M Loader PollAction
on_mark m mark_begin l =
    if l.in_snapshot
    then throws already_in_snapshot l
    else returns continue (record l { in_snapshot = true; app_version = m.app_version })
on_mark m mark_end l =
    if not l.in_snapshot
    then throws missing_begin_snapshot l
    else returns break (record l { is_done = true })
on_mark m mark_section l = returns continue l
on_mark m mark_null l = returns continue l

module _ ⦃c : Constants⦄ where
  unfoldable pub on_message : SnapshotCodec → SnapshotMessage → M Loader PollAction
  unfolding on_mark
  on_message codec (marker m) l =
      if not (m.type_id ==ℤ snapshot_type_id)
      then throws bad_snapshot_type l
      else on_mark m m.mark l
  on_message codec (saved_session s) l = elim (codec.read_principal s) [
    | none ↦ throws buffer_too_short l
    | some principal ↦ returns continue (record l {
      table =
          add_session c.null_value s.cluster_session_id s.response_stream_id s.response_channel
            principal l.table;
    })
  ]
  on_message codec (other bytes) l = returns continue l

  -- `onFragment`.
  unfoldable pub on_fragment : SnapshotCodec → SnapshotFragment → M Loader PollAction
  unfolding on_message
  on_fragment codec f =
      if not (f.schema_id == codec.schema_id) then throw bad_schema else on_message codec f.message
