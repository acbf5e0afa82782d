-- ===== src/Snapshot/Loader/Replay.antt =====
-- A snapshot that was taken is read back (src/service/ServiceSnapshotTaker.h against
-- src/service/ServiceSnapshotLoader.cpp).
use mathlib.Core.List.{map, append-nil}
use aeron_cluster_cpp.Prelude.{
  ℕ, ◌≡◌, refl, sym, ◌∙◌, inl, inr, Bool, true, false, List, [], ◌∷◌, ◌++◌, ℤ, arith,
}
use aeron_cluster_cpp.Prelude.Outcome.{returns, throws, buffer_too_short}
use aeron_cluster_cpp.Aeron.{Constants}
use aeron_cluster_cpp.Sessions.{ClientSession, add_session, empty_table}
use aeron_cluster_cpp.Sessions.Laws.{IsValid, empty_table-IsValid}
use aeron_cluster_cpp.Sessions.Order.{IsAscending}
use aeron_cluster_cpp.Snapshot.Format.{SnapshotMessage, saved_session, mark_end}
use aeron_cluster_cpp.Snapshot.Taker.{saved}
use aeron_cluster_cpp.Snapshot.Taker.Written.{snapshot_messages, edge}
use aeron_cluster_cpp.Snapshot.Loader.{Loader, SnapshotCodec, new_loader, on_fragment}
use aeron_cluster_cpp.Snapshot.Loader.Reload.{
  AllBelow, Precedes, replay, Precedes-append, Precedes-nil, all_saved, refuses, decoder_cases,
  all_read, reloaded, reloaded-IsValid, copy, sessions-reloaded, sessions-appended,
}

module _ ⦃c : Constants⦄ where
  -- What reading the sessions of the list does to the loader.
  pub record Reads (codec : SnapshotCodec) (l l' : Loader) (ss : List ClientSession) : Type 0 where
    pub valid : IsValid l'.table
    pub appended : all_saved l'.table.sessions ≡ all_saved l.table.sessions ++ all_read codec ss
    pub same_in_snapshot : l'.in_snapshot ≡ l.in_snapshot
    pub same_app_version : l'.app_version ≡ l.app_version

  -- One session that the decoder reads, handed to the loader.
  session_read :
      (codec : SnapshotCodec) (s : ClientSession) (ss : List ClientSession)
      (rest : List SnapshotMessage) (l : Loader) (v : IsValid l.table)
      (b : AllBelow s.id l.table.sessions)
      → refuses codec (s ∷ ss) ≡ false
      → (replay codec (saved_session (saved s) ∷ rest) l
          ≡ replay codec rest (record l { table = reloaded codec s l.table v b }))
        × (refuses codec ss ≡ false)
  unfolding on_fragment reloaded saved
  session_read codec s ss rest l v b h = elim (decoder_cases codec s) [
    | inl e ↦ ground (arith, e, h)
    | inr (x, e) ↦ (ground (arith, e, h), ground (arith, e, h))
  ]

  replay_sessions :
      (codec : SnapshotCodec) (ss : List ClientSession) (rest : List SnapshotMessage) (l : Loader)
      → IsValid l.table
      → IsAscending ss
      → Precedes l.table.sessions ss
      → refuses codec ss ≡ false
      → (l' : Loader) × (replay codec (map (λ s. saved_session (saved s)) ss ++ rest) l
          ≡ replay codec rest l')
        × Reads codec l l' ss
  unfolding on_fragment reloaded saved copy
  replay_sessions codec [] rest l v a p h = (
    l,
    refl,
    record {
      valid = v;
      appended = sym (append-nil (all_saved l.table.sessions));
      same_in_snapshot = refl;
      same_app_version = refl;
    },
  )
  replay_sessions codec (s ∷ ss) rest l v a p h =
      let t = l.table in
      let l1 : Loader = record l { table = reloaded codec s t v p.0 } in
      let prec : Precedes (reloaded codec s t v p.0).sessions ss =
        rw (sessions-reloaded codec s t v p.0)
          (Precedes-append t.sessions ss (copy codec s t v p.0) p.1 a.0) in
      let (read, ok) =
        session_read codec s ss (map (λ x. saved_session (saved x)) ss ++ rest) l v p.0 h in
      let (l2, e, r) =
        replay_sessions codec ss rest l1 (reloaded-IsValid codec s t v p.0) a.1 prec ok in
      (
        l2,
        read ∙ e,
        record {
          valid = r.valid;
          appended = r.appended ∙ sessions-appended codec s t v p.0 ss;
          same_in_snapshot = r.same_in_snapshot;
          same_app_version = r.same_app_version;
        },
      )

  -- A snapshot of a sorted vector, read into an empty table, gives a well-formed table of sessions
  -- with the same saved fields but the principal in the same order, and the application's version.
  pub replay_snapshot :
      (codec : SnapshotCodec) (log_position leadership_term_id app_version uninitialised : ℤ)
      (noise : ℕ → Bool) (ss : List ClientSession)
      → IsAscending ss
      → refuses codec ss ≡ false
      → (l : Loader) × (replay codec
            (snapshot_messages log_position leadership_term_id app_version ss)
            (new_loader uninitialised (empty_table noise))
          ≡ returns tt l)
        × (l.is_done ≡ true)
        × (l.app_version ≡ app_version)
        × IsValid l.table
        × (all_saved l.table.sessions ≡ all_read codec ss)
  unfolding on_fragment new_loader empty_table
  replay_snapshot codec log_position leadership_term_id app_version uninitialised noise ss a h =
      let l0 : Loader = record {
        in_snapshot = true;
        is_done = false;
        app_version = app_version;
        table = empty_table noise;
      } in
      let (l1, e, r) =
        replay_sessions codec ss (edge log_position leadership_term_id app_version mark_end ∷ []) l0
          (empty_table-IsValid noise) a (Precedes-nil ss) h in
      (
        record l1 { is_done = true },
        ground (arith, e, r.same_in_snapshot),
        refl,
        r.same_app_version,
        r.valid,
        r.appended,
      )

  -- A decoder that throws at one of the sessions ends the reading with that exception.
  sessions_refused :
      (codec : SnapshotCodec) (ss : List ClientSession) (rest : List SnapshotMessage) (l : Loader)
      → refuses codec ss ≡ true
      → (l' : Loader) × (replay codec (map (λ s. saved_session (saved s)) ss ++ rest) l
          ≡ throws buffer_too_short l')
  unfolding on_fragment saved
  sessions_refused codec [] rest l h = ground arith
  sessions_refused codec (s ∷ ss) rest l h = elim (decoder_cases codec s) [
    | inl e ↦ (l, ground (arith, e))
    | inr (x, e) ↦
        let k = record l {
          table = add_session c.null_value s.id s.response_stream_id s.response_channel x l.table;
        } in
        let (l', f) = sessions_refused codec ss rest k (ground (arith, e, h)) in
        (l', ground (arith, e, f))
  ]

  -- A snapshot with such a session is not read: its reading throws.
  pub snapshot_refused :
      (codec : SnapshotCodec) (log_position leadership_term_id app_version uninitialised : ℤ)
      (noise : ℕ → Bool) (ss : List ClientSession)
      → refuses codec ss ≡ true
      → (l : Loader) × (replay codec
            (snapshot_messages log_position leadership_term_id app_version ss)
            (new_loader uninitialised (empty_table noise))
          ≡ throws buffer_too_short l)
  unfolding on_fragment new_loader empty_table
  snapshot_refused codec log_position leadership_term_id app_version uninitialised noise ss h =
      let l0 : Loader = record {
        in_snapshot = true;
        is_done = false;
        app_version = app_version;
        table = empty_table noise;
      } in
      let (l1, e) =
        sessions_refused codec ss (edge log_position leadership_term_id app_version mark_end ∷ [])
          l0 h in
      (l1, ground (arith, e))
