-- ===== src/LogAdapter/Refine.antt =====
-- The agent implements the replica of LogAdapter/Replica.antt: message by message
-- (src/service/BoundedLogAdapter.cpp, `onMessage`).
use mathlib.Core.Path.{fun_ext}
use aeron_cluster_cpp.Prelude.{
  ℕ, suc, ◌≡◌, refl, sym, ap, ◌∙◌, Option, none, some, ℤ, Text, arith, inl, inr, Option-cases,
}
use aeron_cluster_cpp.Prelude.Outcome.{final}
use aeron_cluster_cpp.Aeron.{Constants}
use aeron_cluster_cpp.Sessions.{
  get_client_session, remove_session, add_session_ptr, SessionTable, ClientSession,
}
use aeron_cluster_cpp.Sessions.Laws.{
  IsValid, view, add_session_ptr-IsValid, view-add_session_ptr, remove_session-IsValid,
  view-remove_session,
}
use aeron_cluster_cpp.Snapshot.Format.{SavedSession}
use aeron_cluster_cpp.Snapshot.Taker.{saved}
use aeron_cluster_cpp.Agent.State.{Agent}
use aeron_cluster_cpp.Agent.Driver.{Driver}
use aeron_cluster_cpp.Agent.Service.Core.{core}
use aeron_cluster_cpp.Agent.Events.{
  ClusterAction, snapshot, suspend, resume, make_session, session_open, session_close,
  service_action,
}
use aeron_cluster_cpp.Agent.Events.Core.{
  at, core-session_message, core-timer_event, session_open_clash, core-session_open,
  core-session_close, core-new_leadership_term_event, membership_change_lem,
}
use aeron_cluster_cpp.LogAdapter.{
  LogMessage, LogCodec, session_header, timer, open_event, close_event, action_request, term_event,
  membership_event, unknown, zeroes, dispatch,
}
use aeron_cluster_cpp.LogAdapter.Replica.{
  Replica, directory, replica, opened, closed, apply, replica_of_core, IsValid_of_core, present,
  missing, made, made-id, made-ref, made-saved,
}

-- What handling a message leaves is well formed, and is the replica that is expected.
pub record Yields (r : Replica) (a : Agent) : Type 0 where
  pub valid : IsValid a.table
  pub refines : replica a ≡ r

core-Yields : (r : Replica) (a b : Agent) → core a ≡ core b → Yields r b → Yields r a
core-Yields r a b e y = record {
  valid = IsValid_of_core a b e y.valid;
  refines = replica_of_core a b e ∙ y.refines;
}

-- The table after a new session, as the abstract view has it.
directory-added :
    (s : ClientSession) (t : SessionTable) (v : IsValid t) (at_next : s.ref ≡ t.next_ref)
    → get_client_session s.id t ≡ none
    → directory (add_session_ptr s (record t { next_ref = suc t.next_ref }))
      ≡ opened (saved s) (directory t)
unfolding saved
directory-added s t v at_next absent =
    fun_ext
      λ j. ground (arith, view-add_session_ptr s t v at_next absent j, missing t s.id v absent)

directory-removed :
    (id : ℤ) (t : SessionTable)
    → IsValid t
    → directory (remove_session id t).1 ≡ closed id (directory t)
directory-removed id t v = fun_ext λ j. ground (arith, view-remove_session id t v j)

opened_present :
    (s : SavedSession) (t : SessionTable) (x : ClientSession)
    → view t s.cluster_session_id ≡ some x
    → opened s (directory t) ≡ directory t
opened_present s t x e = fun_ext λ j. ground arith

-- A replica at a position, with other sessions.
abbrev pub moved : ℤ → ℤ → ℤ → (ℤ → Option SavedSession) → Replica
moved position timestamp term_id m = record {
  log_position = position;
  cluster_time = timestamp;
  leadership_term_id = term_id;
  sessions = m;
}

module _ ⦃c : Constants⦄ where
  module _ (d : Driver) (position id timestamp stream_id : ℤ) (channel principal : Text) (a : Agent)
      (v : IsValid a.table) where
    abbrev new_saved : SavedSession
    new_saved = record {
      cluster_session_id = id;
      response_stream_id = stream_id;
      response_channel = channel;
      encoded_principal = principal;
    }

    abbrev session : ClientSession
    session = (made d id stream_id channel principal (at position timestamp a)).0

    clash_refines :
        (r : ℕ)
        → get_client_session id a.table ≡ some r
        → Yields
            (moved position timestamp a.leadership_term_id (opened new_saved (directory a.table)))
            (final (session_open d position id timestamp stream_id channel principal a))
    clash_refines r e =
        let (x, f) = present a.table id v e in
        rw (session_open_clash d position id timestamp stream_id channel principal a e) (record {
          valid = v;
          refines =
              ap (moved position timestamp a.leadership_term_id)
                (sym (opened_present new_saved a.table x f));
        })

    fresh_refines :
        get_client_session id a.table ≡ none
        → Yields
            (moved position timestamp a.leadership_term_id (opened new_saved (directory a.table)))
            (final (session_open d position id timestamp stream_id channel principal a))
    unfolding make_session
    fresh_refines e =
        let at_next = made-ref d id stream_id channel principal (at position timestamp a) in
        let absent : get_client_session session.id a.table ≡ none =
          rw (made-id d id stream_id channel principal (at position timestamp a)) e in
        core-Yields _ _
          (record (at position timestamp a) {
            table = add_session_ptr session (record (a.table) { next_ref = suc a.table.next_ref });
          })
          (core-session_open d position id timestamp stream_id channel principal a e)
          (record {
            valid = add_session_ptr-IsValid session a.table v at_next absent;
            refines = ap (moved position timestamp a.leadership_term_id) (
                directory-added session a.table v at_next absent
                ∙ ap (λ x. opened x (directory a.table))
                    (made-saved d id stream_id channel principal (at position timestamp a)));
          })

  open_refines :
      (d : Driver) (position term_id id timestamp stream_id : ℤ) (channel : Text) (principal : ℕ)
      (a : Agent)
      → IsValid a.table
      → Yields
          (apply position (open_event term_id id timestamp stream_id channel principal) (replica a))
          (final (session_open d position id timestamp stream_id channel (zeroes principal) a))
  unfolding apply
  open_refines d position term_id id timestamp stream_id channel principal a v =
      elim (Option-cases (get_client_session id a.table)) [
        | inl e ↦ fresh_refines d position id timestamp stream_id channel (zeroes principal) a v e
        | inr (r, e) ↦
            clash_refines d position id timestamp stream_id channel (zeroes principal) a v r e
      ]

  close_refines :
      (position term_id id timestamp reason : ℤ) (a : Agent)
      → IsValid a.table
      → Yields
          (apply position (close_event term_id id timestamp reason) (replica a))
          (final (session_close position id timestamp reason a))
  unfolding apply
  close_refines position term_id id timestamp reason a v =
      core-Yields _ _ (record (at position timestamp a) { table = (remove_session id a.table).1 })
        (core-session_close position id timestamp reason a)
        (record {
          valid = remove_session-IsValid id a.table v;
          refines =
              ap (moved position timestamp a.leadership_term_id) (directory-removed id a.table v);
        })

  action_refines :
      (d : Driver) (position term_id log_position timestamp : ℤ) (action : ClusterAction)
      (a : Agent)
      → IsValid a.table
      → Yields
          (apply position (action_request term_id log_position timestamp action) (replica a))
          (final (service_action d log_position timestamp action 0 a))
  unfolding apply service_action
  action_refines d position term_id log_position timestamp snapshot a v = record {
    valid = v;
    refines = refl;
  }
  action_refines d position term_id log_position timestamp suspend a v = record {
    valid = v;
    refines = refl;
  }
  action_refines d position term_id log_position timestamp resume a v = record {
    valid = v;
    refines = refl;
  }

  -- From a well-formed table, handling any message of the log makes of the replica what `apply` says and
  -- keeps the table well formed, whatever the application does in the callback and however it ends.
  pub dispatch-Yields :
      (codec : LogCodec) (d : Driver) (position : ℤ) (buffer : Text) (offset len : ℕ)
      (m : LogMessage) (a : Agent)
      → IsValid a.table
      → Yields
          (apply position m (replica a))
          (final (dispatch codec d position buffer offset len m a))
  unfolding dispatch apply
  dispatch-Yields codec d position buffer offset len (session_header id timestamp) a v =
      core-Yields _ _ (at position timestamp a)
        (core-session_message position id timestamp buffer _ _ a)
        (record { valid = v; refines = refl })
  dispatch-Yields codec d position buffer offset len (timer id timestamp) a v =
      core-Yields _ _ (at position timestamp a) (core-timer_event position id timestamp a)
        (record { valid = v; refines = refl })
  dispatch-Yields codec d position buffer offset len (open_event t id ts stream channel principal) a
        v =
      open_refines d position t id ts stream channel principal a v
  dispatch-Yields codec d position buffer offset len (close_event t id ts reason) a v =
      close_refines position t id ts reason a v
  dispatch-Yields codec d position buffer offset len (action_request t p ts action) a v =
      action_refines d position t p ts action a v
  dispatch-Yields codec d position buffer offset len (term_event t p ts base leader session version)
        a v =
      core-Yields _ _ (record (at p ts a) { leadership_term_id = t })
        (core-new_leadership_term_event t p ts base leader session version a)
        (record { valid = v; refines = refl })
  dispatch-Yields codec d position buffer offset len (membership_event p ts change id) a v =
      rw (membership_change_lem p ts change id a) (record { valid = v; refines = refl })
  dispatch-Yields codec d position buffer offset len unknown a v = record {
    valid = v;
    refines = refl;
  }
