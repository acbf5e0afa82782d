-- ===== src/Agent/Events.antt =====
-- The events of the cluster's log, as src/service/ClusteredServiceAgent.cpp handles them.
pub mod Core
use Prim.Native.Nat.{bit_and}
use mathlib.Core.List.{map}
use aeron_cluster_cpp.Prelude.{
  ℕ, ◌==◌, if◌then◌else◌, Bool, true, false, not, ◌&&◌, ◌||◌, List, [], ◌∷◌, Option, none, some, ℤ,
  ◌==ℤ◌, Text,
}
use aeron_cluster_cpp.Prelude.Outcome.{
  M, Outcome, returns, throws, clashing_session, unknown_session, undefined, pure, throw, ◌>>=◌,
  ◌>>◌, get, modify,
}
use aeron_cluster_cpp.Aeron.{Constants}
use aeron_cluster_cpp.Publication.{Publication}
use aeron_cluster_cpp.Sessions.{
  ClientSession, allocate, add_session_ptr, remove_session, get_client_session, disconnect, deref,
}
use aeron_cluster_cpp.Sessions.Connect.{connect}
use aeron_cluster_cpp.Agent.State.{
  Agent, Role, leader, Callback, on_session_open, on_session_close, on_session_message,
  on_timer_event, on_new_leadership_term_event, SnapshotState,
}
use aeron_cluster_cpp.Agent.Driver.{Driver}
use aeron_cluster_cpp.Agent.Service.{read_session, write_session, notify, same_role}

-- codecs::ClusterAction and codecs::ChangeType, as far as the code tells their values apart.
pub data ClusterAction : Type 0 where
  suspend resume snapshot : ClusterAction

pub data ChangeType : Type 0 where
  join quit : ChangeType

-- `m_logPosition = logPosition; m_clusterTime = timestamp;`
unfoldable pub at_log : ℤ → ℤ → M Agent (Unit {0})
at_log log_position timestamp =
    modify λ a. record a { log_position = log_position; cluster_time = timestamp }

-- `terminate` does nothing yet.
unfoldable pub terminate : Bool → M Agent (Unit {0})
terminate expected = pure tt

module _ ⦃c : Constants⦄ where
  -- `onSessionMessage`: a message of an unknown session is passed over.
  unfoldable pub session_message : ℤ → ℤ → ℤ → Text → ℤ → ℤ → M Agent (Unit {0})
  unfolding at_log read_session get_client_session
  session_message log_position id timestamp buffer offset length = do
    at_log log_position timestamp
    a ← get
    elim (get_client_session id a.table) [
      | none ↦ pure tt
      | some r ↦ do
        s ← read_session r
        _ ← notify (on_session_message s timestamp buffer offset length)
        pure tt
    ]

  unfoldable pub timer_event : ℤ → ℤ → ℤ → M Agent (Unit {0})
  unfolding at_log
  timer_event log_position correlation_id timestamp = do
    at_log log_position timestamp
    _ ← notify (on_timer_event correlation_id timestamp)
    pure tt

  -- A new session object, connected on the leader of a responding service.
  unfoldable pub make_session : Driver → ℤ → ℤ → Text → Text → Agent → ClientSession × Agent
  unfolding allocate connect same_role
  make_session d id stream_id channel principal a =
      let (s, t) = allocate c.null_value id stream_id channel principal a.table in
      (
        if same_role leader a.role && a.ctx.is_responding_service
            then connect d.publications s
            else s,
        record a { table = t },
      )

  -- `onSessionOpen`.
  unfoldable pub session_open : Driver → ℤ → ℤ → ℤ → ℤ → Text → Text → M Agent (Unit {0})
  unfolding at_log make_session add_session_ptr get_client_session
  session_open d log_position id timestamp stream_id channel principal = do
    at_log log_position timestamp
    a ← get
    elim (get_client_session id a.table) [
      | some _ ↦ throw clashing_session
      | none ↦
          let (s, b) = make_session d id stream_id channel principal a in
          do
            modify λ _. record b { table = add_session_ptr s b.table }
            _ ← notify (on_session_open s timestamp)
            pure tt
    ]

  -- `onSessionClose`: the session is told to the application after it left the table.
  unfoldable pub session_close : ℤ → ℤ → ℤ → ℤ → M Agent (Unit {0})
  unfolding at_log remove_session disconnect
  session_close log_position id timestamp close_reason = do
    at_log log_position timestamp
    a ← get
    let removed = remove_session id a.table
    modify λ b. record b { table = removed.1 }
    elim removed.0 [
      | none ↦ throw unknown_session
      | some s ↦ do
        _ ← notify (on_session_close (disconnect c.null_value s) timestamp close_reason)
        pure tt
    ]

  -- `onNewLeadershipTermEvent`.
  unfoldable pub new_leadership_term_event : ℤ → ℤ → ℤ → ℤ → ℤ → ℤ → ℤ → M Agent (Unit {0})
  new_leadership_term_event term_id log_position timestamp term_base leader_id session_id version =
      do
        modify λ a. record a {
          leadership_term_id = term_id;
          log_position = log_position;
          cluster_time = timestamp;
        }
        _ ← notify (
            on_new_leadership_term_event term_id log_position timestamp term_base leader_id
              session_id version)
        pure tt

  -- `shouldSnapshot`.
  unfoldable pub should_snapshot : ℕ → Agent → Bool
  should_snapshot flags a = flags == 0 || not (bit_and flags a.standby_snapshot_flags == 0)

  -- `onTakeSnapshot`, with the constructor of `SnapshotState`; a snapshot in progress is dropped.
  unfoldable pub take_snapshot : Driver → M Agent (Unit {0})
  take_snapshot d = do
    a ← get
    let id = d.add_exclusive_publication a.ctx.snapshot_channel a.ctx.snapshot_stream_id
    modify λ b. record b {
      current_snapshot = some (record {
        publication_id = id;
        publication = none;
        output = record { answers = λ _. c.not_connected; calls = 0; sent = [] };
        recording_counter_id = c.null_counter_id;
        recording_id = c.null_value;
        snapshot_complete = false;
      });
    }

  -- `executeAction`.
  unfoldable pub execute_action : Driver → ClusterAction → ℕ → M Agent (Unit {0})
  unfolding take_snapshot should_snapshot
  execute_action d snapshot flags a =
      let taken = take_snapshot d a in if should_snapshot flags a then taken else returns tt a
  execute_action d suspend flags a = returns tt a
  execute_action d resume flags a = returns tt a

  -- `onServiceAction`.
  unfoldable pub service_action : Driver → ℤ → ℤ → ClusterAction → ℕ → M Agent (Unit {0})
  unfolding at_log execute_action
  service_action d log_position timestamp action flags = do
    at_log log_position timestamp
    execute_action d action flags

  -- `onMembershipChange`.
  unfoldable pub membership_change : ℤ → ℤ → ChangeType → ℤ → M Agent (Unit {0})
  unfolding at_log terminate
  membership_change log_position timestamp change member_id = do
    at_log log_position timestamp
    a ← get
    elim change [
      | quit ↦ if member_id ==ℤ a.member_id then terminate true else pure tt
      | join ↦ pure tt
    ]

  -- `disconnectEgress`, over the entries of the map.
  unfoldable pub disconnect_entries : List (ℤ × ℕ) → M Agent (Unit {0})
  unfolding disconnect write_session
  disconnect_entries [] a = returns tt a
  disconnect_entries ((id, r) ∷ entries) a = elim (deref r a.table.sessions) [
    | none ↦ throws undefined a
    | some s ↦ disconnect_entries entries (write_session r (disconnect c.null_value) a)
  ]

  unfoldable pub disconnect_egress : M Agent (Unit {0})
  unfolding disconnect_entries
  disconnect_egress a = disconnect_entries a.table.by_id a
