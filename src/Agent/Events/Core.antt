-- ===== src/Agent/Events/Core.antt =====
-- What each event of the log does to the agent (src/service/ClusteredServiceAgent.cpp), whatever the
-- application does in the callback and however that ends.
use aeron_cluster_cpp.Prelude.{ℕ, ◌≡◌, refl, none, some, ℤ, arith, Text}
use aeron_cluster_cpp.Prelude.Outcome.{
  M, returns, throws, clashing_session, unknown_session, ◌>>=◌, pure, throw, final,
}
use aeron_cluster_cpp.Aeron.{Constants}
use aeron_cluster_cpp.Sessions.{get_client_session, add_session_ptr, remove_session, disconnect}
use aeron_cluster_cpp.Agent.State.{
  Agent, Callback, on_session_open, on_session_close, on_session_message, on_timer_event,
  on_new_leadership_term_event,
}
use aeron_cluster_cpp.Agent.Driver.{Driver}
use aeron_cluster_cpp.Agent.Service.{read_session, notify}
use aeron_cluster_cpp.Agent.Service.Core.{
  core, KeepsCore, KeepsCore-bind, KeepsCore-option, read_session-KeepsCore, notify-KeepsCore,
}
use aeron_cluster_cpp.Agent.Events.{
  ChangeType, session_message, timer_event, make_session, session_open, session_close,
  new_leadership_term_event, membership_change, quit, join,
}

-- The agent at a position and a time of the log.
abbrev pub at : ℤ → ℤ → Agent → Agent
at log_position timestamp a = record a { log_position = log_position; cluster_time = timestamp }

module _ ⦃c : Constants⦄ where
  -- A callback that returns nothing.
  abbrev announce : Callback → M Agent (Unit {0})
  announce call = notify call >>= λ _. pure tt

  announce-KeepsCore : (call : Callback) → KeepsCore (announce call)
  announce-KeepsCore call = KeepsCore-bind (notify call) _ (notify-KeepsCore call) (λ _ a. refl)

  pub core-session_message :
      (log_position id timestamp : ℤ) (buffer : Text) (offset length : ℤ) (a : Agent)
      → core (final (session_message log_position id timestamp buffer offset length a))
        ≡ core (at log_position timestamp a)
  unfolding session_message
  core-session_message log_position id timestamp buffer offset length a =
      KeepsCore-option (get_client_session id a.table) (pure tt)
        (λ r.
          read_session r >>= λ s. announce (on_session_message s timestamp buffer offset length))
        (λ b. refl)
        (λ r.
          KeepsCore-bind (read_session r) _ (read_session-KeepsCore r)
            (λ s. announce-KeepsCore (on_session_message s timestamp buffer offset length)))
        (at log_position timestamp a)

  pub core-timer_event :
      (log_position correlation_id timestamp : ℤ) (a : Agent)
      → core (final (timer_event log_position correlation_id timestamp a))
        ≡ core (at log_position timestamp a)
  unfolding timer_event
  core-timer_event log_position correlation_id timestamp a = ground (
    arith,
    notify-KeepsCore (on_timer_event correlation_id timestamp) (at log_position timestamp a),
  )

  pub session_open_clash :
      (d : Driver) (log_position id timestamp stream_id : ℤ) (channel principal : Text) (a : Agent)
      {r : ℕ}
      → get_client_session id a.table ≡ some r
      → session_open d log_position id timestamp stream_id channel principal a
        ≡ throws clashing_session (at log_position timestamp a)
  unfolding session_open
  session_open_clash d log_position id timestamp stream_id channel principal a e = ground arith

  pub core-session_open :
      (d : Driver) (log_position id timestamp stream_id : ℤ) (channel principal : Text) (a : Agent)
      → get_client_session id a.table ≡ none
      → let (s, b) = make_session d id stream_id channel principal (at log_position timestamp a) in
        core (final (session_open d log_position id timestamp stream_id channel principal a))
        ≡ core (record b { table = add_session_ptr s b.table })
  unfolding session_open
  core-session_open d log_position id timestamp stream_id channel principal a e =
      let made = make_session d id stream_id channel principal (at log_position timestamp a) in
      let b = made.1 in
      ground (
        arith,
        notify-KeepsCore (on_session_open made.0 timestamp)
            (record b { table = add_session_ptr made.0 b.table }),
      )

  pub core-session_close :
      (log_position id timestamp reason : ℤ) (a : Agent)
      → core (final (session_close log_position id timestamp reason a))
        ≡ core (record (at log_position timestamp a) { table = (remove_session id a.table).1 })
  unfolding session_close
  core-session_close log_position id timestamp reason a =
      KeepsCore-option (remove_session id a.table).0 (throw unknown_session)
        (λ s. announce (on_session_close (disconnect c.null_value s) timestamp reason)) (λ b. refl)
        (λ s. announce-KeepsCore (on_session_close (disconnect c.null_value s) timestamp reason))
        (record (at log_position timestamp a) { table = (remove_session id a.table).1 })

  pub core-new_leadership_term_event :
      (term_id log_position timestamp term_base leader_id session_id version : ℤ) (a : Agent)
      → core (
          final (
            new_leadership_term_event term_id log_position timestamp term_base leader_id session_id
              version a))
        ≡ core (record (at log_position timestamp a) { leadership_term_id = term_id })
  unfolding new_leadership_term_event
  core-new_leadership_term_event term_id log_position timestamp term_base leader_id session_id
        version a =
      ground (
        arith,
        notify-KeepsCore
            (on_new_leadership_term_event term_id log_position timestamp term_base leader_id
              session_id version)
            (record (at log_position timestamp a) { leadership_term_id = term_id }),
      )

  -- A membership change moves the position, and nothing else.
  pub membership_change_lem :
      (log_position timestamp : ℤ) (change : ChangeType) (member_id : ℤ) (a : Agent)
      → membership_change log_position timestamp change member_id a
        ≡ returns tt (at log_position timestamp a)
  unfolding membership_change
  membership_change_lem log_position timestamp join member_id a = refl
  membership_change_lem log_position timestamp quit member_id a = ground arith
