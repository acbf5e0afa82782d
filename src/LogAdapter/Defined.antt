-- ===== src/LogAdapter/Defined.antt =====
-- Handling the messages of the log reads through no null or dangling pointer
-- (src/service/BoundedLogAdapter.cpp and the handlers in src/service/ClusteredServiceAgent.cpp).
use aeron_cluster_cpp.Prelude.{
  ℕ, suc, ◌+◌, ◌≡◌, refl, inl, inr, none, some, ℤ, pos, ◌-ℤ◌, Text, arith, Option-cases,
}
use aeron_cluster_cpp.Prelude.Outcome.{M, returns, is_undefined, pure, ◌>>=◌}
use aeron_cluster_cpp.Aeron.{Constants}
use aeron_cluster_cpp.Sessions.{
  ClientSession, SessionTable, get_client_session, deref, remove_session, add_session_ptr,
  disconnect,
}
use aeron_cluster_cpp.Sessions.Laws.{
  IsValid, get_client_session_live, add_session_ptr-IsValid, remove_session-IsValid,
}
use aeron_cluster_cpp.Agent.State.{
  Agent, Callback, on_session_open, on_session_close, on_session_message, on_timer_event,
  on_new_leadership_term_event,
}
use aeron_cluster_cpp.Agent.Driver.{Driver}
use aeron_cluster_cpp.Agent.Service.{read_session, notify}
use aeron_cluster_cpp.Agent.Service.Live.{
  IsLive, IsDefined, IsDefined-bind, IsDefined-choice, notify-IsDefined,
}
use aeron_cluster_cpp.Agent.Events.{
  ClusterAction, suspend, resume, snapshot, at_log, session_message, timer_event, make_session,
  session_open, session_close, new_leadership_term_event, should_snapshot, take_snapshot,
  execute_action, service_action,
}
use aeron_cluster_cpp.Agent.Events.Core.{at, session_open_clash, membership_change_lem}
use aeron_cluster_cpp.LogAdapter.{
  LogCodec, LogMessage, session_header, timer, open_event, close_event, action_request, term_event,
  membership_event, unknown, dispatch, zeroes,
}
use aeron_cluster_cpp.LogAdapter.Replica.{made, made-id, made-ref}

-- The same agent but for what a handler sets.
with_table :
    (t : SessionTable) (a b : Agent)
    → IsLive a
    → IsValid t
    → b.table ≡ t
    → b.proxy ≡ a.proxy
    → b.ctx ≡ a.ctx
    → IsLive b
with_table t a b l v e f g = record {
  valid = rw e v;
  proxy = l.proxy;
  has_proxy = rw f l.has_proxy;
  decent = rw g l.decent;
}

module _ ⦃c : Constants⦄ where
  told : Callback → M Agent (Unit {0})
  told call = notify call >>= λ _. pure tt

  told-IsDefined : (call : Callback) (a : Agent) → IsLive a → IsDefined (told call a)
  unfolding told
  told-IsDefined call a l =
      IsDefined-bind (notify call) (λ _. pure tt) a (notify-IsDefined call a l) (λ x b k. k)

  at-IsLive : (position timestamp : ℤ) (a : Agent) → IsLive a → IsLive (at position timestamp a)
  at-IsLive position timestamp a l =
      with_table a.table a (at position timestamp a) l l.valid refl refl refl

  message_unknown :
      (position id timestamp : ℤ) (buffer : Text) (offset len : ℤ) (a : Agent)
      → get_client_session id a.table ≡ none
      → session_message position id timestamp buffer offset len a
        ≡ returns tt (at position timestamp a)
  unfolding session_message at_log
  message_unknown position id timestamp buffer offset len a f = ground arith

  message_known :
      (position id timestamp : ℤ) (buffer : Text) (offset len : ℤ) (a : Agent) {r : ℕ}
      {s : ClientSession}
      → get_client_session id a.table ≡ some r
      → deref r a.table.sessions ≡ some s
      → session_message position id timestamp buffer offset len a
        ≡ told (on_session_message s timestamp buffer offset len) (at position timestamp a)
  unfolding session_message at_log read_session told
  message_known position id timestamp buffer offset len a f g = ground arith

  session_message-IsDefined :
      (position id timestamp : ℤ) (buffer : Text) (offset len : ℤ) (a : Agent)
      → IsLive a
      → IsDefined (session_message position id timestamp buffer offset len a)
  session_message-IsDefined position id timestamp buffer offset len a l =
      elim (Option-cases (get_client_session id a.table)) [
        | inl f ↦
            rw (message_unknown position id timestamp buffer offset len a f)
              (at-IsLive position timestamp a l)
        | inr (r, f) ↦
            let (s, live, same, seen) = get_client_session_live a.table id r l.valid f in
            rw (message_known position id timestamp buffer offset len a f live) (
              told-IsDefined (on_session_message s timestamp buffer offset len)
                (at position timestamp a) (at-IsLive position timestamp a l))
      ]

  -- The agent with a new session.
  opened_agent : Driver → ℤ → ℤ → ℤ → ℤ → Text → Text → Agent → Agent
  opened_agent d position id timestamp stream_id channel principal a =
      record (at position timestamp a) {
        table =
            add_session_ptr (made d id stream_id channel principal (at position timestamp a)).0
              (record (a.table) { next_ref = suc a.table.next_ref });
      }

  open_fresh :
      (d : Driver) (position id timestamp stream_id : ℤ) (channel principal : Text) (a : Agent)
      → get_client_session id a.table ≡ none
      → session_open d position id timestamp stream_id channel principal a
        ≡ told
            (on_session_open
              (made d id stream_id channel principal (at position timestamp a)).0
              timestamp)
            (opened_agent d position id timestamp stream_id channel principal a)
  unfolding session_open at_log told make_session opened_agent
  open_fresh d position id timestamp stream_id channel principal a f = ground arith

  session_open-IsDefined :
      (d : Driver) (position id timestamp stream_id : ℤ) (channel principal : Text) (a : Agent)
      → IsLive a
      → IsDefined (session_open d position id timestamp stream_id channel principal a)
  unfolding is_undefined opened_agent
  session_open-IsDefined d position id timestamp stream_id channel principal a l =
      elim (Option-cases (get_client_session id a.table)) [
        | inr (r, f) ↦
            rw (session_open_clash d position id timestamp stream_id channel principal a f)
              (at-IsLive position timestamp a l, refl)
        | inl f ↦
            let s : ClientSession =
              (made d id stream_id channel principal (at position timestamp a)).0 in
            let at_next = made-ref d id stream_id channel principal (at position timestamp a) in
            let absent : get_client_session s.id a.table ≡ none =
              rw (made-id d id stream_id channel principal (at position timestamp a)) f in
            let t : SessionTable =
              add_session_ptr s (record (a.table) { next_ref = suc a.table.next_ref }) in
            rw (open_fresh d position id timestamp stream_id channel principal a f) (
              told-IsDefined (on_session_open s timestamp)
                (opened_agent d position id timestamp stream_id channel principal a)
                (with_table t a (opened_agent d position id timestamp stream_id channel principal a)
                  l (add_session_ptr-IsValid s a.table l.valid at_next absent) refl refl refl))
      ]

  session_close-IsDefined :
      (position id timestamp reason : ℤ) (a : Agent)
      → IsLive a
      → IsDefined (session_close position id timestamp reason a)
  unfolding session_close at_log told is_undefined
  session_close-IsDefined position id timestamp reason a l =
      let b : Agent = record (at position timestamp a) { table = (remove_session id a.table).1 } in
      let k : IsLive b =
        with_table (remove_session id a.table).1 a b l (remove_session-IsValid id a.table l.valid)
          refl refl refl in
      elim (Option-cases (remove_session id a.table).0) [
        | inl f ↦ rw f (k, refl)
        | inr (s, f) ↦
            rw f
              (told-IsDefined (on_session_close (disconnect c.null_value s) timestamp reason) b k)
      ]

  service_action-IsDefined :
      (d : Driver) (position timestamp : ℤ) (action : ClusterAction) (flags : ℕ) (a : Agent)
      → IsLive a
      → IsDefined (service_action d position timestamp action flags a)
  unfolding service_action at_log execute_action take_snapshot
  service_action-IsDefined d position timestamp snapshot flags a l =
      IsDefined-choice (should_snapshot flags (at position timestamp a)) _
        (returns tt (at position timestamp a)) (with_table a.table a _ l l.valid refl refl refl)
        (at-IsLive position timestamp a l)
  service_action-IsDefined d position timestamp suspend flags a l = at-IsLive position timestamp a l
  service_action-IsDefined d position timestamp resume flags a l = at-IsLive position timestamp a l

  -- From a well-formed table, with a proxy and an application that does not itself cause undefined
  -- behaviour, handling any message of the log reads through no null or dangling pointer, also where
  -- it throws, and leaves the agent so that the next message finds the same: whatever the application
  -- calls in its callbacks.
  pub dispatch-IsDefined :
      (codec : LogCodec) (d : Driver) (position : ℤ) (buffer : Text) (offset len : ℕ)
      (m : LogMessage) (a : Agent)
      → IsLive a
      → IsDefined (dispatch codec d position buffer offset len m a)
  unfolding dispatch timer_event new_leadership_term_event at_log told
  dispatch-IsDefined codec d position buffer offset len (session_header id timestamp) a l =
      session_message-IsDefined position id timestamp buffer
        (pos (offset + codec.session_header_length)) (pos len -ℤ pos codec.session_header_length) a
        l
  dispatch-IsDefined codec d position buffer offset len (timer id timestamp) a l =
      told-IsDefined (on_timer_event id timestamp) (at position timestamp a)
        (at-IsLive position timestamp a l)
  dispatch-IsDefined codec d position buffer offset len
        (open_event term id ts stream channel principal) a l =
      session_open-IsDefined d position id ts stream channel (zeroes principal) a l
  dispatch-IsDefined codec d position buffer offset len (close_event term id ts reason) a l =
      session_close-IsDefined position id ts reason a l
  dispatch-IsDefined codec d position buffer offset len (action_request term p ts action) a l =
      service_action-IsDefined d p ts action 0 a l
  dispatch-IsDefined codec d position buffer offset len
        (term_event term p ts base leader session version) a l =
      told-IsDefined (on_new_leadership_term_event term p ts base leader session version)
        (record (at p ts a) { leadership_term_id = term })
        (with_table a.table a (record (at p ts a) { leadership_term_id = term }) l l.valid refl refl
          refl)
  dispatch-IsDefined codec d position buffer offset len (membership_event p ts change id) a l =
      rw (membership_change_lem p ts change id a) (at-IsLive p ts a l)
  dispatch-IsDefined codec d position buffer offset len unknown a l = l
