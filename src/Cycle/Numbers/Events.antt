-- ===== src/Cycle/Numbers/Events.antt =====
-- The events of the log send no acknowledgement (src/service/ClusteredServiceAgent.cpp), and the
-- numbers of the acknowledgements through any number of duty cycles.
use aeron_cluster_cpp.Prelude.{ℕ, List, ℤ, pos, ◌==ℤ◌, Text, ◌+◌, ◌-ℤ◌}
use aeron_cluster_cpp.Prelude.Outcome.{M, pure, throw, clashing_session, unknown_session, ◌>>=◌}
use aeron_cluster_cpp.Prelude.Keeps.{Keeps, Keeps-bind, Keeps-if, Keeps-choice, Keeps-option}
use aeron_cluster_cpp.Aeron.{Constants}
use aeron_cluster_cpp.Sessions.{get_client_session, remove_session, disconnect}
use aeron_cluster_cpp.Agent.State.{
  Agent, Callback, on_session_open, on_session_close, on_session_message, on_timer_event,
  on_new_leadership_term_event,
}
use aeron_cluster_cpp.Agent.Driver.{Driver}
use aeron_cluster_cpp.Agent.Service.{read_session, notify}
use aeron_cluster_cpp.Agent.Events.{
  ClusterAction, suspend, resume, snapshot, ChangeType, join, quit, at_log, terminate,
  session_message, timer_event, make_session, session_open, session_close,
  new_leadership_term_event, should_snapshot, take_snapshot, execute_action, service_action,
  membership_change,
}
use aeron_cluster_cpp.LogAdapter.{
  LogCodec, Framing, LogMessage, session_header, timer, open_event, close_event, action_request,
  term_event, membership_event, unknown, dispatch, zeroes,
}
use aeron_cluster_cpp.Cycle.{Round, work_all}
use aeron_cluster_cpp.Cycle.Stable.{Holds}
use aeron_cluster_cpp.Cycle.Rounds.{work_all-Keeps}
use aeron_cluster_cpp.Cycle.Numbers.{Numbered}
use aeron_cluster_cpp.Cycle.Numbers.Requests.{Numbered-IsStable, read_session-Keeps}

module _ ⦃c : Constants⦄ (first : ℤ) where
  told : Callback → M Agent (Unit {0})
  told call = notify call >>= λ _. pure tt

  told-Keeps : (call : Callback) → Keeps (Holds (Numbered first)) (told call)
  unfolding told
  told-Keeps call =
      Keeps-bind (Holds (Numbered first)) (notify call) _
        ((Numbered-IsStable first).notify_keeps call) (λ x b k. k)

  session_message-Keeps :
      (position id timestamp : ℤ) (buffer : Text) (offset len : ℤ)
      → Keeps (Holds (Numbered first)) (session_message position id timestamp buffer offset len)
  unfolding session_message at_log told
  session_message-Keeps position id timestamp buffer offset len a h =
      Keeps-option (Holds (Numbered first)) (get_client_session id a.table) (pure tt) _ (λ b k. k)
        (λ r.
          Keeps-bind (Holds (Numbered first)) (read_session r) _ (read_session-Keeps first r)
            (λ s. told-Keeps (on_session_message s timestamp buffer offset len)))
        (record a { log_position = position; cluster_time = timestamp }) h

  session_open-Keeps :
      (d : Driver) (position id timestamp stream_id : ℤ) (channel principal : Text)
      → Keeps
          (Holds (Numbered first))
          (session_open d position id timestamp stream_id channel principal)
  unfolding session_open at_log told make_session
  session_open-Keeps d position id timestamp stream_id channel principal a h =
      Keeps-option (Holds (Numbered first)) (get_client_session id a.table) _
        (λ r. throw clashing_session) (λ b k. told-Keeps (on_session_open _ timestamp) _ h)
        (λ r b k. k) (record a { log_position = position; cluster_time = timestamp }) h

  session_close-Keeps :
      (position id timestamp reason : ℤ)
      → Keeps (Holds (Numbered first)) (session_close position id timestamp reason)
  unfolding session_close at_log told
  session_close-Keeps position id timestamp reason a h =
      Keeps-option (Holds (Numbered first)) (remove_session id a.table).0 (throw unknown_session) _
        (λ b k. k) (λ s. told-Keeps (on_session_close (disconnect c.null_value s) timestamp reason))
        (record a {
          log_position = position;
          cluster_time = timestamp;
          table = (remove_session id a.table).1;
        })
        h

  service_action-Keeps :
      (d : Driver) (position timestamp : ℤ) (action : ClusterAction) (flags : ℕ)
      → Keeps (Holds (Numbered first)) (service_action d position timestamp action flags)
  unfolding service_action at_log execute_action take_snapshot
  service_action-Keeps d position timestamp snapshot flags a h =
      Keeps-choice (Holds (Numbered first))
        (should_snapshot flags (record a { log_position = position; cluster_time = timestamp })) _ _
        h h
  service_action-Keeps d position timestamp suspend flags a h = h
  service_action-Keeps d position timestamp resume flags a h = h

  membership_change-Keeps :
      (position timestamp : ℤ) (change : ChangeType) (member_id : ℤ)
      → Keeps (Holds (Numbered first)) (membership_change position timestamp change member_id)
  unfolding membership_change at_log terminate
  membership_change-Keeps position timestamp quit member_id a h =
      Keeps-if (Holds (Numbered first)) (member_id ==ℤ a.member_id) (pure tt) (pure tt) (λ b k. k)
        (λ b k. k) (record a { log_position = position; cluster_time = timestamp }) h
  membership_change-Keeps position timestamp join member_id a h = h

  dispatch-Keeps :
      (codec : LogCodec) (d : Driver) (position : ℤ) (buffer : Text) (offset len : ℕ)
      (m : LogMessage)
      → Keeps (Holds (Numbered first)) (dispatch codec d position buffer offset len m)
  unfolding dispatch timer_event new_leadership_term_event at_log told
  dispatch-Keeps codec d position buffer offset len (session_header id timestamp) =
      session_message-Keeps position id timestamp buffer
        (pos (offset + codec.session_header_length)) (pos len -ℤ pos codec.session_header_length)
  dispatch-Keeps codec d position buffer offset len (timer id timestamp) =
      λ a. told-Keeps (on_timer_event id timestamp) _
  dispatch-Keeps codec d position buffer offset len
        (open_event term id timestamp stream channel principal) =
      session_open-Keeps d position id timestamp stream channel (zeroes principal)
  dispatch-Keeps codec d position buffer offset len (close_event term id timestamp reason) =
      session_close-Keeps position id timestamp reason
  dispatch-Keeps codec d position buffer offset len
        (action_request term log_position timestamp action) =
      service_action-Keeps d log_position timestamp action 0
  dispatch-Keeps codec d position buffer offset len
        (term_event term log_position timestamp base leader session version) =
      λ a.
        told-Keeps
          (on_new_leadership_term_event term log_position timestamp base leader session version) _
  dispatch-Keeps codec d position buffer offset len
        (membership_event log_position timestamp change id) =
      membership_change-Keeps log_position timestamp change id
  dispatch-Keeps codec d position buffer offset len unknown = λ a h. h

  -- The acknowledgements that the agent sends carry consecutive numbers, with no gap and no repeat,
  -- through any number of duty cycles, and the agent's number is the next one: this stays so whatever
  -- the driver answers, the consensus module instructs, the log holds and the application does, also
  -- where the proxy does not take a request and whichever of the cycles throw.
  pub work_all-Numbered :
      (codec : LogCodec) (framing : Framing) (rs : List Round) (a : Agent)
      → Holds (Numbered first) a
      → Holds (Numbered first) (work_all codec framing rs a)
  work_all-Numbered codec framing =
      work_all-Keeps codec framing (Numbered first) (Numbered-IsStable first) (dispatch-Keeps codec)
