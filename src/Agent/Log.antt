-- ===== src/Agent/Log.antt =====
-- How src/service/ClusteredServiceAgent.cpp joins the cluster's log and leaves it, with the state of
-- src/service/BoundedLogAdapter.{h,cpp}.
pub mod Contiguous
use mathlib.Core.List.{map}
use aeron_cluster_cpp.Prelude.{
  ℕ, if◌then◌else◌, Bool, true, false, not, ◌&&◌, ◌||◌, none, some, ℤ, leb_ℤ, max_ℤ, ◌==ℤ◌, Text,
}
use aeron_cluster_cpp.Prelude.Outcome.{
  M, Outcome, returns, throws, log_not_contiguous, event_not_contiguous, undefined, invalid_role,
  pure, throw, ◌>>=◌, ◌>>◌, get, modify,
}
use aeron_cluster_cpp.Aeron.{Constants}
use aeron_cluster_cpp.Sessions.{ClientSession, reset_closing}
use aeron_cluster_cpp.Sessions.Connect.{connect}
use aeron_cluster_cpp.Agent.State.{
  Agent, BoundedLogAdapter, ActiveLogEvent, Role, follower, candidate, leader,
}
use aeron_cluster_cpp.Agent.Driver.{Driver}
use aeron_cluster_cpp.Agent.Service.{ack, same_role, set_role}

-- `BoundedLogAdapter::isDone`.
unfoldable pub is_done : Driver → BoundedLogAdapter → Bool
is_done d l = elim l.image [
  | none ↦ true
  | some image ↦
      leb_ℤ l.max_log_position (d.image_position image)
      || (d.image_end_of_stream image || d.image_closed image)
]

-- `onJoinLog`.
unfoldable pub join_log : ℤ → ℤ → ℤ → ℤ → ℤ → Bool → Role → Text → ℤ → Agent → Agent
join_log log_position max_log_position member_id session_id stream_id is_startup role channel
      null_value a =
    record a {
      log_adapter = record (a.log_adapter) { image = none; max_log_position = max_log_position };
      active_log_event = some (record {
        log_position = log_position;
        max_log_position = max_log_position;
        member_id = member_id;
        session_id = session_id;
        stream_id = stream_id;
        is_startup = is_startup;
        role = role;
        channel = channel;
        log_subscription_id = null_value;
        subscription = none;
        image = none;
      });
    }

-- `onServiceTerminationPosition` and `onRequestServiceAck`.
unfoldable pub service_termination_position : ℤ → Agent → Agent
service_termination_position log_position a = record a { termination_position = log_position }

unfoldable pub request_service_ack : ℤ → Agent → Agent
request_service_ack log_position a = record a { requested_ack_position = log_position }

module _ ⦃c : Constants⦄ where
  -- The three stages of `joinActiveLog`: each looks for what the event does not have yet.
  unfoldable pub seek_subscription_id : Driver → ActiveLogEvent → ActiveLogEvent
  seek_subscription_id d e =
      if e.log_subscription_id ==ℤ c.null_value
      then record e {
        log_subscription_id = d.add_subscription (d.channel_with_alias e.channel) e.stream_id;
      }
      else e

  unfoldable pub seek_subscription : Driver → ActiveLogEvent → ActiveLogEvent
  seek_subscription d e = elim e.subscription [
    | some _ ↦ e
    | none ↦ record e { subscription = d.find_subscription e.log_subscription_id }
  ]

  unfoldable pub seek_image : Driver → ℕ → ActiveLogEvent → ActiveLogEvent
  seek_image d subscription e = elim e.image [
    | some _ ↦ e
    | none ↦ record e { image = d.image_by_session_id subscription e.session_id }
  ]

  -- On the leader: the sessions are connected, unless at startup, and may be closed again.
  unfoldable pub rejoin_session : Driver → Bool → ClientSession → ClientSession
  unfolding connect reset_closing
  rejoin_session d connects s = reset_closing (if connects then connect d.publications s else s)

  unfoldable pub rejoin_sessions : Driver → ActiveLogEvent → Agent → Agent
  unfolding rejoin_session same_role
  rejoin_sessions d e a =
      let connects = a.ctx.is_responding_service && not e.is_startup in
      if same_role leader e.role
      then record a {
        table = record (a.table) { sessions = map (rejoin_session d connects) a.table.sessions };
      }
      else a

  unfoldable pub keep_event : ActiveLogEvent → Agent → Agent
  keep_event e a = record a { active_log_event = some e }

  -- The image is there: the positions must agree, and the agent takes the image.
  unfoldable pub take_image : Driver → ActiveLogEvent → ℕ → M Agent Bool
  unfolding ack rejoin_sessions set_role keep_event
  take_image d e image = do
    modify (keep_event e)
    a ← get
    let joined : M Agent Bool = do
      modify λ b. record b {
        log_adapter = record (b.log_adapter) {
          image = some image;
          max_log_position = e.max_log_position;
        };
      }
      modify (keep_event (record e { subscription = none }))
      _ ← ack c.null_value
      modify λ b. record b { member_id = e.member_id }
      modify (rejoin_sessions d e)
      set_role e.role
      pure true
    if not (d.image_join_position image ==ℤ a.log_position)
        then throw log_not_contiguous
        else (if not (e.log_position ==ℤ a.log_position)
            then throw event_not_contiguous
            else joined)

  -- `joinActiveLog`, of the event that the agent holds.
  unfoldable pub join_active_log : Driver → ActiveLogEvent → M Agent Bool
  unfolding seek_subscription_id seek_subscription seek_image take_image keep_event
  join_active_log d e a =
      let e1 : ActiveLogEvent = seek_subscription_id d e in
      let e2 : ActiveLogEvent = seek_subscription d e1 in
      let found : Outcome Agent Bool = elim e2.subscription [
        | none ↦ returns false (keep_event e2 a)
        | some subscription ↦
            let e3 : ActiveLogEvent = seek_image d subscription e2 in
            elim e3.image [
              | none ↦ returns false (keep_event e3 a)
              | some image ↦ take_image d e3 image a
            ]
      ] in
      if e1.log_subscription_id ==ℤ c.null_value then returns false (keep_event e1 a) else found

  -- `closeLog`; without an image it reads a null pointer.
  unfoldable pub close_log : Driver → M Agent (Unit {0})
  unfolding set_role
  close_log d a = elim a.log_adapter.image [
    | none ↦ throws undefined a
    | some image ↦ set_role follower (record a {
      log_position = max_ℤ (d.image_position image) a.log_position;
      log_adapter = record (a.log_adapter) { image = none };
    })
  ]

-- `Cluster::getRole` of src/service/Cluster.h.
unfoldable pub get_role : {S : Type 0} → ℤ → M S Role
get_role code =
    if code ==ℤ ℤ.pos 0
    then pure follower
    else if code ==ℤ ℤ.pos 1
    then pure candidate
    else if code ==ℤ ℤ.pos 2
    then pure leader
    else throw invalid_role
