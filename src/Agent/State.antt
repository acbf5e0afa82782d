-- ===== src/Agent/State.antt =====
-- The object of src/service/ClusteredServiceAgent.h, what it holds of the Aeron library's objects, and
-- the application behind it (src/service/ClusteredService.h).
use aeron_cluster_cpp.Prelude.{ℕ, Bool, true, false, List, [], Option, none, ℤ, pos, Text}
use aeron_cluster_cpp.Prelude.Outcome.{Fault}
use aeron_cluster_cpp.Aeron.{Constants}
use aeron_cluster_cpp.ClusterCounters.{Counter}
use aeron_cluster_cpp.Sessions.{ClientSession, SessionTable, empty_table}
use aeron_cluster_cpp.Proxy.{Proxy}
use aeron_cluster_cpp.Snapshot.Taker.{SnapshotPublication}

-- Cluster::Role of src/service/Cluster.h.
pub data Role : Type 0 where
  follower candidate leader : Role

-- A call of the application, with the session object as it is then; the buffer of a message is its
-- bytes, with the offset and the length that are passed on.
pub data Callback : Type 0 where
  on_start : Option ℕ → Callback
  on_session_open : ClientSession → ℤ → Callback
  on_session_close : ClientSession → ℤ → ℤ → Callback
  on_session_message : ClientSession → ℤ → Text → ℤ → ℤ → Callback
  on_timer_event : ℤ → ℤ → Callback
  on_take_snapshot : ℕ → Callback
  on_role_change : Role → Callback
  -- leadershipTermId, logPosition, timestamp, termBaseLogPosition, leaderMemberId, logSessionId,
  -- appVersion
  on_new_leadership_term_event : ℤ → ℤ → ℤ → ℤ → ℤ → ℤ → ℤ → Callback

-- What a member of the agent gave the application.
pub data Reply : Type 0 where
  gave : Bool → Reply
  threw : Fault → Reply

-- What the application does in a callback: it may call back into the agent and go on by the reply,
-- until it returns (a Boolean where the callback has one) or throws.
pub data Script : Type 0 where
  done : Bool → Script
  fails : Fault → Script
  closes_session : ℤ → (Reply → Script) → Script
  cancels_timer : ℤ → (Reply → Script) → Script

-- src/service/ClusteredServiceConfiguration.h, the members that the agent reads. `service` is the
-- application: its reaction to the newest callback, given all so far, the newest first.
pub record Context : Type 0 where
  pub service : List Callback → Script
  pub service_id : ℤ
  pub cluster_id : ℤ
  pub app_version : ℤ
  pub is_responding_service : Bool
  pub standby_snapshot_enabled : Bool
  pub snapshot_channel : Text
  pub snapshot_stream_id : ℤ
  pub replay_channel : Text
  pub replay_stream_id : ℤ
  pub control_channel : Text
  pub consensus_module_stream_id : ℤ
  pub service_stream_id : ℤ
  pub log_fragment_limit : ℤ

-- A fragmented message under construction, `m_builder` of src/service/BoundedLogAdapter.h: its bytes
-- so far, and the offset at which the next fragment must stand.
pub record BufferBuilder : Type 0 where
  pub bytes : Text
  pub next_term_offset : ℕ

-- src/service/BoundedLogAdapter.h; an image of the library is a handle.
pub record BoundedLogAdapter : Type 0 where
  pub image : Option ℕ
  pub max_log_position : ℤ
  pub builder : BufferBuilder

pub record ActiveLogEvent : Type 0 where
  pub log_position : ℤ
  pub max_log_position : ℤ
  pub member_id : ℤ
  pub session_id : ℤ
  pub stream_id : ℤ
  pub is_startup : Bool
  pub role : Role
  pub channel : Text
  pub log_subscription_id : ℤ
  pub subscription : Option ℕ
  pub image : Option ℕ

-- `SnapshotState`, with the publication that the snapshot is written to.
pub record SnapshotState : Type 0 where
  pub publication_id : ℤ
  pub publication : Option ℕ
  pub output : SnapshotPublication
  pub recording_counter_id : ℤ
  pub recording_id : ℤ
  pub snapshot_complete : Bool

pub record Agent : Type 0 where
  pub ctx : Context
  pub table : SessionTable
  pub proxy : Option Proxy
  pub cluster_time : ℤ
  pub is_abort : Bool
  pub is_service_active : Bool
  pub last_slow_tick_ns : ℤ
  pub member_id : ℤ
  pub ack_id : ℤ
  pub termination_position : ℤ
  pub log_position : ℤ
  pub leadership_term_id : ℤ
  pub is_background_invocation : Bool
  -- Whether `m_activeLifecycleCallbackName` is set.
  pub in_lifecycle_callback : Bool
  pub role : Role
  pub requested_ack_position : ℤ
  pub commit_position : Option Counter
  pub mark_file_update_deadline_ms : ℤ
  pub standby_snapshot_flags : ℕ
  pub log_adapter : BoundedLogAdapter
  pub active_log_event : Option ActiveLogEvent
  pub current_snapshot : Option SnapshotState
  -- The callbacks that were made, the newest first.
  pub history : List Callback

-- What the members that the constructor leaves uninitialised hold.
pub record Memory : Type 0 where
  pub is_abort : Bool
  pub is_background_invocation : Bool
  pub last_slow_tick_ns : ℤ
  pub max_log_position : ℤ
  -- What the library's constructor of BufferBuilder leaves.
  pub builder : BufferBuilder
  -- `m_isClosing` of the sessions to come, by address.
  pub is_closing : ℕ → Bool

module _ ⦃c : Constants⦄ where
  -- The constructor, with a service that is not null.
  unfoldable pub new_agent : Context → Memory → Agent
  unfolding empty_table
  new_agent ctx memory = record {
    ctx = ctx;
    table = empty_table memory.is_closing;
    proxy = none;
    cluster_time = c.null_value;
    is_abort = memory.is_abort;
    is_service_active = false;
    last_slow_tick_ns = memory.last_slow_tick_ns;
    member_id = c.null_value;
    ack_id = pos 0;
    termination_position = c.null_position;
    log_position = c.null_position;
    leadership_term_id = c.null_value;
    is_background_invocation = memory.is_background_invocation;
    in_lifecycle_callback = false;
    role = follower;
    requested_ack_position = c.null_position;
    commit_position = none;
    mark_file_update_deadline_ms = pos 1;
    standby_snapshot_flags = flags ctx.standby_snapshot_enabled;
    log_adapter = record {
      image = none;
      max_log_position = memory.max_log_position;
      builder = memory.builder;
    };
    active_log_event = none;
    current_snapshot = none;
    history = [];
  }
    where
      -- CLUSTER_ACTION_FLAGS_STANDBY_SNAPSHOT or CLUSTER_ACTION_FLAGS_DEFAULT.
      flags : Bool → ℕ
      flags true = 1
      flags false = 0
