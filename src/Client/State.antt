-- ===== src/Client/State.antt =====
-- The objects of src/client/AeronCluster.h that connecting to a cluster works on, and what the Aeron
-- client answers during one poll: a parameter of the model.
use aeron_cluster_cpp.Prelude.{ℕ, Bool, List, [], Option, none, ℤ, pos, negsuc, Text, ◌+ℤ◌}
use aeron_cluster_cpp.Prelude.Outcome.{M}
use aeron_cluster_cpp.Aeron.{Constants}
use aeron_cluster_cpp.Sessions.Connect.{Found}
use aeron_cluster_cpp.Client.Poller.{EgressPoller}
use aeron_cluster_cpp.Client.Endpoints.{MemberIngress}

-- `AeronCluster::Context`, the members that connecting reads.
pub record ClientContext : Type 0 where
  pub ingress_channel : Text
  pub ingress_endpoints : Text
  pub ingress_stream_id : ℤ
  pub egress_channel : Text
  pub egress_stream_id : ℤ

-- `m_buffer`, with the message that was encoded into it.
pub data ConnectMessage : Type 0 where
  empty_buffer : ConnectMessage
  -- correlationId, responseStreamId, version, responseChannel, encodedCredentials
  connect_request : ℤ → ℤ → ℤ → Text → Text → ConnectMessage
  -- correlationId, clusterSessionId, encodedCredentials
  challenge_response : ℤ → ℤ → Text → ConnectMessage

-- `AeronCluster::AsyncConnect`; publications, subscriptions and images are handles.
pub record AsyncConnect : Type 0 where
  pub ctx : ClientContext
  pub deadline_ns : ℤ
  pub correlation_id : ℤ
  pub cluster_session_id : ℤ
  pub leadership_term_id : ℤ
  pub leader_member_id : ℤ
  pub step : ℤ
  pub buffer : ConnectMessage
  pub egress_subscription : Option ℕ
  pub egress_poller : Option EgressPoller
  pub egress_registration_id : ℤ
  pub member_by_id : List MemberIngress
  pub ingress_registration_id : ℤ
  pub ingress_publication : Option ℕ
  pub egress_image : Option ℕ
  -- The publications that were closed, and the messages that were sent, oldest first.
  pub closed : List ℕ
  pub sent : List ConnectMessage

-- The connected client.
pub record AeronCluster : Type 0 where
  pub publication : Option ℕ
  pub subscription : Option ℕ
  pub egress_image : ℕ
  pub member_by_id : List MemberIngress
  pub cluster_session_id : ℤ
  pub leadership_term_id : ℤ
  -- Not initialised by the constructor, whose argument of this name is not used.
  pub leader_member_id : ℤ

pub record ClientDriver : Type 0 where
  pub add_subscription : Text → ℤ → ℤ
  pub find_subscription : ℤ → Option ℕ
  -- `addPublication`, which may throw.
  pub add_publication : Text → ℤ → Option ℤ
  pub find_exclusive_publication : ℤ → Found
  -- `ChannelUri`: the channel, with an endpoint put in where it is over UDP.
  pub channel_with_endpoint : Text → Text → Text
  pub is_connected : ℕ → Bool
  -- `tryResolveChannelEndpointPort`, empty while it is not resolved.
  pub response_channel : ℕ → Text
  pub next_correlation_id : ℤ
  -- The two functions of the credentials supplier.
  pub encoded_credentials : Text
  pub on_challenge : Text → ℕ → Text
  pub offer : ℕ → ℤ
  -- `controlledPoll` on the egress subscription.
  pub controlled_poll : M EgressPoller ℤ
  -- What the memory of objects to come holds.
  pub poller_memory : EgressPoller
  pub leader_memory : ℤ

-- What the members of `AsyncConnect` without an initialiser hold.
pub record ConnectMemory : Type 0 where
  pub cluster_session_id : ℤ
  pub leadership_term_id : ℤ
  pub leader_member_id : ℤ

module _ ⦃c : Constants⦄ where
  -- `messageTimeoutNs()`, which is zero whatever was set.
  unfoldable pub message_timeout_ns : ℤ
  message_timeout_ns = pos 0

  -- `asyncConnect`, at a time of the clock, for a context that was concluded.
  unfoldable pub async_connect : ℤ → ClientContext → ConnectMemory → AsyncConnect
  unfolding message_timeout_ns ◌+ℤ◌
  async_connect now_ns ctx memory = record {
    ctx = ctx;
    deadline_ns = now_ns +ℤ message_timeout_ns;
    correlation_id = c.null_value;
    cluster_session_id = memory.cluster_session_id;
    leadership_term_id = memory.leadership_term_id;
    leader_member_id = memory.leader_member_id;
    step = negsuc 0;
    buffer = empty_buffer;
    egress_subscription = none;
    egress_poller = none;
    egress_registration_id = c.null_value;
    member_by_id = [];
    ingress_registration_id = c.null_value;
    ingress_publication = none;
    egress_image = none;
    closed = [];
    sent = [];
  }
