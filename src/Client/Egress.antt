-- ===== src/Client/Egress.antt =====
-- The messages that a cluster sends to a client, decoded by the generated codecs, with the fields
-- that src/client/EgressPoller.cpp and src/client/EgressAdapter.cpp read.
use aeron_cluster_cpp.Prelude.{ℕ, ℤ, Text}

-- codecs::EventCode
pub data EventCode : Type 0 where
  event_ok event_error event_redirect event_rejected event_closed event_null : EventCode

pub data EgressMessage : Type 0 where
  -- clusterSessionId, leadershipTermId, timestamp
  session_header : ℤ → ℤ → ℤ → EgressMessage
  -- clusterSessionId, correlationId, leadershipTermId, leaderMemberId, code, version, detail
  session_event : ℤ → ℤ → ℤ → ℤ → EventCode → ℤ → Text → EgressMessage
  -- clusterSessionId, leadershipTermId, leaderMemberId, ingressEndpoints
  new_leader : ℤ → ℤ → ℤ → Text → EgressMessage
  -- clusterSessionId, correlationId, encodedChallenge, and what `encodedChallengeLength()` gives once the
  -- decoder has moved past the challenge
  challenge : ℤ → ℤ → Text → ℕ → EgressMessage
  -- clusterSessionId, correlationId, requestType, responseCode, message, and the sum that
  -- `payloadOffset` is, payloadLength
  admin_response : ℤ → ℤ → ℤ → ℤ → Text → ℤ → ℤ → EgressMessage
  unknown : EgressMessage

-- A fragment: what the header of the message holds, the message, the image that it came from, and
-- where it stands in the buffer.
pub record EgressFragment : Type 0 where
  pub schema_id : ℕ
  pub template_id : ℤ
  pub message : EgressMessage
  pub image : ℕ
  pub buffer : Text
  pub offset : ℤ
  pub length : ℤ
