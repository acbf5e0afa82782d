-- ===== src/Client/Poller.antt =====
-- src/client/EgressPoller.{h,cpp}: the poller stops at each event of a session, and holds it until the
-- next poll.
pub mod Events
pub mod Sound
use aeron_cluster_cpp.Prelude.{
  ℕ, if◌then◌else◌, Bool, true, false, not, ◌==◌, List, [], Option, none, some, ℤ, pos, negsuc,
  Text,
}
use aeron_cluster_cpp.Prelude.Outcome.{M, Outcome, returns, throws, bad_schema, throw}
use aeron_cluster_cpp.Aeron.{PollAction, continue, break, abort}
use aeron_cluster_cpp.Client.Egress.{
  EventCode, event_null, EgressMessage, session_header, session_event, new_leader, challenge,
  EgressFragment,
}

pub record EgressPoller : Type 0 where
  pub template_id : ℤ
  pub cluster_session_id : ℤ
  pub correlation_id : ℤ
  pub leadership_term_id : ℤ
  pub leader_member_id : ℤ
  pub event_code : EventCode
  pub version : ℤ
  pub detail : Text
  -- The two parts of m_encodedChallenge.
  pub encoded_challenge : Text
  pub encoded_challenge_length : ℕ
  pub is_poll_complete : Bool
  pub is_challenged : Bool
  pub egress_image : Option ℕ

-- The constructor, for what the memory of the object holds before it.
unfoldable pub new_poller : EgressPoller → EgressPoller
new_poller memory = record memory {
  detail = [];
  encoded_challenge = [];
  encoded_challenge_length = 0;
  egress_image = none;
}

-- `leadershipTermId()`, which returns another member.
unfoldable pub leadership_term_id_of : EgressPoller → ℤ
leadership_term_id_of p = p.leader_member_id

-- What `poll` resets of a completed poll.
unfoldable pub reset : EgressPoller → EgressPoller
reset p =
    if p.is_poll_complete
    then record p {
      is_poll_complete = false;
      cluster_session_id = negsuc 0;
      correlation_id = negsuc 0;
      leadership_term_id = negsuc 0;
      leader_member_id = negsuc 0;
      template_id = negsuc 0;
      version = pos 0;
      event_code = event_null;
      encoded_challenge = [];
      encoded_challenge_length = 0;
    }
    else p

-- `poll`, for the `controlledPoll` of the subscription, which calls `onFragment`.
unfoldable pub poll : M EgressPoller ℤ → M EgressPoller ℤ
unfolding reset
poll controlled_poll p = controlled_poll (reset p)

-- `onFragment` past its tests.
unfoldable pub on_message : EgressFragment → EgressMessage → M EgressPoller PollAction
on_message f (session_header session_id term_id timestamp) p = returns break (record p {
  leadership_term_id = term_id;
  cluster_session_id = session_id;
  is_poll_complete = true;
})
on_message f (session_event session_id correlation_id term_id leader_id code version detail) p =
    returns break (record p {
      cluster_session_id = session_id;
      correlation_id = correlation_id;
      leadership_term_id = term_id;
      leader_member_id = leader_id;
      event_code = code;
      version = version;
      detail = detail;
      is_poll_complete = true;
      egress_image = some f.image;
    })
on_message f (new_leader session_id term_id leader_id endpoints) p = returns break (record p {
  cluster_session_id = session_id;
  leadership_term_id = term_id;
  leader_member_id = leader_id;
  detail = endpoints;
  is_poll_complete = true;
})
-- The length that the poller keeps is read a second time, past the challenge.
on_message f (challenge session_id correlation_id bytes length_again) p = returns break (record p {
  encoded_challenge = bytes;
  encoded_challenge_length = length_again;
  cluster_session_id = session_id;
  correlation_id = correlation_id;
  is_poll_complete = true;
})
on_message f _ p = returns continue p

-- `onFragment`, for the schema id of the codecs.
unfoldable pub on_fragment : ℕ → EgressFragment → M EgressPoller PollAction
unfolding on_message
on_fragment schema_id f p =
    if p.is_poll_complete
    then returns abort p
    else if not (f.schema_id == schema_id)
    then throws bad_schema p
    else on_message f f.message (record p { template_id = f.template_id })
