-- ===== src/Client/Session.antt =====
-- The middle steps of `AeronCluster::AsyncConnect` in src/client/AeronCluster.cpp: the request and the
-- answer to it.
use aeron_cluster_cpp.Prelude.{
  ℕ, if◌then◌else◌, ◌&&◌, ◌||◌, List, [], ◌∷◌, ◌++◌, Option, none, some, ℤ, pos, ltb_ℤ, ◌==ℤ◌, Text,
}
use aeron_cluster_cpp.Prelude.Outcome.{
  Outcome, returns, throws, connection_lost, egress_error, undefined,
}
use aeron_cluster_cpp.Aeron.{Constants}
use aeron_cluster_cpp.Client.Egress.{
  EventCode, event_ok, event_error, event_redirect, event_rejected, event_closed, event_null,
}
use aeron_cluster_cpp.Client.Poller.{EgressPoller, poll, leadership_term_id_of}
use aeron_cluster_cpp.Client.Endpoints.{MemberIngress, parse_ingress_endpoints}
use aeron_cluster_cpp.Client.State.{AsyncConnect, ClientDriver, connect_request, challenge_response}
use aeron_cluster_cpp.Client.Ingress.{step_to, close_publication, close_members, is_empty}

module _ ⦃c : Constants⦄ (d : ClientDriver) where
  -- `prepareConnectRequest`.
  unfoldable pub prepare_connect_request : Text → AsyncConnect → AsyncConnect
  unfolding step_to
  prepare_connect_request response_channel a = step_to (pos 2) (record a {
    correlation_id = d.next_correlation_id;
    buffer =
        connect_request d.next_correlation_id a.ctx.egress_stream_id (pos 0) response_channel
          d.encoded_credentials;
  })

  -- The first member in the map's order whose publication is connected.
  unfoldable pub connected_member : List MemberIngress → Option ℕ
  connected_member [] = none
  connected_member (m ∷ ms) = elim m.publication [
    | none ↦ connected_member ms
    | some p ↦ let rest = connected_member ms in if d.is_connected p then some p else rest
  ]

  -- `awaitPublicationConnected`.
  unfoldable pub await_publication_connected : AsyncConnect → Outcome AsyncConnect (Unit {0})
  unfolding prepare_connect_request connected_member is_empty
  await_publication_connected a = elim a.egress_subscription [
    | none ↦ throws undefined a
    | some s ↦
        let channel : Text = d.response_channel s in
        let chosen : AsyncConnect = elim a.ingress_publication [
          | some p ↦ if d.is_connected p then prepare_connect_request channel a else a
          | none ↦ elim (connected_member a.member_by_id) [
            | none ↦ a
            | some p ↦ prepare_connect_request channel (record a { ingress_publication = some p })
          ]
        ] in
        returns tt (if is_empty channel then a else chosen)
  ]

  -- `sendMessage`.
  unfoldable pub send_message : AsyncConnect → Outcome AsyncConnect (Unit {0})
  unfolding step_to
  send_message a = elim a.ingress_publication [
    | none ↦ throws undefined a
    | some p ↦
        let result : ℤ = d.offer p in
        if ltb_ℤ (pos 0) result
        then returns tt (step_to (pos 3) (record a { sent = a.sent ++ a.buffer ∷ [] }))
        else if c.publication_closed ==ℤ result || c.not_connected ==ℤ result
        then throws connection_lost a
        else returns tt a
  ]

  -- `updateMembers`, for what parsing the endpoints makes of them.
  unfoldable pub update_members : ℕ → EgressPoller → AsyncConnect → Outcome AsyncConnect (Unit {0})
  unfolding step_to close_publication close_members
  update_members rounds p a =
      let b : AsyncConnect = record (close_publication a.ingress_publication a) {
        leader_member_id = p.leader_member_id;
        ingress_registration_id = c.null_value;
        ingress_publication = none;
      } in
      elim (parse_ingress_endpoints rounds c.null_value p.detail) [
        | throws e _ ↦ throws e b
        | returns members _ ↦
            returns tt
              (step_to (pos 1) (record (close_members b.member_by_id b) { member_by_id = members }))
      ]

  -- `prepareChallengeResponse`, with what precedes it.
  unfoldable pub prepare_challenge_response : EgressPoller → AsyncConnect → AsyncConnect
  unfolding step_to
  prepare_challenge_response p a = step_to (pos 2) (record a {
    cluster_session_id = p.cluster_session_id;
    correlation_id = d.next_correlation_id;
    buffer =
        challenge_response d.next_correlation_id p.cluster_session_id
          (d.on_challenge p.encoded_challenge p.encoded_challenge_length);
  })

  -- The `switch` on the event's code.
  unfoldable pub on_event :
      ℕ → EgressPoller → EventCode → AsyncConnect → Outcome AsyncConnect (Unit {0})
  unfolding step_to update_members leadership_term_id_of
  on_event rounds p event_ok a =
      let b : AsyncConnect = record a {
        leadership_term_id = leadership_term_id_of p;
        leader_member_id = p.leader_member_id;
        cluster_session_id = p.cluster_session_id;
      } in
      elim p.egress_image [
        | none ↦ throws undefined b
        | some image ↦ returns tt (step_to (pos 4) (record b { egress_image = some image }))
      ]
  on_event rounds p event_error a = throws egress_error a
  on_event rounds p event_redirect a = update_members rounds p a
  on_event rounds p event_rejected a = throws egress_error a
  on_event rounds p event_closed a = returns tt a
  on_event rounds p event_null a = returns tt a

  -- What follows the poll.
  unfoldable pub on_polled : ℕ → ℤ → EgressPoller → AsyncConnect → Outcome AsyncConnect (Unit {0})
  unfolding on_event prepare_challenge_response
  on_polled rounds polled p a =
      let event : Outcome AsyncConnect (Unit {0}) = on_event rounds p p.event_code a in
      if ltb_ℤ (pos 0) polled && (p.is_poll_complete && p.correlation_id ==ℤ a.correlation_id)
      then (if p.is_challenged then returns tt (prepare_challenge_response p a) else event)
      else returns tt a

  -- `pollResponse`.
  unfoldable pub poll_response : ℕ → AsyncConnect → Outcome AsyncConnect (Unit {0})
  unfolding on_polled poll
  poll_response rounds a = elim a.egress_poller [
    | none ↦ throws undefined a
    | some p ↦ elim (poll d.controlled_poll p) [
      | throws e q ↦ throws e (record a { egress_poller = some q })
      | returns polled q ↦ on_polled rounds polled q (record a { egress_poller = some q })
    ]
  ]
