-- ===== src/Client/Connect.antt =====
-- `AeronCluster::AsyncConnect` of src/client/AeronCluster.cpp: one poll does the work of one step, and
-- the last one makes the client.
pub mod Safe
pub mod Ready
pub mod Steps
use aeron_cluster_cpp.Prelude.{
  ℕ, zero, suc, ◌+◌, ◌==◌, if◌then◌else◌, Bool, true, false, not, ◌&&◌, ◌||◌, List, [], ◌∷◌, ◌++◌,
  Option, none, some, ℤ, pos, negsuc, ltb_ℤ, ◌==ℤ◌, length, Text,
}
use aeron_cluster_cpp.Prelude.Outcome.{
  M, Outcome, returns, throws, connection_lost, egress_error, connect_timeout, registration_failed,
  undefined,
}
use aeron_cluster_cpp.Aeron.{Constants}
use aeron_cluster_cpp.Sessions.Connect.{Found, found, not_yet, raised}
use aeron_cluster_cpp.Client.Egress.{
  EventCode, event_ok, event_error, event_redirect, event_rejected, event_closed, event_null,
}
use aeron_cluster_cpp.Client.Poller.{EgressPoller, new_poller, poll, leadership_term_id_of}
use aeron_cluster_cpp.Client.Endpoints.{MemberIngress, parse_ingress_endpoints}
use aeron_cluster_cpp.Client.State.{
  AsyncConnect, AeronCluster, ClientContext, ClientDriver, ConnectMessage, connect_request,
  challenge_response,
}
use aeron_cluster_cpp.Client.Ingress.{
  step_to, close_publication, close_members, erase_member, members_at, is_empty,
  create_egress_subscription, create_ingress_publications,
}
use aeron_cluster_cpp.Client.Session.{await_publication_connected, send_message, poll_response}

module _ ⦃c : Constants⦄ (d : ClientDriver) where
  -- The constructor of `AeronCluster`, with what it is given of the connect; the leader's id is given and
  -- not stored.
  unfoldable pub new_aeron_cluster : ℕ → ℕ → AsyncConnect → AeronCluster
  new_aeron_cluster publication image a = record {
    publication = some publication;
    subscription = a.egress_subscription;
    egress_image = image;
    member_by_id = a.member_by_id;
    cluster_session_id = a.cluster_session_id;
    leadership_term_id = a.leadership_term_id;
    leader_member_id = d.leader_memory;
  }

  -- `concludeConnect`; the context, the publication and the subscription are moved out.
  unfoldable pub conclude_connect : AsyncConnect → Outcome AsyncConnect (Option AeronCluster)
  unfolding step_to close_members erase_member members_at new_aeron_cluster
  conclude_connect a =
      let conclude : ℕ → ℕ → Outcome AsyncConnect (Option AeronCluster) = λ publication image.
        returns (some (new_aeron_cluster publication image a)) (
          step_to (pos 5) (record (close_members (members_at a.leader_member_id a.member_by_id) a) {
            ingress_publication = none;
            egress_subscription = none;
            member_by_id = erase_member a.leader_member_id a.member_by_id;
          })) in
      elim a.ingress_publication [
        | none ↦ elim (d.find_exclusive_publication a.ingress_registration_id) [
          | found p ↦ returns none (record a { ingress_publication = some p })
          | not_yet ↦ returns none a
          | raised ↦ throws registration_failed a
        ]
        | some publication ↦ elim a.egress_image [
          | none ↦ throws undefined a
          | some image ↦ conclude publication image
        ]
      ]

  -- `checkDeadline`: the report reads the channel of the publication.
  unfoldable pub check_deadline : AsyncConnect → Outcome AsyncConnect (Unit {0})
  check_deadline a =
      let expired : Outcome AsyncConnect (Unit {0}) = elim a.ingress_publication [
        | none ↦ throws undefined a
        | some _ ↦ throws connect_timeout a
      ] in
      if ltb_ℤ a.deadline_ns (pos 0) then expired else returns tt a

  -- A step that gives no client.
  unfoldable pub no_client :
      Outcome AsyncConnect (Unit {0}) → Outcome AsyncConnect (Option AeronCluster)
  no_client (returns _ a) = returns none a
  no_client (throws e a) = throws e a

  -- The `switch` on the step.
  unfoldable pub do_step : ℕ → ℤ → AsyncConnect → Outcome AsyncConnect (Option AeronCluster)
  unfolding create_egress_subscription create_ingress_publications await_publication_connected
      send_message poll_response conclude_connect no_client
  do_step rounds (negsuc zero) a = returns none (create_egress_subscription d a)
  do_step rounds (pos zero) a = no_client (create_ingress_publications d a)
  do_step rounds (pos (suc zero)) a = no_client (await_publication_connected d a)
  do_step rounds (pos (suc (suc zero))) a = no_client (send_message d a)
  do_step rounds (pos (suc (suc (suc zero)))) a = no_client (poll_response d rounds a)
  do_step rounds (pos (suc (suc (suc (suc zero))))) a = conclude_connect a
  do_step rounds n a = returns none a

  -- `AsyncConnect::poll`.
  unfoldable pub poll_connect : ℕ → M AsyncConnect (Option AeronCluster)
  unfolding do_step check_deadline
  poll_connect rounds a = elim (check_deadline a) [
    | throws e b ↦ throws e b
    | returns _ b ↦ do_step rounds b.step b
  ]

  -- `MemberIngress::close`, of all members.
  unfoldable pub closed_members : List MemberIngress → List MemberIngress
  closed_members [] = []
  closed_members (m ∷ ms) =
      record m { registration_id = c.null_value; publication = none } ∷ closed_members ms

  -- `AsyncConnect::close`.
  unfoldable pub close_connect : M AsyncConnect (Unit {0})
  unfolding close_publication close_members closed_members
  close_connect a =
      let close_all : ℕ → Outcome AsyncConnect (Unit {0}) = λ p.
        let b : AsyncConnect = close_publication (some p) a in
        elim a.egress_subscription [
          | none ↦ throws undefined b
          | some _ ↦ returns tt (record (close_members a.member_by_id b) {
            member_by_id = closed_members a.member_by_id;
          })
        ] in
      let unfinished : Outcome AsyncConnect (Unit {0}) = elim a.ingress_publication [
        | none ↦ throws undefined a
        | some p ↦ close_all p
      ] in
      if a.step ==ℤ pos 5 then returns tt a else unfinished
