-- ===== src/Client/Connect/Ready.antt =====
-- Polling `AsyncConnect` of src/client/AeronCluster.cpp never reads through a null pointer.
use aeron_cluster_cpp.Prelude.{
  ℕ, zero, suc, ◌≡◌, refl, true, false, List, [], ◌∷◌, none, some, ℤ, pos, negsuc, ltb_ℤ, arith,
  ◌∙◌, inl, inr, Option-cases,
}
use aeron_cluster_cpp.Prelude.Outcome.{Outcome, returns, throws, Outcome-cases}
use aeron_cluster_cpp.Aeron.{Constants}
use aeron_cluster_cpp.Client.Egress.{
  EventCode, event_ok, event_error, event_redirect, event_rejected, event_closed, event_null,
}
use aeron_cluster_cpp.Client.Poller.{EgressPoller, reset, poll}
use aeron_cluster_cpp.Client.Poller.Sound.{
  is_ok, is_present, is_sound, Sound, Handed, is_undefined, Handed-SoundOutcome,
  SoundOutcome-returns, SoundOutcome-throws, reset-Sound,
}
use aeron_cluster_cpp.Client.Endpoints.Faults.{is_parse_fault, parse_ingress_endpoints_fault}
use aeron_cluster_cpp.Client.Endpoints.{MemberIngress, parse_ingress_endpoints}
use aeron_cluster_cpp.Client.State.{AsyncConnect, ClientDriver}
use aeron_cluster_cpp.Client.Ingress.{
  step_to, create_ingress_publications, close_publication, close_members,
}
use aeron_cluster_cpp.Client.Session.{
  await_publication_connected, send_message, update_members, prepare_challenge_response, on_event,
  on_polled, poll_response,
}
use aeron_cluster_cpp.Client.Connect.Safe.{
  has_sound_poller, is_subscribed, is_ready_for, is_ready, is_safe,
  create_egress_subscription_ready, create_ingress_publications_safe,
  await_publication_connected_safe, send_message_safe,
}
use aeron_cluster_cpp.Client.Connect.{
  conclude_connect, check_deadline, no_client, do_step, poll_connect,
}

module _ ⦃c : Constants⦄ (d : ClientDriver) where
  subscription-close_members :
      (ms : List MemberIngress) (a : AsyncConnect)
      → (close_members ms a).egress_subscription ≡ a.egress_subscription
  unfolding close_members close_publication
  subscription-close_members [] a = refl
  subscription-close_members (m ∷ ms) a =
      ground (arith, subscription-close_members ms (close_publication m.publication a))

  poller-close_members :
      (ms : List MemberIngress) (a : AsyncConnect)
      → (close_members ms a).egress_poller ≡ a.egress_poller
  unfolding close_members close_publication
  poller-close_members [] a = refl
  poller-close_members (m ∷ ms) a =
      ground (arith, poller-close_members ms (close_publication m.publication a))

  update_members_safe :
      (rounds : ℕ) (p : EgressPoller) (a : AsyncConnect)
      → is_subscribed a ≡ true
      → is_safe (update_members d rounds p a) ≡ true
  unfolding update_members close_publication step_to is_safe is_ready is_ready_for is_parse_fault
      is_undefined is_subscribed
  update_members_safe rounds p a s =
      let b : AsyncConnect = record (close_publication a.ingress_publication a) {
        leader_member_id = p.leader_member_id;
        ingress_registration_id = c.null_value;
        ingress_publication = none;
      } in
      elim (Outcome-cases (parse_ingress_endpoints rounds c.null_value p.detail)) [
        | inl (ms, u, e) ↦ ground (
          arith,
          subscription-close_members b.member_by_id b,
          poller-close_members b.member_by_id b,
        )
        | inr (f, u, e) ↦
            ground (arith, parse_ingress_endpoints_fault rounds c.null_value p.detail f u e)
      ]

  on_event_safe :
      (rounds : ℕ) (p : EgressPoller) (code : EventCode) (a : AsyncConnect)
      → p.event_code ≡ code
      → is_sound p ≡ true
      → a.step ≡ pos 3
      → is_subscribed a ≡ true
      → is_present a.ingress_publication ≡ true
      → is_safe (on_event d rounds p code a) ≡ true
  unfolding on_event step_to is_safe is_ready is_ready_for is_sound is_ok is_present is_subscribed
      is_undefined
  on_event_safe rounds p event_ok a f k e s h = ground arith
  on_event_safe rounds p event_error a f k e s h = refl
  on_event_safe rounds p event_redirect a f k e s h = update_members_safe rounds p a s
  on_event_safe rounds p event_rejected a f k e s h = refl
  on_event_safe rounds p event_closed a f k e s h = ground arith
  on_event_safe rounds p event_null a f k e s h = ground arith

  on_polled_safe :
      (rounds : ℕ) (polled : ℤ) (p : EgressPoller) (a : AsyncConnect)
      → is_sound p ≡ true
      → a.step ≡ pos 3
      → is_subscribed a ≡ true
      → is_present a.ingress_publication ≡ true
      → is_safe (on_polled d rounds polled p a) ≡ true
  unfolding on_polled prepare_challenge_response step_to is_safe is_ready is_ready_for is_subscribed
  on_polled_safe rounds polled p a k e s h =
      ground (arith, on_event_safe rounds p p.event_code a refl k e s h)

  poll_response_safe :
      (rounds schema_id : ℕ) (a : AsyncConnect)
      → ((p : EgressPoller) → Handed schema_id p (d.controlled_poll p))
      → a.step ≡ pos 3
      → is_subscribed a ≡ true
      → is_present a.ingress_publication ≡ true
      → is_safe (poll_response d rounds a) ≡ true
  unfolding poll_response poll is_safe is_subscribed has_sound_poller
  poll_response_safe rounds schema_id a handed e s h = elim (Option-cases a.egress_poller) [
    | inl f ↦ ground arith
    | inr (p, f) ↦
        let sound : Sound p = ground arith in
        let o = Handed-SoundOutcome schema_id (reset-Sound p sound) (handed (reset p)) in
        elim (Outcome-cases (d.controlled_poll (reset p))) [
          | inl (n, q, g) ↦
              let k = SoundOutcome-returns (d.controlled_poll (reset p)) n q g o in
              ground (arith, on_polled_safe rounds n q (record a { egress_poller = some q }) k e)
          | inr (x, q, g) ↦
              let k = SoundOutcome-throws (d.controlled_poll (reset p)) x q g o in ground arith
        ]
  ]

  conclude_connect_safe :
      (a : AsyncConnect)
      → a.step ≡ pos 4
      → is_subscribed a ≡ true
      → is_present a.egress_image ≡ true
      → is_safe (conclude_connect d a) ≡ true
  unfolding conclude_connect step_to is_safe is_ready is_ready_for is_subscribed is_present
      is_undefined
  conclude_connect_safe a e s h = ground arith

  no_client_safe : (o : Outcome AsyncConnect (Unit {0})) → is_safe (no_client d o) ≡ is_safe o
  unfolding no_client is_safe
  no_client_safe (returns x a) = refl
  no_client_safe (throws e a) = refl

  -- The step that a poll does.
  do_step_safe :
      (rounds schema_id : ℕ) (n : ℤ) (a : AsyncConnect)
      → is_ok d.poller_memory.event_code ≡ false
      → ((p : EgressPoller) → Handed schema_id p (d.controlled_poll p))
      → a.step ≡ n
      → is_ready a ≡ true
      → is_safe (do_step d rounds n a) ≡ true
  unfolding do_step is_safe is_ready is_ready_for
  do_step_safe rounds schema_id (negsuc zero) a ok handed e r =
      create_egress_subscription_ready d a ok e
  do_step_safe rounds schema_id (pos zero) a ok handed e r =
      no_client_safe (create_ingress_publications d a)
      ∙ create_ingress_publications_safe d a e (ground arith)
  do_step_safe rounds schema_id (pos (suc zero)) a ok handed e r =
      no_client_safe (await_publication_connected d a)
      ∙ await_publication_connected_safe d a e (ground arith)
  do_step_safe rounds schema_id (pos (suc (suc zero))) a ok handed e r =
      no_client_safe (send_message d a) ∙ send_message_safe d a e (ground arith) (ground arith)
  do_step_safe rounds schema_id (pos (suc (suc (suc zero)))) a ok handed e r =
      no_client_safe (poll_response d rounds a)
      ∙ poll_response_safe rounds schema_id a handed e (ground arith) (ground arith)
  do_step_safe rounds schema_id (pos (suc (suc (suc (suc zero))))) a ok handed e r =
      conclude_connect_safe a e (ground arith) (ground arith)
  do_step_safe rounds schema_id (pos (suc (suc (suc (suc (suc n)))))) a ok handed e r = r
  do_step_safe rounds schema_id (negsuc (suc n)) a ok handed e r = r

  -- Where the deadline is not negative, the memory of a new poller does not hold the event OK, and a
  -- controlled poll does nothing but call the handler: a poll from a state that has what its step
  -- reads never reads through a null pointer, and if it returns, the new state has what its step reads.
  pub poll_connect_safe :
      (rounds schema_id : ℕ) (a : AsyncConnect)
      → ltb_ℤ a.deadline_ns (pos 0) ≡ false
      → is_ok d.poller_memory.event_code ≡ false
      → ((p : EgressPoller) → Handed schema_id p (d.controlled_poll p))
      → is_ready a ≡ true
      → is_safe (poll_connect d rounds a) ≡ true
  unfolding poll_connect check_deadline
  poll_connect_safe rounds schema_id a time ok handed r =
      ground (arith, do_step_safe rounds schema_id a.step a ok handed refl r)
