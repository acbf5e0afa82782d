-- ===== src/Client/Connect/Steps.antt =====
-- The steps of `AsyncConnect` of src/client/AeronCluster.cpp as a state machine.
use aeron_cluster_cpp.Prelude.{
  ℕ, zero, suc, ◌≡◌, refl, Bool, true, ◌&&◌, ◌||◌, some, ℤ, pos, negsuc, ◌==ℤ◌, arith, inl, inr,
  Option-cases,
}
use aeron_cluster_cpp.Prelude.Outcome.{Outcome, returns, throws, final, Outcome-cases}
use aeron_cluster_cpp.Aeron.{Constants}
use aeron_cluster_cpp.Client.Egress.{
  EventCode, event_ok, event_error, event_redirect, event_rejected, event_closed, event_null,
}
use aeron_cluster_cpp.Client.Poller.{EgressPoller, poll}
use aeron_cluster_cpp.Client.State.{AsyncConnect, ClientDriver}
use aeron_cluster_cpp.Client.Ingress.{
  step_to, create_egress_subscription, create_ingress_publications, create_ingress_publication,
  find_ingress, close_publication,
}
use aeron_cluster_cpp.Client.Session.{
  prepare_connect_request, await_publication_connected, send_message, update_members,
  prepare_challenge_response, on_event, on_polled, poll_response,
}
use aeron_cluster_cpp.Client.Connect.{
  conclude_connect, check_deadline, no_client, do_step, poll_connect,
}

-- The edges of the state machine: forward by one, back from the answer to the request after a
-- challenge, and to the publications after a redirect.
unfoldable pub is_edge : ℤ → ℤ → Bool
is_edge m n =
    m ==ℤ n
    || (m ==ℤ negsuc 0 && n ==ℤ pos 0)
    || (m ==ℤ pos 0 && n ==ℤ pos 1)
    || (m ==ℤ pos 1 && n ==ℤ pos 2)
    || (m ==ℤ pos 2 && n ==ℤ pos 3)
    || (m ==ℤ pos 3 && (n ==ℤ pos 4 || n ==ℤ pos 2 || n ==ℤ pos 1))
    || (m ==ℤ pos 4 && n ==ℤ pos 5)

edge_refl : (n : ℤ) → is_edge n n ≡ true
unfolding is_edge
edge_refl n = ground arith

module _ ⦃c : Constants⦄ (d : ClientDriver) where
  egress_edge :
      (a : AsyncConnect)
      → a.step ≡ negsuc 0
      → is_edge a.step (create_egress_subscription d a).step ≡ true
  unfolding create_egress_subscription step_to is_edge
  egress_edge a e = ground arith

  find_ingress_edge :
      (id : ℤ) (a : AsyncConnect)
      → a.step ≡ pos 0
      → is_edge a.step (final (find_ingress d id a)).step ≡ true
  unfolding find_ingress step_to is_edge
  find_ingress_edge id a e = ground arith

  single_edge :
      (a : AsyncConnect)
      → a.step ≡ pos 0
      → is_edge a.step (final (create_ingress_publication d a)).step ≡ true
  unfolding create_ingress_publication
  single_edge a e =
      elim (Option-cases (d.add_publication a.ctx.ingress_channel a.ctx.ingress_stream_id)) [
        | inl f ↦ ground (arith, edge_refl a.step, find_ingress_edge a.ingress_registration_id a e)
        | inr (id, f) ↦
            ground
              (arith, find_ingress_edge a.ingress_registration_id a e, find_ingress_edge id a e)
      ]

  onward : (a : AsyncConnect) → a.step ≡ pos 0 → is_edge a.step (pos 1) ≡ true
  unfolding is_edge
  onward a e = ground arith

  ingress_edge :
      (a : AsyncConnect)
      → a.step ≡ pos 0
      → is_edge a.step (final (create_ingress_publications d a)).step ≡ true
  unfolding create_ingress_publications step_to
  ingress_edge a e = ground (arith, single_edge a e, onward a e, edge_refl a.step)

  await_edge :
      (a : AsyncConnect)
      → a.step ≡ pos 1
      → is_edge a.step (final (await_publication_connected d a)).step ≡ true
  unfolding await_publication_connected prepare_connect_request step_to is_edge
  await_edge a e = ground arith

  send_edge :
      (a : AsyncConnect) → a.step ≡ pos 2 → is_edge a.step (final (send_message d a)).step ≡ true
  unfolding send_message step_to is_edge
  send_edge a e = ground arith

  update_edge :
      (rounds : ℕ) (p : EgressPoller) (a : AsyncConnect)
      → a.step ≡ pos 3
      → is_edge a.step (final (update_members d rounds p a)).step ≡ true
  unfolding update_members close_publication step_to is_edge
  update_edge rounds p a e = ground arith

  event_edge :
      (rounds : ℕ) (p : EgressPoller) (code : EventCode) (a : AsyncConnect)
      → a.step ≡ pos 3
      → is_edge a.step (final (on_event d rounds p code a)).step ≡ true
  unfolding on_event step_to is_edge
  event_edge rounds p event_ok a e = ground arith
  event_edge rounds p event_error a e = ground arith
  event_edge rounds p event_redirect a e = update_edge rounds p a e
  event_edge rounds p event_rejected a e = ground arith
  event_edge rounds p event_closed a e = ground arith
  event_edge rounds p event_null a e = ground arith

  polled_edge :
      (rounds : ℕ) (polled : ℤ) (p : EgressPoller) (a : AsyncConnect)
      → a.step ≡ pos 3
      → is_edge a.step (final (on_polled d rounds polled p a)).step ≡ true
  unfolding on_polled prepare_challenge_response step_to is_edge
  polled_edge rounds polled p a e = ground (arith, event_edge rounds p p.event_code a e)

  response_edge :
      (rounds : ℕ) (a : AsyncConnect)
      → a.step ≡ pos 3
      → is_edge a.step (final (poll_response d rounds a)).step ≡ true
  unfolding poll_response poll is_edge
  response_edge rounds a e = elim (Option-cases a.egress_poller) [
    | inl f ↦ ground arith
    | inr (p, f) ↦ elim (Outcome-cases (poll d.controlled_poll p)) [
      | inl (n, q, g) ↦
          ground (arith, polled_edge rounds n q (record a { egress_poller = some q }) e)
      | inr (x, q, g) ↦ ground arith
    ]
  ]

  conclude_edge :
      (a : AsyncConnect)
      → a.step ≡ pos 4
      → is_edge a.step (final (conclude_connect d a)).step ≡ true
  unfolding conclude_connect step_to is_edge
  conclude_edge a e = ground arith

  step-no_client : (o : Outcome AsyncConnect (Unit {0})) → final (no_client d o) ≡ final o
  unfolding no_client
  step-no_client (returns x a) = refl
  step-no_client (throws x a) = refl

  do_step_edge :
      (rounds : ℕ) (n : ℤ) (a : AsyncConnect)
      → a.step ≡ n
      → is_edge a.step (final (do_step d rounds n a)).step ≡ true
  unfolding do_step
  do_step_edge rounds (negsuc zero) a e = egress_edge a e
  do_step_edge rounds (pos zero) a e =
      rw (step-no_client (create_ingress_publications d a)) (ingress_edge a e)
  do_step_edge rounds (pos (suc zero)) a e =
      rw (step-no_client (await_publication_connected d a)) (await_edge a e)
  do_step_edge rounds (pos (suc (suc zero))) a e =
      rw (step-no_client (send_message d a)) (send_edge a e)
  do_step_edge rounds (pos (suc (suc (suc zero)))) a e =
      rw (step-no_client (poll_response d rounds a)) (response_edge rounds a e)
  do_step_edge rounds (pos (suc (suc (suc (suc zero))))) a e = conclude_edge a e
  do_step_edge rounds (pos (suc (suc (suc (suc (suc n)))))) a e = edge_refl a.step
  do_step_edge rounds (negsuc (suc n)) a e = edge_refl a.step

  -- Whatever the Aeron client answers, a poll leaves the step where it is or moves it along an edge,
  -- also when it throws.
  pub poll_connect_edge :
      (rounds : ℕ) (a : AsyncConnect) → is_edge a.step (final (poll_connect d rounds a)).step ≡ true
  unfolding poll_connect check_deadline
  poll_connect_edge rounds a = ground (arith, do_step_edge rounds a.step a refl, edge_refl a.step)
