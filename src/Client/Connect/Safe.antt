-- ===== src/Client/Connect/Safe.antt =====
-- What a step of `AsyncConnect` of src/client/AeronCluster.cpp reads through, and the steps that make the
-- subscription and the publications.
use aeron_cluster_cpp.Prelude.{
  zero, suc, ◌≡◌, Bool, true, false, not, ◌&&◌, Option, none, some, ℤ, pos, negsuc, arith, inl, inr,
  Option-cases,
}
use aeron_cluster_cpp.Prelude.Outcome.{Outcome, returns, throws}
use aeron_cluster_cpp.Aeron.{Constants}
use aeron_cluster_cpp.Client.Poller.{EgressPoller, new_poller}
use aeron_cluster_cpp.Client.Poller.Sound.{is_ok, is_present, is_sound, is_undefined}
use aeron_cluster_cpp.Client.State.{AsyncConnect, ClientDriver}
use aeron_cluster_cpp.Client.Ingress.{
  step_to, create_egress_subscription, create_ingress_publications, create_ingress_publication,
  find_ingress,
}
use aeron_cluster_cpp.Client.Session.{
  prepare_connect_request, await_publication_connected, send_message,
}

-- The subscription is there, and its poller is sound.
unfoldable pub has_sound_poller : Option EgressPoller → Bool
has_sound_poller none = false
has_sound_poller (some p) = is_sound p

unfoldable pub is_subscribed : AsyncConnect → Bool
is_subscribed a = is_present a.egress_subscription && has_sound_poller a.egress_poller

-- Whether the pointers are there that a step reads through.
unfoldable pub is_ready_for : ℤ → AsyncConnect → Bool
is_ready_for (pos zero) a = is_subscribed a
is_ready_for (pos (suc zero)) a = is_subscribed a
is_ready_for (pos (suc (suc zero))) a = is_subscribed a && is_present a.ingress_publication
is_ready_for (pos (suc (suc (suc zero)))) a = is_subscribed a && is_present a.ingress_publication
is_ready_for (pos (suc (suc (suc (suc zero))))) a = is_subscribed a && is_present a.egress_image
is_ready_for _ a = true

unfoldable pub is_ready : AsyncConnect → Bool
unfolding is_ready_for
is_ready a = is_ready_for a.step a

-- A call that returns leaves what its step needs, and one that throws has not read through null.
unfoldable pub is_safe : {B : Type 0} → Outcome AsyncConnect B → Bool
is_safe (returns x a) = is_ready a
is_safe (throws e a) = not (is_undefined e)

module _ ⦃c : Constants⦄ (d : ClientDriver) where
  pub create_egress_subscription_ready :
      (a : AsyncConnect)
      → is_ok d.poller_memory.event_code ≡ false
      → a.step ≡ negsuc 0
      → is_ready (create_egress_subscription d a) ≡ true
  unfolding create_egress_subscription step_to new_poller is_present is_ready is_ready_for
      is_subscribed has_sound_poller is_sound
  create_egress_subscription_ready a ok e = ground arith

  find_ingress_safe :
      (id : ℤ) (a : AsyncConnect)
      → a.step ≡ pos 0
      → is_subscribed a ≡ true
      → is_safe (find_ingress d id a) ≡ true
  unfolding find_ingress step_to is_undefined is_safe is_ready is_ready_for is_subscribed
  find_ingress_safe id a e s = ground arith

  pub create_ingress_publications_safe :
      (a : AsyncConnect)
      → a.step ≡ pos 0
      → is_subscribed a ≡ true
      → is_safe (create_ingress_publications d a) ≡ true
  unfolding create_ingress_publications create_ingress_publication step_to is_undefined is_safe
      is_ready is_ready_for is_subscribed
  create_ingress_publications_safe a e s =
      elim (Option-cases (d.add_publication a.ctx.ingress_channel a.ctx.ingress_stream_id)) [
        | inl f ↦ ground (arith, find_ingress_safe a.ingress_registration_id a e s)
        | inr (id, f) ↦
            ground
              (arith, find_ingress_safe a.ingress_registration_id a e s, find_ingress_safe id a e s)
      ]

  pub await_publication_connected_safe :
      (a : AsyncConnect)
      → a.step ≡ pos 1
      → is_subscribed a ≡ true
      → is_safe (await_publication_connected d a) ≡ true
  unfolding await_publication_connected prepare_connect_request step_to is_undefined is_safe
      is_ready is_ready_for is_subscribed is_present
  await_publication_connected_safe a e s = ground arith

  pub send_message_safe :
      (a : AsyncConnect)
      → a.step ≡ pos 2
      → is_subscribed a ≡ true
      → is_present a.ingress_publication ≡ true
      → is_safe (send_message d a) ≡ true
  unfolding send_message step_to is_undefined is_safe is_ready is_ready_for is_present is_subscribed
  send_message_safe a e s h = ground arith
