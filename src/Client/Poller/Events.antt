-- ===== src/Client/Poller/Events.antt =====
-- What a poll of src/client/EgressPoller.cpp finds.
use aeron_cluster_cpp.Prelude.{
  ℕ, ◌≡◌, refl, Bool, true, false, ◌==◌, List, [], ◌∷◌, ◌++◌, some, ℤ, All, arith,
}
use aeron_cluster_cpp.Prelude.Outcome.{M, returns, throws}
use aeron_cluster_cpp.Aeron.{continue, break, abort, commit}
use aeron_cluster_cpp.Client.Egress.{
  EgressMessage, session_header, session_event, new_leader, challenge, admin_response, unknown,
  EgressFragment,
}
use aeron_cluster_cpp.Client.Poller.{EgressPoller, on_message, on_fragment}

-- Whether a message is an event of a session, at which the poller stops.
abbrev pub is_event : EgressMessage → Bool
is_event (session_header id term_id timestamp) = true
is_event (session_event id correlation_id term_id leader_id code version detail) = true
is_event (new_leader id term_id leader_id endpoints) = true
is_event (challenge id correlation_id bytes length_again) = true
is_event (admin_response id correlation_id request_type code message offset len) = false
is_event unknown = false

module _ (schema_id : ℕ) where
  -- The fragments of an image, handed on in order until the handler breaks off, aborts or throws;
  -- with what is left, of which an aborted fragment is the first, as a controlled poll is documented
  -- to do.
  abbrev pub hand_on : List EgressFragment → M EgressPoller (List EgressFragment)
  hand_on [] p = returns [] p
  hand_on (f ∷ fs) p = elim (on_fragment schema_id f p) [
    | returns continue q ↦ hand_on fs q
    | returns commit q ↦ hand_on fs q
    | returns break q ↦ returns fs q
    | returns abort q ↦ returns (f ∷ fs) q
    | throws e q ↦ throws e q
  ]

  -- A fragment of the codecs' schema that is no event.
  abbrev pub IsPassed : EgressFragment → Type 0
  IsPassed f = ((f.schema_id == schema_id) ≡ true) × (is_event f.message ≡ false)

  -- The poller that has read an event, and has seen nothing else but the template's id.
  abbrev pub event_read : EgressFragment → EgressPoller → EgressPoller
  event_read f p = elim f.message [
    | session_header id term_id timestamp ↦ record p {
      template_id = f.template_id;
      cluster_session_id = id;
      leadership_term_id = term_id;
      is_poll_complete = true;
    }
    | session_event id correlation_id term_id leader_id code version detail ↦ record p {
      template_id = f.template_id;
      cluster_session_id = id;
      correlation_id = correlation_id;
      leadership_term_id = term_id;
      leader_member_id = leader_id;
      event_code = code;
      version = version;
      detail = detail;
      egress_image = some f.image;
      is_poll_complete = true;
    }
    | new_leader id term_id leader_id endpoints ↦ record p {
      template_id = f.template_id;
      cluster_session_id = id;
      leadership_term_id = term_id;
      leader_member_id = leader_id;
      detail = endpoints;
      is_poll_complete = true;
    }
    | challenge id correlation_id bytes length_again ↦ record p {
      template_id = f.template_id;
      cluster_session_id = id;
      correlation_id = correlation_id;
      encoded_challenge = bytes;
      encoded_challenge_length = length_again;
      is_poll_complete = true;
    }
    | _ ↦ p
  ]

  on_fragment_passed :
      (f : EgressFragment) (p : EgressPoller)
      → p.is_poll_complete ≡ false
      → IsPassed f
      → on_fragment schema_id f p ≡ returns continue (record p { template_id = f.template_id })
  unfolding on_fragment on_message
  on_fragment_passed f p unread (s, e) = ground arith

  on_fragment_event :
      (f : EgressFragment) (p : EgressPoller)
      → p.is_poll_complete ≡ false
      → (f.schema_id == schema_id) ≡ true
      → is_event f.message ≡ true
      → on_fragment schema_id f p ≡ returns break (event_read f p)
  unfolding on_fragment on_message
  on_fragment_event f p unread s e = ground arith

  event_read-template :
      (f : EgressFragment) (t : ℤ) (p : EgressPoller)
      → is_event f.message ≡ true
      → event_read f (record p { template_id = t }) ≡ event_read f p
  event_read-template f t p e = ground arith

  -- A poll that is not complete passes over what is no event, and stops behind the first event: it
  -- holds the fields of that event, and all later fragments are left for the next poll. Of a challenge it
  -- holds the bytes, but for their length what the decoder reads where it stands behind them.
  pub hand_on_first_event :
      (passed : List EgressFragment) (f : EgressFragment) (rest : List EgressFragment)
      (p : EgressPoller)
      → p.is_poll_complete ≡ false
      → All IsPassed passed
      → (f.schema_id == schema_id) ≡ true
      → is_event f.message ≡ true
      → hand_on (passed ++ f ∷ rest) p ≡ returns rest (event_read f p)
  hand_on_first_event [] f rest p unread h s e = rw (on_fragment_event f p unread s e, hand_on) refl
  hand_on_first_event (g ∷ gs) f rest p unread h s e =
      rw (on_fragment_passed g p unread h.0, hand_on)
        (rw
          (
            hand_on_first_event gs f rest (record p { template_id = g.template_id }) unread h.1 s e,
            event_read-template f g.template_id p e,
          )
          refl)
