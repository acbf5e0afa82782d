-- ===== src/Client/Adapter/Deliveries.antt =====
-- What the consumers of a client are told (src/client/EgressAdapter.cpp).
use mathlib.Core.List.{append-nil, append_assoc}
use aeron_cluster_cpp.Prelude.{
  ◌≡◌, refl, if◌then◌else◌, Bool, true, false, ◌==◌, ◌&&◌, List, [], ◌∷◌, ◌++◌, Option, none, some,
  ℤ, ◌+ℤ◌, ◌-ℤ◌, ◌==ℤ◌, arith, ◌∙◌, Bool-cases, inl, inr,
}
use aeron_cluster_cpp.Prelude.Outcome.{M, Outcome, returns, throws, bad_schema}
use aeron_cluster_cpp.Client.Egress.{
  EgressMessage, session_header, session_event, new_leader, challenge, admin_response, unknown,
  EgressFragment,
}
use aeron_cluster_cpp.Client.Adapter.{
  Delivery, on_session_message, on_session_event, on_new_leader_event, on_admin_response,
  EgressAdapter, EgressCodec, deliver_if, on_message, on_fragment,
}

module _ (codec : EgressCodec) where
  -- Fragments in order, as a poll hands them on; an exception ends it.
  abbrev pub hand_on : List EgressFragment → M EgressAdapter (Unit {0})
  hand_on [] a = returns tt a
  hand_on (f ∷ fs) a = elim (on_fragment codec f a) [
    | returns _ b ↦ hand_on fs b
    | throws e b ↦ throws e b
  ]

  -- The session that a message is for, and what that session's client is told.
  abbrev pub told : EgressFragment → EgressMessage → Option (ℤ × Delivery)
  told f (session_header id term_id timestamp) = some (
    id,
    on_session_message id timestamp f.buffer (f.offset +ℤ codec.block_length)
        (f.length -ℤ codec.block_length),
  )
  told f (session_event id correlation_id term_id leader_id code version detail) =
      some (id, on_session_event correlation_id id term_id leader_id code detail)
  told f (new_leader id term_id leader_id endpoints) =
      some (id, on_new_leader_event id term_id leader_id endpoints)
  told f (admin_response id correlation_id request_type code message offset len) =
      some (id, on_admin_response id correlation_id request_type code message f.buffer offset len)
  told f (challenge id correlation_id bytes length_again) = none
  told f unknown = none

  abbrev pub has_schema : EgressFragment → Bool
  has_schema f = f.schema_id == codec.schema_id

  -- What one session is told by a message.
  abbrev pub told_to : ℤ → Option (ℤ × Delivery) → List Delivery
  told_to id none = []
  told_to id (some (j, call)) = if j ==ℤ id then call ∷ [] else []

  -- What one session is told of the fragments up to the first of another schema.
  abbrev pub deliveries : ℤ → List EgressFragment → List Delivery
  deliveries id [] = []
  deliveries id (f ∷ fs) =
      let rest = deliveries id fs in
      if has_schema f then told_to id (told f f.message) ++ rest else []

  abbrev pub all_have_schema : List EgressFragment → Bool
  all_have_schema [] = true
  all_have_schema (f ∷ fs) = has_schema f && all_have_schema fs

  abbrev pub ended : Bool → EgressAdapter → Outcome EgressAdapter (Unit {0})
  ended true a = returns tt a
  ended false a = throws bad_schema a

  -- The adapter after more calls.
  abbrev after : EgressAdapter → List Delivery → EgressAdapter
  after a calls = record a { delivered = a.delivered ++ calls }

  deliver_if-told_to :
      (id : ℤ) (call : Delivery) (a : EgressAdapter)
      → deliver_if id call a ≡ after a (told_to a.cluster_session_id (some (id, call)))
  unfolding deliver_if
  deliver_if-told_to id call a = ground (arith, append-nil a.delivered)

  on_message-told :
      (f : EgressFragment) (m : EgressMessage) (a : EgressAdapter)
      → on_message codec f m a ≡ after a (told_to a.cluster_session_id (told f m))
  unfolding on_message
  on_message-told f (session_header id term_id timestamp) a = deliver_if-told_to id _ a
  on_message-told f (session_event id correlation_id term_id leader_id code version detail) a =
      deliver_if-told_to id _ a
  on_message-told f (new_leader id term_id leader_id endpoints) a = deliver_if-told_to id _ a
  on_message-told f (admin_response id correlation_id request_type code message offset len) a =
      deliver_if-told_to id _ a
  on_message-told f (challenge id correlation_id bytes length_again) a =
      ground (arith, append-nil a.delivered)
  on_message-told f unknown a = ground (arith, append-nil a.delivered)

  on_fragment_good :
      (f : EgressFragment) (a : EgressAdapter)
      → has_schema f ≡ true
      → on_fragment codec f a
        ≡ returns tt (after a (told_to a.cluster_session_id (told f f.message)))
  unfolding on_fragment
  on_fragment_good f a e = rw (e, on_message-told f f.message a) refl

  on_fragment_bad :
      (f : EgressFragment) (a : EgressAdapter)
      → has_schema f ≡ false
      → on_fragment codec f a ≡ throws bad_schema a
  unfolding on_fragment
  on_fragment_bad f a e = rw e refl

  -- Whatever fragments a poll hands on, the consumers are told exactly of the messages for the
  -- adapter's session, in order, up to the first fragment of another schema; and the poll throws
  -- exactly if there is such a fragment.
  pub hand_on-deliveries :
      (fs : List EgressFragment) (a : EgressAdapter)
      → hand_on fs a ≡ ended (all_have_schema fs) (after a (deliveries a.cluster_session_id fs))
  hand_on-deliveries [] a = ground (arith, append-nil a.delivered)
  hand_on-deliveries (f ∷ fs) a = elim (Bool-cases (has_schema f)) [
    | inl e ↦
        let calls : List Delivery = told_to a.cluster_session_id (told f f.message) in
        rw (on_fragment_good f a e, e, hand_on)
          (hand_on-deliveries fs (after a calls)
            ∙ rw (append_assoc a.delivered calls (deliveries a.cluster_session_id fs)) refl)
    | inr e ↦ rw (on_fragment_bad f a e, e, hand_on, append-nil a.delivered) refl
  ]
