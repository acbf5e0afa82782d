-- ===== src/Client/Adapter.antt =====
-- src/client/EgressAdapter.{h,cpp}: the messages of one session are handed to its consumers.
pub mod Deliveries
use aeron_cluster_cpp.Prelude.{
  ℕ, ◌≡◌, refl, if◌then◌else◌, Bool, true, false, not, ◌==◌, List, [], ◌∷◌, ◌++◌, ℤ, ◌+ℤ◌, ◌-ℤ◌,
  ◌==ℤ◌, Text, All, arith,
}
use aeron_cluster_cpp.Prelude.Outcome.{M, Outcome, returns, throws, bad_schema}
use aeron_cluster_cpp.Client.Egress.{
  EventCode, EgressMessage, session_header, session_event, new_leader, challenge, admin_response,
  unknown, EgressFragment,
}

-- A call of a consumer; the buffer of a message is its bytes, with the offset and the length that
-- are passed on.
pub data Delivery : Type 0 where
  on_session_message : ℤ → ℤ → Text → ℤ → ℤ → Delivery
  on_session_event : ℤ → ℤ → ℤ → ℤ → EventCode → Text → Delivery
  on_new_leader_event : ℤ → ℤ → ℤ → Text → Delivery
  on_admin_response : ℤ → ℤ → ℤ → ℤ → Text → Text → ℤ → ℤ → Delivery

pub record EgressAdapter : Type 0 where
  pub cluster_session_id : ℤ
  -- The calls that were made, oldest first.
  pub delivered : List Delivery

-- What the adapter needs of the codecs: the schema id, and SessionMessageHeader::sbeBlockLength().
pub record EgressCodec : Type 0 where
  pub schema_id : ℕ
  pub block_length : ℤ

-- A call for a message of a session, where it is the adapter's.
unfoldable pub deliver_if : ℤ → Delivery → EgressAdapter → EgressAdapter
deliver_if session_id call a =
    if session_id ==ℤ a.cluster_session_id
    then record a { delivered = a.delivered ++ call ∷ [] }
    else a

-- `onFragment` past the test of the schema.
unfoldable pub on_message :
    EgressCodec → EgressFragment → EgressMessage → EgressAdapter → EgressAdapter
unfolding deliver_if ◌+ℤ◌ ◌-ℤ◌
on_message codec f (session_header session_id term_id timestamp) = deliver_if session_id (
    on_session_message session_id timestamp f.buffer (f.offset +ℤ codec.block_length)
      (f.length -ℤ codec.block_length))
on_message codec f (session_event session_id correlation_id term_id leader_id code version detail) =
    deliver_if session_id (on_session_event correlation_id session_id term_id leader_id code detail)
on_message codec f (new_leader session_id term_id leader_id endpoints) =
    deliver_if session_id (on_new_leader_event session_id term_id leader_id endpoints)
on_message codec f (admin_response session_id correlation_id request_type code message offset len) =
    deliver_if session_id
      (on_admin_response session_id correlation_id request_type code message f.buffer offset len)
on_message codec f (challenge session_id correlation_id bytes length_again) = λ a. a
on_message codec f unknown = λ a. a

-- `onFragment`.
unfoldable pub on_fragment : EgressCodec → EgressFragment → M EgressAdapter (Unit {0})
unfolding on_message
on_fragment codec f a =
    if not (f.schema_id == codec.schema_id)
    then throws bad_schema a
    else returns tt (on_message codec f f.message a)
