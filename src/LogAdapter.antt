-- ===== src/LogAdapter.antt =====
-- src/service/BoundedLogAdapter.{h,cpp}: the messages of the cluster's log are handed to the agent. Between
-- the image and `onFragment` stands the library's fragment assembler: a `Fragment` is what that hands on.
pub mod Replica
pub mod Refine
pub mod Agree
pub mod Restart
pub mod Defined
use Prim.Native.Nat.{bit_and}
use aeron_cluster_cpp.Prelude.{
  ℕ, ◌+◌, ◌-◌, ◌*◌, ◌/◌, ◌==◌, if◌then◌else◌, Bool, true, false, not, List, [], ◌∷◌, ◌++◌, ℤ, pos,
  ◌-ℤ◌, Text, length,
}
use aeron_cluster_cpp.Prelude.Outcome.{
  M, Outcome, returns, throws, bad_schema, pure, throw, ◌>>=◌, ◌>>◌, modify,
}
use aeron_cluster_cpp.Aeron.{Constants, PollAction, continue, abort}
use aeron_cluster_cpp.Agent.State.{Agent, BufferBuilder, BoundedLogAdapter}
use aeron_cluster_cpp.Agent.Driver.{Driver}
use aeron_cluster_cpp.Agent.Events.{
  ClusterAction, ChangeType, session_message, timer_event, session_open, session_close,
  service_action, new_leadership_term_event, membership_change,
}

-- A message of the log by its template, with the fields that the code reads. `unknown` is any
-- template that the `switch` does not name.
pub data LogMessage : Type 0 where
  -- clusterSessionId, timestamp
  session_header : ℤ → ℤ → LogMessage
  -- correlationId, timestamp
  timer : ℤ → ℤ → LogMessage
  -- leadershipTermId, clusterSessionId, timestamp, responseStreamId, responseChannel, and the
  -- length of encodedPrincipal
  open_event : ℤ → ℤ → ℤ → ℤ → Text → ℕ → LogMessage
  -- leadershipTermId, clusterSessionId, timestamp, closeReason
  close_event : ℤ → ℤ → ℤ → ℤ → LogMessage
  -- leadershipTermId, logPosition, timestamp, action
  action_request : ℤ → ℤ → ℤ → ClusterAction → LogMessage
  -- leadershipTermId, logPosition, timestamp, termBaseLogPosition, leaderMemberId, logSessionId,
  -- appVersion
  term_event : ℤ → ℤ → ℤ → ℤ → ℤ → ℤ → ℤ → LogMessage
  -- logPosition, timestamp, changeType, memberId
  membership_event : ℤ → ℤ → ChangeType → ℤ → LogMessage
  unknown : LogMessage

-- The generated decoders: what the header and the message hold that stand in a buffer at an offset.
pub record LogCodec : Type 0 where
  pub schema_id : ℕ
  pub read_schema_id : Text → ℕ → ℕ
  pub read : Text → ℕ → ℕ → LogMessage
  -- SessionMessageHeader::sbeBlockAndHeaderLength()
  pub session_header_length : ℕ

-- aeron::concurrent::logbuffer: the flags of data frames, the length of their header, the rounding
-- `BitUtil::align` up to FRAME_ALIGNMENT, and the next offset that a builder expects after `reset`.
pub record Framing : Type 0 where
  pub begin_frag : ℕ
  pub end_frag : ℕ
  pub unfragmented : ℕ
  pub header_length : ℕ
  pub align : ℕ → ℕ
  pub offset_after_reset : ℕ → ℕ
  -- What a builder holds up to its limit after `reset`; a library may keep room for a header there.
  pub reserved : Text

-- A fragment as `onFragment` gets it, and the parts of its header that are read.
pub record Fragment : Type 0 where
  pub buffer : Text
  pub offset : ℕ
  pub length : ℕ
  pub flags : ℕ
  pub position : ℤ

-- The bytes that `append` copies.
unfoldable pub slice : ℕ → ℕ → Text → Text
slice offset len [] = []
slice ℕ.zero ℕ.zero bytes = []
slice ℕ.zero (ℕ.suc n) (x ∷ xs) = x ∷ slice ℕ.zero n xs
slice (ℕ.suc offset) len (x ∷ xs) = slice offset len xs

unfoldable pub set_builder : BufferBuilder → Agent → Agent
set_builder b a = record a { log_adapter = record (a.log_adapter) { builder = b } }

-- `encodedPrincipal.resize(length)`: the bytes are not copied from the message.
unfoldable pub zeroes : ℕ → Text
zeroes ℕ.zero = []
zeroes (ℕ.suc n) = 0 ∷ zeroes n

module _ (framing : Framing) where
  -- `(flags & mask) == mask`.
  unfoldable pub has : ℕ → ℕ → Bool
  has flags mask = bit_and flags mask == mask

  unfoldable pub next_offset : Fragment → ℕ
  next_offset f = framing.align (f.offset + f.length + framing.header_length)

  unfoldable pub appended : BufferBuilder → Fragment → Text
  unfolding slice
  appended b f = b.bytes ++ slice f.offset f.length f.buffer

  unfoldable pub reset_builder : Agent → Agent
  unfolding set_builder
  reset_builder a =
      let next = framing.offset_after_reset a.log_adapter.builder.next_term_offset in
      set_builder (record { bytes = framing.reserved; next_term_offset = next }) a

module _ ⦃c : Constants⦄ (codec : LogCodec) (d : Driver) where
  -- The `switch` on the template, at a position of the log.
  unfoldable pub dispatch : ℤ → Text → ℕ → ℕ → LogMessage → M Agent (Unit {0})
  unfolding zeroes ◌-ℤ◌
  dispatch position buffer offset len (session_header id timestamp) =
      session_message position id timestamp buffer (pos (offset + codec.session_header_length))
        (pos len -ℤ pos codec.session_header_length)
  dispatch position buffer offset len (timer correlation_id timestamp) =
      timer_event position correlation_id timestamp
  dispatch position buffer offset len
        (open_event term_id id timestamp stream_id channel principal) =
      session_open d position id timestamp stream_id channel (zeroes principal)
  dispatch position buffer offset len (close_event term_id id timestamp reason) =
      session_close position id timestamp reason
  dispatch position buffer offset len (action_request term_id log_position timestamp action) =
      service_action d log_position timestamp action 0
  dispatch position buffer offset len
        (term_event term_id log_position timestamp term_base leader_id session_id version) =
      new_leadership_term_event term_id log_position timestamp term_base leader_id session_id
        version
  dispatch position buffer offset len (membership_event log_position timestamp change member_id) =
      membership_change log_position timestamp change member_id
  dispatch position buffer offset len unknown = pure tt

  -- `onMessage`.
  unfoldable pub on_message : Text → ℕ → ℕ → ℤ → M Agent PollAction
  on_message buffer offset len position =
      let handle : M Agent PollAction = (do
        dispatch position buffer offset len (codec.read buffer offset len)
        pure continue) in
      if not (codec.read_schema_id buffer offset == codec.schema_id)
      then throw bad_schema
      else handle

module _ ⦃c : Constants⦄ (codec : LogCodec) (d : Driver) (framing : Framing) where
  -- After the last fragment: one that was aborted is taken off again, else the builder is emptied.
  unfoldable pub settle : BufferBuilder → Outcome Agent PollAction → Outcome Agent PollAction
  settle before (returns abort a) = returns abort (set_builder before a)
  settle before (returns action a) = returns action (reset_builder framing a)
  settle before (throws e a) = throws e a

  unfoldable pub end_message : Fragment → M Agent PollAction
  end_message f a =
      let b : BufferBuilder = a.log_adapter.builder in
      let whole : Text = appended framing b f in
      settle b (
        on_message codec d whole 0 (length whole) f.position
          (set_builder (record b { bytes = whole }) a))

  -- `onFragment`.
  unfoldable pub on_fragment : Fragment → M Agent PollAction
  on_fragment f a =
      let b : BufferBuilder = a.log_adapter.builder in
      let begun : Agent =
        set_builder
          (record {
            bytes = framing.reserved ++ slice f.offset f.length f.buffer;
            next_term_offset = next_offset framing f;
          })
          a in
      let continued : Outcome Agent PollAction =
        if has framing f.flags framing.end_frag
        then end_message f a
        else returns continue (
            set_builder
              (record { bytes = appended framing b f; next_term_offset = next_offset framing f })
              a) in
      if has framing f.flags framing.unfragmented
      then on_message codec d f.buffer f.offset f.length f.position a
      else if has framing f.flags framing.begin_frag
      then returns continue begun
      else if f.offset == b.next_term_offset
      then continued
      else returns continue (reset_builder framing a)
