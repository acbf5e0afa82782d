-- ===== src/Agent/Adapter.antt =====
-- src/service/ServiceAdapter.{h,cpp}: the instructions of the consensus module to the agent.
use aeron_cluster_cpp.Prelude.{ℕ, ◌==◌, if◌then◌else◌, Bool, not, ℤ, Text}
use aeron_cluster_cpp.Prelude.Outcome.{M, throws, bad_schema, pure, ◌>>=◌, modify}
use aeron_cluster_cpp.Aeron.{Constants}
use aeron_cluster_cpp.Agent.State.{Agent}
use aeron_cluster_cpp.Agent.Log.{
  join_log, service_termination_position, request_service_ack, get_role,
}

-- The messages of the generated codecs, with the fields that the adapter reads.
pub data Instruction : Type 0 where
  -- logPosition, maxLogPosition, memberId, logSessionId, logStreamId, isStartup, role, logChannel
  join_log_request : ℤ → ℤ → ℤ → ℤ → ℤ → Bool → ℤ → Text → Instruction
  -- logPosition
  termination_position_at : ℤ → Instruction
  ack_requested_at : ℤ → Instruction
  unknown : Instruction

module _ ⦃c : Constants⦄ where
  -- `onFragment` past the test of the schema; an invalid role throws before the agent is called.
  unfoldable pub on_instruction : Instruction → M Agent (Unit {0})
  on_instruction
        (join_log_request position max_position member_id session_id stream_id startup code
          channel) =
      do
        role ← get_role code
        modify (
            join_log position max_position member_id session_id stream_id startup role channel
              c.null_value)
  on_instruction (termination_position_at position) = modify (service_termination_position position)
  on_instruction (ack_requested_at position) = modify (request_service_ack position)
  on_instruction unknown = pure tt

  -- `onFragment`, for the schema ids of the codecs and of the message.
  unfoldable pub on_fragment : ℕ → ℕ → Instruction → M Agent (Unit {0})
  unfolding on_instruction
  on_fragment schema_id read_id m a =
      if not (read_id == schema_id) then throws bad_schema a else on_instruction m a
