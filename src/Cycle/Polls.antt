-- ===== src/Cycle/Polls.antt =====
-- What the polls of a duty cycle hand on: src/service/ServiceAdapter.cpp and
-- src/service/BoundedLogAdapter.cpp.
use aeron_cluster_cpp.Prelude.{ℕ, Bool, not, ◌==◌, List, [], ◌∷◌, ℤ, arith, Text, length}
use aeron_cluster_cpp.Prelude.Outcome.{
  M, Outcome, returns, throws, bad_schema, pure, throw, ◌>>◌, final,
}
use aeron_cluster_cpp.Prelude.Keeps.{
  Keeps, Keeps_after, Keeps-bind, Keeps-then, Keeps-if, Keeps-choice,
}
use aeron_cluster_cpp.Aeron.{Constants, PollAction, continue, break, abort, commit}
use aeron_cluster_cpp.Agent.State.{Agent, BufferBuilder}
use aeron_cluster_cpp.Agent.Driver.{Driver}
use aeron_cluster_cpp.Agent.Log.{
  get_role, join_log, service_termination_position, request_service_ack,
}
use aeron_cluster_cpp.Agent.Adapter
use aeron_cluster_cpp.Agent.Adapter.{
  Instruction, join_log_request, termination_position_at, ack_requested_at, unknown, on_instruction,
}
use aeron_cluster_cpp.LogAdapter
use aeron_cluster_cpp.LogAdapter.{
  LogCodec, Framing, Fragment, LogMessage, on_message, set_builder, settle, end_message,
  reset_builder, has, appended, dispatch,
}
use aeron_cluster_cpp.Cycle.{poll_items}
use aeron_cluster_cpp.Cycle.Stable.{Part, Holds}

module _ (P : Part) where
  pub poll_items-Keeps :
      {A B : Type 0} (swallows : Bool) (handle : A → M Agent B)
      → ((x : A) → Keeps (Holds P) (handle x))
      → (xs : List A) → Keeps (Holds P) (poll_items swallows handle xs)
  poll_items-Keeps swallows handle h [] a k = k
  poll_items-Keeps swallows handle h (x ∷ xs) a k =
      Keeps_after (Holds P) (handle x a) _ _ (h x a k)
        (λ y b l.
          Keeps_after (Holds P) (poll_items swallows handle xs b) _ (λ e b'. throws e b')
            (poll_items-Keeps swallows handle h xs b l) (λ n b' m. m) (λ e b' m. m))
        (λ e b l. Keeps-choice (Holds P) swallows (returns 0 b) (throws e b) l l)

  get_role-Keeps : (code : ℤ) → Keeps (Holds P) (get_role code)
  unfolding get_role
  get_role-Keeps code a h = ground arith

  module _ ⦃c : Constants⦄ where
    on_instruction-Keeps : (m : Instruction) → Keeps (Holds P) (on_instruction m)
    unfolding on_instruction join_log service_termination_position request_service_ack
    on_instruction-Keeps (join_log_request p q member session stream startup code channel) =
        Keeps-bind (Holds P) (get_role code) _ (get_role-Keeps code) (λ role a h. h)
    on_instruction-Keeps (termination_position_at p) = λ a h. h
    on_instruction-Keeps (ack_requested_at p) = λ a h. h
    on_instruction-Keeps unknown = λ a h. h

    pub service_fragment-Keeps :
        (schema_id : ℕ) (m : ℕ × Instruction)
        → Keeps (Holds P) (Adapter.on_fragment schema_id m.0 m.1)
    unfolding Adapter.on_fragment
    service_fragment-Keeps schema_id m a h =
        Keeps-choice (Holds P) (not (m.0 == schema_id)) (throws bad_schema a) _ h
          (on_instruction-Keeps m.1 a h)

-- The fragments of the log keep what its events keep.
module _ ⦃c : Constants⦄ (codec : LogCodec) (framing : Framing) (P : Part)
    (events : (d : Driver) (position : ℤ) (buffer : Text) (offset len : ℕ) (m : LogMessage)
      → Keeps (Holds P) (dispatch codec d position buffer offset len m)) where
  on_message-Keeps :
      (d : Driver) (buffer : Text) (offset len : ℕ) (position : ℤ)
      → Keeps (Holds P) (on_message codec d buffer offset len position)
  unfolding on_message
  on_message-Keeps d buffer offset len position =
      let handle : M Agent PollAction = (do
        dispatch codec d position buffer offset len (codec.read buffer offset len)
        pure continue) in
      Keeps-if (Holds P) (not (codec.read_schema_id buffer offset == codec.schema_id))
        (throw bad_schema) handle (λ a h. h)
        (Keeps-then (Holds P)
          (dispatch codec d position buffer offset len (codec.read buffer offset len))
          (pure continue) (events d position buffer offset len (codec.read buffer offset len))
          (λ b k. k))

  settle-Holds :
      (d : Driver) (before : BufferBuilder) (o : Outcome Agent PollAction)
      → Holds P (final o)
      → Holds P (final (settle codec d framing before o))
  unfolding settle set_builder reset_builder
  settle-Holds d before (returns continue a) h = h
  settle-Holds d before (returns break a) h = h
  settle-Holds d before (returns abort a) h = h
  settle-Holds d before (returns commit a) h = h
  settle-Holds d before (throws e a) h = h

  pub log_fragment-Keeps :
      (d : Driver) (f : Fragment) → Keeps (Holds P) (LogAdapter.on_fragment codec d framing f)
  unfolding LogAdapter.on_fragment end_message set_builder reset_builder
  log_fragment-Keeps d f a h =
      Keeps-choice (Holds P) (has framing f.flags framing.unfragmented) _ _
        (on_message-Keeps d f.buffer f.offset f.length f.position a h)
        (Keeps-choice (Holds P) (has framing f.flags framing.begin_frag) _ _ h (
          Keeps-choice (Holds P) (f.offset == a.log_adapter.builder.next_term_offset) _ _
            (Keeps-choice (Holds P) (has framing f.flags framing.end_frag) _ _
              (settle-Holds d a.log_adapter.builder _ (
                on_message-Keeps d (appended framing a.log_adapter.builder f) 0
                  (length (appended framing a.log_adapter.builder f)) f.position _ h))
              h)
            h))
