-- ===== src/Cycle/Defined.antt =====
-- A poll of the log reads through no null or dangling pointer (src/service/BoundedLogAdapter.cpp).
use aeron_cluster_cpp.Prelude.{ℕ, suc, refl, Bool, not, ◌==◌, List, [], ◌∷◌, ℤ, Text, length}
use aeron_cluster_cpp.Prelude.Outcome.{
  Outcome, returns, throws, is_undefined, bad_schema, pure, throw,
}
use aeron_cluster_cpp.Aeron.{Constants, PollAction, continue, break, abort, commit}
use aeron_cluster_cpp.Agent.State.{Agent, BufferBuilder}
use aeron_cluster_cpp.Agent.Driver.{Driver}
use aeron_cluster_cpp.Agent.Service.Live.{
  IsLive, IsDefined, IsDefined-bind, IsDefined-if, IsDefined-choice, IsDefined-after,
}
use aeron_cluster_cpp.LogAdapter
use aeron_cluster_cpp.LogAdapter.{
  LogCodec, Framing, Fragment, on_message, set_builder, settle, end_message, reset_builder, has,
  appended, dispatch,
}
use aeron_cluster_cpp.LogAdapter.Defined.{dispatch-IsDefined}
use aeron_cluster_cpp.Cycle.{poll_items}

module _ ⦃c : Constants⦄ (codec : LogCodec) (framing : Framing) (d : Driver) where
  on_message-IsDefined :
      (buffer : Text) (offset len : ℕ) (position : ℤ) (a : Agent)
      → IsLive a
      → IsDefined (on_message codec d buffer offset len position a)
  unfolding on_message is_undefined
  on_message-IsDefined buffer offset len position a l =
      IsDefined-if (not (codec.read_schema_id buffer offset == codec.schema_id)) (throw bad_schema)
        _ a (l, refl)
        (IsDefined-bind (dispatch codec d position buffer offset len (codec.read buffer offset len))
          (λ _. pure continue) a
          (dispatch-IsDefined codec d position buffer offset len (codec.read buffer offset len) a l)
          (λ x b k. k))

  builder-IsLive : (b : BufferBuilder) (a : Agent) → IsLive a → IsLive (set_builder b a)
  unfolding set_builder
  builder-IsLive b a l = record {
    valid = l.valid;
    proxy = l.proxy;
    has_proxy = l.has_proxy;
    decent = l.decent;
  }

  settle-IsDefined :
      (before : BufferBuilder) (o : Outcome Agent PollAction)
      → IsDefined o
      → IsDefined (settle codec d framing before o)
  unfolding settle reset_builder
  settle-IsDefined before (returns continue a) h = builder-IsLive _ a h
  settle-IsDefined before (returns break a) h = builder-IsLive _ a h
  settle-IsDefined before (returns abort a) h = builder-IsLive _ a h
  settle-IsDefined before (returns commit a) h = builder-IsLive _ a h
  settle-IsDefined before (throws e a) h = h

  on_fragment-IsDefined :
      (f : Fragment) (a : Agent) → IsLive a → IsDefined (LogAdapter.on_fragment codec d framing f a)
  unfolding LogAdapter.on_fragment end_message reset_builder set_builder
  on_fragment-IsDefined f a l =
      let grown : Text = appended framing a.log_adapter.builder f in
      IsDefined-choice (has framing f.flags framing.unfragmented) _ _
        (on_message-IsDefined f.buffer f.offset f.length f.position a l)
        (IsDefined-choice (has framing f.flags framing.begin_frag) _ _ (builder-IsLive _ a l) (
          IsDefined-choice (f.offset == a.log_adapter.builder.next_term_offset) _ _
            (IsDefined-choice (has framing f.flags framing.end_frag) _ _
              (settle-IsDefined a.log_adapter.builder _
                (on_message-IsDefined grown 0 (length grown) f.position _ (builder-IsLive _ a l)))
              (builder-IsLive _ a l))
            (builder-IsLive _ a l)))

  -- From a well-formed table of sessions, with a proxy and an application that does not itself cause
  -- undefined behaviour (IsDecent), a poll that hands on any fragments of the log reads through no null
  -- or dangling pointer, also where it throws, and the next poll finds the same again: whatever the
  -- fragments hold and whatever the application calls in its callbacks.
  pub poll_items-IsDefined :
      (swallows : Bool) (fragments : List Fragment) (a : Agent)
      → IsLive a
      → IsDefined (poll_items swallows (LogAdapter.on_fragment codec d framing) fragments a)
  poll_items-IsDefined swallows [] a l = l
  poll_items-IsDefined swallows (f ∷ fs) a l =
      IsDefined-after (LogAdapter.on_fragment codec d framing f a) _ _ (on_fragment-IsDefined f a l)
        (λ y b k.
          IsDefined-after (poll_items swallows (LogAdapter.on_fragment codec d framing) fs b)
            (λ n b'. returns (suc n) b') (λ e b'. throws e b')
            (poll_items-IsDefined swallows fs b k) (λ n b' m. m) (λ e b' u m. (m, u)))
        (λ e b u k. IsDefined-choice swallows (returns 0 b) (throws e b) k (k, u))
