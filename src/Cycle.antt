-- ===== src/Cycle.antt =====
-- The agent's duty cycles as a whole: `doWork` of src/service/ClusteredServiceAgent.cpp, with the polls
-- of src/service/ServiceAdapter.cpp and src/service/BoundedLogAdapter.cpp.
pub mod Stable
pub mod Sessions
pub mod Snapshot
pub mod Parts
pub mod Polls
pub mod Rounds
pub mod Table
pub mod Numbers
pub mod Defined
use aeron_cluster_cpp.Prelude.{ℕ, suc, if◌then◌else◌, Bool, List, [], ◌∷◌, ℤ}
use aeron_cluster_cpp.Prelude.Outcome.{M, returns, throws, final}
use aeron_cluster_cpp.Aeron.{Constants}
use aeron_cluster_cpp.Agent.State.{Agent}
use aeron_cluster_cpp.Agent.Driver.{Driver}
use aeron_cluster_cpp.Agent.Adapter
use aeron_cluster_cpp.Agent.Adapter.{Instruction}
use aeron_cluster_cpp.Agent.Duty.{do_work}
use aeron_cluster_cpp.LogAdapter
use aeron_cluster_cpp.LogAdapter.{LogCodec, Framing, Fragment}

-- A poll of the library: it hands on the items in order and counts them. An exception of the handler
-- ends it; with `swallows` the library keeps the exception to itself.
abbrev pub poll_items : {A B : Type 0} → Bool → (A → M Agent B) → List A → M Agent ℕ
poll_items swallows handle [] a = returns 0 a
poll_items swallows handle (x ∷ xs) a = elim (handle x a) [
  | returns _ b ↦ elim (poll_items swallows handle xs b) [
    | returns n b' ↦ returns (suc n) b'
    | throws e b' ↦ throws e b'
  ]
  | throws e b ↦ if swallows then returns 0 b else throws e b
]

-- What happens around one duty cycle: the answers of the driver, the messages of the consensus module
-- with the schema id of each, and what the fragment assembler in
-- front of `onFragment` hands on of the log below a limit.
pub record Round : Type 0 where
  pub driver : Driver
  pub offer_rounds : ℕ
  pub swallows : Bool
  pub instructions : List (ℕ × Instruction)
  pub fragments : ℤ → List Fragment

module _ ⦃c : Constants⦄ (codec : LogCodec) (framing : Framing) where
  -- One duty cycle, and several: one that throws does not stop those that follow.
  abbrev pub work : Round → M Agent (Unit {0})
  work r =
      do_work r.offer_rounds r.driver
        (poll_items r.swallows (λ m. Adapter.on_fragment codec.schema_id m.0 m.1) r.instructions)
        (λ limit.
          poll_items r.swallows (LogAdapter.on_fragment codec r.driver framing) (r.fragments limit))

  abbrev pub work_all : List Round → Agent → Agent
  work_all [] a = a
  work_all (r ∷ rs) a = work_all rs (final (work r a))
