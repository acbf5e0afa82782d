-- ===== src/Cycle/Table.antt =====
-- What the duty cycles of an agent do to its sessions, with the instructions of the consensus module
-- and the fragments of the log that the polls hand on (src/service/ClusteredServiceAgent.cpp,
-- src/service/ServiceAdapter.cpp and src/service/BoundedLogAdapter.cpp).
use aeron_cluster_cpp.Prelude.{◌≡◌, refl, List, [], ℤ}
use aeron_cluster_cpp.Prelude.Outcome.{final}
use aeron_cluster_cpp.Aeron.{Constants}
use aeron_cluster_cpp.Sessions.Laws.{IsValid}
use aeron_cluster_cpp.Agent.State.{Agent}
use aeron_cluster_cpp.LogAdapter.{LogCodec, Framing, LogMessage, dispatch}
use aeron_cluster_cpp.LogAdapter.Replica.{directory}
use aeron_cluster_cpp.LogAdapter.Refine.{dispatch-Yields}
use aeron_cluster_cpp.Cycle.{Round, work, work_all}
use aeron_cluster_cpp.Cycle.Stable.{Holds}
use aeron_cluster_cpp.Cycle.Sessions.{Directory, OfSessions, OfSessions-IsStable}
use aeron_cluster_cpp.Cycle.Polls.{poll_items-Keeps, service_fragment-Keeps}
use aeron_cluster_cpp.Cycle.Parts.{do_work-Keeps}
use aeron_cluster_cpp.Cycle.Rounds.{work_all-Keeps}
use aeron_cluster_cpp.Prelude.{ℕ, Text}
use aeron_cluster_cpp.Prelude.Keeps.{Keeps}
use aeron_cluster_cpp.Agent.Driver.{Driver}

abbrev Anything : Directory → Type 0
Anything _ = Unit

module _ ⦃c : Constants⦄ (codec : LogCodec) (framing : Framing) where
  dispatch-Keeps :
      (d : Driver) (position : ℤ) (buffer : Text) (offset len : ℕ) (m : LogMessage)
      → Keeps (Holds (OfSessions Anything)) (dispatch codec d position buffer offset len m)
  dispatch-Keeps d position buffer offset len m a h =
      ((dispatch-Yields codec d position buffer offset len m a h.0).valid, tt)

  -- Any number of duty cycles keep a well-formed table of sessions well formed, whatever the driver
  -- answers, the consensus module instructs, the log holds and the application does, and whichever of
  -- the cycles throw.
  pub work_all-IsValid :
      (rs : List Round) (a : Agent) → IsValid a.table → IsValid (work_all codec framing rs a).table
  work_all-IsValid rs a v =
      (work_all-Keeps codec framing (OfSessions Anything) (OfSessions-IsStable Anything)
        dispatch-Keeps rs a (v, tt)).0

  -- Only the log opens and closes sessions: a duty cycle that finds no fragment of the log below any
  -- limit leaves a well-formed table with the same sessions, whatever else happens in it.
  pub directory-work :
      (r : Round) (a : Agent)
      → IsValid a.table
      → ((limit : ℤ) → r.fragments limit ≡ [])
      → directory (final (work codec framing r a)).table ≡ directory a.table
  directory-work r a v e =
      let Same : Directory → Type 0 = λ m. m ≡ directory a.table in
      (do_work-Keeps (OfSessions Same) (OfSessions-IsStable Same) r.driver r.offer_rounds _ _
        (poll_items-Keeps (OfSessions Same) r.swallows _
          (service_fragment-Keeps (OfSessions Same) codec.schema_id) r.instructions)
        (λ limit. rw (e limit) (λ b h. h)) a (v, refl)).1
