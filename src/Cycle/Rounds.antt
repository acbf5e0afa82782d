-- ===== src/Cycle/Rounds.antt =====
-- Any number of duty cycles keep what the parts of one keep (src/service/ClusteredServiceAgent.cpp).
use aeron_cluster_cpp.Prelude.{ℕ, List, [], ◌∷◌, ℤ, Text}
use aeron_cluster_cpp.Prelude.Outcome.{final}
use aeron_cluster_cpp.Prelude.Keeps.{Keeps}
use aeron_cluster_cpp.Aeron.{Constants}
use aeron_cluster_cpp.Agent.State.{Agent}
use aeron_cluster_cpp.Agent.Driver.{Driver}
use aeron_cluster_cpp.LogAdapter.{LogCodec, Framing, LogMessage, dispatch}
use aeron_cluster_cpp.Cycle.{Round, work, work_all}
use aeron_cluster_cpp.Cycle.Stable.{Part, Holds, IsStable}
use aeron_cluster_cpp.Cycle.Polls.{poll_items-Keeps, service_fragment-Keeps, log_fragment-Keeps}
use aeron_cluster_cpp.Cycle.Parts.{do_work-Keeps}

module _ ⦃c : Constants⦄ (codec : LogCodec) (framing : Framing) (P : Part) (laws : IsStable P)
    (events : (d : Driver) (position : ℤ) (buffer : Text) (offset len : ℕ) (m : LogMessage)
      → Keeps (Holds P) (dispatch codec d position buffer offset len m)) where
  work-Keeps : (r : Round) → Keeps (Holds P) (work codec framing r)
  work-Keeps r =
      do_work-Keeps P laws r.driver r.offer_rounds _ _
        (poll_items-Keeps P r.swallows _ (service_fragment-Keeps P codec.schema_id) r.instructions)
        (λ limit.
          poll_items-Keeps P r.swallows _ (log_fragment-Keeps codec framing P events r.driver)
            (r.fragments limit))

  -- Whichever of the cycles throw.
  pub work_all-Keeps :
      (rs : List Round) (a : Agent) → Holds P a → Holds P (work_all codec framing rs a)
  work_all-Keeps [] a h = h
  work_all-Keeps (r ∷ rs) a h =
      work_all-Keeps rs (final (work codec framing r a)) (work-Keeps r a h)
