-- ===== src/Cycle/Numbers/Life.antt =====
-- The acknowledgements of an agent over its life (src/service/ClusteredServiceAgent.cpp): from the
-- configuration over the launch to the duty cycles.
use aeron_cluster_cpp.Prelude.{ℕ, ◌≡◌, refl, sym, List, pos}
use mathlib.Core.Path.{subst}
use aeron_cluster_cpp.Prelude.Outcome.{returns}
use aeron_cluster_cpp.Aeron.{Constants}
use aeron_cluster_cpp.Agent.State.{Agent, Callback, Script, new_agent}
use aeron_cluster_cpp.Agent.Launch.{LaunchDriver, Launch}
use aeron_cluster_cpp.LogAdapter.{LogCodec, Framing}
use aeron_cluster_cpp.Configuration.{ServiceContext}
use aeron_cluster_cpp.Configuration.Conclude.{ArchiveSettings, AeronLibrary}
use aeron_cluster_cpp.Configuration.Start.{
  StartDriver, new_launch, async_connect, async_connect-IsConcluded,
}
use aeron_cluster_cpp.Program.{await_agent}
use aeron_cluster_cpp.Cycle.{Round, work_all}
use aeron_cluster_cpp.Cycle.Stable.{Holds}
use aeron_cluster_cpp.Cycle.Numbers.{Numbered}
use aeron_cluster_cpp.Cycle.Numbers.Launch.{Launching, await_agent-Numbered}
use aeron_cluster_cpp.Cycle.Numbers.Events.{work_all-Numbered}

module _ ⦃c : Constants⦄ {A : Type 0} (start : StartDriver) where
  launch-Launching :
      (ctx : ServiceContext A) (service : List Callback → Script)
      → Launching (pos 0) (new_launch start ctx service)
  unfolding new_launch new_agent
  launch-Launching ctx service = refl

  module _ ⦃archive : ArchiveSettings A⦄ (library : AeronLibrary) where
    -- An agent that comes to life from a configuration, and then works through any number of duty
    -- cycles, has sent acknowledgements with the numbers 0, 1, 2 and so on, with no gap and no repeat,
    -- the one of its start included, and its number is the next one: whatever the configuration, the
    -- answers during the launch and in the duty cycles, the instructions, the log and the application
    -- are, and whichever of the cycles throw.
    pub async_connect-Numbered :
        (codec : LogCodec) (framing : Framing) (ctx b : ServiceContext A) (l m : Launch) (a : Agent)
        (rounds : ℕ) (answers : ℕ → LaunchDriver) (rs : List Round)
        → async_connect start library ctx ≡ returns l b
        → await_agent rounds answers l ≡ returns a m
        → Holds (Numbered (pos 0)) (work_all codec framing rs a)
    async_connect-Numbered codec framing ctx b l m a rounds answers rs e f =
        let (concluded, service, has, launched, in_range, again) =
          async_connect-IsConcluded start library ctx b l e in
        work_all-Numbered (pos 0) codec framing rs a (
          await_agent-Numbered (pos 0) rounds answers l m a
            (subst (Launching (pos 0)) (sym launched) (launch-Launching b service)) f)
