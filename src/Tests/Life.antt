-- ===== src/Tests/Life.antt =====
-- An agent from the configuration of src/service/service-main.cpp to its duty cycles
-- (src/service/ClusteredServiceAgent.cpp).
use aeron_cluster_cpp.Prelude.{refl, [], ◌∷◌, pos}
use aeron_cluster_cpp.Publication.{is_fatal}
use aeron_cluster_cpp.ClusterCounters.{find, scan, is_allocated}
use aeron_cluster_cpp.RecoveryState.{find_counter, is_active, get_leadership_term_id}
use aeron_cluster_cpp.Agent.State.{Agent, new_agent}
use aeron_cluster_cpp.Agent.Launch.{
  Launch, resolve, or_find, is_there, all_resolved, proxy_connected,
}
use aeron_cluster_cpp.Configuration.{
  new_service_context, set_service_id, set_archive_context, set_clustered_service,
}
use aeron_cluster_cpp.Configuration.Conclude.{
  conclude, in_range, is_local, handler_of, connect_if_needed, or_else,
}
use aeron_cluster_cpp.Configuration.Start.{new_launch}
use aeron_cluster_cpp.Program.{configure, test_service}
use aeron_cluster_cpp.Program.Service.{IsReady, await_agent_live}
use aeron_cluster_cpp.Cycle.{work_all}
use aeron_cluster_cpp.Cycle.Stable.{Holds}
use aeron_cluster_cpp.Cycle.Numbers.{Numbered}
use aeron_cluster_cpp.Cycle.Numbers.Life.{async_connect-Numbered}
use aeron_cluster_cpp.Tests.Configuration.{
  archive_settings, library, configured, start_driver, concluded, begun, begins,
}
use aeron_cluster_cpp.Tests.Cycle.{joining, log}
use aeron_cluster_cpp.Tests.Log.{codec, framing}
use aeron_cluster_cpp.Tests.Program.{live_driver}
use aeron_cluster_cpp.Tests.Samples.{aeron_constants, fresh_publication, busy_answers}

begun_ready : IsReady live_driver (resolve live_driver begun)
unfolding resolve all_resolved proxy_connected or_find is_there find find_counter scan
    get_leadership_term_id is_active is_allocated is_fatal new_launch new_agent test_service
    conclude in_range is_local handler_of connect_if_needed or_else configure new_service_context
    set_service_id set_archive_context set_clustered_service
begun_ready = record {
  resolved = refl;
  connected = refl;
  recovery = 1;
  has_recovery = refl;
  no_snapshot = refl;
  no_image = refl;
  proxy = fresh_publication busy_answers;
  has_proxy = refl;
  calls = 2;
  grants = refl;
  starts = refl;
}

-- The agent that the third poll gives, and its launch.
abbrev alive : Agent
alive = (await_agent_live live_driver begun begun_ready).0

abbrev launched : Launch
launched = (await_agent_live live_driver begun begun_ready).1

async_connect-Numbered_example :
    Holds (Numbered (pos 0)) (work_all codec framing (joining [] ∷ joining log ∷ []) alive)
async_connect-Numbered_example =
    async_connect-Numbered start_driver library codec framing configured concluded begun launched
      alive 3 (λ _. live_driver) (joining [] ∷ joining log ∷ []) begins
      (await_agent_live live_driver begun begun_ready).2
