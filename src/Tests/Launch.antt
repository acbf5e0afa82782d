-- ===== src/Tests/Launch.antt =====
-- The theorem on how an agent comes to life, at its last step (src/service/ClusteredServiceAgent.cpp).
use aeron_cluster_cpp.Prelude.{◌≡◌, refl, true, false, none, some, pos, negsuc}
use aeron_cluster_cpp.Prelude.Outcome.{returns, final}
use aeron_cluster_cpp.Publication.{is_fatal}
use aeron_cluster_cpp.ClusterCounters.{find, scan}
use aeron_cluster_cpp.RecoveryState.{find_counter}
use aeron_cluster_cpp.Proxy.{claim, try_claim, try_claim_loop, claim_once, check_result, commit}
use aeron_cluster_cpp.Agent.State.{Agent}
use aeron_cluster_cpp.Agent.Service.{ack, with_proxy}
use aeron_cluster_cpp.Agent.Launch.{
  LaunchDriver, Launch, resolve, or_find, is_there, all_resolved, proxy_connected, launch_step,
  acknowledge_start, poll_launch,
}
use aeron_cluster_cpp.Agent.Launch.Active.{poll_launch_gives}
use aeron_cluster_cpp.Tests.Samples.{aeron_constants, busy_answers, counters, agent, quiet}

abbrev pub launch_driver : LaunchDriver
launch_driver = record {
  client_id = pos 1;
  counters = counters;
  find_exclusive_publication = λ _. some 4;
  find_subscription = λ _. some 5;
  is_connected = λ _. true;
  claim_answers = λ _. busy_answers;
  archive_ready = true;
  replay_starts = true;
  start_replay = λ _. pos 6;
  add_replay_subscription = λ _. pos 7;
  image_by_session_id = λ _ _. some 8;
  image_closed = λ _. false;
  archive_fine = true;
  loader_poll = λ _ l. returns (pos 0) l;
  loader_memory = pos 0;
  commit_position_type_id = pos 203;
  recovery_state_type_id = pos 204;
}

abbrev launch : Launch
launch = record {
  agent = agent quiet;
  has_archive = true;
  has_service_adapter = true;
  adapter_bound = true;
  publication_id = pos 40;
  publication = some 4;
  subscription_id = pos 41;
  subscription = some 5;
  recovery_counter_id = some 1;
  snapshot_recording_id = negsuc 0;
  snapshot_subscription_id = pos 0;
  snapshot_session_id = pos 0;
  snapshot_subscription = none;
  snapshot_image = none;
  snapshot_loader = none;
  step = 4;
}

-- The agent once its start was acknowledged.
abbrev acknowledged : Agent
acknowledged = final (ack (pos 1) (resolve launch_driver launch).agent)

abbrev given : Agent
given = record acknowledged { is_service_active = true }

abbrev given_launch : Launch
given_launch = record (resolve launch_driver launch) { agent = given }

gives_agent : poll_launch launch_driver launch ≡ returns (some given) given_launch
unfolding poll_launch resolve or_find is_there all_resolved proxy_connected launch_step
    acknowledge_start ack with_proxy claim try_claim try_claim_loop claim_once check_result is_fatal
    commit find find_counter scan
gives_agent = refl

poll_launch_gives_example :
    (launch.step ≡ 4)
    × (b : Agent) × (ack (pos 1) (resolve launch_driver launch).agent ≡ returns true b)
    × (given ≡ record b { is_service_active = true })
    × (given_launch.agent ≡ given)
poll_launch_gives_example = poll_launch_gives launch_driver launch given_launch given gives_agent
