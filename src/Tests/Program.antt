-- ===== src/Tests/Program.antt =====
-- The theorems on configurations, on starting and on waiting (src/service/ClusteredServiceConfiguration.cpp,
-- src/service/ClusteredServiceAgent.cpp, src/service/service-main.cpp and src/client/main.cpp).
use aeron_cluster_cpp.Prelude.{
  ℕ, ◌+◌, ◌≡◌, refl, if◌then◌else◌, true, false, ◌∷◌, ◌==◌, none, some, pos, negsuc, false,
}
use aeron_cluster_cpp.Prelude.Outcome.{returns}
use aeron_cluster_cpp.Agent.State.{Agent, SnapshotState, on_start}
use aeron_cluster_cpp.Agent.Launch.{Launch, resolve}
use aeron_cluster_cpp.Agent.Await.{RecordingRound, await_recording_complete}
use aeron_cluster_cpp.Agent.Await.Ends.{EndsAt, recording_decision, await_recording_complete-EndsAt}
use aeron_cluster_cpp.Publication.{is_fatal}
use aeron_cluster_cpp.Snapshot.Taker.{SnapshotPublication}
use aeron_cluster_cpp.Snapshot.Taker
use aeron_cluster_cpp.ClusterCounters.{CountersReader, record_allocated, is_allocated, find, scan}
use aeron_cluster_cpp.RecoveryState.{
  find_counter, is_active, get_leadership_term_id, get_log_position,
}
use aeron_cluster_cpp.Agent.Launch.{LaunchDriver, or_find, is_there, all_resolved, proxy_connected}
use aeron_cluster_cpp.Program.{await_agent}
use aeron_cluster_cpp.Program.Service.{IsReady, await_agent_live}
use aeron_cluster_cpp.Tests.Launch.{launch_driver}
use aeron_cluster_cpp.Tests.Samples.{aeron_constants, agent, quiet, fresh_publication, busy_answers}

-- The recording is caught up in the third round, and stopped in the fifth.
abbrev recording_rounds : ℕ → RecordingRound
recording_rounds n = record {
  counter_of_session = pos 8;
  counter_value = pos (n + 62);
  archive_fine = true;
  is_active = true;
}

await_recording_complete-EndsAt_example :
    EndsAt
      (recording_decision (pos 64))
      recording_rounds
      (λ left. await_recording_complete left recording_rounds (pos 64))
      5
await_recording_complete-EndsAt_example =
    await_recording_complete-EndsAt 5 recording_rounds (pos 64) refl

-- A snapshot whose publication has just been added.
abbrev asked : SnapshotState
asked = record {
  publication_id = pos 41;
  publication = none;
  output = fresh_publication busy_answers;
  recording_counter_id = negsuc 0;
  recording_id = negsuc 0;
  snapshot_complete = false;
}

-- The same with its publication, which is closed: its first offer throws.
abbrev pub closed_output : SnapshotPublication
closed_output = fresh_publication λ _. negsuc 3

abbrev writing : SnapshotState
writing = record asked { publication = some 4; output = closed_output }

abbrev offered_once : SnapshotPublication
offered_once = record closed_output { calls = 1 }

-- A commit position and a recovery counter, of a cluster without a snapshot.
abbrev pub two_counters : CountersReader
two_counters = record {
  max_counter_id = 2;
  counter_state = λ _. record_allocated;
  counter_type_id = λ i. pos (i + 203);
  counter_registration_id = λ _. pos 11;
  counter_value = λ _. pos 0;
  key_int32 = λ _ _. pos 0;
  key_int64 = λ _ offset. if offset == 0 then negsuc 0 else pos 320;
}

abbrev pub live_driver : LaunchDriver
live_driver = record launch_driver { counters = two_counters }

abbrev fresh_launch : Launch
fresh_launch = record {
  agent = record (agent quiet) { proxy = none; is_service_active = false };
  has_archive = false;
  has_service_adapter = false;
  adapter_bound = false;
  publication_id = pos 40;
  publication = none;
  subscription_id = pos 41;
  subscription = none;
  recovery_counter_id = none;
  snapshot_recording_id = negsuc 0;
  snapshot_subscription_id = pos 0;
  snapshot_session_id = pos 0;
  snapshot_subscription = none;
  snapshot_image = none;
  snapshot_loader = none;
  step = 0;
}

ready : IsReady live_driver (resolve live_driver fresh_launch)
unfolding resolve all_resolved proxy_connected or_find is_there find find_counter scan
    get_leadership_term_id is_active is_allocated is_fatal
ready = record {
  resolved = refl;
  connected = refl;
  recovery = 1;
  has_recovery = refl;
  no_snapshot = refl;
  no_image = refl;
  proxy = fresh_publication busy_answers;
  has_proxy = refl;
  calls = 2;
  grants = refl;
  starts = refl;
}

await_agent_live_example :
    (a : Agent) × (m : Launch) × (await_agent 3 (λ _. live_driver) fresh_launch ≡ returns a m)
    × (a.is_service_active ≡ true)
    × (a.log_position ≡ get_log_position (pos 204) two_counters ready.recovery)
    × (a.history ≡ on_start none ∷ (resolve live_driver fresh_launch).agent.history)
await_agent_live_example = await_agent_live live_driver fresh_launch ready
