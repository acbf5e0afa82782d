-- ===== src/Tests/Agent.antt =====
-- The theorems on the agent's requests and callbacks and on its recovery counter, at the sample agent
-- (src/service/ClusteredServiceAgent.cpp, src/service/RecoveryState.cpp).
use aeron_cluster_cpp.Prelude.{
  ℕ, zero, suc, ◌<◌, ◌≡◌, refl, ◌↔◌, if◌then◌else◌, true, some, ℤ, pos, negsuc, ◌==◌,
}
use aeron_cluster_cpp.Prelude.Map.{lookup}
use aeron_cluster_cpp.Prelude.Outcome.{returns, final}
use aeron_cluster_cpp.Publication.{verdict, is_fatal}
use aeron_cluster_cpp.ClusterCounters.{
  CountersReader, CounterState, record_reclaimed, record_allocated, record_unused, is_allocated,
}
use aeron_cluster_cpp.RecoveryState.{find_counter, is_active, get_snapshot_recording_id}
use aeron_cluster_cpp.RecoveryState.First.{
  are_passed, is_taken, has_recovery_key, find_counter_first,
}
use aeron_cluster_cpp.Proxy.{
  attempts, try_claim_loop, try_claim, claim, check_result, claim_once, commit,
}
use aeron_cluster_cpp.Sessions.{get_client_session, deref}
use aeron_cluster_cpp.Agent.State.{Agent, candidate}
use aeron_cluster_cpp.Agent.Service.{
  with_proxy, check_for_valid_invocation, read_session, ack, request_close, close_client_session,
  set_role, same_role,
}
use aeron_cluster_cpp.Agent.Service.Lifecycle.{with_role, set_role_quiet}
use aeron_cluster_cpp.Agent.Service.Requests.{acked, ack-verdict, close_client_session_twice}
use aeron_cluster_cpp.Tests.Samples.{
  aeron_constants, busy_answers, fresh_publication, agent, closing, quiet,
}

set_role_quiet_example : final (set_role candidate (agent closing)) ≡ (
    if same_role candidate (agent closing).role
    then agent closing
    else with_role candidate (agent closing))
set_role_quiet_example = set_role_quiet candidate (agent closing) refl

ack-verdict_example :
    ack (negsuc 0) (agent quiet)
    ≡ acked
        (negsuc 0)
        (agent quiet)
        (fresh_publication busy_answers)
        (verdict busy_answers 0 attempts)
ack-verdict_example = ack-verdict (negsuc 0) (agent quiet) (fresh_publication busy_answers) refl

-- The agent once session 5 was closed.
abbrev closed_agent : Agent
closed_agent = final (close_client_session (pos 5) (agent quiet))

closes : close_client_session (pos 5) (agent quiet) ≡ returns true closed_agent
unfolding close_client_session check_for_valid_invocation get_client_session read_session deref
    request_close with_proxy claim try_claim try_claim_loop claim_once check_result is_fatal commit
    lookup
closes = refl

close_client_session_twice_example :
    close_client_session (pos 5) closed_agent ≡ returns true closed_agent
close_client_session_twice_example =
    close_client_session_twice (pos 5) (agent quiet) closed_agent closes

-- Counter 1 is the recovery state of cluster 3, with one service.
abbrev recovery_state : ℕ → CounterState
recovery_state zero = record_reclaimed
recovery_state (suc zero) = record_allocated
recovery_state (suc (suc n)) = record_unused

-- The key holds 3 for the cluster, and 1 for the count of services.
abbrev recovery_key : ℕ → ℤ
recovery_key offset = if offset == 24 then pos 3 else pos 1

abbrev recovery : CountersReader
recovery = record {
  max_counter_id = 4;
  counter_state = recovery_state;
  counter_type_id = λ _. pos 204;
  counter_registration_id = λ _. pos 9;
  counter_value = λ _. pos 0;
  key_int32 = λ _ offset. recovery_key offset;
  key_int64 = λ _ _. pos 77;
}

find_counter_first_example : (find_counter (pos 204) recovery (pos 3) ≡ some 1) ↔ (
    (1 < recovery.max_counter_id)
    × (are_passed recovery (has_recovery_key (pos 204) recovery (pos 3)) 0 1 ≡ true)
    × (is_taken recovery (has_recovery_key (pos 204) recovery (pos 3)) 1 ≡ true))
find_counter_first_example = find_counter_first (pos 204) recovery (pos 3) 1

reads_recording :
    get_snapshot_recording_id (pos 204) recovery 1 (pos 0) (tt {0}) ≡ returns (pos 77) tt
unfolding get_snapshot_recording_id is_active is_allocated
reads_recording = refl
