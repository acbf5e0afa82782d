-- ===== src/Tests/Cycle.antt =====
-- The theorems on duty cycles and on restarts, at an agent that closes a session in each callback
-- (src/service/ClusteredServiceAgent.cpp, src/service/BoundedLogAdapter.cpp).
use aeron_cluster_cpp.Publication.{verdict, granted, exhausted}
use aeron_cluster_cpp.Proxy.{attempts, service_ack, claim}
use aeron_cluster_cpp.Agent.Service.{with_proxy}
use aeron_cluster_cpp.Prelude.{
  ℕ, ◌⊎◌, some, negsuc, ◌≡◌, ◌≢◌, ◌≤ℤ◌, ◌<ℤ◌, refl, true, false, List, [], ◌∷◌, pos,
}
use aeron_cluster_cpp.Prelude.Outcome.{returns, final}
use aeron_cluster_cpp.Sessions.Laws.{IsValid}
use aeron_cluster_cpp.Snapshot.Loader.{Loader}
use aeron_cluster_cpp.Agent.Adapter.{join_log_request, ack_requested_at}
use aeron_cluster_cpp.LogAdapter.{Fragment}
use aeron_cluster_cpp.LogAdapter.Replica.{directory}
use aeron_cluster_cpp.Cycle.{Round, poll_items, work, work_all}
use aeron_cluster_cpp.Agent.State.{Agent}
use aeron_cluster_cpp.Agent.Duty.{check_positions}
use aeron_cluster_cpp.Agent.Duty.Positions.{after_ack, check_positions_once}
use aeron_cluster_cpp.Agent.Service.Live.{IsLive, IsDefined}
use aeron_cluster_cpp.LogAdapter
use aeron_cluster_cpp.Cycle.Defined.{poll_items-IsDefined}
use aeron_cluster_cpp.Cycle.Table.{work_all-IsValid, directory-work}
use aeron_cluster_cpp.Tests.Log.{codec, framing, fragment}
use aeron_cluster_cpp.Tests.Sessions.{two_sessions-IsValid}
use aeron_cluster_cpp.Tests.Samples.{
  aeron_constants, driver, agent, closing, quiet, fresh_publication, busy_answers,
}

-- A round in which the agent is told to join the log as the leader.
abbrev pub joining : List Fragment → Round
joining fragments = record {
  driver = driver;
  offer_rounds = 2;
  swallows = true;
  instructions =
      (111, join_log_request (pos 0) (pos 512) (pos 2) (pos 17) (pos 100) false (pos 2) (3 ∷ []))
      ∷ (111, ack_requested_at (pos 0))
      ∷ [];
  fragments = λ _. fragments;
}

abbrev pub log : List Fragment
log = fragment 0 128 ∷ fragment 33 64 ∷ fragment 64 192 ∷ []

work_all-IsValid_example :
    IsValid (work_all codec framing (joining [] ∷ joining log ∷ []) (agent closing)).table
work_all-IsValid_example =
    work_all-IsValid codec framing (joining [] ∷ joining log ∷ []) (agent closing)
      two_sessions-IsValid

directory-work_example :
    directory (final (work codec framing (joining []) (agent closing))).table
    ≡ directory (agent closing).table
directory-work_example =
    directory-work codec framing (joining []) (agent closing) two_sessions-IsValid (λ _. refl)

closing-IsLive : IsLive (agent closing)
closing-IsLive = record {
  valid = two_sessions-IsValid;
  proxy = fresh_publication busy_answers;
  has_proxy = refl;
  decent = λ calls reply. tt;
}

poll_items-IsDefined_example :
    IsDefined (poll_items true (LogAdapter.on_fragment codec driver framing) log (agent closing))
poll_items-IsDefined_example =
    poll_items-IsDefined codec framing driver true log (agent closing) closing-IsLive

abbrev asked : Agent
asked = record (agent quiet) { requested_ack_position = pos 0 }

abbrev answered : Agent
answered = record (agent quiet) {
  proxy = some (record {
    answers = busy_answers;
    calls = 2;
    sent = service_ack (pos 0) (pos 0) (pos 4) (negsuc 0) (pos 0) ∷ [];
  });
  ack_id = pos 5;
}

asked_once : check_positions asked ≡ returns tt answered
unfolding check_positions with_proxy claim
asked_once = refl

check_positions_once_example :
    ((asked.requested_ack_position ≢ aeron_constants.null_position)
      × (asked.requested_ack_position ≤ℤ asked.log_position)
      × (k : ℕ) × (((verdict busy_answers 0 attempts ≡ granted k)
            × (answered ≡ after_ack asked (fresh_publication busy_answers) k)
            × (check_positions answered ≡ returns tt answered))
          ⊎ ((verdict busy_answers 0 attempts ≡ exhausted k)
              × (answered ≡ record asked {
                proxy = some (record { answers = busy_answers; calls = k; sent = [] });
              }))))
    ⊎ (((asked.requested_ack_position ≡ aeron_constants.null_position)
          ⊎ (asked.log_position <ℤ asked.requested_ack_position))
        × (answered ≡ asked))
check_positions_once_example =
    check_positions_once asked answered (fresh_publication busy_answers) refl asked_once
