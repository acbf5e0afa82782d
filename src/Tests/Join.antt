-- ===== src/Tests/Join.antt =====
-- The theorem on joining the log, at a follower (src/service/ClusteredServiceAgent.cpp).
use aeron_cluster_cpp.Prelude.{ℕ, ◌≡◌, refl, true, [], ◌∷◌, none, some, pos, negsuc}
use aeron_cluster_cpp.Prelude.Outcome.{returns, final}
use aeron_cluster_cpp.Publication.{is_fatal}
use aeron_cluster_cpp.Proxy.{claim, try_claim, try_claim_loop, claim_once, check_result, commit}
use aeron_cluster_cpp.Agent.State.{Agent, ActiveLogEvent, follower}
use aeron_cluster_cpp.Agent.Service.{ack, with_proxy, set_role, same_role}
use aeron_cluster_cpp.Agent.Log.{
  seek_subscription_id, seek_subscription, seek_image, take_image, rejoin_sessions, keep_event,
  join_active_log,
}
use aeron_cluster_cpp.Agent.Log.Contiguous.{join_active_log_contiguous}
use aeron_cluster_cpp.Tests.Samples.{aeron_constants, driver, agent, quiet}

abbrev event : ActiveLogEvent
event = record {
  log_position = pos 0;
  max_log_position = pos 4096;
  member_id = pos 2;
  session_id = pos 11;
  stream_id = pos 100;
  is_startup = true;
  role = follower;
  channel = 9 ∷ [];
  log_subscription_id = negsuc 0;
  subscription = none;
  image = none;
}

abbrev joined : Agent
joined = final (join_active_log driver event (agent quiet))

joins : join_active_log driver event (agent quiet) ≡ returns true joined
unfolding join_active_log seek_subscription_id seek_subscription seek_image take_image
    rejoin_sessions keep_event ack with_proxy set_role same_role claim try_claim try_claim_loop
    claim_once check_result is_fatal commit
joins = refl

join_active_log_contiguous_example :
    (image : ℕ) × (joined.log_adapter.image ≡ some image)
    × (driver.image_join_position image ≡ (agent quiet).log_position)
    × (event.log_position ≡ (agent quiet).log_position)
join_active_log_contiguous_example =
    join_active_log_contiguous driver event (agent quiet) joined joins
