-- ===== src/Agent/Search.antt =====
-- `ClusteredServiceAgent::AsyncConnect` of src/service/ClusteredServiceAgent.cpp: its state, and the
-- searches at the start of each poll.
use aeron_cluster_cpp.Prelude.{ℕ, ◌==◌, Bool, true, false, ◌&&◌, ◌||◌, [], Option, none, some, ℤ}
use aeron_cluster_cpp.Prelude.Outcome.{M}
use aeron_cluster_cpp.Aeron.{Constants}
use aeron_cluster_cpp.ClusterCounters.{CountersReader, find}
use aeron_cluster_cpp.RecoveryState.{find_counter}
use aeron_cluster_cpp.Proxy.{Proxy}
use aeron_cluster_cpp.Snapshot.Loader.{Loader}
use aeron_cluster_cpp.Agent.State.{Agent}

-- What the Aeron client and the archive answer during one poll.
pub record LaunchDriver : Type 0 where
  pub client_id : ℤ
  pub counters : CountersReader
  pub find_exclusive_publication : ℤ → Option ℕ
  pub find_subscription : ℤ → Option ℕ
  pub is_connected : ℕ → Bool
  -- The answers that the publication will give to claims.
  pub claim_answers : ℕ → ℕ → ℤ
  -- Whether the archive's own connect is done.
  pub archive_ready : Bool
  -- Whether `startReplay` returns; it throws what the archive answers otherwise.
  pub replay_starts : Bool
  -- `startReplay`, cut to an int, of a recording.
  pub start_replay : ℤ → ℤ
  -- `addSubscription` to the replay channel with a session id.
  pub add_replay_subscription : ℤ → ℤ
  pub image_by_session_id : ℕ → ℤ → Option ℕ
  pub image_closed : ℕ → Bool
  -- Whether `checkForErrorResponse` finds no error.
  pub archive_fine : Bool
  -- `controlledPoll` of the snapshot's image, of at most so many fragments, on the loader, which it
  -- calls.
  pub loader_poll : ℕ → M Loader ℤ
  -- What the memory of a new loader holds.
  pub loader_memory : ℤ
  -- The type ids of the two counters.
  pub commit_position_type_id : ℤ
  pub recovery_state_type_id : ℤ

pub record Launch : Type 0 where
  pub agent : Agent
  pub has_archive : Bool
  pub has_service_adapter : Bool
  -- Whether the service adapter knows the agent.
  pub adapter_bound : Bool
  pub publication_id : ℤ
  pub publication : Option ℕ
  pub subscription_id : ℤ
  pub subscription : Option ℕ
  -- NULL_COUNTER_ID is `none`.
  pub recovery_counter_id : Option ℕ
  pub snapshot_recording_id : ℤ
  pub snapshot_subscription_id : ℤ
  pub snapshot_session_id : ℤ
  pub snapshot_subscription : Option ℕ
  pub snapshot_image : Option ℕ
  -- The loader's own members; its table is the agent's.
  pub snapshot_loader : Option Loader
  pub step : ℕ

-- What is found already, or what the search finds.
unfoldable pub or_find : {A : Type 0} → Option A → Option A → Option A
or_find (some x) y = some x
or_find none y = y

unfoldable pub is_there : {A : Type 0} → Option A → Bool
is_there (some x) = true
is_there none = false

module _ ⦃c : Constants⦄ (d : LaunchDriver) where
  -- The searches at the start of each poll.
  unfoldable pub resolve : Launch → Launch
  unfolding or_find is_there
  resolve l =
      let publication : Option ℕ =
        or_find l.publication (d.find_exclusive_publication l.publication_id) in
      let subscription : Option ℕ =
        or_find l.subscription (d.find_subscription l.subscription_id) in
      let proxy : Option Proxy = elim publication [
        | none ↦ l.agent.proxy
        | some p ↦
            or_find l.agent.proxy
              (some (record { answers = d.claim_answers p; calls = 0; sent = [] }))
      ] in
      record l {
        publication = publication;
        subscription = subscription;
        agent = record (l.agent) {
          proxy = proxy;
          commit_position =
              or_find l.agent.commit_position
                (find d.counters d.commit_position_type_id l.agent.ctx.cluster_id);
        };
        has_service_adapter = l.has_service_adapter || is_there subscription;
        has_archive = l.has_archive || d.archive_ready;
        recovery_counter_id =
            or_find l.recovery_counter_id
              (find_counter d.recovery_state_type_id d.counters l.agent.ctx.cluster_id);
      }

  -- The condition that ends step 0.
  unfoldable pub all_resolved : Launch → Bool
  unfolding is_there
  all_resolved l =
      l.step == 0
      && (is_there l.agent.proxy
          && (l.has_service_adapter
              && (is_there l.agent.commit_position
                  && (is_there l.recovery_counter_id && l.has_archive))))

  -- Whether the proxy's publication is connected.
  unfoldable pub proxy_connected : Launch → Bool
  proxy_connected l = elim l.publication [ none ↦ false | some p ↦ d.is_connected p ]
