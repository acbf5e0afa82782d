-- ===== src/Agent/Launch.antt =====
-- `ClusteredServiceAgent::AsyncConnect` of src/service/ClusteredServiceAgent.cpp: how an agent comes to
-- life, from a snapshot or without one.
pub mod Active
use aeron_cluster_cpp.Prelude.{
  ℕ, ◌==◌, if◌then◌else◌, Bool, true, false, not, ◌&&◌, ◌||◌, List, [], Option, none, some, ℤ, pos,
  ◌==ℤ◌, Text,
}
use aeron_cluster_cpp.Prelude.Outcome.{M, Outcome, returns, throws, snapshot_ended, archive_error}
use aeron_cluster_cpp.Aeron.{Constants}
use aeron_cluster_cpp.Publication.{Publication}
use aeron_cluster_cpp.ClusterCounters.{Counter, CountersReader, find}
use aeron_cluster_cpp.RecoveryState.{
  find_counter, get_log_position, get_timestamp, get_leadership_term_id, get_snapshot_recording_id,
}
use aeron_cluster_cpp.Proxy.{Proxy}
use aeron_cluster_cpp.Snapshot.Loader.{Loader, fragment_limit, new_loader}
use aeron_cluster_cpp.Agent.State.{Agent, on_start}
use aeron_cluster_cpp.Agent.Service.{ack, notify}
pub use aeron_cluster_cpp.Agent.Search.{LaunchDriver, Launch}
unfoldable pub use aeron_cluster_cpp.Agent.Search.{
  or_find, is_there, resolve, all_resolved, proxy_connected,
}

module _ ⦃c : Constants⦄ (d : LaunchDriver) where
  -- Step 1: the agent takes its place in the log from the recovery counter, and a replay of the
  -- snapshot is started where there is one.
  unfoldable pub recover : ℕ → Launch → Outcome Launch (Option Agent)
  unfolding get_log_position get_timestamp get_leadership_term_id
  recover id l =
      let term_id : ℤ = get_leadership_term_id d.recovery_state_type_id d.counters id in
      let b : Launch = record l {
        agent = record (l.agent) {
          log_position = get_log_position d.recovery_state_type_id d.counters id;
          cluster_time = get_timestamp d.recovery_state_type_id d.counters id;
          leadership_term_id = term_id;
        };
      } in
      let replay : Outcome Launch (Option Agent) =
        elim (get_snapshot_recording_id d.recovery_state_type_id d.counters id
          l.agent.ctx.service_id b) [
            | throws e k ↦ throws e k
            | returns recording k ↦
                let session : ℤ = d.start_replay recording in
                if d.replay_starts
                then returns none (record k {
                  snapshot_recording_id = recording;
                  snapshot_session_id = session;
                  snapshot_subscription_id = d.add_replay_subscription session;
                  step = 2;
                })
                else throws archive_error (record k { snapshot_recording_id = recording })
          ] in
      if term_id ==ℤ c.null_value then returns none (record b { step = 3 }) else replay

  -- The loader's part of step 2, with the sessions of the agent as the loader's table.
  unfoldable pub load : ℕ → Loader → Launch → Outcome Launch (Option Agent)
  load image k l =
      let keep : Loader → Launch = λ k'. record l {
        snapshot_loader = some k';
        agent = record (l.agent) { table = k'.table };
      } in
      let poll : Outcome Launch (Option Agent) =
        elim (d.loader_poll fragment_limit (record k { table = l.agent.table })) [
          | throws e k' ↦ throws e (keep k')
          | returns fragments k' ↦
              if not (fragments ==ℤ pos 0)
              then returns none (keep k')
              else if not d.archive_fine
              then throws archive_error (keep k')
              else if d.image_closed image
              then throws snapshot_ended (keep k')
              else returns none (keep k')
        ] in
      if k.is_done
      then returns none (record (keep (record k { table = l.agent.table })) { step = 3 })
      else poll

  -- Step 2.
  unfoldable pub load_snapshot : Launch → Outcome Launch (Option Agent)
  unfolding load or_find new_loader
  load_snapshot l =
      let subscription : Option ℕ =
        or_find l.snapshot_subscription (d.find_subscription l.snapshot_subscription_id) in
      let with_subscription : Launch = record l { snapshot_subscription = subscription } in
      elim subscription [
        | none ↦ returns none with_subscription
        | some s ↦
            let image : Option ℕ =
              or_find l.snapshot_image (d.image_by_session_id s l.snapshot_session_id) in
            let with_image : Launch = record with_subscription { snapshot_image = image } in
            elim image [
              | none ↦ returns none with_image
              | some i ↦ elim l.snapshot_loader [
                | some k ↦ load i k with_image
                | none ↦ load i (new_loader d.loader_memory l.agent.table) with_image
              ]
            ]
      ]

  -- Step 3: the application starts, with the image of the snapshot if there is one.
  unfoldable pub start_service : Launch → Outcome Launch (Option Agent)
  start_service l = elim (notify (on_start l.snapshot_image) l.agent) [
    | throws e a ↦ throws e (record l { agent = a })
    | returns started a ↦ returns none (record l { agent = a; step = if started then 4 else 3 })
  ]

  -- Step 4: the agent is active once its first acknowledgement is sent.
  unfoldable pub acknowledge_start : Launch → Outcome Launch (Option Agent)
  acknowledge_start l = elim (ack d.client_id l.agent) [
    | throws e a ↦ throws e (record l { agent = a })
    | returns sent a ↦
        let active : Agent = record a { is_service_active = true } in
        if sent
        then returns (some active) (record l { agent = active })
        else returns none (record l { agent = a })
  ]

  -- The steps after the searches, with the fall through from step 0 to step 1.
  unfoldable pub launch_step : Launch → Outcome Launch (Option Agent)
  unfolding recover load_snapshot start_service acknowledge_start
  launch_step l =
      let recovered : Outcome Launch (Option Agent) = elim l.recovery_counter_id [
        | none ↦ returns none l
        | some id ↦ recover id l
      ] in
      if l.step == 1
      then recovered
      else if l.step == 2
      then load_snapshot l
      else if l.step == 3
      then start_service l
      else if l.step == 4
      then acknowledge_start l
      else returns none l

  -- `poll`.
  unfoldable pub poll_launch : M Launch (Option Agent)
  unfolding resolve all_resolved proxy_connected launch_step
  poll_launch l =
      let r : Launch = resolve d l in
      let bound : Outcome Launch (Option Agent) =
        launch_step (record r { adapter_bound = true; step = 1 }) in
      let other : Outcome Launch (Option Agent) = launch_step r in
      if all_resolved d r then (if proxy_connected d r then bound else returns none r) else other
