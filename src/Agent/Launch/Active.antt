-- ===== src/Agent/Launch/Active.antt =====
-- When `AsyncConnect::poll` of src/service/ClusteredServiceAgent.cpp gives the agent.
use aeron_cluster_cpp.Prelude.{
  ℕ, ◌≡◌, refl, Bool, true, false, Option, none, some, arith, inl, inr, Option-cases, Bool-cases,
}
use aeron_cluster_cpp.Prelude.Outcome.{Outcome, returns, throws, Outcome-cases}
use aeron_cluster_cpp.Aeron.{Constants}
use aeron_cluster_cpp.RecoveryState.{get_snapshot_recording_id}
use aeron_cluster_cpp.Snapshot.Loader.{Loader, new_loader}
use aeron_cluster_cpp.Agent.State.{Agent}
use aeron_cluster_cpp.Agent.Service.{ack}
use aeron_cluster_cpp.Agent.Launch.{
  LaunchDriver, Launch, or_find, resolve, all_resolved, proxy_connected, recover, load,
  load_snapshot, start_service, acknowledge_start, launch_step, poll_launch,
}

-- Whether a poll gave the agent.
unfoldable gives : Outcome Launch (Option Agent) → Bool
gives (returns (some a) l) = true
gives (returns none l) = false
gives (throws e l) = false

module _ ⦃c : Constants⦄ (d : LaunchDriver) where
  recover-gives_none : (id : ℕ) (l : Launch) → gives (recover d id l) ≡ false
  unfolding recover gives get_snapshot_recording_id
  recover-gives_none id l = ground arith

  load-gives_none : (image : ℕ) (k : Loader) (l : Launch) → gives (load d image k l) ≡ false
  unfolding load gives
  load-gives_none image k l = ground arith

  load_snapshot-gives_none : (l : Launch) → gives (load_snapshot d l) ≡ false
  unfolding load_snapshot gives
  load_snapshot-gives_none l =
      elim (Option-cases
        (or_find l.snapshot_subscription (d.find_subscription l.snapshot_subscription_id))) [
          | inl e ↦ ground arith
          | inr (s, e) ↦
              elim (Option-cases
                (or_find l.snapshot_image (d.image_by_session_id s l.snapshot_session_id))) [
                  | inl f ↦ ground arith
                  | inr (i, f) ↦
                      let w : Launch = record l {
                        snapshot_subscription = some s;
                        snapshot_image = some i;
                      } in
                      elim (Option-cases l.snapshot_loader) [
                        | inl g ↦
                            ground (
                              arith,
                              load-gives_none i (new_loader d.loader_memory l.agent.table) w,
                            )
                        | inr (k, g) ↦ ground (arith, load-gives_none i k w)
                      ]
                ]
        ]

  start_service-gives_none : (l : Launch) → gives (start_service d l) ≡ false
  unfolding start_service gives
  start_service-gives_none l = ground arith

  -- What acknowledging the start gives.
  acknowledge_start_gives :
      (l k : Launch) (a : Agent)
      → acknowledge_start d l ≡ returns (some a) k
      → (b : Agent) × (ack d.client_id l.agent ≡ returns true b)
        × (a ≡ record b { is_service_active = true })
        × (k.agent ≡ a)
  unfolding acknowledge_start
  acknowledge_start_gives l k a e = elim (Outcome-cases (ack d.client_id l.agent)) [
    | inl (sent, b, f) ↦ elim (Bool-cases sent) [
      | inl g ↦ (b, ground arith, ground arith, ground arith)
      | inr g ↦ absurd (ground arith)
    ]
    | inr (x, b, f) ↦ absurd (ground arith)
  ]

  -- Each step but the last gives nothing.
  launch_step_gives :
      (l k : Launch) (a : Agent)
      → launch_step d l ≡ returns (some a) k
      → (l.step ≡ 4) × (acknowledge_start d l ≡ returns (some a) k)
  unfolding launch_step gives
  launch_step_gives l k a e = elim (Option-cases l.recovery_counter_id) [
    | inl f ↦ ground (arith, load_snapshot-gives_none l, start_service-gives_none l)
    | inr (id, f) ↦
        ground
          (arith, recover-gives_none id l, load_snapshot-gives_none l, start_service-gives_none l)
  ]

  step-resolve : (l : Launch) → (resolve d l).step ≡ l.step
  unfolding resolve
  step-resolve l = refl

  -- A poll gives the agent only at the last step, once the acknowledgement of the start with the
  -- client's id was sent; the agent that it gives is the one that sent it, and is active.
  pub poll_launch_gives :
      (l k : Launch) (a : Agent)
      → poll_launch d l ≡ returns (some a) k
      → (l.step ≡ 4)
        × (b : Agent) × (ack d.client_id (resolve d l).agent ≡ returns true b)
        × (a ≡ record b { is_service_active = true })
        × (k.agent ≡ a)
  unfolding poll_launch
  poll_launch_gives l k a e = elim (Bool-cases (all_resolved d (resolve d l))) [
    | inl f ↦ elim (Bool-cases (proxy_connected d (resolve d l))) [
      | inl g ↦
          let bound : Launch = record (resolve d l) { adapter_bound = true; step = 1 } in
          let (at, h) = launch_step_gives bound k a (ground arith) in absurd (omega arith)
      | inr g ↦ absurd (ground arith)
    ]
    | inr f ↦
        let (at, g) = launch_step_gives (resolve d l) k a (ground arith) in
        let (b, sent, active, held) = acknowledge_start_gives (resolve d l) k a g in
        (ground (arith, step-resolve l), b, sent, active, held)
  ]
