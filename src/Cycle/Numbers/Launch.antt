-- ===== src/Cycle/Numbers/Launch.antt =====
-- The numbers of the acknowledgements from the start of an agent on
-- (src/service/ClusteredServiceAgent.cpp, `asyncConnect` and `AsyncConnect::poll`).
use mathlib.Core.Path.{subst}
use aeron_cluster_cpp.Prelude.{
  ℕ, zero, suc, ◌≡◌, ap, sym, [], inl, inr, true, not, ◌==◌, Option, none, some, ℤ, pos, ◌==ℤ◌,
  arith, Option-cases,
}
use aeron_cluster_cpp.Prelude.Outcome.{returns, throws, final, Outcome-cases}
use aeron_cluster_cpp.Prelude.Keeps.{
  Keeps, Keeps_after, Keeps_across, Keeps-choice, Keeps-maybe, Keeps_outcome,
}
use aeron_cluster_cpp.Aeron.{Constants}
use aeron_cluster_cpp.Proxy.{Proxy}
use aeron_cluster_cpp.RecoveryState.{
  get_snapshot_recording_id, get_log_position, get_timestamp, get_leadership_term_id,
}
use aeron_cluster_cpp.Snapshot.Loader.{Loader, fragment_limit, new_loader}
use aeron_cluster_cpp.Agent.State.{Agent, on_start}
use aeron_cluster_cpp.Agent.Service.{ack, notify}
use aeron_cluster_cpp.Agent.Launch.{
  LaunchDriver, Launch, or_find, resolve, all_resolved, proxy_connected, recover, load,
  load_snapshot, start_service, acknowledge_start, launch_step, poll_launch,
}
use aeron_cluster_cpp.Agent.Launch.Active.{poll_launch_gives}
use aeron_cluster_cpp.Program.{await_agent}
use aeron_cluster_cpp.Cycle.Stable.{Holds}
use aeron_cluster_cpp.Cycle.Numbers.{GoesOn, Numbered}
use aeron_cluster_cpp.Cycle.Numbers.Requests.{Numbered-IsStable}

-- The agent that is being launched has the property.
abbrev pub Launching : ℤ → Launch → Type 0
Launching first l = Holds (Numbered first) l.agent

module _ ⦃c : Constants⦄ (first : ℤ) where
  -- A proxy that is found has sent nothing yet.
  GoesOn-found :
      (next : ℤ) (answers : ℕ → ℕ → ℤ) (o : Option ℕ) (q : Option Proxy)
      → GoesOn first next q
      → GoesOn first next (elim o [
        | none ↦ q
        | some p ↦ or_find q (some (record { answers = answers p; calls = 0; sent = [] }))
      ])
  unfolding or_find
  GoesOn-found next answers none q h = h
  GoesOn-found next answers (some p) (some q) h = h
  GoesOn-found next answers (some p) none h = ap some (sym h)

  module _ (d : LaunchDriver) where
    resolve-Launching : (l : Launch) → Launching first l → Launching first (resolve d l)
    unfolding resolve
    resolve-Launching l h =
        GoesOn-found l.agent.ack_id d.claim_answers
          (or_find l.publication (d.find_exclusive_publication l.publication_id)) l.agent.proxy h

    final-recording_id :
        (id : ℕ) (service_id : ℤ) (l : Launch)
        → final (get_snapshot_recording_id d.recovery_state_type_id d.counters id service_id l) ≡ l
    unfolding get_snapshot_recording_id
    final-recording_id id service_id l = ground arith

    recover-Keeps : (id : ℕ) → Keeps (Launching first) (recover d id)
    unfolding recover
    recover-Keeps id l h =
        let b : Launch = record l {
          agent = record (l.agent) {
            log_position = get_log_position d.recovery_state_type_id d.counters id;
            cluster_time = get_timestamp d.recovery_state_type_id d.counters id;
            leadership_term_id = get_leadership_term_id d.recovery_state_type_id d.counters id;
          };
        } in
        Keeps-choice (Launching first)
          (get_leadership_term_id d.recovery_state_type_id d.counters id ==ℤ c.null_value) _ _ h
          (Keeps_after (Launching first)
            (get_snapshot_recording_id d.recovery_state_type_id d.counters id l.agent.ctx.service_id
              b)
            _ (λ e k. throws e k)
            (subst (Launching first) (sym (final-recording_id id l.agent.ctx.service_id b)) h)
            (λ x k i. Keeps-choice (Launching first) d.replay_starts _ _ i i) (λ e k i. i))

    load-Keeps : (image : ℕ) (k : Loader) → Keeps (Launching first) (load d image k)
    unfolding load
    load-Keeps image k l h = Keeps-choice (Launching first) k.is_done _ _ h (
        Keeps_outcome (Launching first)
          (d.loader_poll fragment_limit (record k { table = l.agent.table })) _ _
          (λ n k'. Keeps-choice (Launching first) (not (n ==ℤ pos 0)) _ _ h (
            Keeps-choice (Launching first) (not d.archive_fine) _ _ h
              (Keeps-choice (Launching first) (d.image_closed image) _ _ h h)))
          (λ e k'. h))

    load_snapshot-Keeps : Keeps (Launching first) (load_snapshot d)
    unfolding load_snapshot
    load_snapshot-Keeps l h =
        let subscription : Option ℕ =
          or_find l.snapshot_subscription (d.find_subscription l.snapshot_subscription_id) in
        let with_subscription : Launch = record l { snapshot_subscription = subscription } in
        Keeps-maybe (Launching first) subscription (returns none with_subscription) _ h (λ s.
          let image : Option ℕ =
            or_find l.snapshot_image (d.image_by_session_id s l.snapshot_session_id) in
          let with_image : Launch = record with_subscription { snapshot_image = image } in
          Keeps-maybe (Launching first) image (returns none with_image) _ h (λ i.
            Keeps-maybe (Launching first) l.snapshot_loader
              (load d i (new_loader d.loader_memory l.agent.table) with_image)
              (λ k. load d i k with_image)
              (load-Keeps i (new_loader d.loader_memory l.agent.table) with_image h)
              (λ k. load-Keeps i k with_image h)))

    start_service-Keeps : Keeps (Launching first) (start_service d)
    unfolding start_service
    start_service-Keeps l h =
        Keeps_across (Launching first) (Holds (Numbered first))
          (notify (on_start l.snapshot_image) l.agent) _ _
          ((Numbered-IsStable first).notify_keeps (on_start l.snapshot_image) l.agent h)
          (λ x a k. k) (λ e a k. k)

    acknowledge_start-Keeps : Keeps (Launching first) (acknowledge_start d)
    unfolding acknowledge_start
    acknowledge_start-Keeps l h =
        Keeps_across (Launching first) (Holds (Numbered first)) (ack d.client_id l.agent) _ _
          ((Numbered-IsStable first).ack_keeps d.client_id l.agent h)
          (λ sent a k. Keeps-choice (Launching first) sent _ _ k k) (λ e a k. k)

    launch_step-Keeps : Keeps (Launching first) (launch_step d)
    unfolding launch_step
    launch_step-Keeps l h =
        Keeps-choice (Launching first) (l.step == 1) _ _
          (Keeps-maybe (Launching first) l.recovery_counter_id (returns none l)
            (λ id. recover d id l) h (λ id. recover-Keeps id l h))
          (Keeps-choice (Launching first) (l.step == 2) _ _ (load_snapshot-Keeps l h) (
            Keeps-choice (Launching first) (l.step == 3) _ _ (start_service-Keeps l h)
              (Keeps-choice (Launching first) (l.step == 4) _ _ (acknowledge_start-Keeps l h) h)))

    poll_launch-Keeps : Keeps (Launching first) (poll_launch d)
    unfolding poll_launch
    poll_launch-Keeps l h =
        let k = resolve-Launching l h in
        Keeps-choice (Launching first) (all_resolved d (resolve d l)) _ _
          (Keeps-choice (Launching first) (proxy_connected d (resolve d l)) _ _
            (launch_step-Keeps (record (resolve d l) { adapter_bound = true; step = 1 }) k) k)
          (launch_step-Keeps (resolve d l) k)

  pub await_agent-Numbered :
      (rounds : ℕ) (ds : ℕ → LaunchDriver) (l m : Launch) (a : Agent)
      → Launching first l
      → await_agent rounds ds l ≡ returns a m
      → Holds (Numbered first) a
  unfolding await_agent
  await_agent-Numbered zero ds l m a h e = absurd (ground arith)
  await_agent-Numbered (suc rounds) ds l m a h e = elim (Outcome-cases (poll_launch (ds 0) l)) [
    | inr (x, k, f) ↦ absurd (ground arith)
    | inl (found, k, f) ↦
        let kept : Launching first k =
          subst (λ o. Launching first (final o)) f (poll_launch-Keeps (ds 0) l h) in
        elim (Option-cases found) [
          | inl g ↦ await_agent-Numbered rounds (λ n. ds (suc n)) k m a kept (ground arith)
          | inr (b, g) ↦
              let (at, sender, sent, active, held) =
                poll_launch_gives (ds 0) l k b (ground arith) in
              let same : k.agent ≡ a = ground (arith, held) in
              subst (Holds (Numbered first)) same kept
        ]
  ]
