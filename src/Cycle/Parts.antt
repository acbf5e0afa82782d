-- ===== src/Cycle/Parts.antt =====
-- The parts of a duty cycle (src/service/ClusteredServiceAgent.cpp, `doWork`) keep what their few changes
-- keep, but for what the polls do.
use aeron_cluster_cpp.Prelude.{
  ℕ, ◌==◌, Bool, true, false, not, ◌&&◌, none, some, ℤ, leb_ℤ, ◌==ℤ◌, arith, Option-cases, inl, inr,
}
use aeron_cluster_cpp.Prelude.Outcome.{
  M, returns, throws, undefined, log_not_contiguous, event_not_contiguous, pure, throw, ◌>>=◌, ◌>>◌,
  modify, when,
}
use aeron_cluster_cpp.Prelude.Keeps.{
  Keeps, Keeps_after, Keeps-bind, Keeps-then, Keeps-if, Keeps-choice, Keeps-when, Keeps-option,
  Keeps-maybe,
}
use aeron_cluster_cpp.Aeron.{Constants}
use aeron_cluster_cpp.Agent.State.{Agent, ActiveLogEvent, follower}
use aeron_cluster_cpp.Agent.Driver.{Driver}
use aeron_cluster_cpp.Agent.Service.{ack, set_role}
use aeron_cluster_cpp.Agent.Events.{terminate}
use aeron_cluster_cpp.Agent.Log.{
  is_done, seek_subscription_id, seek_subscription, seek_image, keep_event, rejoin_sessions,
  take_image, join_active_log, close_log,
}
use aeron_cluster_cpp.Agent.Duty.{
  aborted, check_for_clock_tick, snapshot_do_work, check_positions, poll_service_adapter, poll_log,
  do_work,
}
use aeron_cluster_cpp.Cycle.Snapshot.{snapshot_do_work-Keeps}
use aeron_cluster_cpp.Cycle.Stable.{Part, Holds, IsStable, set_role-Keeps}

module _ ⦃c : Constants⦄ (P : Part) (laws : IsStable P) (d : Driver) where
  take_image-Keeps : (e : ActiveLogEvent) (image : ℕ) → Keeps (Holds P) (take_image d e image)
  unfolding take_image keep_event
  take_image-Keeps e image a h =
      Keeps-if (Holds P) (not (d.image_join_position image ==ℤ a.log_position))
        (throw log_not_contiguous) _ (λ b k. k)
        (Keeps-if (Holds P) (not (e.log_position ==ℤ a.log_position)) (throw event_not_contiguous) _
          (λ b k. k)
          (λ b k.
            Keeps-bind (Holds P) (ack c.null_value) _ (laws.ack_keeps c.null_value)
              (λ x b1 k1.
                Keeps-then (Holds P) (modify (rejoin_sessions d e)) (set_role e.role >> pure true)
                  (laws.rejoin_keeps d e)
                  (Keeps-then (Holds P) (set_role e.role) (pure true) (set_role-Keeps P laws e.role)
                    (λ b2 k2. k2))
                  (record b1 { member_id = e.member_id }) k1)
              (record b {
                log_adapter = record (b.log_adapter) {
                  image = some image;
                  max_log_position = e.max_log_position;
                };
                active_log_event = some (record e { subscription = none });
              })
              k))
        (keep_event e a) h

  pub join_active_log-Keeps : (e : ActiveLogEvent) → Keeps (Holds P) (join_active_log d e)
  unfolding join_active_log keep_event
  join_active_log-Keeps e a h =
      let e1 : ActiveLogEvent = seek_subscription_id d e in
      let e2 : ActiveLogEvent = seek_subscription d e1 in
      Keeps-choice (Holds P) (e1.log_subscription_id ==ℤ c.null_value) _ _ h (
        Keeps-maybe (Holds P) e2.subscription (returns false (keep_event e2 a)) _ h (λ s.
          Keeps-maybe (Holds P) (seek_image d s e2).image
            (returns false (keep_event (seek_image d s e2) a)) _ h
            (λ image. take_image-Keeps (seek_image d s e2) image a h)))

  pub close_log-Keeps : Keeps (Holds P) (close_log d)
  unfolding close_log
  close_log-Keeps a h = elim (Option-cases a.log_adapter.image) [
    | inl e ↦ rw e h
    | inr (image, e) ↦ rw e (set_role-Keeps P laws follower _ h)
  ]

  check_for_clock_tick-Keeps : (now_ns : ℤ) → Keeps (Holds P) (check_for_clock_tick d now_ns)
  unfolding check_for_clock_tick aborted
  check_for_clock_tick-Keeps now_ns a h = ground arith

  check_positions-Keeps : Keeps (Holds P) check_positions
  unfolding check_positions terminate
  check_positions-Keeps a h =
      let terminates : Bool =
        not (a.termination_position ==ℤ c.null_position)
        && leb_ℤ a.termination_position a.log_position in
      let acknowledge : M Agent (Unit {0}) = (do _ ← ack c.null_value; pure tt) in
      let asked : Agent → Bool = λ b.
        not (b.requested_ack_position ==ℤ c.null_position)
        && leb_ℤ b.requested_ack_position b.log_position in
      Keeps-then (Holds P) (when terminates (pure tt)) (λ b. when (asked b) acknowledge b)
        (Keeps-when (Holds P) terminates (pure tt) (λ b k. k))
        (λ b k.
          Keeps-when (Holds P) (asked b) acknowledge
            (Keeps-bind (Holds P) (ack c.null_value) (λ _. pure tt) (laws.ack_keeps c.null_value)
              (λ x b1 k1. k1))
            b k)
        a h

  poll_service_adapter-Keeps :
      (poll : M Agent ℕ) → Keeps (Holds P) poll → Keeps (Holds P) (poll_service_adapter d poll)
  unfolding poll_service_adapter
  poll_service_adapter-Keeps poll h = Keeps-bind (Holds P) poll _ h (λ polled a k.
      let checked : M Agent ℕ = (do check_positions; pure polled) in
      let checked_keeps : Keeps (Holds P) checked =
        Keeps-then (Holds P) check_positions (pure polled) check_positions-Keeps (λ b l. l) in
      Keeps-option (Holds P) a.log_adapter.image _ _
        (Keeps-option (Holds P) a.active_log_event checked _ checked_keeps (λ event.
          Keeps-bind (Holds P) (join_active_log d event) _ (join_active_log-Keeps event)
            (λ joined. Keeps-if (Holds P) joined _ checked (λ b l. l) checked_keeps)))
        (λ image. checked_keeps) a k)

  poll_log-Keeps :
      (poll : ℤ → M Agent ℕ) (counter_value : ℕ → ℤ)
      → ((limit : ℤ) → Keeps (Holds P) (poll limit))
      → Keeps (Holds P) (poll_log d poll counter_value)
  unfolding poll_log
  poll_log-Keeps poll counter_value h a k =
      Keeps-option (Holds P) a.log_adapter.image (pure tt) _ (λ b l. l)
        (λ image.
          Keeps-option (Holds P) a.commit_position (throw undefined) _ (λ b l. l)
            (λ counter.
              Keeps-bind (Holds P) (poll (counter_value counter.id)) _
                (h (counter_value counter.id))
                (λ polled b l.
                  Keeps-when (Holds P) (polled == 0 && is_done d b.log_adapter) (close_log d)
                    close_log-Keeps b l)))
        a k

  -- A duty cycle keeps what the polls keep.
  pub do_work-Keeps :
      (rounds : ℕ) (poll_service : M Agent ℕ) (poll_image : ℤ → M Agent ℕ)
      → Keeps (Holds P) poll_service
      → ((limit : ℤ) → Keeps (Holds P) (poll_image limit))
      → Keeps (Holds P) (do_work rounds d poll_service poll_image)
  unfolding do_work
  do_work-Keeps rounds poll_service poll_image hs hi a h =
      let served : M Agent (Unit {0}) = (do _ ← poll_service_adapter d poll_service; pure tt) in
      let work : M Agent (Unit {0}) = (do
        ticks ← check_for_clock_tick d d.nano_clock
        when ticks served
        poll_log d poll_image d.counters.counter_value) in
      let served_keeps : Keeps (Holds P) served =
        Keeps-bind (Holds P) (poll_service_adapter d poll_service) (λ _. pure tt)
          (poll_service_adapter-Keeps poll_service hs) (λ x b k. k) in
      let work_keeps : Keeps (Holds P) work =
        Keeps-bind (Holds P) (check_for_clock_tick d d.nano_clock) _
          (check_for_clock_tick-Keeps d.nano_clock)
          (λ ticks.
            Keeps-then (Holds P) (when ticks served) _
              (Keeps-when (Holds P) ticks served served_keeps)
              (poll_log-Keeps poll_image d.counters.counter_value hi)) in
      Keeps-maybe (Holds P) a.current_snapshot (work a) _ (work_keeps a h) (λ s.
        Keeps_after (Holds P) (snapshot_do_work rounds d s a) _ (λ e b. throws e b)
          (snapshot_do_work-Keeps P laws d rounds s a h)
          (λ finished b k.
            Keeps-choice (Holds P) finished (work (record b { current_snapshot = none }))
              (returns tt b) (work_keeps (record b { current_snapshot = none }) k) k)
          (λ e b k. k))
