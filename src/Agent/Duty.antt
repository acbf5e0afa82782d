-- ===== src/Agent/Duty.antt =====
-- The duty cycle: `doWork` of src/service/ClusteredServiceAgent.cpp and what it calls.
pub mod Clock
pub mod Snapshot
pub mod Positions
use aeron_cluster_cpp.Prelude.{
  ℕ, ◌==◌, if◌then◌else◌, Bool, true, false, not, ◌&&◌, ◌||◌, none, some, ℤ, pos, ltb_ℤ, leb_ℤ,
  ◌+ℤ◌, ◌-ℤ◌, ◌==ℤ◌,
}
use aeron_cluster_cpp.Prelude.Outcome.{
  M, Outcome, returns, throws, aeron_closed, commit_position_closed, archive_error, undefined, pure,
  throw, ◌>>=◌, ◌>>◌, get, modify, when,
}
use aeron_cluster_cpp.Aeron.{Constants}
use aeron_cluster_cpp.Snapshot.Taker.{snapshot_state}
use aeron_cluster_cpp.Agent.State.{Agent, SnapshotState, on_take_snapshot}
use aeron_cluster_cpp.Agent.Driver.{Driver}
use aeron_cluster_cpp.Agent.Service.{ack, notify}
use aeron_cluster_cpp.Agent.Events.{terminate}
use aeron_cluster_cpp.Agent.Log.{is_done, join_active_log, close_log}

-- `onUnavailableCounter`.
unfoldable pub unavailable_counter : ℤ → ℕ → Agent → Agent
unavailable_counter registration_id id a = elim a.commit_position [
  | none ↦ a
  | some k ↦
      if k.registration_id ==ℤ registration_id && k.id == id
      then record a { commit_position = none }
      else a
]

unfoldable pub aborted : M Agent Bool
aborted a = throws aeron_closed (record a { is_abort = true })

unfoldable commit_closed : Driver → Agent → Bool
commit_closed d a = elim a.commit_position [ none ↦ false | some k ↦ d.counter_closed k.id ]

-- `checkForClockTick`, at most once in a millisecond.
unfoldable pub check_for_clock_tick : Driver → ℤ → M Agent Bool
unfolding aborted commit_closed ◌-ℤ◌ ◌+ℤ◌
check_for_clock_tick d now_ns a =
    let b : Agent = record a { last_slow_tick_ns = now_ns } in
    let ticked : Agent =
      if leb_ℤ b.mark_file_update_deadline_ms d.epoch_clock
      then record b { mark_file_update_deadline_ms = d.epoch_clock +ℤ pos 1 }
      else b in
    if a.is_abort || d.is_closed
    then aborted a
    else if ltb_ℤ (pos 1000000) (now_ns -ℤ a.last_slow_tick_ns)
    then (if a.is_abort || d.is_closed_after_invoke
        then aborted b
        else if commit_closed d b
        then throws commit_position_closed b
        else returns true ticked)
    else returns false a

module _ ⦃c : Constants⦄ where
  -- The parts of `SnapshotState::doWork`, each of which goes on with the next.
  unfoldable pub set_snapshot : SnapshotState → Agent → Agent
  set_snapshot s a = record a { current_snapshot = some s }

  -- The recording has caught up: acknowledge it.
  unfoldable pub acknowledge_snapshot : Driver → SnapshotState → ℕ → M Agent Bool
  unfolding ack
  acknowledge_snapshot d s publication =
      if ltb_ℤ (d.recording_position s.recording_counter_id) (d.publication_position publication)
      then pure false
      else ack s.recording_id

  -- The application writes its part, until it says that it is complete.
  unfoldable pub complete_snapshot : Driver → SnapshotState → ℕ → M Agent Bool
  unfolding acknowledge_snapshot notify set_snapshot
  complete_snapshot d s publication =
      let take : M Agent Bool = (do
        complete ← notify (on_take_snapshot publication)
        modify (set_snapshot (record s { snapshot_complete = complete }))
        if complete
            then acknowledge_snapshot d (record s { snapshot_complete = true }) publication
            else pure false) in
      if s.snapshot_complete then acknowledge_snapshot d s publication else take

  -- The sessions are written as soon as the recording's counter is there.
  unfoldable pub write_sessions : ℕ → Driver → SnapshotState → ℕ → M Agent Bool
  unfolding complete_snapshot snapshot_state set_snapshot
  write_sessions rounds d s publication a =
      elim (snapshot_state rounds a.log_position a.leadership_term_id a.ctx.app_version
        a.table.sessions s.output) [
          | throws e p ↦ throws e (set_snapshot (record s { output = p }) a)
          | returns _ p ↦
              let s' : SnapshotState = record s { output = p } in
              complete_snapshot d s' publication (set_snapshot s' a)
        ]

  unfoldable pub find_recording : ℕ → Driver → SnapshotState → ℕ → M Agent Bool
  unfolding write_sessions set_snapshot
  find_recording rounds d s publication a =
      let id : ℤ = d.recording_counter_of (d.publication_session_id publication) in
      let missing : Outcome Agent Bool =
        if d.archive_fine then returns false a else throws archive_error a in
      let s' : SnapshotState = record s {
        recording_counter_id = id;
        recording_id = d.recording_id_of id;
      } in
      if s.recording_counter_id ==ℤ c.null_counter_id
      then (if id ==ℤ c.null_counter_id
          then missing
          else write_sessions rounds d s' publication (set_snapshot s' a))
      else complete_snapshot d s publication a

  unfoldable pub snapshot_do_work : ℕ → Driver → SnapshotState → M Agent Bool
  unfolding find_recording set_snapshot
  snapshot_do_work rounds d s a = elim s.publication [
    | some publication ↦ find_recording rounds d s publication a
    | none ↦ elim (d.find_exclusive_publication s.publication_id) [
      | none ↦ returns false a
      | some publication ↦
          let s' : SnapshotState = record s {
            publication = some publication;
            output = record (s.output) { answers = d.offer_answers publication };
          } in
          if d.recording_starts
          then find_recording rounds d s' publication (set_snapshot s' a)
          else throws archive_error (set_snapshot s' a)
    ]
  ]

  -- The tests of `pollServiceAdapter` that follow the poll.
  unfoldable pub check_positions : M Agent (Unit {0})
  unfolding terminate ack
  check_positions = do
    a ← get
    when
        (not (a.termination_position ==ℤ c.null_position)
          && leb_ℤ a.termination_position a.log_position)
        (terminate (a.log_position ==ℤ a.termination_position))
    b ← get
    let acknowledge : M Agent (Unit {0}) = do _ ← ack c.null_value; pure tt
    when
        (not (b.requested_ack_position ==ℤ c.null_position)
          && leb_ℤ b.requested_ack_position b.log_position)
        acknowledge

  -- `pollServiceAdapter`, for what `m_serviceAdapter->poll()` does.
  unfoldable pub poll_service_adapter : Driver → M Agent ℕ → M Agent ℕ
  unfolding join_active_log check_positions
  poll_service_adapter d poll = do
    polled ← poll
    a ← get
    let checked : M Agent ℕ = do check_positions; pure polled
    elim a.log_adapter.image [
      | some _ ↦ checked
      | none ↦ elim a.active_log_event [
        | none ↦ checked
        | some e ↦ do
          joined ← join_active_log d e
          let cleared : M Agent ℕ = do modify λ b. record b { active_log_event = none }; pure polled
          if joined then cleared else checked
      ]
    ]

  -- The end of `doWork`: the log is polled up to the commit position.
  unfoldable pub poll_log : Driver → (ℤ → M Agent ℕ) → (ℕ → ℤ) → M Agent (Unit {0})
  unfolding is_done close_log
  poll_log d poll counter_value = do
    a ← get
    elim a.log_adapter.image [
      | none ↦ pure tt
      | some _ ↦ elim a.commit_position [
        | none ↦ throw undefined
        | some k ↦ do
          polled ← poll (counter_value k.id)
          b ← get
          when (polled == 0 && is_done d b.log_adapter) (close_log d)
      ]
    ]

  -- `doWork`.
  unfoldable pub do_work : ℕ → Driver → M Agent ℕ → (ℤ → M Agent ℕ) → M Agent (Unit {0})
  unfolding snapshot_do_work check_for_clock_tick poll_service_adapter poll_log
  do_work rounds d poll_service poll_image a =
      let work : M Agent (Unit {0}) = (do
        ticks ← check_for_clock_tick d d.nano_clock
        let served : M Agent (Unit {0}) = do _ ← poll_service_adapter d poll_service; pure tt
        when ticks served
        poll_log d poll_image d.counters.counter_value) in
      elim a.current_snapshot [
        | none ↦ work a
        | some s ↦ elim (snapshot_do_work rounds d s a) [
          | throws e b ↦ throws e b
          | returns finished b ↦
              let rest : Outcome Agent (Unit {0}) = work (record b { current_snapshot = none }) in
              if finished then rest else returns tt b
        ]
      ]
