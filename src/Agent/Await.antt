-- ===== src/Agent/Await.antt =====
-- The waiting loops at the head of src/service/ClusteredServiceAgent.cpp. None has a bound of its own:
-- they run on rounds, with what the library answers in each; `idle` only passes time.
pub mod Ends
use aeron_cluster_cpp.Prelude.{
  ℕ, zero, suc, if◌then◌else◌, Bool, true, false, not, ◌⊎◌, inl, inr, Option, none, some, ℤ, ltb_ℤ,
  ◌==ℤ◌,
}
use aeron_cluster_cpp.Prelude.Outcome.{Fault, archive_error, recording_stopped, out_of_fuel}
use aeron_cluster_cpp.Aeron.{Constants}
use aeron_cluster_cpp.ClusterCounters.{Counter, CountersReader, find}

-- `awaitCounter`.
unfoldable pub await_counter : ℕ → (ℕ → CountersReader) → ℤ → ℤ → Fault ⊎ Counter
unfolding find
await_counter zero rounds type_id cluster_id = inl out_of_fuel
await_counter (suc left) rounds type_id cluster_id =
    let rest = await_counter left (λ n. rounds (suc n)) type_id cluster_id in
    elim (find (rounds 0) type_id cluster_id) [ some k ↦ inr k | none ↦ rest ]

-- What the archive and its counters answer in a round: the counter of the session, its value, and,
-- after idling, whether `checkForErrorResponse` returns and whether the recording is active.
pub record RecordingRound : Type 0 where
  pub counter_of_session : ℤ
  pub counter_value : ℤ
  pub archive_fine : Bool
  pub is_active : Bool

-- `awaitRecordingCounter`.
unfoldable pub await_recording_counter : ⦃c : Constants⦄ → ℕ → (ℕ → RecordingRound) → Fault ⊎ ℤ
await_recording_counter zero rounds = inl out_of_fuel
await_recording_counter ⦃c = c⦄ (suc left) rounds =
    let rest = await_recording_counter left (λ n. rounds (suc n)) in
    let r = rounds 0 in
    let waits : Fault ⊎ ℤ = if r.archive_fine then rest else inl archive_error in
    if c.null_counter_id ==ℤ r.counter_of_session then waits else inr r.counter_of_session

-- `awaitRecordingComplete`, up to a position.
unfoldable pub await_recording_complete : ℕ → (ℕ → RecordingRound) → ℤ → Fault ⊎ Unit {0}
await_recording_complete zero rounds position = inl out_of_fuel
await_recording_complete (suc left) rounds position =
    let rest = await_recording_complete left (λ n. rounds (suc n)) position in
    let r = rounds 0 in
    let GoesOn : Fault ⊎ Unit {0} = if r.is_active then rest else inl recording_stopped in
    let waits : Fault ⊎ Unit {0} = if r.archive_fine then GoesOn else inl archive_error in
    if ltb_ℤ r.counter_value position then waits else inr tt
