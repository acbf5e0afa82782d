-- ===== src/RecoveryState.antt =====
-- src/service/RecoveryState.{h,cpp}: the counter that tells a service where to start from. Each function
-- takes the type id of such counters first, a constant of the Aeron library.
pub mod First
use aeron_cluster_cpp.Prelude.{
  ℕ, ◌+◌, ◌*◌, if◌then◌else◌, Bool, ◌&&◌, ◌||◌, Option, ℤ, pos, ltb_ℤ, leb_ℤ, ◌==ℤ◌,
}
use aeron_cluster_cpp.Prelude.Outcome.{M, invalid_service_id, counter_not_found, pure, throw}
use aeron_cluster_cpp.Aeron.{Constants}
use aeron_cluster_cpp.ClusterCounters.{CountersReader, is_allocated, scan}

abbrev pub leadership_term_id_offset : ℕ
leadership_term_id_offset = 0

abbrev pub log_position_offset : ℕ
log_position_offset = leadership_term_id_offset + 8

abbrev pub timestamp_offset : ℕ
timestamp_offset = log_position_offset + 8

abbrev pub cluster_id_offset : ℕ
cluster_id_offset = timestamp_offset + 8

abbrev pub service_count_offset : ℕ
service_count_offset = cluster_id_offset + 4

abbrev pub snapshot_recording_ids_offset : ℕ
snapshot_recording_ids_offset = service_count_offset + 4

unfoldable pub find_counter : ℤ → CountersReader → ℤ → Option ℕ
unfolding scan
find_counter type_id counters cluster_id =
    scan counters
      (λ i.
        counters.counter_type_id i ==ℤ type_id
        && counters.key_int32 i cluster_id_offset ==ℤ cluster_id)
      0 counters.max_counter_id

unfoldable pub is_active : ℤ → CountersReader → ℕ → Bool
unfolding is_allocated
is_active type_id counters id =
    is_allocated (counters.counter_state id) && counters.counter_type_id id ==ℤ type_id

module _ ⦃c : Constants⦄ where
  unfoldable pub get_log_position : ℤ → CountersReader → ℕ → ℤ
  unfolding is_active
  get_log_position type_id counters id =
      if is_active type_id counters id
      then counters.key_int64 id log_position_offset
      else c.null_value

  unfoldable pub get_timestamp : ℤ → CountersReader → ℕ → ℤ
  unfolding is_active
  get_timestamp type_id counters id =
      if is_active type_id counters id then counters.key_int64 id timestamp_offset else c.null_value

  unfoldable pub get_leadership_term_id : ℤ → CountersReader → ℕ → ℤ
  unfolding is_active
  get_leadership_term_id type_id counters id =
      if is_active type_id counters id
      then counters.key_int64 id leadership_term_id_offset
      else c.null_value

-- `serviceId * sizeof(int64_t)`, for a `serviceId` that is not negative.
abbrev pub recording_id_offset : ℤ → ℕ
recording_id_offset (pos n) = snapshot_recording_ids_offset + n * 8
recording_id_offset _ = snapshot_recording_ids_offset

unfoldable pub get_snapshot_recording_id : {S : Type 0} → ℤ → CountersReader → ℕ → ℤ → M S ℤ
unfolding is_active
get_snapshot_recording_id type_id counters id service_id =
    if is_active type_id counters id
    then (if ltb_ℤ service_id (pos 0)
          || leb_ℤ (counters.key_int32 id service_count_offset) service_id
        then throw invalid_service_id
        else pure (counters.key_int64 id (recording_id_offset service_id)))
    else throw counter_not_found
