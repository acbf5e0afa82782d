-- ===== src/RecoveryState/First.antt =====
-- Which counter the searches of src/service/RecoveryState.cpp and src/service/ClusterCounters.cpp find.
use aeron_cluster_cpp.Prelude.{
  ℕ, zero, suc, ◌+◌, ◌<◌, ◌≡◌, refl, ◌↔◌, Bool, true, false, not, ◌&&◌, some, ℤ, pos, ◌<ℤ◌, ◌≤ℤ◌,
  ◌==ℤ◌, arith,
}
use aeron_cluster_cpp.Prelude.Outcome.{returns}
use aeron_cluster_cpp.ClusterCounters.{
  CountersReader, CounterState, record_unused, record_allocated, record_reclaimed, is_allocated,
  scan,
}
use aeron_cluster_cpp.RecoveryState.{
  find_counter, is_active, get_snapshot_recording_id, cluster_id_offset, service_count_offset,
  recording_id_offset,
}

-- A record that the search takes, and one that it passes over.
unfoldable pub is_taken : CountersReader → (ℕ → Bool) → ℕ → Bool
is_taken counters test i = is_allocated (counters.counter_state i) && test i

unfoldable pub is_passed : CountersReader → (ℕ → Bool) → ℕ → Bool
is_passed counters test i = elim (counters.counter_state i) [
  | record_unused ↦ false
  | record_allocated ↦ not (test i)
  | record_reclaimed ↦ true
]

-- The `n` records from `i` on are passed over.
unfoldable pub are_passed : CountersReader → (ℕ → Bool) → ℕ → ℕ → Bool
are_passed counters test i zero = true
are_passed counters test i (suc n) = is_passed counters test i && are_passed counters test (suc i) n

scan_found :
    (counters : CountersReader) (test : ℕ → Bool) (i left n : ℕ)
    → n < left
    → are_passed counters test i n ≡ true
    → is_taken counters test (i + n) ≡ true
    → scan counters test i left ≡ some (i + n)
unfolding scan are_passed is_passed is_taken is_allocated
scan_found counters test i zero n l p t = absurd (omega arith)
scan_found counters test i (suc left) zero l p t = ground arith
scan_found counters test i (suc left) (suc n) l p t =
    ground (arith, scan_found counters test (suc i) left n)

-- What a search that found something has seen.
abbrev Saw : CountersReader → (ℕ → Bool) → ℕ → ℕ → ℕ → Type 0
Saw counters test i left j =
    (n : ℕ) × (j ≡ i + n)
    × (n < left)
    × (are_passed counters test i n ≡ true)
    × (is_taken counters test j ≡ true)

Saw-later :
    (counters : CountersReader) (test : ℕ → Bool) (i left j : ℕ)
    → is_passed counters test i ≡ true
    → Saw counters test (suc i) left j
    → Saw counters test i (suc left) j
unfolding are_passed
Saw-later counters test i left j p (n, e, l, q, t) =
    (suc n, omega arith, omega arith, ground arith, t)

scan-Saw :
    (counters : CountersReader) (test : ℕ → Bool) (i left j : ℕ)
    → scan counters test i left ≡ some j
    → Saw counters test i left j
unfolding scan are_passed is_taken is_passed is_allocated
scan-Saw counters test i zero j e = cc
scan-Saw counters test i (suc left) j e =
    state (counters.counter_state i) refl (scan-Saw counters test (suc i) left j)
  where
    state :
        (s : CounterState)
        → counters.counter_state i ≡ s
        → (scan counters test (suc i) left ≡ some j → Saw counters test (suc i) left j)
        → Saw counters test i (suc left) j
    state record_unused f rest = absurd (ground arith)
    state record_reclaimed f rest =
        Saw-later counters test i left j (ground arith) (rest (ground arith))
    state record_allocated f rest = taken (test i) refl
      where
        taken : (b : Bool) → test i ≡ b → Saw counters test i (suc left) j
        taken true g = (0, ground arith, omega arith, refl, ground arith)
        taken false g = Saw-later counters test i left j (ground arith) (rest (ground arith))

-- The test that `findCounter` makes of an allocated counter.
abbrev pub has_recovery_key : ℤ → CountersReader → ℤ → ℕ → Bool
has_recovery_key type_id counters cluster_id i =
    counters.counter_type_id i ==ℤ type_id && counters.key_int32 i cluster_id_offset ==ℤ cluster_id

-- `findCounter` finds a counter exactly if it is below the maximal id, is allocated with the type and
-- the cluster's id, and before it are only counters that were reclaimed or are allocated to
-- something else: it is the first such counter before the first record that was never used.
pub find_counter_first :
    (type_id : ℤ) (counters : CountersReader) (cluster_id : ℤ) (j : ℕ)
    → (find_counter type_id counters cluster_id ≡ some j) ↔ (
        (j < counters.max_counter_id)
        × (are_passed counters (has_recovery_key type_id counters cluster_id) 0 j ≡ true)
        × (is_taken counters (has_recovery_key type_id counters cluster_id) j ≡ true))
unfolding find_counter
find_counter_first type_id counters cluster_id j = (
  λ e. first (
      scan-Saw counters (has_recovery_key type_id counters cluster_id) 0 counters.max_counter_id j
        e),
  λ (l, p, t). ground (
    arith,
    scan_found counters (has_recovery_key type_id counters cluster_id) 0 counters.max_counter_id j,
  ),
)
  where
    first :
        Saw counters (has_recovery_key type_id counters cluster_id) 0 counters.max_counter_id j
        → (j < counters.max_counter_id)
          × (are_passed counters (has_recovery_key type_id counters cluster_id) 0 j ≡ true)
          × (is_taken counters (has_recovery_key type_id counters cluster_id) j ≡ true)
    first (n, e, l, p, t) = let same : j ≡ n = omega arith in (omega arith, rw same p, t)

-- A recording id that is returned was read for a service of the recovery, at the place of that
-- service in the key: the counter is active, and the service's id is at least 0 and below the count.
pub snapshot_recording_id-bounds :
    {S : Type 0} (type_id : ℤ) (counters : CountersReader) (id : ℕ) (service_id value : ℤ) (s t : S)
    → get_snapshot_recording_id type_id counters id service_id s ≡ returns value t
    → (is_active type_id counters id ≡ true)
      × (pos 0 ≤ℤ service_id)
      × (service_id <ℤ counters.key_int32 id service_count_offset)
      × (value ≡ counters.key_int64 id (recording_id_offset service_id))
unfolding get_snapshot_recording_id
snapshot_recording_id-bounds type_id counters id service_id value s t e =
    (ground arith, ground arith, ground arith, ground arith)
