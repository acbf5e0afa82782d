-- ===== src/ClusterCounters.antt =====
-- Counters of the media driver: src/service/ClusterCounters.cpp, and the search that
-- src/service/RecoveryState.cpp makes in the same way.
-- The counters' metadata is the Aeron library's; what the code reads of it is the record below.
use aeron_cluster_cpp.Prelude.{
  ℕ, zero, suc, if◌then◌else◌, Bool, ◌&&◌, Option, none, some, ℤ, ◌==ℤ◌,
}

pub data CounterState : Type 0 where
  record_unused record_allocated record_reclaimed : CounterState

-- A counter's registration, as `ClusterCounters::find` returns it.
pub record Counter : Type 0 where
  pub registration_id : ℤ
  pub id : ℕ

pub record CountersReader : Type 0 where
  pub max_counter_id : ℕ
  pub counter_state : ℕ → CounterState
  pub counter_type_id : ℕ → ℤ
  pub counter_registration_id : ℕ → ℤ
  pub counter_value : ℕ → ℤ
  -- The key's bytes as an int32_t or an int64_t at an offset.
  pub key_int32 : ℕ → ℕ → ℤ
  pub key_int64 : ℕ → ℕ → ℤ

unfoldable pub is_allocated : CounterState → Bool
is_allocated record_allocated = Bool.true
is_allocated _ = Bool.false

-- `for (i = from; i < size; i++)` with `left` rounds to go: the first allocated counter that
-- `test` takes; a record that was never used ends the search.
unfoldable pub scan : CountersReader → (ℕ → Bool) → ℕ → ℕ → Option ℕ
scan counters test i zero = none
scan counters test i (suc left) =
    let rest = scan counters test (suc i) left in
    elim (counters.counter_state i) [
      | record_allocated ↦ if test i then some i else rest
      | record_unused ↦ none
      | record_reclaimed ↦ rest
    ]

-- `ClusterCounters::find`.
unfoldable pub find : CountersReader → ℤ → ℤ → Option Counter
unfolding scan
find counters type_id cluster_id =
    elim (scan counters
      (λ i. type_id ==ℤ counters.counter_type_id i && cluster_id ==ℤ counters.key_int32 i 0) 0
      counters.max_counter_id) [
        | none ↦ none
        | some i ↦ some (record { registration_id = counters.counter_registration_id i; id = i })
      ]
