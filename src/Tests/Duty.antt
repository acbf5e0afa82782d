-- ===== src/Tests/Duty.antt =====
-- The theorems on the clock tick, at a driver that is open or closed
-- (src/service/ClusteredServiceAgent.cpp).
use aeron_cluster_cpp.Prelude.{◌≡◌, refl, true, ℤ, pos, ltb_ℤ, ◌-ℤ◌, ◌+ℤ◌}
use aeron_cluster_cpp.Prelude.Outcome.{returns, throws, aeron_closed}
use aeron_cluster_cpp.Agent.State.{Agent}
use aeron_cluster_cpp.Agent.Driver.{Driver}
use aeron_cluster_cpp.Agent.Duty.{check_for_clock_tick}
use aeron_cluster_cpp.Agent.Duty.Clock.{tick_interval, closed_for_good}
use aeron_cluster_cpp.Tests.Samples.{driver, agent, quiet}

abbrev ticked : ℤ → Agent → Agent
ticked now_ns a = record a { last_slow_tick_ns = now_ns; mark_file_update_deadline_ms = pos 6 }

first_tick :
    check_for_clock_tick driver (pos 5000000) (agent quiet)
    ≡ returns true (ticked (pos 5000000) (agent quiet))
unfolding check_for_clock_tick ◌-ℤ◌ ◌+ℤ◌
first_tick = refl

abbrev later : Driver
later = record driver { epoch_clock = pos 5 }

second_tick :
    check_for_clock_tick later (pos 9000000) (ticked (pos 5000000) (agent quiet))
    ≡ returns true (ticked (pos 9000000) (agent quiet))
unfolding check_for_clock_tick ◌-ℤ◌ ◌+ℤ◌
second_tick = refl

tick_interval_example : ltb_ℤ (pos 1000000) (pos 9000000 -ℤ pos 5000000) ≡ true
tick_interval_example =
    tick_interval driver later (pos 5000000) (pos 9000000) (agent quiet)
      (ticked (pos 5000000) (agent quiet)) (ticked (pos 9000000) (agent quiet)) first_tick
      second_tick

abbrev shut : Driver
shut = record driver { is_closed = true }

abbrev aborted_agent : Agent
aborted_agent = record (agent quiet) { is_abort = true }

found_closed :
    check_for_clock_tick shut (pos 5000000) (agent quiet) ≡ throws aeron_closed aborted_agent
unfolding check_for_clock_tick
found_closed = refl

closed_for_good_example :
    check_for_clock_tick driver (pos 9000000) aborted_agent ≡ throws aeron_closed aborted_agent
closed_for_good_example =
    closed_for_good shut driver (pos 5000000) (pos 9000000) (agent quiet) aborted_agent found_closed
