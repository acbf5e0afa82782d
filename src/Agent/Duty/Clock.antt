-- ===== src/Agent/Duty/Clock.antt =====
-- The clock tick of the duty cycle (src/service/ClusteredServiceAgent.cpp, `checkForClockTick`).
use aeron_cluster_cpp.Prelude.{◌≡◌, true, false, ℤ, pos, ltb_ℤ, ◌-ℤ◌, arith}
use aeron_cluster_cpp.Prelude.Outcome.{returns, throws, aeron_closed}
use aeron_cluster_cpp.Agent.State.{Agent}
use aeron_cluster_cpp.Agent.Driver.{Driver}
use aeron_cluster_cpp.Agent.Duty.{aborted, check_for_clock_tick}

tick_lem :
    (d : Driver) (now_ns : ℤ) (a b : Agent)
    → check_for_clock_tick d now_ns a ≡ returns true b
    → (ltb_ℤ (pos 1000000) (now_ns -ℤ a.last_slow_tick_ns) ≡ true)
      × (b.last_slow_tick_ns ≡ now_ns)
      × (b.is_abort ≡ false)
unfolding check_for_clock_tick aborted
tick_lem d now_ns a b e = (ground arith, ground arith, ground arith)

-- Two ticks in a row, which are what lets the agent poll the consensus module, are more than a
-- millisecond apart, whatever the clocks and the Aeron client answer.
pub tick_interval :
    (d d' : Driver) (first_ns second_ns : ℤ) (a b b' : Agent)
    → check_for_clock_tick d first_ns a ≡ returns true b
    → check_for_clock_tick d' second_ns b ≡ returns true b'
    → ltb_ℤ (pos 1000000) (second_ns -ℤ first_ns) ≡ true
tick_interval d d' first_ns second_ns a b b' e f =
    ground (arith, tick_lem d first_ns a b e, tick_lem d' second_ns b b' f)

closed_lem :
    (d : Driver) (now_ns : ℤ) (a b : Agent)
    → check_for_clock_tick d now_ns a ≡ throws aeron_closed b
    → b.is_abort ≡ true
unfolding check_for_clock_tick aborted
closed_lem d now_ns a b e = ground arith

-- Once a tick has found the Aeron client closed, every later one throws the same and changes nothing,
-- also if the client says that it is open.
pub closed_for_good :
    (d d' : Driver) (first_ns second_ns : ℤ) (a b : Agent)
    → check_for_clock_tick d first_ns a ≡ throws aeron_closed b
    → check_for_clock_tick d' second_ns b ≡ throws aeron_closed b
unfolding check_for_clock_tick aborted
closed_for_good d d' first_ns second_ns a b e = let f = closed_lem d first_ns a b e in ground arith
