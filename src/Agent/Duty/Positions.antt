-- ===== src/Agent/Duty/Positions.antt =====
-- A requested acknowledgement is sent once (src/service/ClusteredServiceAgent.cpp,
-- `pollServiceAdapter`).
use aeron_cluster_cpp.Prelude.{
  ◌≡◌, ◌≢◌, ◌⊎◌, inl, inr, ℕ, Bool, true, false, not, ◌&&◌, some, [], ◌∷◌, ◌++◌, pos, leb_ℤ, ◌==ℤ◌,
  ◌≤ℤ◌, ◌<ℤ◌, ◌+ℤ◌, ==ℤ_refl, ==ℤ_iff, arith, Bool-cases,
}
use aeron_cluster_cpp.Prelude.Outcome.{Outcome, returns, throws}
use aeron_cluster_cpp.Aeron.{Constants}
use aeron_cluster_cpp.Publication.{granted, exhausted, verdict, Verdict-cases}
use aeron_cluster_cpp.Proxy.{Proxy, attempts, service_ack}
use aeron_cluster_cpp.Agent.State.{Agent}
use aeron_cluster_cpp.Agent.Service.{ack}
use aeron_cluster_cpp.Agent.Service.Requests.{ack-verdict}
use aeron_cluster_cpp.Agent.Events.{terminate}
use aeron_cluster_cpp.Agent.Duty.{check_positions}

module _ ⦃c : Constants⦄ where
  -- Whether an acknowledgement was requested for a position that the log has reached.
  abbrev is_due : Agent → Bool
  is_due a =
      not (a.requested_ack_position ==ℤ c.null_position)
      && leb_ℤ a.requested_ack_position a.log_position

  check_idle : (a : Agent) → is_due a ≡ false → check_positions a ≡ returns tt a
  unfolding check_positions terminate
  check_idle a e = ground arith

  -- How a check ends that acknowledges.
  abbrev checked : Outcome Agent Bool → Outcome Agent (Unit {0})
  checked (returns x a) = returns tt a
  checked (throws e a) = throws e a

  check_due : (a : Agent) → is_due a ≡ true → check_positions a ≡ checked (ack c.null_value a)
  unfolding check_positions terminate
  check_due a e = ground arith

  due_parts :
      (a : Agent)
      → is_due a ≡ true
      → (a.requested_ack_position ≢ c.null_position) × (a.requested_ack_position ≤ℤ a.log_position)
  due_parts a g =
      (λ e. absurd (ground (arith, ==ℤ_iff a.requested_ack_position c.null_position)), ground arith)

  not_due :
      (a : Agent)
      → is_due a ≡ false
      → (a.requested_ack_position ≡ c.null_position) ⊎ (a.log_position <ℤ a.requested_ack_position)
  not_due a g = elim (Bool-cases (a.requested_ack_position ==ℤ c.null_position)) [
    | inl e ↦ inl ((==ℤ_iff a.requested_ack_position c.null_position).0 e)
    | inr e ↦ inr (ground arith)
  ]

  -- An agent after the acknowledgement that it was asked for.
  abbrev pub after_ack : Agent → Proxy → ℕ → Agent
  after_ack a p k = record a {
    proxy = some (record p {
      calls = k;
      sent =
          p.sent
          ++ service_ack a.log_position a.cluster_time a.ack_id c.null_value a.ctx.service_id ∷ [];
    });
    ack_id = a.ack_id +ℤ pos 1;
    requested_ack_position = c.null_position;
  }

  acknowledged :
      (a b : Agent) (p : Proxy)
      → a.proxy ≡ some p
      → check_positions a ≡ returns tt b
      → is_due a ≡ true
      → (k : ℕ) → verdict p.answers p.calls attempts ≡ granted k
      → b ≡ after_ack a p k
  acknowledged a b p e f g k h =
      ground (arith, check_due a g, ack-verdict c.null_value a p e, ==ℤ_refl c.null_value)

  withdrawn : (a b : Agent) (p : Proxy) (k : ℕ) → b ≡ after_ack a p k → is_due b ≡ false
  withdrawn a b p k h = ground (arith, ==ℤ_refl c.null_position)

  -- Checking the positions of an agent with a proxy that returns: where an acknowledgement was
  -- requested for a position that the log has reached, that is not the null position and at most the
  -- agent's, either the proxy granted it, and exactly one acknowledgement, with the agent's position,
  -- time and number, was added to what was sent, the number was increased, the request withdrawn, and a
  -- second check changes nothing; or the proxy took no request in its attempts, and nothing but the
  -- number of calls of its publication has changed, so that the request stands. Where none is due,
  -- nothing changes.
  pub check_positions_once :
      (a b : Agent) (p : Proxy)
      → a.proxy ≡ some p
      → check_positions a ≡ returns tt b
      → ((a.requested_ack_position ≢ c.null_position)
          × (a.requested_ack_position ≤ℤ a.log_position)
          × (k : ℕ) × (((verdict p.answers p.calls attempts ≡ granted k)
                × (b ≡ after_ack a p k)
                × (check_positions b ≡ returns tt b))
              ⊎ ((verdict p.answers p.calls attempts ≡ exhausted k)
                  × (b ≡ record a { proxy = some (record p { calls = k }) }))))
        ⊎ (((a.requested_ack_position ≡ c.null_position)
              ⊎ (a.log_position <ℤ a.requested_ack_position))
            × (b ≡ a))
  check_positions_once a b p e f = elim (Bool-cases (is_due a)) [
    | inr g ↦ inr (not_due a g, ground (arith, check_idle a g))
    | inl g ↦
        let wanted = due_parts a g in
        elim (Verdict-cases (verdict p.answers p.calls attempts)) [
          | inl (k, h) ↦
              let acked_once = acknowledged a b p e f g k h in
              inl (
                wanted.0,
                wanted.1,
                k,
                inl (h, acked_once, check_idle b (withdrawn a b p k acked_once)),
              )
          | inr m ↦ elim m [
            | inl (k, h) ↦ inl (
              wanted.0,
              wanted.1,
              k,
              inr (h, ground (arith, check_due a g, ack-verdict c.null_value a p e)),
            )
            | inr (k, h) ↦ absurd (ground (arith, check_due a g, ack-verdict c.null_value a p e))
          ]
        ]
  ]
