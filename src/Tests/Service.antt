-- ===== src/Tests/Service.antt =====
-- The theorems on the proxy, on snapshots and on callbacks, at sample inputs (src/service/).
use aeron_cluster_cpp.Prelude.{
  ℕ, zero, suc, [], ◌∷◌, ◌≡◌, refl, true, false, none, some, pos, negsuc, arith, ◌⊎◌, inl, inr,
  ◌<ℤ◌,
}
use aeron_cluster_cpp.Prelude.Outcome.{returns, throws, bad_publication_state, out_of_fuel, final}
use aeron_cluster_cpp.Publication.{is_fatal}
use aeron_cluster_cpp.Publication.Settles.{IsFirst, IsLost, AllRetried}
use aeron_cluster_cpp.Proxy.{close_session, claim}
use aeron_cluster_cpp.Proxy.Claim.{claim_settled}
use aeron_cluster_cpp.Snapshot.Format.{mark_begin, SnapshotMessage}
use aeron_cluster_cpp.Snapshot.Taker.{offer, snapshot_state}
use aeron_cluster_cpp.Snapshot.Taker.Written.{
  Accepts, Wrote, edge, offer_settled, snapshot_messages, snapshot_state-Wrote,
}
use aeron_cluster_cpp.Snapshot.Loader.{Loader, SnapshotCodec}
use aeron_cluster_cpp.Agent.State.{on_start}
use aeron_cluster_cpp.Agent.Service.{notify}
use aeron_cluster_cpp.Agent.Service.Core.{core, notify-KeepsCore}
use aeron_cluster_cpp.Tests.Samples.{
  aeron_constants, busy_answers, fresh_publication, two_sessions, agent, closing,
}

busy_cases :
    (n : ℕ)
    → (busy_answers n ≡ pos 64) ⊎ ((busy_answers n ≡ negsuc 1) × (busy_answers (suc n) ≡ pos 64))
busy_cases zero = inr (refl, refl)
busy_cases (suc zero) = inl refl
busy_cases (suc (suc n)) = busy_cases n

pub busy-Accepts : Accepts 2 busy_answers
unfolding is_fatal
busy-Accepts n = elim (busy_cases n) [
  | inl e ↦ (suc n, ground arith)
  | inr (e, f) ↦ (suc (suc n), ground arith)
]

snapshot_state-Wrote_example :
    Wrote
      (fresh_publication busy_answers)
      (snapshot_messages (pos 64) (pos 1) (pos 3) two_sessions.sessions)
      (snapshot_state 2
        (pos 64)
        (pos 1)
        (pos 3)
        two_sessions.sessions
        (fresh_publication busy_answers))
snapshot_state-Wrote_example =
    snapshot_state-Wrote 2 (pos 64) (pos 1) (pos 3) two_sessions.sessions
      (fresh_publication busy_answers) busy-Accepts

-- A decoder that reads one byte from behind the field.
abbrev pub decoder : SnapshotCodec
decoder = record { schema_id = 110; read_principal = λ s. some (0 ∷ []) }

notify-KeepsCore_example :
    core (final (notify (on_start none) (agent closing))) ≡ core (agent closing)
notify-KeepsCore_example = notify-KeepsCore (on_start none) (agent closing)

claim_settled_example :
    ((m : ℕ) × IsFirst busy_answers 0 3 m
      × (pos 0 <ℤ busy_answers m)
      × (claim (close_session (pos 5)) (fresh_publication busy_answers)
          ≡ returns true (record {
            answers = busy_answers;
            calls = suc m;
            sent = close_session (pos 5) ∷ [];
          })))
    ⊎ (((m : ℕ) × IsFirst busy_answers 0 3 m
          × IsLost (busy_answers m)
          × (claim (close_session (pos 5)) (fresh_publication busy_answers)
              ≡ throws bad_publication_state
                  (record { answers = busy_answers; calls = suc m; sent = [] })))
        ⊎ (AllRetried busy_answers 0 3
            × (claim (close_session (pos 5)) (fresh_publication busy_answers)
                ≡ returns false (record { answers = busy_answers; calls = 3; sent = [] }))))
claim_settled_example = claim_settled (close_session (pos 5)) (fresh_publication busy_answers)

abbrev begin : SnapshotMessage
begin = edge (pos 64) (pos 1) (pos 3) mark_begin

offer_settled_example :
    ((m : ℕ) × IsFirst busy_answers 0 2 m
      × (pos 0 <ℤ busy_answers m)
      × (offer 2 begin (fresh_publication busy_answers)
          ≡ returns tt (record { answers = busy_answers; calls = suc m; sent = begin ∷ [] })))
    ⊎ (((m : ℕ) × IsFirst busy_answers 0 2 m
          × IsLost (busy_answers m)
          × (offer 2 begin (fresh_publication busy_answers)
              ≡ throws bad_publication_state
                  (record { answers = busy_answers; calls = suc m; sent = [] })))
        ⊎ (AllRetried busy_answers 0 2
            × (offer 2 begin (fresh_publication busy_answers)
                ≡ throws out_of_fuel (record { answers = busy_answers; calls = 2; sent = [] }))))
offer_settled_example = offer_settled 2 begin (fresh_publication busy_answers)
