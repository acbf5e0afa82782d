-- ===== src/Agent/Await/Ends.antt =====
-- When the waiting loops of src/service/ClusteredServiceAgent.cpp end.
use aeron_cluster_cpp.Prelude.{
  ℕ, zero, suc, ◌≤◌, ◌<◌, ◌≡◌, refl, ◌∙◌, if◌then◌else◌, ◌⊎◌, inl, inr, Option, none, some, ℤ,
  ltb_ℤ, ◌==ℤ◌, arith, Option-cases,
}
use aeron_cluster_cpp.Prelude.Outcome.{Fault, archive_error, recording_stopped, out_of_fuel}
use aeron_cluster_cpp.Aeron.{Constants}
use aeron_cluster_cpp.Agent.Await.{
  RecordingRound, await_recording_counter, await_recording_complete,
}

-- A loop that ends in the first round that decides.
unfoldable wait : {A R : Type 0} → (R → Option (Fault ⊎ A)) → ℕ → (ℕ → R) → Fault ⊎ A
wait decide zero rounds = inl out_of_fuel
wait decide (suc left) rounds =
    let rest = wait decide left (λ n. rounds (suc n)) in
    elim (decide (rounds 0)) [ some x ↦ x | none ↦ rest ]

-- The first round that decides, and that every number of rounds past it gives its decision.
pub record EndsAt {A R : Type 0} (decide : R → Option (Fault ⊎ A)) (rounds : ℕ → R)
    (loop : ℕ → Fault ⊎ A) (n : ℕ) : Type 0 where
  pub at : ℕ
  pub in_time : at ≤ n
  pub earlier : (i : ℕ) → i < at → decide (rounds i) ≡ none
  pub decision : Fault ⊎ A
  pub decides : decide (rounds at) ≡ some decision
  pub ends : (left : ℕ) → at < left → loop left ≡ decision

wait_first :
    {A R : Type 0} (decide : R → Option (Fault ⊎ A)) (rounds : ℕ → R) {x : Fault ⊎ A}
    → decide (rounds 0) ≡ some x
    → (left : ℕ) → 0 < left
    → wait decide left rounds ≡ x
unfolding wait
wait_first decide rounds e zero h = absurd (omega arith)
wait_first decide rounds e (suc left) h = ground arith

wait_later :
    {A R : Type 0} (decide : R → Option (Fault ⊎ A)) (rounds : ℕ → R)
    → decide (rounds 0) ≡ none
    → (left : ℕ) → wait decide (suc left) rounds ≡ wait decide left (λ i. rounds (suc i))
unfolding wait
wait_later decide rounds e left = ground arith

ends_first :
    {A R : Type 0} (decide : R → Option (Fault ⊎ A)) (n : ℕ) (rounds : ℕ → R) {x : Fault ⊎ A}
    → decide (rounds 0) ≡ some x
    → EndsAt decide rounds (λ left. wait decide left rounds) n
ends_first decide n rounds {x} e = record {
  at = 0;
  in_time = omega arith;
  earlier = λ i h. absurd (omega arith);
  decision = x;
  decides = e;
  ends = wait_first decide rounds {x = x} e;
}

earlier_later :
    {A R : Type 0} (decide : R → Option (Fault ⊎ A)) (rounds : ℕ → R) (at : ℕ)
    → decide (rounds 0) ≡ none
    → ((i : ℕ) → i < at → decide (rounds (suc i)) ≡ none)
    → (i : ℕ) → i < suc at
    → decide (rounds i) ≡ none
earlier_later decide rounds at e h zero k = e
earlier_later decide rounds at e h (suc i) k = h i (omega arith)

ends_after :
    {A R : Type 0} (decide : R → Option (Fault ⊎ A)) (rounds : ℕ → R) (at : ℕ) (x : Fault ⊎ A)
    → decide (rounds 0) ≡ none
    → ((left : ℕ) → at < left → wait decide left (λ i. rounds (suc i)) ≡ x)
    → (left : ℕ) → suc at < left
    → wait decide left rounds ≡ x
ends_after decide rounds at x e h zero k = absurd (omega arith)
ends_after decide rounds at x e h (suc left) k =
    wait_later decide rounds e left ∙ h left (omega arith)

wait-EndsAt :
    {A R : Type 0} (decide : R → Option (Fault ⊎ A)) (n : ℕ) (rounds : ℕ → R) {x : Fault ⊎ A}
    → decide (rounds n) ≡ some x
    → EndsAt decide rounds (λ left. wait decide left rounds) n
wait-EndsAt decide zero rounds {x} e = ends_first decide zero rounds {x = x} e
wait-EndsAt decide (suc n) rounds {x} e = elim (Option-cases (decide (rounds 0))) [
  | inr (y, f) ↦ ends_first decide (suc n) rounds {x = y} f
  | inl f ↦
      let r = wait-EndsAt decide n (λ i. rounds (suc i)) {x = x} e in
      record {
        at = suc r.at;
        in_time = omega (arith, r.in_time);
        earlier = earlier_later decide rounds r.at f r.earlier;
        decision = r.decision;
        decides = r.decides;
        ends = ends_after decide rounds r.at r.decision f r.ends;
      }
]

-- What a round of `awaitRecordingComplete` decides.
abbrev pub recording_decision : ℤ → RecordingRound → Option (Fault ⊎ Unit {0})
recording_decision position r =
    if ltb_ℤ r.counter_value position
    then (if r.archive_fine
        then (if r.is_active then none else some (inl recording_stopped))
        else some (inl archive_error))
    else some (inr tt)

complete_is_wait :
    (left : ℕ) (rounds : ℕ → RecordingRound) (position : ℤ)
    → await_recording_complete left rounds position ≡ wait (recording_decision position) left rounds
unfolding await_recording_complete wait
complete_is_wait zero rounds position = refl
complete_is_wait (suc left) rounds position =
    ground (arith, complete_is_wait left (λ n. rounds (suc n)) position)

-- `awaitRecordingComplete` ends if any round decides, in the first that does and with what it decides:
-- it returns where the counter has reached the position, and throws where the archive reports an
-- error or the recording is not active; until that round it waits.
pub await_recording_complete-EndsAt :
    (n : ℕ) (rounds : ℕ → RecordingRound) (position : ℤ) {x : Fault ⊎ Unit {0}}
    → recording_decision position (rounds n) ≡ some x
    → EndsAt
        (recording_decision position)
        rounds
        (λ left. await_recording_complete left rounds position)
        n
await_recording_complete-EndsAt n rounds position {x} e =
    let r = wait-EndsAt (recording_decision position) n rounds {x = x} e in
    record {
      at = r.at;
      in_time = r.in_time;
      earlier = r.earlier;
      decision = r.decision;
      decides = r.decides;
      ends = λ left h. complete_is_wait left rounds position ∙ r.ends left h;
    }

-- What a round of `awaitRecordingCounter` decides.
abbrev pub counter_decision : ⦃c : Constants⦄ → RecordingRound → Option (Fault ⊎ ℤ)
counter_decision ⦃c = c⦄ r =
    if c.null_counter_id ==ℤ r.counter_of_session
    then (if r.archive_fine then none else some (inl archive_error))
    else some (inr r.counter_of_session)

module _ ⦃c : Constants⦄ where
  counter_is_wait :
      (left : ℕ) (rounds : ℕ → RecordingRound)
      → await_recording_counter left rounds ≡ wait counter_decision left rounds
  unfolding await_recording_counter wait
  counter_is_wait zero rounds = refl
  counter_is_wait (suc left) rounds = ground (arith, counter_is_wait left (λ n. rounds (suc n)))

  -- `awaitRecordingCounter` ends if any round decides, in the first that does and with what it decides: it
  -- returns the counter of the session where there is one, and throws where there is none and the
  -- archive reports an error.
  pub await_recording_counter-EndsAt :
      (n : ℕ) (rounds : ℕ → RecordingRound) {x : Fault ⊎ ℤ}
      → counter_decision (rounds n) ≡ some x
      → EndsAt counter_decision rounds (λ left. await_recording_counter left rounds) n
  await_recording_counter-EndsAt n rounds {x} e =
      let r = wait-EndsAt counter_decision n rounds {x = x} e in
      record {
        at = r.at;
        in_time = r.in_time;
        earlier = r.earlier;
        decision = r.decision;
        decides = r.decides;
        ends = λ left h. counter_is_wait left rounds ∙ r.ends left h;
      }
