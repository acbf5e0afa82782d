-- ===== src/Cycle/Numbers/Requests.antt =====
-- What the agent sends goes on with the numbers (src/service/ClusteredServiceAgent.cpp, `ack`,
-- `closeClientSession` and `cancelTimer`).
use mathlib.Core.Path.{subst}
use aeron_cluster_cpp.Prelude.{
  ◌≡◌, ℕ, if◌then◌else◌, ◌||◌, refl, ◌∙◌, inl, inr, true, false, List, [], ◌∷◌, ◌++◌, none, some, ℤ,
  pos, ◌+ℤ◌, ==ℤ_refl, arith, Option-cases, Bool-cases,
}
use aeron_cluster_cpp.Prelude.Outcome.{
  M, returns, throws, throw, pure, modify, undefined, unknown_session,
}
use aeron_cluster_cpp.Prelude.Keeps.{
  Keeps, Keeps_after, Keeps-bind, Keeps-then, Keeps-if, Keeps-choice, Keeps-maybe, Keeps-option,
}
use aeron_cluster_cpp.Aeron.{Constants}
use aeron_cluster_cpp.Publication.{Verdict-cases, verdict}
use aeron_cluster_cpp.Sessions.{get_client_session, deref, mark_closing}
use aeron_cluster_cpp.Proxy.{
  Proxy, Request, claim, attempts, remove_member, schedule_timer, cancel_timer, close_session,
  service_ack,
}
use aeron_cluster_cpp.Agent.State.{
  Agent, ActiveLogEvent, Callback, gave, threw, Script, done, fails, closes_session, cancels_timer,
  leader,
}
use aeron_cluster_cpp.Agent.Driver.{Driver}
use aeron_cluster_cpp.Agent.Service.{
  with_proxy, check_for_valid_invocation, read_session, write_session, request_close, ack,
  close_client_session, cancel_timer_of, run_script, notify, same_role,
}
use aeron_cluster_cpp.Agent.Service.Requests.{request-verdict, due, ack-verdict}
use aeron_cluster_cpp.Agent.Log.{rejoin_sessions}
use aeron_cluster_cpp.Cycle.Stable.{Holds, IsStable}
use aeron_cluster_cpp.Cycle.Numbers.{next_number, GoesOn, Numbered}

next_number-append :
    (n m : ℤ) (rs : List Request) (r : Request)
    → next_number n rs ≡ some m
    → next_number n (rs ++ r ∷ []) ≡ next_number m (r ∷ [])
next_number-append n m [] r e = ground arith
next_number-append n m (service_ack p t number i s ∷ rs) r e =
    ground (arith, next_number-append (n +ℤ pos 1) m rs r)
next_number-append n m (remove_member i b ∷ rs) r e = next_number-append n m rs r e
next_number-append n m (schedule_timer i t ∷ rs) r e = next_number-append n m rs r e
next_number-append n m (cancel_timer i ∷ rs) r e = next_number-append n m rs r e
next_number-append n m (close_session i ∷ rs) r e = next_number-append n m rs r e

with_proxy_null :
    {A : Type 0} (m : M Proxy A) (a : Agent) → a.proxy ≡ none → with_proxy m a ≡ throws undefined a
unfolding with_proxy
with_proxy_null m a e = ground arith

module _ ⦃c : Constants⦄ (first : ℤ) where
  -- A request that is no acknowledgement.
  claim-Keeps :
      (r : Request)
      → ((n : ℤ) → next_number n (r ∷ []) ≡ some n)
      → Keeps (Holds (Numbered first)) (with_proxy (claim r))
  claim-Keeps r quiet a h = elim (Option-cases a.proxy) [
    | inl e ↦ rw (with_proxy_null (claim r) a e) h
    | inr (p, e) ↦
        let sent : next_number first p.sent ≡ some a.ack_id = subst (GoesOn first a.ack_id) e h in
        elim (Verdict-cases (verdict p.answers p.calls attempts)) [
          | inl (k, f) ↦
              rw (request-verdict r a p e, f)
                (next_number-append first a.ack_id p.sent r sent ∙ quiet a.ack_id)
          | inr g ↦ elim g [
            | inl (k, f) ↦ rw (request-verdict r a p e, f) sent
            | inr (k, f) ↦ rw (request-verdict r a p e, f) sent
          ]
        ]
  ]

  ack_null : (relevant_id : ℤ) (a : Agent) → a.proxy ≡ none → ack relevant_id a ≡ throws undefined a
  unfolding ack
  ack_null relevant_id a e = ground (arith, with_proxy_null (claim (due relevant_id a)) a e)

  ack-Keeps : (relevant_id : ℤ) → Keeps (Holds (Numbered first)) (ack relevant_id)
  ack-Keeps relevant_id a h = elim (Option-cases a.proxy) [
    | inl e ↦ rw (ack_null relevant_id a e) h
    | inr (p, e) ↦
        let sent : next_number first p.sent ≡ some a.ack_id = subst (GoesOn first a.ack_id) e h in
        elim (Verdict-cases (verdict p.answers p.calls attempts)) [
          | inl (k, f) ↦
              rw (ack-verdict relevant_id a p e, f)
                (next_number-append first a.ack_id p.sent (due relevant_id a) sent
                  ∙ rw (==ℤ_refl a.ack_id) refl)
          | inr g ↦ elim g [
            | inl (k, f) ↦ rw (ack-verdict relevant_id a p e, f) sent
            | inr (k, f) ↦ rw (ack-verdict relevant_id a p e, f) sent
          ]
        ]
  ]

  request_close-Keeps : (id : ℤ) (r : ℕ) → Keeps (Holds (Numbered first)) (request_close id r)
  unfolding request_close write_session
  request_close-Keeps id r a h =
      Keeps_after (Holds (Numbered first)) (with_proxy (claim (close_session id)) a)
        (λ sent b. if sent then returns true (write_session r mark_closing b) else returns false b)
        (λ e b. throws e b) (claim-Keeps (close_session id) (λ n. refl) a h)
        (λ sent b k. Keeps-choice (Holds (Numbered first)) sent _ _ k k) (λ e b k. k)

  pub read_session-Keeps : (r : ℕ) → Keeps (Holds (Numbered first)) (read_session r)
  unfolding read_session
  read_session-Keeps r a h =
      Keeps-maybe (Holds (Numbered first)) (deref r a.table.sessions) (throws undefined a)
        (λ s. returns s a) h (λ s. h)

  valid-Keeps : Keeps (Holds (Numbered first)) check_for_valid_invocation
  unfolding check_for_valid_invocation
  valid-Keeps a h =
      Keeps-choice (Holds (Numbered first)) (a.in_lifecycle_callback || a.is_background_invocation)
        _ _ h h

  close-Keeps : (id : ℤ) → Keeps (Holds (Numbered first)) (close_client_session id)
  unfolding close_client_session
  close-Keeps id =
      Keeps-then (Holds (Numbered first)) check_for_valid_invocation _ valid-Keeps (λ a.
        Keeps-option (Holds (Numbered first)) (get_client_session id a.table)
          (throw unknown_session) _ (λ b k. k)
          (λ r. Keeps-bind (Holds (Numbered first)) (read_session r) _ (read_session-Keeps r) (λ s.
            Keeps-if (Holds (Numbered first)) s.is_closing (pure true) (request_close id r)
              (λ b k. k) (request_close-Keeps id r)))
          a)

  cancel-Keeps : (id : ℤ) → Keeps (Holds (Numbered first)) (cancel_timer_of id)
  unfolding cancel_timer_of
  cancel-Keeps id =
      Keeps-then (Holds (Numbered first)) check_for_valid_invocation _ valid-Keeps
        (claim-Keeps (cancel_timer id) (λ n. refl))

  run_script-Keeps : (s : Script) → Keeps (Holds (Numbered first)) (run_script s)
  unfolding run_script
  run_script-Keeps (done b) a h = h
  run_script-Keeps (fails e) a h = h
  run_script-Keeps (closes_session id next) a h =
      Keeps_after (Holds (Numbered first)) (close_client_session id a)
        (λ b. run_script (next (gave b))) (λ e. run_script (next (threw e))) (close-Keeps id a h)
        (λ b. run_script-Keeps (next (gave b))) (λ e. run_script-Keeps (next (threw e)))
  run_script-Keeps (cancels_timer id next) a h =
      Keeps_after (Holds (Numbered first)) (cancel_timer_of id a) (λ b. run_script (next (gave b)))
        (λ e. run_script (next (threw e))) (cancel-Keeps id a h)
        (λ b. run_script-Keeps (next (gave b))) (λ e. run_script-Keeps (next (threw e)))

  notify-Keeps : (call : Callback) → Keeps (Holds (Numbered first)) (notify call)
  unfolding notify
  notify-Keeps call a h =
      run_script-Keeps (a.ctx.service (call ∷ a.history)) (record a { history = call ∷ a.history })
        h

  rejoin_sessions-Keeps :
      (d : Driver) (e : ActiveLogEvent)
      → Keeps (Holds (Numbered first)) (modify (rejoin_sessions d e))
  unfolding rejoin_sessions
  rejoin_sessions-Keeps d e a h = elim (Bool-cases (same_role leader e.role)) [
    | inl r ↦ rw r h
    | inr r ↦ rw r h
  ]

  pub Numbered-IsStable : IsStable (Numbered first)
  Numbered-IsStable = record {
    notify_keeps = notify-Keeps;
    ack_keeps = ack-Keeps;
    rejoin_keeps = rejoin_sessions-Keeps;
  }
