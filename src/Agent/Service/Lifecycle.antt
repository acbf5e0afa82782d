-- ===== src/Agent/Service/Lifecycle.antt =====
-- What the application can do in a lifecycle callback (src/service/ClusteredServiceAgent.cpp,
-- `checkForValidInvocation` and `role`).
use aeron_cluster_cpp.Prelude.{◌≡◌, refl, if◌then◌else◌, true, false, ◌∷◌, ℤ, arith}
use aeron_cluster_cpp.Prelude.Outcome.{throws, invalid_invocation, ◌>>=◌, ◌>>◌, final}
use aeron_cluster_cpp.Aeron.{Constants}
use aeron_cluster_cpp.Agent.State.{
  Agent, Role, on_role_change, threw, Script, done, fails, closes_session, cancels_timer,
}
use aeron_cluster_cpp.Agent.Service.{
  check_for_valid_invocation, close_client_session, cancel_timer_of, run_script, notify, same_role,
  set_role, leave_callback,
}

check_refused :
    (a : Agent)
    → a.in_lifecycle_callback ≡ true
    → check_for_valid_invocation a ≡ throws invalid_invocation a
unfolding check_for_valid_invocation
check_refused a e = ground arith

module _ ⦃c : Constants⦄ where
  close_refused :
      (id : ℤ) (a : Agent)
      → a.in_lifecycle_callback ≡ true
      → close_client_session id a ≡ throws invalid_invocation a
  unfolding close_client_session
  close_refused id a e = rw (check_refused a e, ◌>>=◌, ◌>>◌) refl

  cancel_refused :
      (id : ℤ) (a : Agent)
      → a.in_lifecycle_callback ≡ true
      → cancel_timer_of id a ≡ throws invalid_invocation a
  unfolding cancel_timer_of
  cancel_refused id a e = rw (check_refused a e, ◌>>=◌, ◌>>◌) refl

  run_script_refused :
      (s : Script) (a : Agent) → a.in_lifecycle_callback ≡ true → final (run_script s a) ≡ a
  unfolding run_script
  run_script_refused (done b) a e = refl
  run_script_refused (fails x) a e = refl
  run_script_refused (closes_session id next) a e =
      rw (close_refused id a e, final) (run_script_refused (next (threw invalid_invocation)) a e)
  run_script_refused (cancels_timer id next) a e =
      rw (cancel_refused id a e, final) (run_script_refused (next (threw invalid_invocation)) a e)

  abbrev pub with_role : Role → Agent → Agent
  with_role role a = record a { role = role; history = on_role_change role ∷ a.history }

  -- Outside a lifecycle callback, a change to another role makes one callback, and leaves the agent as
  -- it was but for the role: whatever the application tries in the callback, it sends no request and
  -- marks no session. A change to the same role does nothing.
  pub set_role_quiet :
      (role : Role) (a : Agent)
      → a.in_lifecycle_callback ≡ false
      → final (set_role role a) ≡ (if same_role role a.role then a else with_role role a)
  unfolding set_role leave_callback notify
  set_role_quiet role a e =
      let b : Agent = record a {
        role = role;
        in_lifecycle_callback = true;
        history = on_role_change role ∷ a.history;
      } in
      ground (arith, run_script_refused (a.ctx.service (on_role_change role ∷ a.history)) b refl)
