-- ===== src/Agent/Service.antt =====
-- The agent and its application: the calls that the application makes on the agent, and the
-- callbacks, which src/service/ClusteredServiceAgent.cpp makes in between.
pub mod Core
pub mod Lifecycle
pub mod Requests
pub mod Live
use aeron_cluster_cpp.Prelude.{
  ℕ, suc, ◌+◌, if◌then◌else◌, Bool, true, false, not, ◌&&◌, ◌||◌, List, [], ◌∷◌, Option, none, some,
  ℤ, pos, ◌+ℤ◌, ◌==ℤ◌,
}
use aeron_cluster_cpp.Prelude.Outcome.{
  M, Outcome, returns, throws, Fault, unknown_session, invalid_invocation, undefined, pure, throw,
  ◌>>=◌, ◌>>◌, get, modify, when,
}
use aeron_cluster_cpp.Aeron.{Constants}
use aeron_cluster_cpp.Sessions.{ClientSession, get_client_session, deref, update_ref, mark_closing}
use aeron_cluster_cpp.Proxy.{Proxy, Request, claim, cancel_timer, close_session, service_ack}
use aeron_cluster_cpp.Agent.State.{
  Agent, Role, follower, candidate, leader, Callback, on_role_change, Reply, gave, threw, Script,
  done, fails, closes_session, cancels_timer,
}

-- A call through `m_proxy`; a null pointer is undefined behaviour.
unfoldable pub with_proxy : {A : Type 0} → M Proxy A → M Agent A
with_proxy m a = elim a.proxy [
  | none ↦ throws undefined a
  | some p ↦ elim (m p) [
    | returns x q ↦ returns x (record a { proxy = some q })
    | throws e q ↦ throws e (record a { proxy = some q })
  ]
]

-- `checkForValidInvocation`.
unfoldable pub check_for_valid_invocation : M Agent (Unit {0})
check_for_valid_invocation a =
    if a.in_lifecycle_callback || a.is_background_invocation
    then throws invalid_invocation a
    else returns tt a

-- Reading and writing a session through a pointer.
unfoldable pub read_session : ℕ → M Agent ClientSession
read_session r a = elim (deref r a.table.sessions) [
  | none ↦ throws undefined a
  | some s ↦ returns s a
]

unfoldable pub write_session : ℕ → (ClientSession → ClientSession) → Agent → Agent
write_session r f a = record a {
  table = record (a.table) { sessions = update_ref r f a.table.sessions };
}

module _ ⦃c : Constants⦄ where
  -- `ack`.
  unfoldable pub ack : ℤ → M Agent Bool
  unfolding ◌+ℤ◌
  ack relevant_id = do
    a ← get
    sent ←
        with_proxy
          (claim (service_ack a.log_position a.cluster_time a.ack_id relevant_id a.ctx.service_id))
    let acknowledged : Agent → Agent = λ b. record b {
      ack_id = a.ack_id +ℤ pos 1;
      requested_ack_position =
          if relevant_id ==ℤ c.null_value then c.null_position else b.requested_ack_position;
    }
    if sent then (do modify acknowledged; pure true) else pure false

  -- The end of `closeClientSession`: the request, and the mark on the session if it was sent.
  unfoldable pub request_close : ℤ → ℕ → M Agent Bool
  request_close id r a = elim (with_proxy (claim (close_session id)) a) [
    | throws e b ↦ throws e b
    | returns sent b ↦
        if sent then returns true (write_session r mark_closing b) else returns false b
  ]

  -- `closeClientSession`.
  unfoldable pub close_client_session : ℤ → M Agent Bool
  unfolding read_session request_close
  close_client_session id = do
    check_for_valid_invocation
    a ← get
    elim (get_client_session id a.table) [
      | none ↦ throw unknown_session
      | some r ↦ do s ← read_session r; if s.is_closing then pure true else request_close id r
    ]

  -- `cancelTimer`.
  unfoldable pub cancel_timer_of : ℤ → M Agent Bool
  cancel_timer_of correlation_id = do
    check_for_valid_invocation
    with_proxy (claim (cancel_timer correlation_id))

  -- `ContainerClientSession::close`, of the session with this identity.
  unfoldable pub close_of : ℤ → M Agent (Unit {0})
  close_of id = do
    a ← get
    elim (get_client_session id a.table) [
      | none ↦ pure tt
      | some r ↦ do _ ← close_client_session id; pure tt
    ]

  -- `offer`, which checks and sends nothing.
  unfoldable pub offer : M Agent ℤ
  unfolding check_for_valid_invocation
  offer = do check_for_valid_invocation; pure (pos 0)

  -- What the application does in a callback.
  unfoldable pub run_script : Script → M Agent Bool
  run_script (done b) a = returns b a
  run_script (fails e) a = throws e a
  run_script (closes_session id next) a = elim (close_client_session id a) [
    | returns b a' ↦ run_script (next (gave b)) a'
    | throws e a' ↦ run_script (next (threw e)) a'
  ]
  run_script (cancels_timer id next) a = elim (cancel_timer_of id a) [
    | returns b a' ↦ run_script (next (gave b)) a'
    | throws e a' ↦ run_script (next (threw e)) a'
  ]

  -- A callback.
  unfoldable pub notify : Callback → M Agent Bool
  notify call a =
      let history = call ∷ a.history in
      run_script (a.ctx.service history) (record a { history = history })

  unfoldable pub same_role : Role → Role → Bool
  same_role follower follower = true
  same_role candidate candidate = true
  same_role leader leader = true
  same_role _ _ = false

  unfoldable pub leave_callback : Agent → Agent
  leave_callback a = record a { in_lifecycle_callback = false }

  -- `role(newRole)`: the marker of the callback is taken away also when the callback throws.
  unfoldable pub set_role : Role → M Agent (Unit {0})
  unfolding same_role leave_callback
  set_role new_role a =
      let b : Agent = record a { role = new_role; in_lifecycle_callback = true } in
      let called : Outcome Agent (Unit {0}) = elim (notify (on_role_change new_role) b) [
        | returns _ b' ↦ returns tt (leave_callback b')
        | throws e b' ↦ throws e (leave_callback b')
      ] in
      if same_role new_role a.role then returns tt a else called
