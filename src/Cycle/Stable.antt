-- ===== src/Cycle/Stable.antt =====
-- What makes a property of the agent one that its duty cycles keep
-- (src/service/ClusteredServiceAgent.cpp).
use aeron_cluster_cpp.Prelude.{Option, ℤ}
use aeron_cluster_cpp.Prelude.Outcome.{returns, modify}
use aeron_cluster_cpp.Prelude.Keeps.{Keeps, Keeps_after, Keeps-choice}
use aeron_cluster_cpp.Aeron.{Constants}
use aeron_cluster_cpp.Sessions.{SessionTable}
use aeron_cluster_cpp.Proxy.{Proxy}
use aeron_cluster_cpp.Agent.State.{Agent, ActiveLogEvent, Callback, Role, on_role_change}
use aeron_cluster_cpp.Agent.Driver.{Driver}
use aeron_cluster_cpp.Agent.Service.{ack, notify, set_role, same_role, leave_callback}
use aeron_cluster_cpp.Agent.Log.{rejoin_sessions}

-- A property of the parts of an agent that change only in a few places: the number of its next
-- acknowledgement, its proxy and its table of sessions.
abbrev pub Part : Type 1
Part = ℤ → Option Proxy → SessionTable → Type 0

abbrev pub Holds : Part → Agent → Type 0
Holds P a = P a.ack_id a.proxy a.table

module _ ⦃c : Constants⦄ where
  -- The places in which a duty cycle itself changes those parts keep the property; the events of the
  -- log are another matter.
  pub record IsStable (P : Part) : Type 0 where
    pub notify_keeps : (call : Callback) → Keeps (Holds P) (notify call)
    pub ack_keeps : (relevant_id : ℤ) → Keeps (Holds P) (ack relevant_id)
    pub rejoin_keeps :
        (d : Driver) (e : ActiveLogEvent) → Keeps (Holds P) (modify (rejoin_sessions d e))

  pub set_role-Keeps : (P : Part) → IsStable P → (role : Role) → Keeps (Holds P) (set_role role)
  unfolding set_role leave_callback
  set_role-Keeps P laws role a h =
      Keeps-choice (Holds P) (same_role role a.role) (returns tt a) _ h (
        Keeps_after (Holds P) (notify (on_role_change role) _) _ _
          (laws.notify_keeps (on_role_change role) _ h) (λ x b k. k) (λ e b k. k))
