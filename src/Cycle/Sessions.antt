-- ===== src/Cycle/Sessions.antt =====
-- Properties of the agent that look at its sessions only (src/service/ClusteredServiceAgent.cpp).
use mathlib.Core.Path.{fun_ext}
use mathlib.Core.List.{map}
use mathlib.Core.Option
use aeron_cluster_cpp.Prelude.{
  ◌≡◌, refl, ap, Bool-cases, inl, inr, Bool, true, false, List, Option, none, some, ℤ, arith,
}
use aeron_cluster_cpp.Prelude.Outcome.{M, pure, modify, final}
use aeron_cluster_cpp.Prelude.Keeps.{Keeps, Keeps-bind, Keeps-if}
use aeron_cluster_cpp.Aeron.{Constants}
use aeron_cluster_cpp.Sessions.{ClientSession, reset_closing, find_session}
use aeron_cluster_cpp.Sessions.Connect.{connect, connect-id, connect-ref}
use aeron_cluster_cpp.Sessions.Laws.{IsValid}
use aeron_cluster_cpp.Sessions.Mapped.{map-IsValid, find-map}
use aeron_cluster_cpp.Snapshot.Format.{SavedSession}
use aeron_cluster_cpp.Snapshot.Taker.{saved}
use aeron_cluster_cpp.Proxy.{Proxy}
use aeron_cluster_cpp.Agent.State.{Agent, ActiveLogEvent, Callback, leader}
use aeron_cluster_cpp.Agent.Driver.{Driver}
use aeron_cluster_cpp.Agent.Service.{with_proxy, ack, notify, same_role}
use aeron_cluster_cpp.Agent.Service.Core.{core, core-with_proxy, notify-KeepsCore}
use aeron_cluster_cpp.Agent.Log.{rejoin_session, rejoin_sessions}
use aeron_cluster_cpp.Cycle.Stable.{Part, Holds, IsStable}
use aeron_cluster_cpp.LogAdapter.Replica.{directory, replica_of_core, IsValid_of_core}

-- The sessions that the application knows of.
abbrev pub Directory : Type 0
Directory = ℤ → Option SavedSession

-- The table of sessions is well formed, and the sessions in it have the property.
abbrev pub OfSessions : (Directory → Type 0) → Part
OfSessions Q _ _ t = IsValid t × Q (directory t)

module _ (Q : Directory → Type 0) where
  pub core-Holds : (a b : Agent) → core a ≡ core b → Holds (OfSessions Q) b → Holds (OfSessions Q) a
  core-Holds a b e h =
      (IsValid_of_core a b e h.0, rw (ap (λ r. r.sessions) (replica_of_core a b e)) h.1)

  with_proxy-Keeps : {A : Type 0} (m : M Proxy A) → Keeps (Holds (OfSessions Q)) (with_proxy m)
  with_proxy-Keeps m a h = core-Holds (final (with_proxy m a)) a (core-with_proxy m a) h

  module _ ⦃c : Constants⦄ where
    notify-Keeps : (call : Callback) → Keeps (Holds (OfSessions Q)) (notify call)
    notify-Keeps call a h = core-Holds (final (notify call a)) a (notify-KeepsCore call a) h

    ack-Keeps : (relevant_id : ℤ) → Keeps (Holds (OfSessions Q)) (ack relevant_id)
    unfolding ack
    ack-Keeps relevant_id a h =
        Keeps-bind (Holds (OfSessions Q)) (with_proxy _) _ (with_proxy-Keeps _)
          (λ sent. Keeps-if (Holds (OfSessions Q)) sent _ (pure false) (λ b k. k) (λ b k. k)) a h

    -- What joining the log does to a session leaves what the application knows of it.
    id-rejoin : (d : Driver) (b : Bool) (s : ClientSession) → (rejoin_session d b s).id ≡ s.id
    unfolding rejoin_session reset_closing
    id-rejoin d true s = connect-id d.publications s
    id-rejoin d false s = refl

    ref-rejoin : (d : Driver) (b : Bool) (s : ClientSession) → (rejoin_session d b s).ref ≡ s.ref
    unfolding rejoin_session reset_closing
    ref-rejoin d true s = connect-ref d.publications s
    ref-rejoin d false s = refl

    saved-rejoin :
        (d : Driver) (b : Bool) (s : ClientSession) → saved (rejoin_session d b s) ≡ saved s
    unfolding rejoin_session reset_closing saved connect
    saved-rejoin d true s = ground arith
    saved-rejoin d false s = refl

    saved-found :
        (d : Driver) (b : Bool) (o : Option ClientSession)
        → Option.map saved (Option.map (rejoin_session d b) o) ≡ Option.map saved o
    saved-found d b none = refl
    saved-found d b (some s) = ap some (saved-rejoin d b s)

    directory-rejoin :
        (d : Driver) (b : Bool) (ss : List ClientSession) (id : ℤ)
        → Option.map saved (find_session id (map (rejoin_session d b) ss))
          ≡ Option.map saved (find_session id ss)
    directory-rejoin d b ss id =
        rw (find-map (rejoin_session d b) (id-rejoin d b) (ref-rejoin d b) id ss)
          (saved-found d b (find_session id ss))

    rejoined : Driver → Bool → Agent → Agent
    rejoined d b a = record a {
      table = record (a.table) { sessions = map (rejoin_session d b) a.table.sessions };
    }

    rejoined-Holds :
        (d : Driver) (b : Bool) (a : Agent)
        → Holds (OfSessions Q) a
        → Holds (OfSessions Q) (rejoined d b a)
    unfolding rejoined
    rejoined-Holds d b a h = (
      map-IsValid (rejoin_session d b) (id-rejoin d b) (ref-rejoin d b) a.table h.0,
      rw (fun_ext (directory-rejoin d b a.table.sessions)) h.1,
    )

    rejoin_sessions-Keeps :
        (d : Driver) (e : ActiveLogEvent)
        → Keeps (Holds (OfSessions Q)) (modify (rejoin_sessions d e))
    unfolding rejoin_sessions rejoined
    rejoin_sessions-Keeps d e a h = elim (Bool-cases (same_role leader e.role)) [
      | inl r ↦ rw r (rejoined-Holds d _ a h)
      | inr r ↦ rw r h
    ]

    pub OfSessions-IsStable : IsStable (OfSessions Q)
    OfSessions-IsStable = record {
      notify_keeps = notify-Keeps;
      ack_keeps = ack-Keeps;
      rejoin_keeps = rejoin_sessions-Keeps;
    }
