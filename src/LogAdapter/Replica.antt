-- ===== src/LogAdapter/Replica.antt =====
-- The agent as a replica: what the messages of the log make of it, described without the
-- application, the driver, the role or the pointers (src/service/BoundedLogAdapter.cpp, `onMessage`, with
-- the handlers of src/service/ClusteredServiceAgent.cpp).
use mathlib.Core.Path.{fun_ext}
use mathlib.Core.Option
use aeron_cluster_cpp.Prelude.{
  ℕ, suc, ◌≡◌, refl, sym, ap, ◌∙◌, if◌then◌else◌, Option, none, some, ℤ, ◌==ℤ◌, Text, arith,
}
use aeron_cluster_cpp.Aeron.{Constants}
use aeron_cluster_cpp.Sessions.{
  ClientSession, SessionTable, get_client_session, reset_closing, allocate,
}
use aeron_cluster_cpp.Sessions.Laws.{IsValid, view, get_client_session_live, absent_in_vector}
use aeron_cluster_cpp.Sessions.Connect.{connect-id, connect-ref}
use aeron_cluster_cpp.Sessions.Marks.{core_table, find-all_open, IsValid_of_core_table}
use aeron_cluster_cpp.Snapshot.Format.{SavedSession}
use aeron_cluster_cpp.Snapshot.Taker.{saved}
use aeron_cluster_cpp.Agent.State.{Agent}
use aeron_cluster_cpp.Agent.Driver.{Driver}
use aeron_cluster_cpp.Agent.Service.Core.{core}
use aeron_cluster_cpp.Agent.Events.{make_session}
use aeron_cluster_cpp.LogAdapter.{
  LogMessage, session_header, timer, open_event, close_event, action_request, term_event,
  membership_event, unknown, zeroes,
}

-- The part of the agent that every member of the cluster must agree on.
pub record Replica : Type 0 where
  pub log_position : ℤ
  pub cluster_time : ℤ
  pub leadership_term_id : ℤ
  pub sessions : ℤ → Option SavedSession

abbrev pub directory : SessionTable → ℤ → Option SavedSession
directory t id = Option.map saved (view t id)

abbrev pub replica : Agent → Replica
replica a = record {
  log_position = a.log_position;
  cluster_time = a.cluster_time;
  leadership_term_id = a.leadership_term_id;
  sessions = directory a.table;
}

-- A session that is open is not replaced.
abbrev pub opened : SavedSession → (ℤ → Option SavedSession) → ℤ → Option SavedSession
opened s m id = elim (m s.cluster_session_id) [
  | some _ ↦ m id
  | none ↦ if s.cluster_session_id ==ℤ id then some s else m id
]

abbrev pub closed : ℤ → (ℤ → Option SavedSession) → ℤ → Option SavedSession
closed k m id = if k ==ℤ id then none else m id

-- The step of a replica, at a position of the log.
unfoldable pub apply : ℤ → LogMessage → Replica → Replica
apply position (session_header id timestamp) r = record r {
  log_position = position;
  cluster_time = timestamp;
}
apply position (timer correlation_id timestamp) r = record r {
  log_position = position;
  cluster_time = timestamp;
}
apply position (open_event term_id id timestamp stream_id channel principal) r = record r {
  log_position = position;
  cluster_time = timestamp;
  sessions =
      opened
        (record {
          cluster_session_id = id;
          response_stream_id = stream_id;
          response_channel = channel;
          encoded_principal = zeroes principal;
        })
        r.sessions;
}
apply position (close_event term_id id timestamp reason) r = record r {
  log_position = position;
  cluster_time = timestamp;
  sessions = closed id r.sessions;
}
apply position (action_request term_id log_position timestamp action) r = record r {
  log_position = log_position;
  cluster_time = timestamp;
}
apply position (term_event term_id log_position timestamp term_base leader_id session_id version)
      r =
    record r { log_position = log_position; cluster_time = timestamp; leadership_term_id = term_id }
apply position (membership_event log_position timestamp change member_id) r = record r {
  log_position = log_position;
  cluster_time = timestamp;
}
apply position unknown r = r

-- What the replica and the table's form owe to the core.
directory-core_table : (t : SessionTable) → directory (core_table t) ≡ directory t
unfolding saved reset_closing
directory-core_table t = fun_ext λ id. ground (arith, find-all_open id t.sessions)

replica-core : (a : Agent) → replica (core a) ≡ replica a
replica-core a = ap (λ m. record (replica a) { sessions = m }) (directory-core_table a.table)

pub replica_of_core : (a b : Agent) → core a ≡ core b → replica a ≡ replica b
replica_of_core a b e = sym (replica-core a) ∙ ap replica e ∙ replica-core b

pub IsValid_of_core : (a b : Agent) → core a ≡ core b → IsValid b.table → IsValid a.table
IsValid_of_core a b e v = IsValid_of_core_table b.table a.table (ap (λ x. x.table) e) v

pub present :
    (t : SessionTable) (id : ℤ) {r : ℕ}
    → IsValid t
    → get_client_session id t ≡ some r
    → (s : ClientSession) × (view t id ≡ some s)
present t id v e = let (s, _, _, f) = get_client_session_live t id _ v e in (s, f)

pub missing :
    (t : SessionTable) (id : ℤ) → IsValid t → get_client_session id t ≡ none → view t id ≡ none
missing t id v e = absent_in_vector t id v e

module _ ⦃c : Constants⦄ where
  -- A session that was made for the log, connected or not.
  module _ (d : Driver) (id stream_id : ℤ) (channel principal : Text) (a : Agent) where
    abbrev pub made : ClientSession × Agent
    made = make_session d id stream_id channel principal a

    pub made-id : made.0.id ≡ id
    unfolding make_session
    made-id = ground (
      arith,
      connect-id d.publications (allocate c.null_value id stream_id channel principal a.table).0,
    )

    pub made-ref : made.0.ref ≡ a.table.next_ref
    unfolding make_session
    made-ref = ground (
      arith,
      connect-ref d.publications (allocate c.null_value id stream_id channel principal a.table).0,
    )

    pub made-saved : saved made.0 ≡ record {
      cluster_session_id = id;
      response_stream_id = stream_id;
      response_channel = channel;
      encoded_principal = principal;
    }
    unfolding make_session saved
    made-saved = ground arith

    pub made-agent :
        made.1 ≡ record a { table = record (a.table) { next_ref = suc a.table.next_ref } }
    unfolding make_session
    made-agent = refl
