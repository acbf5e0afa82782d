-- ===== src/LogAdapter/Agree.antt =====
-- Members of a cluster that read the same log agree (src/service/BoundedLogAdapter.cpp).
use aeron_cluster_cpp.Prelude.{ℕ, ◌≡◌, refl, sym, ap, ◌∙◌, List, [], ◌∷◌, ℤ, Text}
use aeron_cluster_cpp.Prelude.Outcome.{final}
use aeron_cluster_cpp.Aeron.{Constants}
use aeron_cluster_cpp.Sessions.Laws.{IsValid}
use aeron_cluster_cpp.Agent.State.{Agent}
use aeron_cluster_cpp.Agent.Driver.{Driver}
use aeron_cluster_cpp.LogAdapter.{LogMessage, LogCodec, dispatch}
use aeron_cluster_cpp.LogAdapter.Replica.{Replica, replica, apply}
use aeron_cluster_cpp.LogAdapter.Refine.{Yields, dispatch-Yields}

-- A message of the log, and where it stands.
pub record Entry : Type 0 where
  pub position : ℤ
  pub buffer : Text
  pub offset : ℕ
  pub len : ℕ
  pub message : LogMessage

abbrev pub apply_all : List Entry → Replica → Replica
apply_all [] r = r
apply_all (e ∷ es) r = apply_all es (apply e.position e.message r)

module _ ⦃c : Constants⦄ (codec : LogCodec) (d : Driver) where
  -- The log, message by message; one that throws does not stop the log.
  abbrev pub handle_all : List Entry → Agent → Agent
  handle_all [] a = a
  handle_all (e ∷ es) a =
      handle_all es (final (dispatch codec d e.position e.buffer e.offset e.len e.message a))

  pub handle_all-Yields :
      (es : List Entry) (a : Agent)
      → IsValid a.table
      → Yields (apply_all es (replica a)) (handle_all es a)
  handle_all-Yields [] a v = record { valid = v; refines = refl }
  handle_all-Yields (e ∷ es) a v =
      let y = dispatch-Yields codec d e.position e.buffer e.offset e.len e.message a v in
      let z =
        handle_all-Yields es
          (final (dispatch codec d e.position e.buffer e.offset e.len e.message a)) y.valid in
      record { valid = z.valid; refines = z.refines ∙ ap (apply_all es) y.refines }

-- Two members with well-formed tables that agree on position, time, term and sessions before a log
-- agree on them after it, whatever their applications, drivers, roles and proxies are, and
-- whichever of their callbacks throw.
pub handle_all_agree :
    ⦃c : Constants⦄ (codec codec' : LogCodec) (d d' : Driver) (es : List Entry) (a b : Agent)
    → IsValid a.table
    → IsValid b.table
    → replica a ≡ replica b
    → replica (handle_all codec d es a) ≡ replica (handle_all codec' d' es b)
handle_all_agree codec codec' d d' es a b v w e =
    (handle_all-Yields codec d es a v).refines
    ∙ ap (apply_all es) e
    ∙ sym (handle_all-Yields codec' d' es b w).refines
