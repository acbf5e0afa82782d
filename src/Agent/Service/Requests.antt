-- ===== src/Agent/Service/Requests.antt =====
-- The requests that the agent sends (src/service/ClusteredServiceAgent.cpp, `ack` and
-- `closeClientSession`).
use aeron_cluster_cpp.Prelude.{
  ℕ, ◌≡◌, refl, if◌then◌else◌, Bool, true, false, not, ◌||◌, List, [], ◌∷◌, ◌++◌, none, some, ℤ,
  pos, ◌+ℤ◌, ◌==ℤ◌, arith, Option-cases, Bool-cases, inl, inr,
}
use aeron_cluster_cpp.Prelude.Outcome.{
  Outcome, returns, throws, undefined, invalid_invocation, bad_publication_state, unknown_session,
  ◌>>=◌, ◌>>◌, Outcome-cases,
}
use aeron_cluster_cpp.Aeron.{Constants}
use aeron_cluster_cpp.Publication.{Verdict, granted, exhausted, refused, verdict, Verdict-cases}
use aeron_cluster_cpp.Sessions.{ClientSession, get_client_session, deref, update_ref, mark_closing}
use aeron_cluster_cpp.Proxy.{Proxy, Request, claim, attempts, service_ack, close_session}
use aeron_cluster_cpp.Proxy.Claim.{claim-verdict}
use aeron_cluster_cpp.Agent.State.{Agent}
use aeron_cluster_cpp.Agent.Service.{
  with_proxy, check_for_valid_invocation, read_session, write_session, ack, request_close,
  close_client_session,
}

module _ ⦃c : Constants⦄ where
  -- What a request leaves behind for each verdict on the proxy's answers.
  abbrev pub requested : Request → Agent → Proxy → Verdict → Outcome Agent Bool
  requested r a p (granted k) =
      returns true (record a { proxy = some (record p { calls = k; sent = p.sent ++ r ∷ [] }) })
  requested r a p (exhausted k) = returns false (record a { proxy = some (record p { calls = k }) })
  requested r a p (refused k) =
      throws bad_publication_state (record a { proxy = some (record p { calls = k }) })

  pub request-verdict :
      (r : Request) (a : Agent) (p : Proxy)
      → a.proxy ≡ some p
      → with_proxy (claim r) a ≡ requested r a p (verdict p.answers p.calls attempts)
  unfolding with_proxy
  request-verdict r a p e = elim (Verdict-cases (verdict p.answers p.calls attempts)) [
    | inl (k, f) ↦ ground (arith, claim-verdict r p)
    | inr g ↦ elim g [
      | inl (k, f) ↦ ground (arith, claim-verdict r p)
      | inr (k, f) ↦ ground (arith, claim-verdict r p)
    ]
  ]

  -- The acknowledgement that is due.
  abbrev pub due : ℤ → Agent → Request
  due relevant_id a =
      service_ack a.log_position a.cluster_time a.ack_id relevant_id a.ctx.service_id

  -- What `ack` leaves behind for each verdict on the proxy's answers.
  abbrev pub acked : ℤ → Agent → Proxy → Verdict → Outcome Agent Bool
  acked relevant_id a p (granted k) = returns true (record a {
    proxy = some (record p { calls = k; sent = p.sent ++ due relevant_id a ∷ [] });
    ack_id = a.ack_id +ℤ pos 1;
    requested_ack_position =
        if relevant_id ==ℤ c.null_value then c.null_position else a.requested_ack_position;
  })
  acked relevant_id a p (exhausted k) =
      returns false (record a { proxy = some (record p { calls = k }) })
  acked relevant_id a p (refused k) =
      throws bad_publication_state (record a { proxy = some (record p { calls = k }) })

  -- Where the agent has a proxy: if an answer grants the request, the acknowledgement is sent with the
  -- agent's position, time and next number, the number goes up by one, and a requested position is
  -- withdrawn exactly for an acknowledgement of no snapshot; otherwise none of that changes.
  pub ack-verdict :
      (relevant_id : ℤ) (a : Agent) (p : Proxy)
      → a.proxy ≡ some p
      → ack relevant_id a ≡ acked relevant_id a p (verdict p.answers p.calls attempts)
  unfolding ack with_proxy
  ack-verdict relevant_id a p e = elim (Verdict-cases (verdict p.answers p.calls attempts)) [
    | inl (k, f) ↦ ground (arith, claim-verdict (due relevant_id a) p)
    | inr g ↦ elim g [
      | inl (k, f) ↦ ground (arith, claim-verdict (due relevant_id a) p)
      | inr (k, f) ↦ ground (arith, claim-verdict (due relevant_id a) p)
    ]
  ]

  deref-update_ref :
      (r : ℕ) (ss : List ClientSession) {s : ClientSession}
      → deref r ss ≡ some s
      → deref r (update_ref r mark_closing ss) ≡ some (mark_closing s)
  unfolding deref update_ref mark_closing
  deref-update_ref r [] e = cc
  deref-update_ref r (x ∷ xs) {s} e = ground (arith, deref-update_ref r xs {s = s})

  -- What a request that was sent leaves.
  request_close_marks :
      (id : ℤ) (r : ℕ) (a b : Agent)
      → request_close id r a ≡ returns true b
      → (b.in_lifecycle_callback ≡ a.in_lifecycle_callback)
        × (b.is_background_invocation ≡ a.is_background_invocation)
        × (b.table ≡ record (a.table) { sessions = update_ref r mark_closing a.table.sessions })
  unfolding request_close with_proxy write_session
  request_close_marks id r a b e = elim (Option-cases a.proxy) [
    | inl f ↦ absurd (ground arith)
    | inr (p, f) ↦ elim (Outcome-cases (claim (close_session id) p)) [
      | inl (x, q, g) ↦ (ground arith, ground arith, ground arith)
      | inr (x, q, g) ↦ absurd (ground arith)
    ]
  ]

  abbrev pub is_valid : Agent → Bool
  is_valid a = not (a.in_lifecycle_callback || a.is_background_invocation)

  check_valid : (a : Agent) → is_valid a ≡ true → check_for_valid_invocation a ≡ returns tt a
  unfolding check_for_valid_invocation
  check_valid a e = ground arith

  check_invalid :
      (a : Agent) → is_valid a ≡ false → check_for_valid_invocation a ≡ throws invalid_invocation a
  unfolding check_for_valid_invocation
  check_invalid a e = ground arith

  -- How `closeClientSession` ends by what it finds.
  pub close_known :
      (id : ℤ) (a : Agent) {r : ℕ} {s : ClientSession}
      → is_valid a ≡ true
      → get_client_session id a.table ≡ some r
      → deref r a.table.sessions ≡ some s
      → close_client_session id a ≡ (if s.is_closing then returns true a else request_close id r a)
  unfolding close_client_session read_session
  close_known id a {r} {s} v f g = rw (check_valid a v, ◌>>=◌, ◌>>◌, f, g) (ground arith)

  pub close_invalid :
      (id : ℤ) (a : Agent)
      → is_valid a ≡ false
      → close_client_session id a ≡ throws invalid_invocation a
  unfolding close_client_session
  close_invalid id a v = rw (check_invalid a v, ◌>>=◌, ◌>>◌) refl

  pub close_unknown :
      (id : ℤ) (a : Agent)
      → is_valid a ≡ true
      → get_client_session id a.table ≡ none
      → close_client_session id a ≡ throws unknown_session a
  unfolding close_client_session
  close_unknown id a v f = rw (check_valid a v, ◌>>=◌, ◌>>◌, f) refl

  close_dangling :
      (id : ℤ) (a : Agent) {r : ℕ}
      → is_valid a ≡ true
      → get_client_session id a.table ≡ some r
      → deref r a.table.sessions ≡ none
      → close_client_session id a ≡ throws undefined a
  unfolding close_client_session read_session
  close_dangling id a v f g = rw (check_valid a v, ◌>>=◌, ◌>>◌, f, g) refl

  close_marked :
      (id : ℤ) (a b : Agent) (r : ℕ) (s : ClientSession)
      → is_valid a ≡ true
      → get_client_session id a.table ≡ some r
      → deref r a.table.sessions ≡ some s
      → request_close id r a ≡ returns true b
      → close_client_session id b ≡ returns true b
  unfolding mark_closing get_client_session
  close_marked id a b r s v f g h =
      let (lifecycle, background, table) = request_close_marks id r a b h in
      let marked = deref-update_ref r a.table.sessions {s = s} g in
      ground (
        arith,
        close_known id b {r = r} {s = mark_closing s} (ground arith) (ground arith) (ground arith),
      )

  -- A session that was closed once is not closed again: after `closeClientSession` has returned true, a
  -- second call returns true, and sends and changes nothing.
  pub close_client_session_twice :
      (id : ℤ) (a b : Agent)
      → close_client_session id a ≡ returns true b
      → close_client_session id b ≡ returns true b
  close_client_session_twice id a b e = elim (Bool-cases (is_valid a)) [
    | inr v ↦ absurd (ground (arith, close_invalid id a v))
    | inl v ↦ elim (Option-cases (get_client_session id a.table)) [
      | inl f ↦ absurd (ground (arith, close_unknown id a v f))
      | inr (r, f) ↦ elim (Option-cases (deref r a.table.sessions)) [
        | inl g ↦ absurd (ground (arith, close_dangling id a v f g))
        | inr (s, g) ↦ elim (Bool-cases s.is_closing) [
          | inl h ↦ ground (arith, close_known id a v f g)
          | inr h ↦ close_marked id a b r s v f g (ground (arith, close_known id a v f g))
        ]
      ]
    ]
  ]
