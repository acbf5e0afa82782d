-- ===== src/Client/Ingress.antt =====
-- The first steps of `AeronCluster::AsyncConnect` in src/client/AeronCluster.cpp: the subscription to
-- the cluster's answers and the publications to its members.
use aeron_cluster_cpp.Prelude.{
  ℕ, suc, ◌==◌, if◌then◌else◌, Bool, true, false, List, [], ◌∷◌, ◌++◌, Option, none, some, ℤ, pos,
  ◌==ℤ◌, length, Text,
}
use aeron_cluster_cpp.Prelude.Outcome.{Outcome, returns, throws, registration_failed}
use aeron_cluster_cpp.Aeron.{Constants}
use aeron_cluster_cpp.Sessions.Connect.{found, not_yet, raised}
use aeron_cluster_cpp.Client.Poller.{new_poller}
use aeron_cluster_cpp.Client.Endpoints.{MemberIngress}
use aeron_cluster_cpp.Client.State.{AsyncConnect, ClientContext, ClientDriver}

-- `step(newStep)`.
unfoldable pub step_to : ℤ → AsyncConnect → AsyncConnect
step_to n a = record a { step = n }

-- `publication->close()`.
unfoldable pub close_publication : Option ℕ → AsyncConnect → AsyncConnect
close_publication none a = a
close_publication (some p) a = record a { closed = a.closed ++ p ∷ [] }

-- The publications of members that go out of scope.
unfoldable pub close_members : List MemberIngress → AsyncConnect → AsyncConnect
unfolding close_publication
close_members [] a = a
close_members (m ∷ ms) a = close_members ms (close_publication m.publication a)

-- `m_memberByIdMap.erase(id)`, of the members alone.
unfoldable pub erase_member : ℤ → List MemberIngress → List MemberIngress
erase_member id [] = []
erase_member id (m ∷ ms) =
    let rest = erase_member id ms in if m.member_id ==ℤ id then rest else m ∷ rest

unfoldable pub members_at : ℤ → List MemberIngress → List MemberIngress
members_at id [] = []
members_at id (m ∷ ms) =
    let rest = members_at id ms in if m.member_id ==ℤ id then m ∷ rest else rest

unfoldable pub is_empty : Text → Bool
is_empty [] = true
is_empty (x ∷ xs) = false

module _ ⦃c : Constants⦄ (d : ClientDriver) where
  -- `createEgressSubscription`.
  unfoldable pub create_egress_subscription : AsyncConnect → AsyncConnect
  unfolding step_to new_poller
  create_egress_subscription a =
      let id : ℤ =
        if a.egress_registration_id ==ℤ c.null_value
        then d.add_subscription a.ctx.egress_channel a.ctx.egress_stream_id
        else a.egress_registration_id in
      let b : AsyncConnect = record a {
        egress_registration_id = id;
        egress_subscription = d.find_subscription id;
      } in
      elim (d.find_subscription id) [
        | none ↦ b
        | some s ↦ step_to (pos 0) (record b { egress_poller = some (new_poller d.poller_memory) })
      ]

  -- The publication to the single endpoint, once it is registered.
  unfoldable pub find_ingress : ℤ → AsyncConnect → Outcome AsyncConnect (Unit {0})
  unfolding step_to
  find_ingress id a =
      let b : AsyncConnect = record a { ingress_registration_id = id } in
      let done : ℕ → AsyncConnect = λ p.
        step_to (pos 1)
          (record b { ingress_publication = some p; ingress_registration_id = c.null_value }) in
      elim a.ingress_publication [
        | some p ↦ returns tt (done p)
        | none ↦ elim (d.find_exclusive_publication id) [
          | found p ↦ returns tt (done p)
          | not_yet ↦ returns tt b
          | raised ↦ throws registration_failed b
        ]
      ]

  -- Without endpoints: one publication.
  unfoldable pub create_ingress_publication : AsyncConnect → Outcome AsyncConnect (Unit {0})
  unfolding find_ingress
  create_ingress_publication a =
      let registered : Outcome AsyncConnect (Unit {0}) =
        elim (d.add_publication a.ctx.ingress_channel a.ctx.ingress_stream_id) [
          | none ↦ throws registration_failed a
          | some id ↦ find_ingress id a
        ] in
      if a.ingress_registration_id ==ℤ c.null_value
      then registered
      else find_ingress a.ingress_registration_id a

  -- The body of the loop over the members; an exception is swallowed.
  unfoldable pub find_member_ingress : ℤ → MemberIngress → MemberIngress
  find_member_ingress id m =
      let n : MemberIngress = record m { registration_id = id } in
      elim m.publication [
        | some p ↦ n
        | none ↦ elim (d.find_exclusive_publication id) [
          | found p ↦ record n { publication = some p }
          | not_yet ↦ n
          | raised ↦ n
        ]
      ]

  unfoldable pub create_member_ingress : ClientContext → MemberIngress → MemberIngress
  unfolding find_member_ingress
  create_member_ingress ctx m =
      let registered : MemberIngress =
        elim (d.add_publication (d.channel_with_endpoint ctx.ingress_channel m.endpoint)
          ctx.ingress_stream_id) [ none ↦ m | some id ↦ find_member_ingress id m ] in
      if m.registration_id ==ℤ c.null_value
      then registered
      else find_member_ingress m.registration_id m

  unfoldable pub create_members : ClientContext → List MemberIngress → List MemberIngress
  unfolding create_member_ingress
  create_members ctx [] = []
  create_members ctx (m ∷ ms) = create_member_ingress ctx m ∷ create_members ctx ms

  -- `publicationCount`.
  unfoldable pub publication_count : List MemberIngress → ℕ
  publication_count [] = 0
  publication_count (m ∷ ms) = elim m.publication [
    | none ↦ publication_count ms
    | some _ ↦ suc (publication_count ms)
  ]

  -- `createIngressPublications`.
  unfoldable pub create_ingress_publications : AsyncConnect → Outcome AsyncConnect (Unit {0})
  unfolding create_ingress_publication create_members publication_count step_to is_empty
  create_ingress_publications a =
      let members : List MemberIngress = create_members a.ctx a.member_by_id in
      let b : AsyncConnect = record a { member_by_id = members } in
      if is_empty a.ctx.ingress_endpoints
      then create_ingress_publication a
      else if publication_count members == length members
      then returns tt (step_to (pos 1) b)
      else returns tt b
