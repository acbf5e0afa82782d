-- ===== src/Program/Service.antt =====
-- An agent comes to life in the loop of src/service/service-main.cpp (`AsyncConnect::poll` of
-- src/service/ClusteredServiceAgent.cpp).
use mathlib.Core.Path.{subst}
use aeron_cluster_cpp.Prelude.{
  ℕ, suc, ◌≡◌, refl, sym, ap, ◌∙◌, true, ◌∷◌, Option, none, some, arith, Option-cases, inl, inr,
}
use aeron_cluster_cpp.Prelude.Outcome.{returns, final}
use aeron_cluster_cpp.Aeron.{Constants}
use aeron_cluster_cpp.Publication.{granted, verdict}
use aeron_cluster_cpp.RecoveryState.{get_log_position, get_timestamp, get_leadership_term_id}
use aeron_cluster_cpp.Proxy.{Proxy, attempts}
use aeron_cluster_cpp.Agent.State.{Agent, on_start, done}
use aeron_cluster_cpp.Agent.Service.{ack, notify, run_script}
use aeron_cluster_cpp.Agent.Service.Requests.{acked, ack-verdict}
use aeron_cluster_cpp.Program.{await_agent}
use aeron_cluster_cpp.Agent.Launch.{
  LaunchDriver, Launch, or_find, is_there, resolve, all_resolved, proxy_connected, recover,
  start_service, acknowledge_start, launch_step, poll_launch,
}

module _ ⦃c : Constants⦄ where
  module _ (d : LaunchDriver) where
    -- What is found when the searches are done: everything, a recovery counter of a cluster without a
    -- snapshot, and a publication that will grant the first acknowledgement.
    pub record IsReady (l : Launch) : Type 0 where
      pub resolved : all_resolved d l ≡ true
      pub connected : proxy_connected d l ≡ true
      pub recovery : ℕ
      pub has_recovery : l.recovery_counter_id ≡ some recovery
      pub no_snapshot :
          get_leadership_term_id d.recovery_state_type_id d.counters recovery ≡ c.null_value
      pub no_image : l.snapshot_image ≡ none
      pub proxy : Proxy
      pub has_proxy : l.agent.proxy ≡ some proxy
      pub calls : ℕ
      pub grants : verdict proxy.answers proxy.calls attempts ≡ granted calls
      pub starts : l.agent.ctx.service (on_start none ∷ l.agent.history) ≡ done true

    -- The agent after each of the three polls.
    abbrev pub recovered : ℕ → Agent → Agent
    recovered id a = record a {
      log_position = get_log_position d.recovery_state_type_id d.counters id;
      cluster_time = get_timestamp d.recovery_state_type_id d.counters id;
      leadership_term_id = get_leadership_term_id d.recovery_state_type_id d.counters id;
    }

    abbrev pub started : Option ℕ → Agent → Agent
    started image a = record a { history = on_start image ∷ a.history }

    first_poll :
        (l : Launch) (k : IsReady (resolve d l))
        → (m : Launch) × (poll_launch d l ≡ returns none m)
          × (m.agent ≡ recovered k.recovery (resolve d l).agent)
          × (m.step ≡ 3)
          × (m.snapshot_image ≡ none)
    unfolding poll_launch launch_step recover
    first_poll l k =
        let r : Launch = resolve d l in
        (
          record r { agent = recovered k.recovery r.agent; adapter_bound = true; step = 3 },
          ground (arith, k.resolved, k.connected, k.has_recovery, k.no_snapshot),
          refl,
          refl,
          k.no_image,
        )

    -- With a proxy and a commit position, the searches leave the agent as it is.
    pub agent-resolve :
        (l : Launch) (p : Proxy)
        → l.agent.proxy ≡ some p
        → is_there l.agent.commit_position ≡ true
        → (resolve d l).agent ≡ l.agent
    unfolding resolve or_find is_there
    agent-resolve l p e f =
        elim (Option-cases
          (or_find l.publication (d.find_exclusive_publication l.publication_id))) [
            | inl g ↦ elim (Option-cases l.agent.commit_position) [
              | inl h ↦ absurd (ground arith)
              | inr (k, h) ↦ ground arith
            ]
            | inr (n, g) ↦ elim (Option-cases l.agent.commit_position) [
              | inl h ↦ absurd (ground arith)
              | inr (k, h) ↦ ground arith
            ]
          ]

    pub has_commit :
        (l : Launch) → all_resolved d l ≡ true → is_there l.agent.commit_position ≡ true
    unfolding all_resolved
    has_commit l e = ground arith

    -- An application that returns true at once.
    notify_start :
        (image : Option ℕ) (a : Agent)
        → a.ctx.service (on_start image ∷ a.history) ≡ done true
        → notify (on_start image) a ≡ returns true (started image a)
    unfolding notify run_script
    notify_start image a e = ground arith

    -- At a step past the searches, a poll is that step on what the searches found.
    pub poll_later :
        (l : Launch) {n : ℕ} → l.step ≡ suc n → poll_launch d l ≡ launch_step d (resolve d l)
    unfolding poll_launch all_resolved resolve
    poll_later l e = ground arith

    pub second_poll :
        (l : Launch) (p : Proxy) (image : Option ℕ)
        → l.step ≡ 3
        → l.snapshot_image ≡ image
        → l.agent.proxy ≡ some p
        → is_there l.agent.commit_position ≡ true
        → l.agent.ctx.service (on_start image ∷ l.agent.history) ≡ done true
        → (m : Launch) × (poll_launch d l ≡ returns none m)
          × (m.agent ≡ started image l.agent)
          × (m.step ≡ 4)
    unfolding start_service launch_step resolve
    second_poll l p image e f g h k =
        let r : Launch = resolve d l in
        let called : notify (on_start image) r.agent ≡ returns true (started image r.agent) =
          subst (λ x. notify (on_start image) x ≡ returns true (started image x))
            (sym (agent-resolve l p g h)) (notify_start image l.agent k) in
        (
          record r { agent = started image r.agent; step = 4 },
          ground (arith, poll_later l {n = 2} e),
          ap (started image) (agent-resolve l p g h),
          refl,
        )

    pub third_poll :
        (l : Launch) (p : Proxy) (calls : ℕ)
        → l.step ≡ 4
        → l.agent.proxy ≡ some p
        → is_there l.agent.commit_position ≡ true
        → verdict p.answers p.calls attempts ≡ granted calls
        → (a : Agent) × (m : Launch) × (poll_launch d l ≡ returns (some a) m)
          × (a.is_service_active ≡ true)
          × (a.log_position ≡ l.agent.log_position)
          × (a.history ≡ l.agent.history)
          × (a.table ≡ l.agent.table)
    unfolding acknowledge_start launch_step resolve
    third_poll l p calls e g h v =
        let r : Launch = resolve d l in
        let b : Agent = final (acked d.client_id l.agent p (granted calls)) in
        let a : Agent = record b { is_service_active = true } in
        let sent : ack d.client_id r.agent ≡ returns true b =
          ap (ack d.client_id) (agent-resolve l p g h)
          ∙ ack-verdict d.client_id l.agent p g
          ∙ ap (acked d.client_id l.agent p) v in
        (
          a,
          record r { agent = a },
          ground (arith, poll_later l {n = 3} e, sent),
          refl,
          refl,
          refl,
          refl,
        )

    -- Once the searches have found a connected publication that grants the acknowledgement, the service
    -- adapter, the counters and the archive, in a cluster without a snapshot and with an application
    -- that starts, the loop of `main` ends after three polls, with an active agent that stands where
    -- the recovery counter says and has told the application to start.
    pub await_agent_live :
        (l : Launch) (k : IsReady (resolve d l))
        → (a : Agent) × (m : Launch) × (await_agent 3 (λ _. d) l ≡ returns a m)
          × (a.is_service_active ≡ true)
          × (a.log_position ≡ get_log_position d.recovery_state_type_id d.counters k.recovery)
          × (a.history ≡ on_start none ∷ (resolve d l).agent.history)
    unfolding await_agent
    await_agent_live l k =
        let (m1, e1, a1, s1, i1) = first_poll l k in
        let p1 : m1.agent.proxy ≡ some k.proxy = ap (λ a. a.proxy) a1 ∙ k.has_proxy in
        let c1 : is_there m1.agent.commit_position ≡ true =
          ap (λ a. is_there a.commit_position) a1 ∙ has_commit (resolve d l) k.resolved in
        let (m2, e2, a2, s2) =
          second_poll m1 k.proxy none s1 i1 p1 c1
            (ap (λ a. a.ctx.service (on_start none ∷ a.history)) a1 ∙ k.starts) in
        let (a, m3, e3, active, at, told, table) =
          third_poll m2 k.proxy k.calls s2 (ap (λ x. x.proxy) a2 ∙ p1)
            (ap (λ x. is_there x.commit_position) a2 ∙ c1) k.grants in
        (
          a,
          m3,
          ground (arith, e1, e2, e3),
          active,
          at ∙ ap (λ x. x.log_position) a2 ∙ ap (λ x. x.log_position) a1,
          told ∙ ap (λ x. x.history) a2 ∙ ap (λ x. on_start none ∷ x.history) a1,
        )
