-- ===== src/Configuration/Start.antt =====
-- `ClusteredServiceAgent::asyncConnect` and the constructor of `AsyncConnect`
-- (src/service/ClusteredServiceAgent.cpp): from a configuration to an agent that is being launched.
use mathlib.Core.Path.{subst}
use aeron_cluster_cpp.Prelude.{
  ◌≡◌, refl, sym, ap, ◌∙◌, true, false, inl, inr, List, none, some, ℤ, Text, arith, Option-cases,
}
use aeron_cluster_cpp.Prelude.Outcome.{M, returns, throws, service_missing, Outcome-cases}
use aeron_cluster_cpp.Aeron.{Constants}
use aeron_cluster_cpp.Agent.State.{Context, Memory, Callback, Script, new_agent}
use aeron_cluster_cpp.Agent.Launch.{Launch}
use aeron_cluster_cpp.Configuration.{ServiceContext}
use aeron_cluster_cpp.Configuration.Conclude.{ArchiveSettings, AeronLibrary, in_range, conclude}
use aeron_cluster_cpp.Configuration.Laws.{IsConcluded, conclude-IsConcluded, conclude_concluded}

-- What the agent reads of the configuration, with the application.
unfoldable pub agent_context : {A : Type 0} → ServiceContext A → (List Callback → Script) → Context
agent_context c service = record {
  service = service;
  service_id = c.service_id;
  cluster_id = c.cluster_id;
  app_version = c.app_version;
  is_responding_service = c.is_responding_service;
  standby_snapshot_enabled = c.standby_snapshot_enabled;
  snapshot_channel = c.snapshot_channel;
  snapshot_stream_id = c.snapshot_stream_id;
  replay_channel = c.replay_channel;
  replay_stream_id = c.replay_stream_id;
  control_channel = c.control_channel;
  consensus_module_stream_id = c.consensus_module_stream_id;
  service_stream_id = c.service_stream_id;
  log_fragment_limit = c.log_fragment_limit;
}

-- What the Aeron client answers to the two calls, and what the members hold that the constructors
-- leave uninitialised.
pub record StartDriver : Type 0 where
  pub add_exclusive_publication : Text → ℤ → ℤ
  pub add_subscription : Text → ℤ → ℤ
  pub agent_memory : Memory
  pub snapshot_subscription_id : ℤ
  pub snapshot_session_id : ℤ

module _ ⦃c : Constants⦄ (d : StartDriver) {A : Type 0} where
  -- `AsyncConnect::AsyncConnect`, of an application that is not null.
  unfoldable pub new_launch : ServiceContext A → (List Callback → Script) → Launch
  unfolding new_agent agent_context
  new_launch ctx service = record {
    agent = new_agent (agent_context ctx service) d.agent_memory;
    has_archive = false;
    has_service_adapter = false;
    adapter_bound = false;
    publication_id = d.add_exclusive_publication ctx.control_channel ctx.consensus_module_stream_id;
    publication = none;
    subscription_id = d.add_subscription ctx.control_channel ctx.service_stream_id;
    subscription = none;
    recovery_counter_id = none;
    snapshot_recording_id = c.null_value;
    snapshot_subscription_id = d.snapshot_subscription_id;
    snapshot_session_id = d.snapshot_session_id;
    snapshot_subscription = none;
    snapshot_image = none;
    snapshot_loader = none;
    step = 0;
  }

  -- The constructor; without an application it throws before the calls of the Aeron client.
  unfoldable pub construct : M (ServiceContext A) Launch
  unfolding new_launch
  construct ctx = elim ctx.clustered_service [
    | none ↦ throws service_missing ctx
    | some service ↦ returns (new_launch ctx service) ctx
  ]

  module _ ⦃archive : ArchiveSettings A⦄ (library : AeronLibrary) where
    -- `ClusteredServiceAgent::asyncConnect`.
    unfoldable pub async_connect : M (ServiceContext A) Launch
    unfolding construct
    async_connect ctx = elim (conclude library ctx) [
      | throws e b ↦ throws e b
      | returns _ b ↦ construct b
    ]

    launch-service_id :
        (ctx : ServiceContext A) (service : List Callback → Script)
        → (new_launch ctx service).agent.ctx.service_id ≡ ctx.service_id
    unfolding new_launch new_agent agent_context
    launch-service_id ctx service = refl

    constructed :
        (ctx b : ServiceContext A) (l : Launch)
        → construct ctx ≡ returns l b
        → (b ≡ ctx)
          × (service : List Callback → Script) × (ctx.clustered_service ≡ some service)
          × (l ≡ new_launch ctx service)
    unfolding construct
    constructed ctx b l e = elim (Option-cases ctx.clustered_service) [
      | inl f ↦ absurd (ground arith)
      | inr (service, f) ↦ (ground arith, service, f, ground arith)
    ]

    pub async_connect-IsConcluded :
        (ctx b : ServiceContext A) (l : Launch)
        → async_connect ctx ≡ returns l b
        → IsConcluded library b
          × (service : List Callback → Script) × (b.clustered_service ≡ some service)
          × (l ≡ new_launch b service)
          × (in_range l.agent.ctx.service_id ≡ true)
          × (conclude library b ≡ returns tt b)
    unfolding async_connect
    async_connect-IsConcluded ctx b l e = elim (Outcome-cases (conclude library ctx)) [
      | inr (x, k, f) ↦ absurd (ground arith)
      | inl (x, k, f) ↦
          let (same, service, has, launched) = constructed k b l (ground arith) in
          let concluded = conclude-IsConcluded library ctx k f in
          let at : l ≡ new_launch b service =
            launched ∙ ap (λ x. new_launch x service) (sym same) in
          let id : in_range b.service_id ≡ true =
            ap (λ x. in_range x.service_id) same ∙ concluded.id_in_range in
          (
            subst (IsConcluded library) (sym same) concluded,
            service,
            ap (λ x. x.clustered_service) same ∙ has,
            at,
            ap (λ x. in_range x.agent.ctx.service_id) at
                ∙ ap in_range (launch-service_id b service)
                ∙ id,
            conclude_concluded library b (subst (IsConcluded library) (sym same) concluded),
          )
    ]
