-- ===== src/Configuration/Settings.antt =====
-- The settings that concluding a configuration does not read
-- (src/service/ClusteredServiceConfiguration.h).
use aeron_cluster_cpp.Prelude.{◌≡◌, Bool, List, Option, ℤ, Text, arith}
use aeron_cluster_cpp.Prelude.Outcome.{Outcome, returns, throws}
use aeron_cluster_cpp.Agent.State.{Callback, Script}
use aeron_cluster_cpp.Configuration.{
  ServiceContext, set_cluster_directory_name, set_service_name, set_control_channel,
  set_replay_channel, set_replay_stream_id, set_snapshot_channel, set_snapshot_stream_id,
  set_consensus_module_stream_id, set_service_stream_id, set_clustered_service,
  set_standby_snapshot_enabled, set_app_version, set_cluster_id, set_is_responding_service,
  set_log_fragment_limit,
}
use aeron_cluster_cpp.Configuration.Conclude.{
  ArchiveSettings, AeronLibrary, handler_of, connect_if_needed, conclude,
}

pub data Setting : Type 0 where
  cluster_directory_name : Text → Setting
  service_name : Text → Setting
  control_channel : Text → Setting
  replay_channel : Text → Setting
  replay_stream_id : ℤ → Setting
  snapshot_channel : Text → Setting
  snapshot_stream_id : ℤ → Setting
  consensus_module_stream_id : ℤ → Setting
  service_stream_id : ℤ → Setting
  clustered_service : Option (List Callback → Script) → Setting
  standby_snapshot_enabled : Bool → Setting
  app_version : ℤ → Setting
  cluster_id : ℤ → Setting
  is_responding_service : Bool → Setting
  log_fragment_limit : ℤ → Setting

module _ {A : Type 0} where
  unfoldable pub apply : Setting → ServiceContext A → ServiceContext A
  unfolding set_cluster_directory_name set_service_name set_control_channel set_replay_channel
      set_replay_stream_id set_snapshot_channel set_snapshot_stream_id
      set_consensus_module_stream_id set_service_stream_id set_clustered_service
      set_standby_snapshot_enabled set_app_version set_cluster_id set_is_responding_service
      set_log_fragment_limit
  apply (cluster_directory_name x) c = set_cluster_directory_name x c
  apply (service_name x) c = set_service_name x c
  apply (control_channel x) c = set_control_channel x c
  apply (replay_channel x) c = set_replay_channel x c
  apply (replay_stream_id x) c = set_replay_stream_id x c
  apply (snapshot_channel x) c = set_snapshot_channel x c
  apply (snapshot_stream_id x) c = set_snapshot_stream_id x c
  apply (consensus_module_stream_id x) c = set_consensus_module_stream_id x c
  apply (service_stream_id x) c = set_service_stream_id x c
  apply (clustered_service x) c = set_clustered_service x c
  apply (standby_snapshot_enabled x) c = set_standby_snapshot_enabled x c
  apply (app_version x) c = set_app_version x c
  apply (cluster_id x) c = set_cluster_id x c
  apply (is_responding_service x) c = set_is_responding_service x c
  apply (log_fragment_limit x) c = set_log_fragment_limit x c

  abbrev pub applied :
      Setting → Outcome (ServiceContext A) (Unit {0}) → Outcome (ServiceContext A) (Unit {0})
  applied s (returns x c) = returns x (apply s c)
  applied s (throws e c) = throws e (apply s c)

module _ {A : Type 0} ⦃archive : ArchiveSettings A⦄ (library : AeronLibrary) where
  -- Any setting but those of the Aeron client, its directory and owner, the error handler, the
  -- archive's configuration and the service id can be made before or after `conclude`: the outcome is
  -- the same, and concluding overrides none of them.
  pub conclude-apply :
      (s : Setting) (c : ServiceContext A)
      → conclude library (apply s c) ≡ applied s (conclude library c)
  unfolding conclude connect_if_needed apply handler_of
  conclude-apply (cluster_directory_name x) c = ground arith
  conclude-apply (service_name x) c = ground arith
  conclude-apply (control_channel x) c = ground arith
  conclude-apply (replay_channel x) c = ground arith
  conclude-apply (replay_stream_id x) c = ground arith
  conclude-apply (snapshot_channel x) c = ground arith
  conclude-apply (snapshot_stream_id x) c = ground arith
  conclude-apply (consensus_module_stream_id x) c = ground arith
  conclude-apply (service_stream_id x) c = ground arith
  conclude-apply (clustered_service x) c = ground arith
  conclude-apply (standby_snapshot_enabled x) c = ground arith
  conclude-apply (app_version x) c = ground arith
  conclude-apply (cluster_id x) c = ground arith
  conclude-apply (is_responding_service x) c = ground arith
  conclude-apply (log_fragment_limit x) c = ground arith
