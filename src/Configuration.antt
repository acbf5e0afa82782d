-- ===== src/Configuration.antt =====
-- The configuration of a clustered service: the `Context` of
-- src/service/ClusteredServiceConfiguration.{h,cpp}. Its texts are their bytes.
pub mod Conclude
pub mod Laws
pub mod Settings
pub mod Start
use aeron_cluster_cpp.Prelude.{ℕ, Bool, true, false, List, [], ◌∷◌, Option, none, ℤ, pos, Text}
use aeron_cluster_cpp.Agent.State.{Callback, Script}

-- The defaults of the namespace `Configuration`.
abbrev pub cluster_id_default : ℤ
cluster_id_default = pos 0

abbrev pub service_id_default : ℤ
service_id_default = pos 0

abbrev pub service_name_default : Text
service_name_default =
    99 ∷ 108 ∷ 117 ∷ 115 ∷ 116 ∷ 101 ∷ 114 ∷ 101 ∷ 100 ∷ 45 ∷ 115 ∷ 101 ∷ 114 ∷ 118 ∷ 105 ∷ 99 ∷ 101
    ∷ []

abbrev pub replay_channel_default : Text
replay_channel_default = 97 ∷ 101 ∷ 114 ∷ 111 ∷ 110 ∷ 58 ∷ 105 ∷ 112 ∷ 99 ∷ []

abbrev pub replay_stream_id_default : ℤ
replay_stream_id_default = pos 103

abbrev pub control_channel_default : Text
control_channel_default =
    97 ∷ 101 ∷ 114 ∷ 111 ∷ 110 ∷ 58 ∷ 105 ∷ 112 ∷ 99 ∷ 63 ∷ 116 ∷ 101 ∷ 114 ∷ 109 ∷ 45 ∷ 108 ∷ 101
    ∷ 110 ∷ 103 ∷ 116 ∷ 104 ∷ 61 ∷ 49 ∷ 50 ∷ 56 ∷ 107 ∷ []

abbrev pub service_stream_id_default : ℤ
service_stream_id_default = pos 104

abbrev pub consensus_module_stream_id_default : ℤ
consensus_module_stream_id_default = pos 105

abbrev pub snapshot_channel_default : Text
snapshot_channel_default =
    97 ∷ 101 ∷ 114 ∷ 111 ∷ 110 ∷ 58 ∷ 105 ∷ 112 ∷ 99 ∷ 63 ∷ 97 ∷ 108 ∷ 105 ∷ 97 ∷ 115 ∷ 61 ∷ 115
    ∷ 110 ∷ 97 ∷ 112 ∷ 115 ∷ 104 ∷ 111 ∷ 116 ∷ []

abbrev pub snapshot_stream_id_default : ℤ
snapshot_stream_id_default = pos 106

abbrev pub cluster_dir_default : Text
cluster_dir_default = 97 ∷ 101 ∷ 114 ∷ 111 ∷ 110 ∷ 45 ∷ 99 ∷ 108 ∷ 117 ∷ 115 ∷ 116 ∷ 101 ∷ 114 ∷ []

abbrev pub log_fragment_limit_default : ℤ
log_fragment_limit_default = pos 50

-- The archive client's own configuration is a type of that client; the Aeron client and an error
-- handler are handles, and a null pointer is `none`.
pub record ServiceContext (A : Type 0) : Type 0 where
  pub aeron : Option ℕ
  pub aeron_directory_name : Text
  pub owns_aeron_client : Bool
  pub error_handler : Option ℕ
  pub archive_context : A
  pub cluster_directory_name : Text
  pub service_id : ℤ
  pub service_name : Text
  pub control_channel : Text
  pub replay_channel : Text
  pub replay_stream_id : ℤ
  pub snapshot_channel : Text
  pub snapshot_stream_id : ℤ
  pub consensus_module_stream_id : ℤ
  pub service_stream_id : ℤ
  pub clustered_service : Option (List Callback → Script)
  pub standby_snapshot_enabled : Bool
  pub app_version : ℤ
  pub cluster_id : ℤ
  pub is_responding_service : Bool
  pub log_fragment_limit : ℤ

module _ {A : Type 0} where
  -- A new object, with the default path of the Aeron library, a new archive configuration, and what
  -- the memory of `m_appVersion` holds.
  unfoldable pub new_service_context : Text → A → ℤ → ServiceContext A
  new_service_context aeron_directory_name archive_context app_version = record {
    aeron = none;
    aeron_directory_name = aeron_directory_name;
    owns_aeron_client = false;
    error_handler = none;
    archive_context = archive_context;
    cluster_directory_name = cluster_dir_default;
    service_id = service_id_default;
    service_name = service_name_default;
    control_channel = control_channel_default;
    replay_channel = replay_channel_default;
    replay_stream_id = replay_stream_id_default;
    snapshot_channel = snapshot_channel_default;
    snapshot_stream_id = snapshot_stream_id_default;
    consensus_module_stream_id = consensus_module_stream_id_default;
    service_stream_id = service_stream_id_default;
    clustered_service = none;
    standby_snapshot_enabled = false;
    app_version = app_version;
    cluster_id = cluster_id_default;
    is_responding_service = true;
    log_fragment_limit = log_fragment_limit_default;
  }

  -- The setters.
  unfoldable pub set_aeron : Option ℕ → ServiceContext A → ServiceContext A
  set_aeron aeron c = record c { aeron = aeron }

  unfoldable pub set_aeron_directory_name : Text → ServiceContext A → ServiceContext A
  set_aeron_directory_name aeron_directory_name c = record c {
    aeron_directory_name = aeron_directory_name;
  }

  unfoldable pub set_owns_aeron_client : Bool → ServiceContext A → ServiceContext A
  set_owns_aeron_client owns_aeron_client c = record c { owns_aeron_client = owns_aeron_client }

  unfoldable pub set_error_handler : Option ℕ → ServiceContext A → ServiceContext A
  set_error_handler error_handler c = record c { error_handler = error_handler }

  unfoldable pub set_archive_context : A → ServiceContext A → ServiceContext A
  set_archive_context archive_context c = record c { archive_context = archive_context }

  unfoldable pub set_cluster_directory_name : Text → ServiceContext A → ServiceContext A
  set_cluster_directory_name cluster_directory_name c = record c {
    cluster_directory_name = cluster_directory_name;
  }

  unfoldable pub set_service_id : ℤ → ServiceContext A → ServiceContext A
  set_service_id service_id c = record c { service_id = service_id }

  unfoldable pub set_service_name : Text → ServiceContext A → ServiceContext A
  set_service_name service_name c = record c { service_name = service_name }

  unfoldable pub set_control_channel : Text → ServiceContext A → ServiceContext A
  set_control_channel control_channel c = record c { control_channel = control_channel }

  unfoldable pub set_replay_channel : Text → ServiceContext A → ServiceContext A
  set_replay_channel replay_channel c = record c { replay_channel = replay_channel }

  unfoldable pub set_replay_stream_id : ℤ → ServiceContext A → ServiceContext A
  set_replay_stream_id replay_stream_id c = record c { replay_stream_id = replay_stream_id }

  unfoldable pub set_snapshot_channel : Text → ServiceContext A → ServiceContext A
  set_snapshot_channel snapshot_channel c = record c { snapshot_channel = snapshot_channel }

  unfoldable pub set_snapshot_stream_id : ℤ → ServiceContext A → ServiceContext A
  set_snapshot_stream_id snapshot_stream_id c = record c { snapshot_stream_id = snapshot_stream_id }

  unfoldable pub set_consensus_module_stream_id : ℤ → ServiceContext A → ServiceContext A
  set_consensus_module_stream_id consensus_module_stream_id c = record c {
    consensus_module_stream_id = consensus_module_stream_id;
  }

  unfoldable pub set_service_stream_id : ℤ → ServiceContext A → ServiceContext A
  set_service_stream_id service_stream_id c = record c { service_stream_id = service_stream_id }

  unfoldable pub set_clustered_service :
      Option (List Callback → Script) → ServiceContext A → ServiceContext A
  set_clustered_service clustered_service c = record c { clustered_service = clustered_service }

  unfoldable pub set_standby_snapshot_enabled : Bool → ServiceContext A → ServiceContext A
  set_standby_snapshot_enabled standby_snapshot_enabled c = record c {
    standby_snapshot_enabled = standby_snapshot_enabled;
  }

  unfoldable pub set_app_version : ℤ → ServiceContext A → ServiceContext A
  set_app_version app_version c = record c { app_version = app_version }

  unfoldable pub set_cluster_id : ℤ → ServiceContext A → ServiceContext A
  set_cluster_id cluster_id c = record c { cluster_id = cluster_id }

  unfoldable pub set_is_responding_service : Bool → ServiceContext A → ServiceContext A
  set_is_responding_service is_responding_service c = record c {
    is_responding_service = is_responding_service;
  }

  unfoldable pub set_log_fragment_limit : ℤ → ServiceContext A → ServiceContext A
  set_log_fragment_limit log_fragment_limit c = record c { log_fragment_limit = log_fragment_limit }
