-- ===== src/Tests/Configuration.antt =====
-- The theorems on configurations, at the one of src/service/service-main.cpp, and on the client that
-- src/client/main.cpp waits for.
use aeron_cluster_cpp.Prelude.{ℕ, ◌≡◌, refl, inr, false, [], ◌∷◌, Option, none, some, pos, Text}
use aeron_cluster_cpp.Prelude.Outcome.{returns, final}
use aeron_cluster_cpp.Agent.Launch.{Launch}
use aeron_cluster_cpp.Configuration.{
  ServiceContext, new_service_context, set_service_id, set_archive_context, set_clustered_service,
}
use aeron_cluster_cpp.Configuration.Conclude.{
  ArchiveSettings, AeronLibrary, conclude, in_range, is_local, handler_of, connect_if_needed,
  or_else,
}
use aeron_cluster_cpp.Configuration.Start.{StartDriver, new_launch, construct, async_connect}
use aeron_cluster_cpp.Client.State.{ClientDriver, ConnectMemory}
use aeron_cluster_cpp.Client.State
use aeron_cluster_cpp.Sessions.Connect.{not_yet}
use aeron_cluster_cpp.Program.{configure, test_service}
use aeron_cluster_cpp.Tests.Client.{client_driver}
use aeron_cluster_cpp.Tests.Samples.{aeron_constants}

-- An archive client's configuration, with what it was given.
pub record Archive : Type 0 where
  pub request : Text
  pub response : Text
  pub given : Option (ℕ × ℕ)

instance abbrev pub archive_settings : ArchiveSettings Archive
archive_settings = record {
  control_request_channel = λ a. a.request;
  control_response_channel = λ a. a.response;
  give = λ aeron handler a. record a { given = some (aeron, handler) };
  request-give = λ aeron handler a. refl;
  response-give = λ aeron handler a. refl;
  give-give = λ aeron handler a. refl;
}

abbrev pub library : AeronLibrary
library = record {
  connect_aeron = λ _ _. inr 9;
  default_error_handler = 1;
  ipc_channel = 97 ∷ 101 ∷ 114 ∷ 111 ∷ 110 ∷ 58 ∷ 105 ∷ 112 ∷ 99 ∷ [];
}

-- What `main` configures.
abbrev pub configured : ServiceContext Archive
configured =
    configure (λ channel a. record a { request = channel })
      (λ channel a. record a { response = channel }) (λ _. pos 64)
      (new_service_context (46 ∷ []) (record { request = []; response = []; given = none }) (pos 3))

abbrev pub start_driver : StartDriver
start_driver = record {
  add_exclusive_publication = λ _ _. pos 40;
  add_subscription = λ _ _. pos 41;
  agent_memory = record {
    is_abort = false;
    is_background_invocation = false;
    last_slow_tick_ns = pos 0;
    max_log_position = pos 0;
    builder = record { bytes = []; next_term_offset = 0 };
    is_closing = λ _. false;
  };
  snapshot_subscription_id = pos 0;
  snapshot_session_id = pos 0;
}

abbrev pub concluded : ServiceContext Archive
concluded = final (conclude library configured)

abbrev pub begun : Launch
begun = new_launch start_driver concluded (test_service (λ _. pos 64))

pub begins : async_connect start_driver library configured ≡ returns begun concluded
unfolding async_connect construct conclude in_range is_local handler_of connect_if_needed or_else
    configure new_service_context set_service_id set_archive_context set_clustered_service
begins = refl

-- A library that never finds a publication that was not added as an exclusive one.
abbrev strict : ClientDriver
strict = record client_driver { find_exclusive_publication = λ _. not_yet }

abbrev connect_memory : ConnectMemory
connect_memory = record {
  cluster_session_id = pos 0;
  leadership_term_id = pos 0;
  leader_member_id = pos 0;
}
