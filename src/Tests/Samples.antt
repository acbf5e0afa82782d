-- ===== src/Tests/Samples.antt =====
-- Inputs for the tests: the constants of the Aeron library as its headers give them, a driver that
-- finds everything, and a service (src/service/service-main.cpp) whose callbacks return true.
use aeron_cluster_cpp.Prelude.{ℕ, zero, suc, true, false, List, [], ◌∷◌, none, some, ℤ, pos, negsuc}
use aeron_cluster_cpp.Aeron.{Constants}
use aeron_cluster_cpp.Publication.{Publication}
use aeron_cluster_cpp.ClusterCounters.{CountersReader, record_unused}
use aeron_cluster_cpp.Sessions.{ClientSession, SessionTable}
use aeron_cluster_cpp.Sessions.Connect.{found}
use aeron_cluster_cpp.Agent.State.{Agent, Context, follower, done, closes_session, Script, Callback}
use aeron_cluster_cpp.Agent.Driver.{Driver}

instance abbrev pub aeron_constants : Constants
aeron_constants = record {
  null_value = negsuc 0;
  null_position = negsuc 0;
  null_counter_id = negsuc 0;
  not_connected = negsuc 0;
  publication_closed = negsuc 3;
  max_position_exceeded = negsuc 4;
}

-- The answers of a publication that is back-pressured once in two calls.
abbrev pub busy_answers : ℕ → ℤ
busy_answers zero = negsuc 1
busy_answers (suc zero) = pos 64
busy_answers (suc (suc n)) = busy_answers n

abbrev pub fresh_publication : {A : Type 0} → (ℕ → ℤ) → Publication A
fresh_publication answers = record { answers = answers; calls = 0; sent = [] }

abbrev pub session : ℕ → ℤ → ClientSession
session ref id = record {
  ref = ref;
  id = id;
  response_stream_id = pos 102;
  response_channel = 7 ∷ [];
  encoded_principal = 1 ∷ 2 ∷ [];
  response_publication_id = negsuc 0;
  response_publication = none;
  is_closing = false;
}

abbrev pub two_sessions : SessionTable
two_sessions = record {
  by_id = (pos 5, 0) ∷ (pos 9, 1) ∷ [];
  sessions = session 0 (pos 5) ∷ session 1 (pos 9) ∷ [];
  next_ref = 2;
  noise = λ _. false;
}

abbrev pub counters : CountersReader
counters = record {
  max_counter_id = 0;
  counter_state = λ _. record_unused;
  counter_type_id = λ _. pos 0;
  counter_registration_id = λ _. pos 0;
  counter_value = λ _. pos 0;
  key_int32 = λ _ _. pos 0;
  key_int64 = λ _ _. pos 0;
}

abbrev pub driver : Driver
driver = record {
  client_id = pos 1;
  is_closed = false;
  is_closed_after_invoke = false;
  nano_clock = pos 5000000;
  epoch_clock = pos 5;
  counters = counters;
  counter_closed = λ _. false;
  publications = record {
    add_publication = λ _ _. some (pos 40);
    find_exclusive_publication = λ _ _. found 3;
  };
  add_exclusive_publication = λ _ _. pos 41;
  find_exclusive_publication = λ _. some 4;
  publication_session_id = λ _. pos 17;
  publication_position = λ _. pos 128;
  offer_answers = λ _. busy_answers;
  add_subscription = λ _ _. pos 42;
  find_subscription = λ _. some 5;
  image_by_session_id = λ _ _. some 6;
  image_join_position = λ _. pos 0;
  image_position = λ _. pos 256;
  image_end_of_stream = λ _. false;
  image_closed = λ _. false;
  channel_with_alias = λ channel. channel;
  recording_counter_of = λ _. pos 8;
  recording_id_of = λ _. pos 2;
  recording_position = λ _. pos 128;
  recording_starts = true;
  archive_fine = true;
}

abbrev pub context : (List Callback → Script) → Context
context service = record {
  service = service;
  service_id = pos 0;
  cluster_id = pos 0;
  app_version = pos 3;
  is_responding_service = true;
  standby_snapshot_enabled = false;
  snapshot_channel = 1 ∷ [];
  snapshot_stream_id = pos 106;
  replay_channel = 2 ∷ [];
  replay_stream_id = pos 103;
  control_channel = 3 ∷ [];
  consensus_module_stream_id = pos 105;
  service_stream_id = pos 104;
  log_fragment_limit = pos 50;
}

-- The service of service-main.cpp, and one that closes session 5 in each callback.
abbrev pub quiet : List Callback → Script
quiet _ = done true

abbrev pub closing : List Callback → Script
closing _ = closes_session (pos 5) (λ _. done true)

-- An agent with two sessions, behind a proxy that is back-pressured once in two calls.
abbrev pub agent : (List Callback → Script) → Agent
agent service = record {
  ctx = context service;
  table = two_sessions;
  proxy = some (fresh_publication busy_answers);
  cluster_time = pos 0;
  is_abort = false;
  is_service_active = true;
  last_slow_tick_ns = pos 0;
  member_id = pos 0;
  ack_id = pos 4;
  termination_position = negsuc 0;
  log_position = pos 0;
  leadership_term_id = pos 1;
  is_background_invocation = false;
  in_lifecycle_callback = false;
  role = follower;
  requested_ack_position = negsuc 0;
  commit_position = none;
  mark_file_update_deadline_ms = pos 1;
  standby_snapshot_flags = 0;
  log_adapter = record {
    image = none;
    max_log_position = pos 0;
    builder = record { bytes = []; next_term_offset = 0 };
  };
  active_log_event = none;
  current_snapshot = none;
  history = [];
}
