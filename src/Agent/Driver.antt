-- ===== src/Agent/Driver.antt =====
-- What the Aeron client, the archive client and the clocks answer during one duty cycle of
-- src/service/ClusteredServiceAgent.cpp: parameters of the model.
use aeron_cluster_cpp.Prelude.{ℕ, Bool, Option, ℤ, Text}
use aeron_cluster_cpp.ClusterCounters.{CountersReader}
use aeron_cluster_cpp.Sessions.Connect.{PublicationClient}

pub record Driver : Type 0 where
  pub client_id : ℤ
  -- `m_aeron->isClosed()`, before the conductor is invoked and after.
  pub is_closed : Bool
  pub is_closed_after_invoke : Bool
  pub nano_clock : ℤ
  pub epoch_clock : ℤ
  pub counters : CountersReader
  -- Whether a counter of the agent is closed, by its id.
  pub counter_closed : ℕ → Bool
  pub publications : PublicationClient
  pub add_exclusive_publication : Text → ℤ → ℤ
  pub find_exclusive_publication : ℤ → Option ℕ
  pub publication_session_id : ℕ → ℤ
  pub publication_position : ℕ → ℤ
  -- The answers that a publication will give to offers.
  pub offer_answers : ℕ → ℕ → ℤ
  pub add_subscription : Text → ℤ → ℤ
  pub find_subscription : ℤ → Option ℕ
  pub image_by_session_id : ℕ → ℤ → Option ℕ
  pub image_join_position : ℕ → ℤ
  pub image_position : ℕ → ℤ
  pub image_end_of_stream : ℕ → Bool
  pub image_closed : ℕ → Bool
  -- `ChannelUri::parse`, `put(ALIAS_PARAM_NAME, …)`, `toString`, for the agent's alias.
  pub channel_with_alias : Text → Text
  -- `RecordingPos::findCounterIdBySessionId` and `getRecordingId`.
  pub recording_counter_of : ℤ → ℤ
  pub recording_id_of : ℤ → ℤ
  pub recording_position : ℤ → ℤ
  -- Whether `startRecording` returns; it throws what the archive answers otherwise.
  pub recording_starts : Bool
  -- Whether `checkForErrorResponse` finds no error.
  pub archive_fine : Bool
