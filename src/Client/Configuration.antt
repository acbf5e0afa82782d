-- ===== src/Client/Configuration.antt =====
-- The configuration of a client: `AeronCluster::Context` of src/client/AeronCluster.{h,cpp}, with the default
-- consumers of src/client/ClusterConfiguration.h.
use aeron_cluster_cpp.Prelude.{ℕ, [], ◌∷◌, Bool, true, ◌⊎◌, inl, inr, Option, none, some, ℤ, Text}
use aeron_cluster_cpp.Prelude.Outcome.{M, returns, throws, Fault}
use aeron_cluster_cpp.Client.State.{ClientContext}

-- A function that is called with what the cluster sends: the application's, or one that does nothing.
pub data Consumer : Type 0 where
  application : ℕ → Consumer
  default_consumer : Consumer

-- The Aeron client, the error handler and the application's functions are handles.
pub record ClientConfiguration : Type 0 where
  pub message_timeout_ns : ℤ
  pub ingress_endpoints : Text
  pub ingress_channel : Text
  pub ingress_stream_id : ℤ
  pub egress_channel : Text
  pub egress_stream_id : ℤ
  pub aeron_directory_name : Text
  pub aeron : Option ℕ
  pub owns_aeron_client : Bool
  pub error_handler : Option ℕ
  pub is_ingress_exclusive : Bool
  pub on_new_leader_event : Option Consumer
  pub on_session_message : Option Consumer
  pub on_session_event : Option Consumer
  pub on_admin_response : Option Consumer

-- The setters.
unfoldable pub set_message_timeout_ns : ℤ → ClientConfiguration → ClientConfiguration
set_message_timeout_ns message_timeout_ns c = record c { message_timeout_ns = message_timeout_ns }

unfoldable pub set_ingress_endpoints : Text → ClientConfiguration → ClientConfiguration
set_ingress_endpoints ingress_endpoints c = record c { ingress_endpoints = ingress_endpoints }

unfoldable pub set_ingress_channel : Text → ClientConfiguration → ClientConfiguration
set_ingress_channel ingress_channel c = record c { ingress_channel = ingress_channel }

unfoldable pub set_ingress_stream_id : ℤ → ClientConfiguration → ClientConfiguration
set_ingress_stream_id ingress_stream_id c = record c { ingress_stream_id = ingress_stream_id }

unfoldable pub set_egress_channel : Text → ClientConfiguration → ClientConfiguration
set_egress_channel egress_channel c = record c { egress_channel = egress_channel }

unfoldable pub set_egress_stream_id : ℤ → ClientConfiguration → ClientConfiguration
set_egress_stream_id egress_stream_id c = record c { egress_stream_id = egress_stream_id }

unfoldable pub set_aeron_directory_name : Text → ClientConfiguration → ClientConfiguration
set_aeron_directory_name aeron_directory_name c = record c {
  aeron_directory_name = aeron_directory_name;
}

unfoldable pub set_aeron : Option ℕ → ClientConfiguration → ClientConfiguration
set_aeron aeron c = record c { aeron = aeron }

unfoldable pub set_owns_aeron_client : Bool → ClientConfiguration → ClientConfiguration
set_owns_aeron_client owns_aeron_client c = record c { owns_aeron_client = owns_aeron_client }

unfoldable pub set_error_handler : Option ℕ → ClientConfiguration → ClientConfiguration
set_error_handler error_handler c = record c { error_handler = error_handler }

unfoldable pub set_is_ingress_exclusive : Bool → ClientConfiguration → ClientConfiguration
set_is_ingress_exclusive is_ingress_exclusive c = record c {
  is_ingress_exclusive = is_ingress_exclusive;
}

unfoldable pub set_on_new_leader_event : Option Consumer → ClientConfiguration → ClientConfiguration
set_on_new_leader_event on_new_leader_event c = record c {
  on_new_leader_event = on_new_leader_event;
}

unfoldable pub set_on_session_message : Option Consumer → ClientConfiguration → ClientConfiguration
set_on_session_message on_session_message c = record c { on_session_message = on_session_message }

unfoldable pub set_on_session_event : Option Consumer → ClientConfiguration → ClientConfiguration
set_on_session_event on_session_event c = record c { on_session_event = on_session_event }

unfoldable pub set_on_admin_response : Option Consumer → ClientConfiguration → ClientConfiguration
set_on_admin_response on_admin_response c = record c { on_admin_response = on_admin_response }

unfoldable pub or_default : Option Consumer → Option Consumer
or_default none = some default_consumer
or_default (some f) = some f

-- `conclude`, for `Aeron::connect` by directory: a consumer that is there is kept.
unfoldable pub conclude_client : (Text → Fault ⊎ ℕ) → M ClientConfiguration (Unit {0})
unfolding or_default
conclude_client connect_aeron c =
    let filled : ClientConfiguration → ClientConfiguration = λ b. record b {
      on_session_message = or_default b.on_session_message;
      on_session_event = or_default b.on_session_event;
      on_new_leader_event = or_default b.on_new_leader_event;
      on_admin_response = or_default b.on_admin_response;
    } in
    elim c.aeron [
      | some _ ↦ returns tt (filled c)
      | none ↦ elim (connect_aeron c.aeron_directory_name) [
        | inl e ↦ throws e c
        | inr aeron ↦
            returns tt (filled (record c { aeron = some aeron; owns_aeron_client = true }))
      ]
    ]

-- What connecting reads of it.
unfoldable pub client_context : ClientConfiguration → ClientContext
client_context c = record {
  ingress_channel = c.ingress_channel;
  ingress_endpoints = c.ingress_endpoints;
  ingress_stream_id = c.ingress_stream_id;
  egress_channel = c.egress_channel;
  egress_stream_id = c.egress_stream_id;
}

-- The settings of `main` in src/client/main.cpp.
unfoldable pub configure_client : ClientConfiguration → ClientConfiguration
unfolding set_aeron_directory_name set_ingress_channel set_ingress_stream_id set_egress_channel
    set_egress_stream_id set_message_timeout_ns
configure_client c =
    let ipc : Text = 97 ∷ 101 ∷ 114 ∷ 111 ∷ 110 ∷ 58 ∷ 105 ∷ 112 ∷ 99 ∷ [] in
    set_message_timeout_ns (ℤ.pos 60000000) (
      set_egress_stream_id (ℤ.pos 2) (
        set_egress_channel ipc (
          set_ingress_stream_id (ℤ.pos 1) (
            set_ingress_channel ipc (
              set_aeron_directory_name (46 ∷ 47 ∷ 97 ∷ 101 ∷ 114 ∷ 111 ∷ 110 ∷ 68 ∷ 105 ∷ 114 ∷ [])
                c)))))
