-- ===== src/Tests/Client.antt =====
-- The theorems on the client, at a driver that answers at once (src/client/).
use aeron_cluster_cpp.Prelude.{◌≡◌, refl, true, false, [], ◌∷◌, ◌++◌, none, some, pos, negsuc, Text}
use aeron_cluster_cpp.Prelude.Outcome.{returns, final}
use aeron_cluster_cpp.Sessions.Connect.{found}
use aeron_cluster_cpp.Client.Egress.{
  EgressFragment, EgressMessage, session_event, new_leader, unknown, event_ok, event_null,
}
use aeron_cluster_cpp.Client.Poller.{EgressPoller}
use aeron_cluster_cpp.Client.Poller.Events.{hand_on_first_event, event_read}
use aeron_cluster_cpp.Client.Poller.Sound.{Handed, stops, is_ok, is_present, is_sound}
use aeron_cluster_cpp.Client.Adapter.{EgressAdapter, EgressCodec}
use aeron_cluster_cpp.Client.Adapter.Deliveries.{
  hand_on, deliveries, ended, all_have_schema, hand_on-deliveries,
}
use aeron_cluster_cpp.Client.Endpoints.{parse_ingress_endpoints, find_from}
use aeron_cluster_cpp.Client.Endpoints.Commas.{first_endpoint, parse_ingress_endpoints_lem}
use aeron_cluster_cpp.Client.State.{AsyncConnect, ClientContext, ClientDriver, empty_buffer}
use aeron_cluster_cpp.Client.Connect.{poll_connect}
use aeron_cluster_cpp.Client.Connect.Ready.{poll_connect_safe}
use aeron_cluster_cpp.Client.Connect.Safe.{
  is_ready, is_ready_for, is_subscribed, has_sound_poller, is_safe,
}
use aeron_cluster_cpp.Client.Connect.Steps.{is_edge, poll_connect_edge}
use aeron_cluster_cpp.Tests.Samples.{aeron_constants}

abbrev pub poller : EgressPoller
poller = record {
  template_id = pos 0;
  cluster_session_id = pos 0;
  correlation_id = pos 0;
  leadership_term_id = pos 0;
  leader_member_id = pos 0;
  event_code = event_null;
  version = pos 0;
  detail = [];
  encoded_challenge = [];
  encoded_challenge_length = 0;
  is_poll_complete = false;
  is_challenged = false;
  egress_image = none;
}

abbrev fragment : EgressMessage → EgressFragment
fragment m = record {
  schema_id = 111;
  template_id = pos 2;
  message = m;
  image = 3;
  buffer = 1 ∷ 2 ∷ [];
  offset = pos 0;
  length = pos 2;
}

abbrev accepted : EgressFragment
accepted = fragment (session_event (pos 8) (pos 70) (pos 1) (pos 2) event_ok (pos 0) [])

abbrev led : EgressFragment
led = fragment (new_leader (pos 8) (pos 2) (pos 0) [])

hand_on_first_event_example :
    aeron_cluster_cpp.Client.Poller.Events.hand_on 111
      (fragment unknown ∷ [] ++ accepted ∷ led ∷ [])
      poller
    ≡ returns (led ∷ []) (event_read 111 accepted poller)
hand_on_first_event_example =
    hand_on_first_event 111 (fragment unknown ∷ []) accepted (led ∷ []) poller refl
      ((refl, refl), tt) refl refl

abbrev codec : EgressCodec
codec = record { schema_id = 111; block_length = pos 1 }

abbrev adapter : EgressAdapter
adapter = record { cluster_session_id = pos 8; delivered = [] }

hand_on-deliveries_example :
    hand_on codec (accepted ∷ fragment unknown ∷ led ∷ []) adapter
    ≡ ended codec (all_have_schema codec (accepted ∷ fragment unknown ∷ led ∷ [])) (record adapter {
      delivered = [] ++ deliveries codec (pos 8) (accepted ∷ fragment unknown ∷ led ∷ []);
    })
hand_on-deliveries_example =
    hand_on-deliveries codec (accepted ∷ fragment unknown ∷ led ∷ []) adapter

-- "0=a,"
abbrev endpoints : Text
endpoints = 48 ∷ 61 ∷ 97 ∷ 44 ∷ []

parse_ingress_endpoints_lem_example :
    parse_ingress_endpoints 8 (negsuc 0) endpoints
    ≡ first_endpoint (negsuc 0) endpoints (find_from 44 0 endpoints)
parse_ingress_endpoints_lem_example = parse_ingress_endpoints_lem 7 (negsuc 0) endpoints

abbrev pub client_context : ClientContext
client_context = record {
  ingress_channel = 1 ∷ [];
  ingress_endpoints = [];
  ingress_stream_id = pos 101;
  egress_channel = 2 ∷ [];
  egress_stream_id = pos 102;
}

abbrev pub client_driver : ClientDriver
client_driver = record {
  add_subscription = λ _ _. pos 20;
  find_subscription = λ _. some 1;
  add_publication = λ _ _. some (pos 21);
  find_exclusive_publication = λ _. found 2;
  channel_with_endpoint = λ channel _. channel;
  is_connected = λ _. true;
  response_channel = λ _. 5 ∷ [];
  next_correlation_id = pos 70;
  encoded_credentials = [];
  on_challenge = λ _ _. [];
  offer = λ _. pos 32;
  controlled_poll = λ p. returns (pos 0) p;
  poller_memory = poller;
  leader_memory = pos 0;
}

-- At the step that waits for the answer.
abbrev waiting : AsyncConnect
waiting = record {
  ctx = client_context;
  deadline_ns = pos 9;
  correlation_id = pos 70;
  cluster_session_id = pos 0;
  leadership_term_id = pos 0;
  leader_member_id = pos 0;
  step = pos 3;
  buffer = empty_buffer;
  egress_subscription = some 1;
  egress_poller = some poller;
  egress_registration_id = pos 20;
  member_by_id = [];
  ingress_registration_id = negsuc 0;
  ingress_publication = some 2;
  egress_image = none;
  closed = [];
  sent = [];
}

handed : (p : EgressPoller) → Handed 111 p (client_driver.controlled_poll p)
handed p = stops (pos 0)

poller_ok : is_ok poller.event_code ≡ false
unfolding is_ok
poller_ok = refl

waiting_ready : is_ready waiting ≡ true
unfolding is_ready is_ready_for is_subscribed has_sound_poller is_ok is_present is_sound
waiting_ready = refl

poll_connect_safe_example : is_safe (poll_connect client_driver 5 waiting) ≡ true
poll_connect_safe_example =
    poll_connect_safe client_driver 5 111 waiting refl poller_ok handed waiting_ready

poll_connect_edge_example :
    is_edge (pos 3) (final (poll_connect client_driver 5 waiting)).step ≡ true
poll_connect_edge_example = poll_connect_edge client_driver 5 waiting
