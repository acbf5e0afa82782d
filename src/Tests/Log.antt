-- ===== src/Tests/Log.antt =====
-- The theorems on the log and its replica, at two members with different applications
-- (src/service/BoundedLogAdapter.cpp).
use aeron_cluster_cpp.Prelude.{ℕ, ◌≡◌, refl, List, [], ◌∷◌, pos}
use aeron_cluster_cpp.Prelude.Outcome.{final}
use aeron_cluster_cpp.LogAdapter.{
  LogCodec, Framing, Fragment, session_header, open_event, close_event, dispatch,
}
use aeron_cluster_cpp.LogAdapter.Replica.{replica, apply}
use aeron_cluster_cpp.LogAdapter.Refine.{Yields, dispatch-Yields}
use aeron_cluster_cpp.LogAdapter.Agree.{Entry, handle_all, handle_all_agree}
use aeron_cluster_cpp.Tests.Sessions.{two_sessions-IsValid}
use aeron_cluster_cpp.Tests.Samples.{aeron_constants, agent, closing, quiet, driver}

abbrev pub codec : LogCodec
codec = record {
  schema_id = 111;
  read_schema_id = λ _ _. 111;
  read = λ _ _ _. session_header (pos 5) (pos 77);
  session_header_length = 2;
}

abbrev pub framing : Framing
framing = record {
  begin_frag = 128;
  end_frag = 64;
  unfragmented = 192;
  header_length = 32;
  align = λ n. n;
  offset_after_reset = λ _. 0;
  reserved = 0 ∷ 0 ∷ [];
}

abbrev pub fragment : ℕ → ℕ → Fragment
fragment offset flags = record {
  buffer = 1 ∷ 2 ∷ [];
  offset = offset;
  length = 1;
  flags = flags;
  position = pos 320;
}

abbrev pub entries : List Entry
entries =
    record {
      position = pos 64;
      buffer = [];
      offset = 0;
      len = 8;
      message = open_event (pos 1) (pos 7) (pos 70) (pos 102) (8 ∷ []) 2;
    }
    ∷ record {
      position = pos 128;
      buffer = [];
      offset = 0;
      len = 8;
      message = close_event (pos 1) (pos 5) (pos 71) (pos 0);
    }
    ∷ []

handle_all_agree_example :
    replica (handle_all codec driver entries (agent closing))
    ≡ replica (handle_all codec driver entries (agent quiet))
handle_all_agree_example =
    handle_all_agree codec codec driver driver entries (agent closing) (agent quiet)
      two_sessions-IsValid two_sessions-IsValid refl

dispatch-Yields_example :
    Yields
      (apply (pos 64) (close_event (pos 1) (pos 5) (pos 71) (pos 0)) (replica (agent closing)))
      (final (
        dispatch codec driver
          (pos 64)
          []
          0
          8
          (close_event (pos 1) (pos 5) (pos 71) (pos 0))
          (agent closing)))
dispatch-Yields_example =
    dispatch-Yields codec driver (pos 64) [] 0 8 (close_event (pos 1) (pos 5) (pos 71) (pos 0))
      (agent closing) two_sessions-IsValid
