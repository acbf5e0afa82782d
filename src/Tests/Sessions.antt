-- ===== src/Tests/Sessions.antt =====
-- The theorems on the table of sessions, at two sessions (src/service/ClusteredServiceAgent.cpp).
use mathlib.Core.Option
use aeron_cluster_cpp.Prelude.{
  ◌≡◌, if◌then◌else◌, [], ◌∷◌, none, some, ℤ, pos, negsuc, ◌==ℤ◌, arith,
}
use aeron_cluster_cpp.Prelude.Map.{lookup}
use aeron_cluster_cpp.Sessions.{find_session, get_client_session, add_session, remove_session}
use aeron_cluster_cpp.Sessions.Laws.{IsValid, found, added, found-add_session, found-remove_session}
use aeron_cluster_cpp.Tests.Samples.{aeron_constants, two_sessions}

lookup_two :
    (id : ℤ)
    → lookup id two_sessions.by_id ≡ Option.map (λ s. s.ref) (find_session id two_sessions.sessions)
unfolding lookup find_session
lookup_two id = ground arith

pub two_sessions-IsValid : IsValid two_sessions
two_sessions-IsValid = record {
  ascending = omega arith;
  distinct = ((λ e. absurd (omega arith), tt), (tt, tt));
  below = omega arith;
  agree = lookup_two;
}

absent_seven : get_client_session (pos 7) two_sessions ≡ none
unfolding get_client_session lookup
absent_seven = ground arith

found-add_session_example :
    found (add_session (negsuc 0) (pos 7) (pos 102) (8 ∷ []) (3 ∷ []) two_sessions) (pos 9) ≡ (
      if pos 7 ==ℤ pos 9
      then some (
          added
            (negsuc 0)
            (pos 7)
            (pos 102)
            (8 ∷ [])
            (3 ∷ [])
            two_sessions
            two_sessions-IsValid
            absent_seven)
      else found two_sessions (pos 9))
found-add_session_example =
    found-add_session (negsuc 0) (pos 7) (pos 102) (8 ∷ []) (3 ∷ []) two_sessions
      two_sessions-IsValid absent_seven (pos 9)

found-remove_session_example :
    found (remove_session (pos 5) two_sessions).1 (pos 5)
    ≡ (if pos 5 ==ℤ pos 5 then none else found two_sessions (pos 5))
found-remove_session_example =
    found-remove_session (pos 5) two_sessions two_sessions-IsValid (pos 5)
