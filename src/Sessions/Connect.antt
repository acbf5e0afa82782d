-- ===== src/Sessions/Connect.antt =====
-- `connect` of src/service/ContainerClientSession.cpp: the publication of a session's responses.
use aeron_cluster_cpp.Prelude.{
  ℕ, zero, suc, ◌≡◌, if◌then◌else◌, Option, none, some, ℤ, ◌==ℤ◌, Text, arith,
}
use aeron_cluster_cpp.Aeron.{Constants}
use aeron_cluster_cpp.Sessions.{ClientSession}

-- What looking for a publication answers.
pub data Found : Type 0 where
  found : ℕ → Found
  not_yet raised : Found

-- The calls of the Aeron client that `connect` makes: `addPublication` may throw (`none`), and
-- `findExclusivePublication` is asked by registration and by try.
pub record PublicationClient : Type 0 where
  pub add_publication : Text → ℤ → Option ℤ
  pub find_exclusive_publication : ℤ → ℕ → Found

-- `for (int ii = 0; ii < 3; ++ii)`, by the rounds left; an exception ends it and is swallowed.
unfoldable pub find_loop : PublicationClient → ℤ → ℕ → ℕ → Option ℕ → Option ℕ
find_loop aeron registration_id ii zero publication = publication
find_loop aeron registration_id ii (suc left) publication =
    let rest = find_loop aeron registration_id (suc ii) left none in
    elim (aeron.find_exclusive_publication registration_id ii) [
      | found p ↦ some p
      | not_yet ↦ rest
      | raised ↦ publication
    ]

module _ ⦃c : Constants⦄ where
  unfoldable pub connect : PublicationClient → ClientSession → ClientSession
  unfolding find_loop
  connect aeron s =
      if s.response_publication_id ==ℤ c.null_value
      then elim (aeron.add_publication s.response_channel s.response_stream_id) [
        | none ↦ s
        | some registration_id ↦ record s {
          response_publication_id = registration_id;
          response_publication = find_loop aeron registration_id 0 3 s.response_publication;
        }
      ]
      else s

  -- `connect` changes nothing of a session but its publication.
  pub connect-id : (aeron : PublicationClient) (s : ClientSession) → (connect aeron s).id ≡ s.id
  unfolding connect
  connect-id aeron s = ground arith

  pub connect-ref : (aeron : PublicationClient) (s : ClientSession) → (connect aeron s).ref ≡ s.ref
  unfolding connect
  connect-ref aeron s = ground arith
