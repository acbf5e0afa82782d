-- ===== src/Sessions.antt =====
-- The client sessions of a service: src/service/ContainerClientSession.{h,cpp}, and the two members of
-- src/service/ClusteredServiceAgent.{h,cpp} that hold them with their operations (addSession,
-- removeSession, getClientSession). The vector `m_sessions` owns the sessions; the map
-- `m_sessionByIdMap` points to them. A session's address is its `ref`, and a pointer that no
-- session of the vector answers to dangles.
pub mod Order
pub mod Laws
pub mod Connect
pub mod Marks
pub mod Mapped
use aeron_cluster_cpp.Prelude.{
  ℕ, suc, ◌+◌, ◌==◌, if◌then◌else◌, Bool, true, false, List, [], ◌∷◌, Option, none, some, ℤ, ltb_ℤ,
  ◌==ℤ◌, Text,
}
use aeron_cluster_cpp.Prelude.Map.{lookup, insert, erase}

pub record ClientSession : Type 0 where
  pub ref : ℕ
  pub id : ℤ
  pub response_stream_id : ℤ
  pub response_channel : Text
  pub encoded_principal : Text
  pub response_publication_id : ℤ
  pub response_publication : Option ℕ
  pub is_closing : Bool

-- The constructor leaves `m_isClosing` as the memory holds it: `noise`.
unfoldable pub new_session : ℕ → Bool → ℤ → ℤ → ℤ → Text → Text → ClientSession
new_session ref noise null_value id stream_id channel principal = record {
  ref = ref;
  id = id;
  response_stream_id = stream_id;
  response_channel = channel;
  encoded_principal = principal;
  response_publication_id = null_value;
  response_publication = none;
  is_closing = noise;
}

unfoldable pub mark_closing : ClientSession → ClientSession
mark_closing s = record s { is_closing = true }

unfoldable pub reset_closing : ClientSession → ClientSession
reset_closing s = record s { is_closing = false }

-- `disconnect`: the publication is dropped, and its identity forgotten.
unfoldable pub disconnect : ℤ → ClientSession → ClientSession
disconnect null_value s = record s {
  response_publication = none;
  response_publication_id = null_value;
}

pub record SessionTable : Type 0 where
  -- m_sessionByIdMap
  pub by_id : List (ℤ × ℕ)
  -- m_sessions
  pub sessions : List ClientSession
  -- The allocator: the next address, and what the memory of each address holds.
  pub next_ref : ℕ
  pub noise : ℕ → Bool

-- `std::find_if` by identity.
unfoldable pub find_session : ℤ → List ClientSession → Option ClientSession
find_session id [] = none
find_session id (s ∷ ss) = if s.id ==ℤ id then some s else find_session id ss

-- `m_sessions.erase` of what `find_if` found.
unfoldable pub erase_session : ℤ → List ClientSession → List ClientSession
erase_session id [] = []
erase_session id (s ∷ ss) = let rest = erase_session id ss in if s.id ==ℤ id then ss else s ∷ rest

-- Insertion before the first session whose identity is not less, where `lower_bound` points.
unfoldable pub insert_session : ClientSession → List ClientSession → List ClientSession
insert_session s [] = s ∷ []
insert_session s (x ∷ xs) =
    let rest = insert_session s xs in if ltb_ℤ x.id s.id then x ∷ rest else s ∷ x ∷ xs

-- Reading and writing through a pointer.
unfoldable pub deref : ℕ → List ClientSession → Option ClientSession
deref r [] = none
deref r (s ∷ ss) = if s.ref == r then some s else deref r ss

unfoldable pub update_ref :
    ℕ → (ClientSession → ClientSession) → List ClientSession → List ClientSession
update_ref r f [] = []
update_ref r f (s ∷ ss) = let rest = update_ref r f ss in if s.ref == r then f s ∷ ss else s ∷ rest

-- `addSession(std::unique_ptr<ContainerClientSession>)`.
unfoldable pub add_session_ptr : ClientSession → SessionTable → SessionTable
add_session_ptr s t = record t {
  by_id = insert s.id s.ref t.by_id;
  sessions = insert_session s t.sessions;
}

-- `std::make_unique<ContainerClientSession>(...)`.
unfoldable pub allocate : ℤ → ℤ → ℤ → Text → Text → SessionTable → ClientSession × SessionTable
unfolding new_session
allocate null_value id stream_id channel principal t = (
  new_session t.next_ref (t.noise t.next_ref) null_value id stream_id channel principal,
  record t { next_ref = suc t.next_ref },
)

-- `addSession(clusterSessionId, responseStreamId, responseChannel, encodedPrincipal)`.
unfoldable pub add_session : ℤ → ℤ → ℤ → Text → Text → SessionTable → SessionTable
unfolding allocate add_session_ptr
add_session null_value id stream_id channel principal t =
    let (s, u) = allocate null_value id stream_id channel principal t in add_session_ptr s u

-- `removeSession`: the session that leaves the vector, or none.
unfoldable pub remove_session : ℤ → SessionTable → Option ClientSession × SessionTable
remove_session id t = (
  find_session id t.sessions,
  record t { by_id = erase id t.by_id; sessions = erase_session id t.sessions },
)

-- `getClientSession`, as a pointer.
unfoldable pub get_client_session : ℤ → SessionTable → Option ℕ
get_client_session id t = lookup id t.by_id

unfoldable pub empty_table : (ℕ → Bool) → SessionTable
empty_table noise = record { by_id = []; sessions = []; next_ref = 0; noise = noise }
