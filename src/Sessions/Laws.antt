-- ===== src/Sessions/Laws.antt =====
-- The table of sessions against what it promises: a finite map from identities to sessions, in
-- which every pointer is live (src/service/ClusteredServiceAgent.cpp, addSession and removeSession).
use mathlib.Core.Option
use aeron_cluster_cpp.Prelude.{
  ℕ, suc, ◌<◌, ◌≡◌, refl, ◌≢◌, if◌then◌else◌, Bool, List, [], ◌∷◌, Option, none, some, ℤ, ◌==ℤ◌,
  ==ℤ_iff, All, arith, Text, inl, inr, Option-cases,
}
use aeron_cluster_cpp.Prelude.Map.{lookup, lookup-insert, lookup-erase}
use aeron_cluster_cpp.Sessions.{
  ClientSession, SessionTable, new_session, find_session, deref, add_session_ptr, add_session,
  remove_session, get_client_session, empty_table,
}
use aeron_cluster_cpp.Sessions.Order.{
  IsAscending, HasDistinctRefs, All-insert_session, All-erase_session, insert_session-IsAscending,
  erase_session-IsAscending, find-insert_session, find-erase_session,
  insert_session-HasDistinctRefs, erase_session-HasDistinctRefs,
}

-- Between two operations: the vector is sorted, no two sessions share an address, addresses are
-- below the allocator's, and the map sends an identity to the address of its session.
pub record IsValid (t : SessionTable) : Type 0 where
  pub ascending : IsAscending t.sessions
  pub distinct : HasDistinctRefs t.sessions
  pub below : All (λ s. s.ref < t.next_ref) t.sessions
  pub agree : (id : ℤ) → lookup id t.by_id ≡ Option.map (λ s. s.ref) (find_session id t.sessions)

-- What a client of the table sees.
abbrev pub view : SessionTable → ℤ → Option ClientSession
view t id = find_session id t.sessions

pub empty_table-IsValid : (noise : ℕ → Bool) → IsValid (empty_table noise)
unfolding empty_table lookup find_session
empty_table-IsValid noise = record { ascending = tt; distinct = tt; below = tt; agree = λ id. refl }

pub absent_in_vector :
    (t : SessionTable) (id : ℤ)
    → IsValid t
    → get_client_session id t ≡ none
    → find_session id t.sessions ≡ none
unfolding get_client_session
absent_in_vector t id v e = ground (arith, v.agree id)

All-lt_suc :
    (n : ℕ) (ss : List ClientSession) → All (λ s. s.ref < n) ss → All (λ s. s.ref < suc n) ss
All-lt_suc n [] h = tt
All-lt_suc n (x ∷ xs) h = (omega arith, All-lt_suc n xs h.1)

All-ne_of_lt : (n : ℕ) (ss : List ClientSession) → All (λ s. s.ref < n) ss → All (λ s. s.ref ≢ n) ss
All-ne_of_lt n [] h = tt
All-ne_of_lt n (x ∷ xs) h = (omega arith, All-ne_of_lt n xs h.1)

-- A session at the allocator's address, with an identity that the table does not hold.
module _ (s : ClientSession) (t : SessionTable) (v : IsValid t) (at_next : s.ref ≡ t.next_ref)
    (absent : get_client_session s.id t ≡ none) where
  fresh : find_session s.id t.sessions ≡ none
  fresh = absent_in_vector t s.id v absent

  pub add_session_ptr-IsValid : IsValid (add_session_ptr s (record t { next_ref = suc t.next_ref }))
  unfolding add_session_ptr get_client_session
  add_session_ptr-IsValid = record {
    ascending = insert_session-IsAscending s t.sessions v.ascending fresh;
    distinct =
        insert_session-HasDistinctRefs s t.sessions v.distinct
          (rw at_next (All-ne_of_lt _ t.sessions v.below));
    below =
        All-insert_session (λ x. x.ref < suc t.next_ref) s t.sessions (omega arith)
          (All-lt_suc _ t.sessions v.below);
    agree = λ j. ground (
      arith,
      v.agree j,
      lookup-insert s.id j s.ref t.by_id absent,
      find-insert_session s t.sessions j fresh,
    );
  }

  pub view-add_session_ptr :
      (j : ℤ)
      → view (add_session_ptr s (record t { next_ref = suc t.next_ref })) j
        ≡ (if s.id ==ℤ j then some s else view t j)
  unfolding add_session_ptr
  view-add_session_ptr j = find-insert_session s t.sessions j fresh

module _ (null_value id stream_id : ℤ) (channel principal : Text) (t : SessionTable) (v : IsValid t)
    (absent : get_client_session id t ≡ none) where
  -- The session that `add_session` makes.
  abbrev pub added : ClientSession
  unfolding new_session
  added = new_session t.next_ref (t.noise t.next_ref) null_value id stream_id channel principal

  -- Adding a session with an identity that a well-formed table does not hold keeps it well formed:
  -- sorted by identity, no shared or dangling addresses, and the map sends each identity to its session.
  pub add_session-IsValid : IsValid (add_session null_value id stream_id channel principal t)
  unfolding add_session
  add_session-IsValid = add_session_ptr-IsValid added t v refl absent

  -- After it, a lookup of that identity finds the new session, and every other lookup finds what it
  -- found before.
  pub view-add_session :
      (j : ℤ)
      → view (add_session null_value id stream_id channel principal t) j
        ≡ (if id ==ℤ j then some added else view t j)
  unfolding add_session
  view-add_session j = view-add_session_ptr added t v refl absent j

module _ (id : ℤ) (t : SessionTable) (v : IsValid t) where
  -- Removing an identity from a well-formed table, held or not, keeps the table well formed.
  pub remove_session-IsValid : IsValid (remove_session id t).1
  unfolding remove_session
  remove_session-IsValid = record {
    ascending = erase_session-IsAscending id t.sessions v.ascending;
    distinct = erase_session-HasDistinctRefs id t.sessions v.distinct;
    below = All-erase_session (λ s. s.ref < t.next_ref) id t.sessions v.below;
    agree = λ j. ground (
      arith,
      v.agree j,
      lookup-erase id j t.by_id,
      find-erase_session id t.sessions j v.ascending,
    );
  }

  -- After a removal from a well-formed table, a lookup of that identity finds nothing, and every other
  -- lookup finds what it found before.
  pub view-remove_session :
      (j : ℤ) → view (remove_session id t).1 j ≡ (if id ==ℤ j then none else view t j)
  unfolding remove_session
  view-remove_session j = find-erase_session id t.sessions j v.ascending

find_session-id :
    (id : ℤ) (ss : List ClientSession) {s : ClientSession} → find_session id ss ≡ some s → s.id ≡ id
unfolding find_session
find_session-id id [] e = cc
find_session-id id (x ∷ xs) {s} e = ground (arith, ==ℤ_iff x.id id, find_session-id id xs {s = s})

deref_other : (r : ℕ) (ss : List ClientSession) → All (λ x. r ≢ x.ref) ss → deref r ss ≡ none
unfolding deref
deref_other r [] h = refl
deref_other r (x ∷ xs) h = ground (arith, deref_other r xs h.1)

find_session-ref :
    (id : ℤ) (r : ℕ) (ss : List ClientSession) {s : ClientSession}
    → find_session id ss ≡ some s
    → All (λ x. r ≢ x.ref) ss
    → r ≢ s.ref
unfolding find_session
find_session-ref id r [] e h = cc
find_session-ref id r (x ∷ xs) {s} e h = ground (arith, find_session-ref id r xs {s = s})

pub deref_found :
    (id : ℤ) (ss : List ClientSession) {s : ClientSession}
    → HasDistinctRefs ss
    → find_session id ss ≡ some s
    → deref s.ref ss ≡ some s
unfolding find_session deref
deref_found id [] d e = cc
deref_found id (x ∷ xs) {s} d e =
    ground (arith, deref_found id xs {s = s} d.1, find_session-ref id x.ref xs {s = s})

-- In a well-formed table, a pointer that the map holds for an identity is live, and leads to the
-- session of that identity, which is the one that the vector holds.
pub get_client_session_live :
    (t : SessionTable) (id : ℤ) (r : ℕ)
    → IsValid t
    → get_client_session id t ≡ some r
    → (s : ClientSession) × (deref r t.sessions ≡ some s) × (s.id ≡ id) × (view t id ≡ some s)
unfolding get_client_session
get_client_session_live t id r v e = go (find_session id t.sessions) refl
  where
    go :
        (o : Option ClientSession)
        → find_session id t.sessions ≡ o
        → (s : ClientSession) × (deref r t.sessions ≡ some s) × (s.id ≡ id) × (view t id ≡ some s)
    go none f = absurd (ground (arith, v.agree id))
    go (some s) f = (
      s,
      ground (arith, v.agree id, deref_found id t.sessions {s = s} v.distinct f),
      find_session-id id t.sessions f,
      f,
    )

-- What `getClientSession` leads to: the session at the address that the map holds.
abbrev pub found : SessionTable → ℤ → Option ClientSession
found t id = elim (get_client_session id t) [ none ↦ none | some r ↦ deref r t.sessions ]

pub found-view : (t : SessionTable) (id : ℤ) → IsValid t → found t id ≡ view t id
unfolding get_client_session
found-view t id v = elim (Option-cases (find_session id t.sessions)) [
  | inl e ↦ ground (arith, v.agree id, e)
  | inr (s, e) ↦ ground (arith, v.agree id, e, deref_found id t.sessions {s = s} v.distinct e)
]

-- Adding a session with an identity that a well-formed table does not hold: from then on, the lookup
-- of that identity through the map leads to the new session, and every other lookup to what it led to
-- before.
pub found-add_session :
    (null_value id stream_id : ℤ) (channel principal : Text) (t : SessionTable) (v : IsValid t)
    (absent : get_client_session id t ≡ none) (j : ℤ)
    → found (add_session null_value id stream_id channel principal t) j ≡ (
        if id ==ℤ j
        then some (added null_value id stream_id channel principal t v absent)
        else found t j)
found-add_session null_value id stream_id channel principal t v absent j =
    rw
      (
        found-view (add_session null_value id stream_id channel principal t) j
            (add_session-IsValid null_value id stream_id channel principal t v absent),
        found-view t j v,
      )
      (view-add_session null_value id stream_id channel principal t v absent j)

-- After a removal from a well-formed table, the lookup of that identity through the map leads to
-- nothing, and every other lookup to what it led to before.
pub found-remove_session :
    (id : ℤ) (t : SessionTable) (v : IsValid t) (j : ℤ)
    → found (remove_session id t).1 j ≡ (if id ==ℤ j then none else found t j)
found-remove_session id t v j =
    rw (found-view (remove_session id t).1 j (remove_session-IsValid id t v), found-view t j v)
      (view-remove_session id t v j)
