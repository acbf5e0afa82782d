-- ===== src/Sessions/Mapped.antt =====
-- A change of each session of a table that leaves identities and addresses as they are, as a change of
-- role makes it (src/service/ClusteredServiceAgent.cpp, `joinActiveLog`).
use mathlib.Core.List.{map}
use mathlib.Core.Option
use aeron_cluster_cpp.Prelude.{◌<◌, ◌≡◌, ◌≢◌, refl, ◌∙◌, List, [], ◌∷◌, ℤ, ◌<ℤ◌, All, arith}
use aeron_cluster_cpp.Sessions.{ClientSession, SessionTable, find_session}
use aeron_cluster_cpp.Sessions.Order.{IsAscending, HasDistinctRefs}
use aeron_cluster_cpp.Sessions.Laws.{IsValid}

module _ (f : ClientSession → ClientSession) (same_id : (s : ClientSession) → (f s).id ≡ s.id)
    (same_ref : (s : ClientSession) → (f s).ref ≡ s.ref) where
  pub find-map :
      (id : ℤ) (ss : List ClientSession)
      → find_session id (map f ss) ≡ Option.map f (find_session id ss)
  unfolding find_session
  find-map id [] = refl
  find-map id (s ∷ ss) = ground (arith, same_id s, find-map id ss)

  All-map :
      (P : ClientSession → Type 0)
      → ((s : ClientSession) → P s → P (f s))
      → (ss : List ClientSession) → All P ss
      → All P (map f ss)
  All-map P h [] a = tt
  All-map P h (s ∷ ss) a = (h s a.0, All-map P h ss a.1)

  map-IsAscending : (ss : List ClientSession) → IsAscending ss → IsAscending (map f ss)
  map-IsAscending [] h = tt
  map-IsAscending (s ∷ ss) h = (
    rw (same_id s) (All-map (λ x. s.id <ℤ x.id) (λ x k. rw (same_id x) k) ss h.0),
    map-IsAscending ss h.1,
  )

  map-HasDistinctRefs : (ss : List ClientSession) → HasDistinctRefs ss → HasDistinctRefs (map f ss)
  map-HasDistinctRefs [] h = tt
  map-HasDistinctRefs (s ∷ ss) h = (
    rw (same_ref s) (All-map (λ x. s.ref ≢ x.ref) (λ x k. rw (same_ref x) k) ss h.0),
    map-HasDistinctRefs ss h.1,
  )

  ref-find-map :
      (id : ℤ) (ss : List ClientSession)
      → Option.map (λ s. s.ref) (find_session id ss)
        ≡ Option.map (λ s. s.ref) (find_session id (map f ss))
  unfolding find_session
  ref-find-map id [] = refl
  ref-find-map id (s ∷ ss) = ground (arith, same_id s, same_ref s, ref-find-map id ss)

  -- The changed table is well formed, too.
  pub map-IsValid :
      (t : SessionTable) → IsValid t → IsValid (record t { sessions = map f t.sessions })
  map-IsValid t v = record {
    ascending = map-IsAscending t.sessions v.ascending;
    distinct = map-HasDistinctRefs t.sessions v.distinct;
    below = All-map (λ s. s.ref < t.next_ref) (λ s k. rw (same_ref s) k) t.sessions v.below;
    agree = λ id. v.agree id ∙ ref-find-map id t.sessions;
  }
