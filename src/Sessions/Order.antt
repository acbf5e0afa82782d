-- ===== src/Sessions/Order.antt =====
-- The vector of sessions is kept sorted by identity (src/service/ClusteredServiceAgent.cpp, addSession).
use aeron_cluster_cpp.Prelude.{
  ◌≡◌, refl, sym, ◌≢◌, if◌then◌else◌, List, [], ◌∷◌, none, some, ℤ, ◌<ℤ◌, ◌==ℤ◌, ==ℤ_iff, All,
  arith,
}
use aeron_cluster_cpp.Sessions.{ClientSession, find_session, erase_session, insert_session}

-- Strictly rising identities.
abbrev pub IsAscending : List ClientSession → Type 0
IsAscending [] = Unit
IsAscending (s ∷ ss) = All (λ x. s.id <ℤ x.id) ss × IsAscending ss

-- No two sessions at one address.
abbrev pub HasDistinctRefs : List ClientSession → Type 0
HasDistinctRefs [] = Unit
HasDistinctRefs (s ∷ ss) = All (λ x. s.ref ≢ x.ref) ss × HasDistinctRefs ss

module _ (P : ClientSession → Type 0) where
  pub All-insert_session :
      (s : ClientSession) (ss : List ClientSession) → P s → All P ss → All P (insert_session s ss)
  unfolding insert_session
  All-insert_session s [] p h = (p, tt)
  All-insert_session s (x ∷ xs) p h = ground (arith, All-insert_session s xs p h.1)

  pub All-erase_session :
      (id : ℤ) (ss : List ClientSession) → All P ss → All P (erase_session id ss)
  unfolding erase_session
  All-erase_session id [] h = tt
  All-erase_session id (x ∷ xs) h = ground (arith, All-erase_session id xs h.1)

All-trans :
    (a b : ℤ) (ss : List ClientSession) → a <ℤ b → All (λ x. b <ℤ x.id) ss → All (λ x. a <ℤ x.id) ss
All-trans a b [] h k = tt
All-trans a b (x ∷ xs) h k = (omega arith, All-trans a b xs h k.1)

pub find_session_below :
    (id : ℤ) (ss : List ClientSession) → All (λ x. id <ℤ x.id) ss → find_session id ss ≡ none
unfolding find_session
find_session_below id [] h = refl
find_session_below id (x ∷ xs) h = ground (arith, find_session_below id xs h.1)

pub insert_session-IsAscending :
    (s : ClientSession) (ss : List ClientSession)
    → IsAscending ss
    → find_session s.id ss ≡ none
    → IsAscending (insert_session s ss)
unfolding insert_session find_session
insert_session-IsAscending s [] h e = (tt, tt)
insert_session-IsAscending s (x ∷ xs) h e = ground (
  arith,
  ==ℤ_iff x.id s.id,
  insert_session-IsAscending s xs h.1,
  All-trans s.id x.id xs,
  All-insert_session (λ y. x.id <ℤ y.id) s xs,
)

pub erase_session-IsAscending :
    (id : ℤ) (ss : List ClientSession) → IsAscending ss → IsAscending (erase_session id ss)
unfolding erase_session
erase_session-IsAscending id [] h = tt
erase_session-IsAscending id (x ∷ xs) h =
    ground
      (arith, erase_session-IsAscending id xs h.1, All-erase_session (λ y. x.id <ℤ y.id) id xs h.0)

pub find-insert_session :
    (s : ClientSession) (ss : List ClientSession) (j : ℤ)
    → find_session s.id ss ≡ none
    → find_session j (insert_session s ss) ≡ (if s.id ==ℤ j then some s else find_session j ss)
unfolding insert_session find_session
find-insert_session s [] j e = refl
find-insert_session s (x ∷ xs) j e =
    ground (arith, ==ℤ_iff s.id j, ==ℤ_iff x.id s.id, ==ℤ_iff x.id j, find-insert_session s xs j)

pub find-erase_session :
    (id : ℤ) (ss : List ClientSession) (j : ℤ)
    → IsAscending ss
    → find_session j (erase_session id ss) ≡ (if id ==ℤ j then none else find_session j ss)
unfolding erase_session find_session
find-erase_session id [] j h = ground arith
find-erase_session id (x ∷ xs) j h = ground (
  arith,
  ==ℤ_iff id j,
  ==ℤ_iff x.id id,
  ==ℤ_iff x.id j,
  find-erase_session id xs j h.1,
  find_session_below x.id xs h.0,
)

pub insert_session-HasDistinctRefs :
    (s : ClientSession) (ss : List ClientSession)
    → HasDistinctRefs ss
    → All (λ x. x.ref ≢ s.ref) ss
    → HasDistinctRefs (insert_session s ss)
unfolding insert_session
insert_session-HasDistinctRefs s [] h k = (tt, tt)
insert_session-HasDistinctRefs s (x ∷ xs) h k = ground (
  arith,
  insert_session-HasDistinctRefs s xs h.1 k.1,
  All-insert_session (λ y. x.ref ≢ y.ref) s xs,
  All-sym s (x ∷ xs) k,
)
  where
    All-sym :
        (s : ClientSession) (ss : List ClientSession)
        → All (λ x. x.ref ≢ s.ref) ss
        → All (λ x. s.ref ≢ x.ref) ss
    All-sym s [] h = tt
    All-sym s (y ∷ ys) h = (λ e. h.0 (sym e), All-sym s ys h.1)

pub erase_session-HasDistinctRefs :
    (id : ℤ) (ss : List ClientSession) → HasDistinctRefs ss → HasDistinctRefs (erase_session id ss)
unfolding erase_session
erase_session-HasDistinctRefs id [] h = tt
erase_session-HasDistinctRefs id (x ∷ xs) h = ground (
  arith,
  erase_session-HasDistinctRefs id xs h.1,
  All-erase_session (λ y. x.ref ≢ y.ref) id xs h.0,
)
