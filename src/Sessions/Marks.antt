-- ===== src/Sessions/Marks.antt =====
-- The flag `m_isClosing` of src/service/ContainerClientSession.h is no part of what makes a table of
-- sessions well formed.
use mathlib.Core.List.{map}
use mathlib.Core.Option
use aeron_cluster_cpp.Prelude.{
  ℕ, ◌<◌, ◌≡◌, ◌↔◌, ◌≢◌, refl, sym, ◌∙◌, List, [], ◌∷◌, ℤ, ◌<ℤ◌, All, arith,
}
use aeron_cluster_cpp.Sessions.{
  ClientSession, SessionTable, find_session, update_ref, mark_closing, reset_closing,
}
use aeron_cluster_cpp.Sessions.Order.{IsAscending, HasDistinctRefs}
use aeron_cluster_cpp.Sessions.Laws.{IsValid}

abbrev pub all_open : List ClientSession → List ClientSession
all_open = map reset_closing

-- The table with no session marked.
abbrev pub core_table : SessionTable → SessionTable
core_table t = record t { sessions = all_open t.sessions }

pub all_open-mark :
    (r : ℕ) (ss : List ClientSession) → all_open (update_ref r mark_closing ss) ≡ all_open ss
unfolding update_ref mark_closing reset_closing
all_open-mark r [] = refl
all_open-mark r (s ∷ ss) = ground (arith, all_open-mark r ss)

-- Lists of sessions that differ in their marks only.
abbrev pub SameButMarks : List ClientSession → List ClientSession → Type 0
SameButMarks xs ys = all_open xs ≡ all_open ys

pub find-all_open :
    (id : ℤ) (ss : List ClientSession)
    → find_session id (all_open ss) ≡ Option.map reset_closing (find_session id ss)
unfolding find_session reset_closing
find-all_open id [] = refl
find-all_open id (s ∷ ss) = ground (arith, find-all_open id ss)

module _ (P : ClientSession → Type 0) (same : (s : ClientSession) → P (reset_closing s) ↔ P s) where
  All-all_open : (ss : List ClientSession) → All P (all_open ss) ↔ All P ss
  All-all_open [] = (λ h. h, λ h. h)
  All-all_open (s ∷ ss) = (
    λ h. ((same s).0 h.0, (All-all_open ss).0 h.1),
    λ h. ((same s).1 h.0, (All-all_open ss).1 h.1),
  )

IsAscending-all_open : (ss : List ClientSession) → IsAscending (all_open ss) ↔ IsAscending ss
unfolding reset_closing
IsAscending-all_open [] = (λ h. h, λ h. h)
IsAscending-all_open (s ∷ ss) =
    let (to, from) = IsAscending-all_open ss in
    let (to_all, from_all) = All-all_open (λ x. s.id <ℤ x.id) (λ x. (λ h. h, λ h. h)) ss in
    (λ h. (to_all h.0, to h.1), λ h. (from_all h.0, from h.1))

HasDistinctRefs-all_open :
    (ss : List ClientSession) → HasDistinctRefs (all_open ss) ↔ HasDistinctRefs ss
unfolding reset_closing
HasDistinctRefs-all_open [] = (λ h. h, λ h. h)
HasDistinctRefs-all_open (s ∷ ss) =
    let (to, from) = HasDistinctRefs-all_open ss in
    let (to_all, from_all) = All-all_open (λ x. s.ref ≢ x.ref) (λ x. (λ h. h, λ h. h)) ss in
    (λ h. (to_all h.0, to h.1), λ h. (from_all h.0, from h.1))

ref-find-all_open :
    (id : ℤ) (ss : List ClientSession)
    → Option.map (λ s. s.ref) (find_session id (all_open ss))
      ≡ Option.map (λ s. s.ref) (find_session id ss)
unfolding reset_closing
ref-find-all_open id ss = ground (arith, find-all_open id ss)

-- A table is well formed exactly when it is with no session marked.
pub IsValid-core_table : (t : SessionTable) → IsValid (core_table t) ↔ IsValid t
unfolding reset_closing
IsValid-core_table t = (
  λ v. record {
    ascending = (IsAscending-all_open t.sessions).0 v.ascending;
    distinct = (HasDistinctRefs-all_open t.sessions).0 v.distinct;
    below = (All-all_open (λ s. s.ref < t.next_ref) (λ x. (λ h. h, λ h. h)) t.sessions).0 v.below;
    agree = λ id. v.agree id ∙ ref-find-all_open id t.sessions;
  },
  λ v. record {
    ascending = (IsAscending-all_open t.sessions).1 v.ascending;
    distinct = (HasDistinctRefs-all_open t.sessions).1 v.distinct;
    below = (All-all_open (λ s. s.ref < t.next_ref) (λ x. (λ h. h, λ h. h)) t.sessions).1 v.below;
    agree = λ id. v.agree id ∙ sym (ref-find-all_open id t.sessions);
  },
)

-- So it is carried over to a table that differs in marks only.
pub IsValid_of_core_table :
    (t u : SessionTable) → core_table u ≡ core_table t → IsValid t → IsValid u
IsValid_of_core_table t u e v = (IsValid-core_table u).0 (rw e ((IsValid-core_table t).1 v))
