-- ===== src/Snapshot/Loader/Reload.antt =====
-- One session of a snapshot that is read back, and what the decoder makes of it
-- (src/service/ServiceSnapshotLoader.cpp, `onFragment`).
use mathlib.Core.List.{map, map-append, append_assoc}
use aeron_cluster_cpp.Prelude.{
  none, some, Text, Bool-cases, Option-cases, ◌≡◌, refl, ◌⊎◌, Bool, true, false, List, [], ◌∷◌,
  ◌++◌, ℤ, ◌<ℤ◌, All, arith,
}
use aeron_cluster_cpp.Prelude.Outcome.{M, returns, throws}
use aeron_cluster_cpp.Aeron.{Constants, continue, break, abort, commit}
use aeron_cluster_cpp.Sessions.{
  ClientSession, SessionTable, new_session, find_session, insert_session, add_session,
  get_client_session,
}
use aeron_cluster_cpp.Sessions.Laws.{IsValid, add_session-IsValid}
use aeron_cluster_cpp.Snapshot.Format.{SnapshotMessage, SavedSession}
use aeron_cluster_cpp.Snapshot.Taker.{saved}
use aeron_cluster_cpp.Snapshot.Loader.{Loader, SnapshotCodec, on_fragment}

-- Every session of the list comes before the identity.
abbrev pub AllBelow : ℤ → List ClientSession → Type 0
AllBelow id = All (λ x. x.id <ℤ id)

insert_session_last :
    (s : ClientSession) (ss : List ClientSession)
    → AllBelow s.id ss
    → insert_session s ss ≡ ss ++ s ∷ []
unfolding insert_session
insert_session_last s [] h = refl
insert_session_last s (x ∷ xs) h = ground (arith, insert_session_last s xs h.1)

-- All sessions of the first list come before all of the second.
abbrev pub Precedes : List ClientSession → List ClientSession → Type 0
Precedes xs [] = Unit
Precedes xs (y ∷ ys) = AllBelow y.id xs × Precedes xs ys

module _ ⦃c : Constants⦄ where
  -- The fragments of an image, handed on in order, over as many polls as it takes, until the handler
  -- breaks off or throws, which is what controlled polls are documented to do.
  abbrev pub replay : SnapshotCodec → List SnapshotMessage → M Loader (Unit {0})
  replay codec [] l = returns tt l
  replay codec (m ∷ ms) l =
      elim (on_fragment codec (record { schema_id = codec.schema_id; message = m }) l) [
        | returns continue k ↦ replay codec ms k
        | returns commit k ↦ replay codec ms k
        | returns break k ↦ returns tt k
        | returns abort k ↦ returns tt k
        | throws e k ↦ throws e k
      ]

find_session_above : (id : ℤ) (ss : List ClientSession) → AllBelow id ss → find_session id ss ≡ none
unfolding find_session
find_session_above id [] h = refl
find_session_above id (x ∷ xs) h = ground (arith, find_session_above id xs h.1)

AllBelow-append :
    (id : ℤ) (xs : List ClientSession) (s : ClientSession)
    → AllBelow id xs
    → s.id <ℤ id
    → AllBelow id (xs ++ s ∷ [])
AllBelow-append id [] s h k = (k, tt)
AllBelow-append id (x ∷ xs) s h k = (h.0, AllBelow-append id xs s h.1 k)

pub Precedes-append :
    (xs ys : List ClientSession) (s : ClientSession)
    → Precedes xs ys
    → All (λ y. s.id <ℤ y.id) ys
    → Precedes (xs ++ s ∷ []) ys
Precedes-append xs [] s h k = tt
Precedes-append xs (y ∷ ys) s h k =
    (AllBelow-append y.id xs s h.0 k.0, Precedes-append xs ys s h.1 k.1)

pub Precedes-nil : (ys : List ClientSession) → Precedes [] ys
Precedes-nil [] = tt
Precedes-nil (y ∷ ys) = (tt, Precedes-nil ys)

abbrev pub all_saved : List ClientSession → List SavedSession
all_saved = map saved

-- What the loader reads for a principal, where it reads anything.
abbrev pub principal_by : SnapshotCodec → ClientSession → Text
principal_by codec s = elim (codec.read_principal (saved s)) [ none ↦ [] | some x ↦ x ]

-- Whether the decoder throws at one of the sessions.
abbrev pub refuses : SnapshotCodec → List ClientSession → Bool
refuses codec [] = false
refuses codec (s ∷ ss) = elim (codec.read_principal (saved s)) [
  | none ↦ true
  | some x ↦ refuses codec ss
]

pub refusal_cases :
    (codec : SnapshotCodec) (ss : List ClientSession)
    → (refuses codec ss ≡ true) ⊎ (refuses codec ss ≡ false)
refusal_cases codec ss = Bool-cases (refuses codec ss)

pub decoder_cases :
    (codec : SnapshotCodec) (s : ClientSession)
    → (codec.read_principal (saved s) ≡ none)
      ⊎ ((x : Text) × (codec.read_principal (saved s) ≡ some x))
decoder_cases codec s = Option-cases (codec.read_principal (saved s))

-- A session as it is saved and read: all but the principal is what it was.
abbrev pub read_by : SnapshotCodec → ClientSession → SavedSession
unfolding saved
read_by codec s = record (saved s) { encoded_principal = principal_by codec s }

abbrev pub all_read : SnapshotCodec → List ClientSession → List SavedSession
all_read codec = map (read_by codec)

module _ ⦃c : Constants⦄ where
  -- One session read back: the table stays well formed, and the session stands at its end.
  module _ (codec : SnapshotCodec) (s : ClientSession) (t : SessionTable) (v : IsValid t)
      (below : AllBelow s.id t.sessions) where
    unfoldable pub reloaded : SessionTable
    reloaded =
        add_session c.null_value s.id s.response_stream_id s.response_channel (principal_by codec s)
          t

    absent : get_client_session s.id t ≡ none
    unfolding get_client_session
    absent = ground (arith, v.agree s.id, find_session_above s.id t.sessions below)

    pub reloaded-IsValid : IsValid reloaded
    unfolding reloaded
    reloaded-IsValid = add_session-IsValid c.null_value s.id _ _ _ t v absent

    unfoldable pub copy : ClientSession
    unfolding new_session
    copy =
        new_session t.next_ref (t.noise t.next_ref) c.null_value s.id s.response_stream_id
          s.response_channel (principal_by codec s)

    pub sessions-reloaded : reloaded.sessions ≡ t.sessions ++ copy ∷ []
    unfolding reloaded add_session new_session copy
    sessions-reloaded = insert_session_last copy t.sessions below

    pub sessions-appended :
        (ss : List ClientSession)
        → all_saved reloaded.sessions ++ all_read codec ss
          ≡ all_saved t.sessions ++ all_read codec (s ∷ ss)
    unfolding saved new_session copy
    sessions-appended ss = rw sessions-reloaded (simp (map-append, append_assoc))
