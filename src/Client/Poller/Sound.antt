-- ===== src/Client/Poller/Sound.antt =====
-- A poller of src/client/EgressPoller.cpp that holds the event OK holds its image too.
unfoldable pub use aeron_cluster_cpp.Prelude.Outcome.{is_undefined}
use aeron_cluster_cpp.Prelude.{ℕ, ◌≡◌, Bool, true, false, not, ◌||◌, Option, none, some, ℤ, arith}
use aeron_cluster_cpp.Prelude.Outcome.{Outcome, returns, throws, Fault}
use aeron_cluster_cpp.Aeron.{PollAction}
use aeron_cluster_cpp.Client.Egress.{EventCode, event_ok, EgressMessage, EgressFragment}
use aeron_cluster_cpp.Client.Poller.{EgressPoller, reset, on_message, on_fragment}

unfoldable pub is_ok : EventCode → Bool
is_ok event_ok = true
is_ok _ = false

unfoldable pub is_present : Option ℕ → Bool
is_present none = false
is_present (some _) = true

-- A poller that holds the event OK has an image.
unfoldable pub is_sound : EgressPoller → Bool
is_sound p = not (is_ok p.event_code) || is_present p.egress_image

abbrev pub Sound : EgressPoller → Type 0
Sound p = is_sound p ≡ true

-- The calls that a controlled poll makes: of the handler, one fragment after the other, until it
-- returns; an exception of the handler ends it.
pub data Handed (schema_id : ℕ) : EgressPoller → Outcome EgressPoller ℤ → Type 0 where
  stops : {p : EgressPoller} (n : ℤ) → Handed schema_id p (returns n p)
  hands :
      {p q : EgressPoller} {o : Outcome EgressPoller ℤ} {action : PollAction} (f : EgressFragment)
      → on_fragment schema_id f p ≡ returns action q
      → Handed schema_id q o
      → Handed schema_id p o
  faults :
      {p q : EgressPoller} {e : Fault} (f : EgressFragment)
      → on_fragment schema_id f p ≡ throws e q
      → Handed schema_id p (throws e q)

-- A poll that returns leaves a sound poller, and one that throws has not read through null.
abbrev pub SoundOutcome : Outcome EgressPoller ℤ → Type 0
SoundOutcome (returns n p) = Sound p
SoundOutcome (throws e p) = is_undefined e ≡ false

module _ (schema_id : ℕ) where
  on_message-Sound :
      (f : EgressFragment) (m : EgressMessage) (p q : EgressPoller) (action : PollAction)
      → Sound p
      → on_message f m p ≡ returns action q
      → Sound q
  unfolding on_message is_sound is_ok is_present
  on_message-Sound f m p q action s e = ground arith

  on_fragment-Sound :
      (f : EgressFragment) (p q : EgressPoller) (action : PollAction)
      → Sound p
      → on_fragment schema_id f p ≡ returns action q
      → Sound q
  unfolding on_fragment is_sound
  on_fragment-Sound f p q action s e =
      ground
        (arith, on_message-Sound f f.message (record p { template_id = f.template_id }) q action s)

  on_fragment_fault :
      (f : EgressFragment) (p q : EgressPoller) (e : Fault)
      → on_fragment schema_id f p ≡ throws e q
      → is_undefined e ≡ false
  unfolding on_fragment on_message is_undefined
  on_fragment_fault f p q e h = ground arith

  pub Handed-SoundOutcome :
      {p : EgressPoller} {o : Outcome EgressPoller ℤ}
      → Sound p
      → Handed schema_id p o
      → SoundOutcome o
  Handed-SoundOutcome s (stops n) = s
  Handed-SoundOutcome {p} s (hands {q = q} {action = action} f e h) =
      Handed-SoundOutcome (on_fragment-Sound f p q action s e) h
  Handed-SoundOutcome {p} s (faults {q = q} {e = g} f e) = on_fragment_fault f p q g e

pub SoundOutcome-returns :
    (o : Outcome EgressPoller ℤ) (n : ℤ) (q : EgressPoller)
    → o ≡ returns n q
    → SoundOutcome o
    → Sound q
SoundOutcome-returns (returns m p) n q e s = cc
SoundOutcome-returns (throws g p) n q e s = cc

pub SoundOutcome-throws :
    (o : Outcome EgressPoller ℤ) (e : Fault) (q : EgressPoller)
    → o ≡ throws e q
    → SoundOutcome o
    → is_undefined e ≡ false
SoundOutcome-throws (returns m p) e q h s = cc
SoundOutcome-throws (throws g p) e q h s = cc

pub reset-Sound : (p : EgressPoller) → Sound p → Sound (reset p)
unfolding reset is_sound is_ok
reset-Sound p s = ground arith
