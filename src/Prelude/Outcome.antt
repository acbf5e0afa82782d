-- ===== src/Prelude/Outcome.antt =====
-- Code that changes an object and may throw: what was written before the throw stays written.
use mathlib.Core.Bool.{Bool, true, false}
use mathlib.Core.Path.{◌≡◌, refl}
use mathlib.Core.Logic.{◌⊎◌, inl, inr}

-- The exceptions that the program throws, one constructor for each `throw`.
pub data Fault : Type 0 where
  bad_schema : Fault
  clashing_session : Fault
  unknown_session : Fault
  invalid_invocation : Fault
  bad_publication_state : Fault
  aeron_closed : Fault
  commit_position_closed : Fault
  log_not_contiguous : Fault
  event_not_contiguous : Fault
  invalid_role : Fault
  bad_snapshot_type : Fault
  already_in_snapshot : Fault
  missing_begin_snapshot : Fault
  snapshot_ended : Fault
  invalid_service_id : Fault
  counter_not_found : Fault
  archive_not_ipc : Fault
  service_missing : Fault
  recording_stopped : Fault
  connection_lost : Fault
  egress_error : Fault
  connect_timeout : Fault
  missing_separator : Fault
  mark_file_type : Fault
  -- aeron::util::RegistrationException.
  registration_failed : Fault
  -- What std::stoi throws.
  invalid_argument : Fault
  out_of_range : Fault
  -- What a generated decoder throws that checks the bounds of its buffer.
  buffer_too_short : Fault
  -- The archive client's `checkForErrorResponse`.
  archive_error : Fault
  -- An exception of the application's own.
  user_error : Fault
  -- Behaviour that C++ leaves undefined: a read through a null or dangling pointer.
  undefined : Fault
  -- The rounds given to a loop that has no bound of its own ran out.
  out_of_fuel : Fault

unfoldable pub is_undefined : Fault → Bool
is_undefined undefined = true
is_undefined _ = false

pub data Outcome (S A : Type 0) : Type 0 where
  returns : A → S → Outcome S A
  throws : Fault → S → Outcome S A

abbrev pub M : Type 0 → Type 0 → Type 0
M S A = S → Outcome S A

abbrev pub pure : {S A : Type 0} → A → M S A
pure a s = returns a s

abbrev pub throw : {S A : Type 0} → Fault → M S A
throw e s = throws e s

infixl 5 ◌>>=◌ ◌>>◌
abbrev pub ◌>>=◌ : {S A B : Type 0} → M S A → (A → M S B) → M S B
◌>>=◌ m f s = elim (m s) [ returns a t ↦ f a t | throws e t ↦ throws e t ]

abbrev pub ◌>>◌ : {S B : Type 0} → M S (Unit {0}) → M S B → M S B
m >> k = m >>= λ _. k

-- The object after the call, however it ended.
abbrev pub final : {S A : Type 0} → Outcome S A → S
final (returns a s) = s
final (throws e s) = s

abbrev pub get : {S : Type 0} → M S S
get s = returns s s

abbrev pub modify : {S : Type 0} → (S → S) → M S (Unit {0})
modify f s = returns tt (f s)

abbrev pub when : {S : Type 0} → Bool → M S (Unit {0}) → M S (Unit {0})
when true m s = m s
when false m s = returns tt s

-- To split on how a call ended and keep the equation.
pub Outcome-cases :
    {S A : Type 0} (o : Outcome S A)
    → ((a : A) × (s : S) × (o ≡ returns a s)) ⊎ ((e : Fault) × (s : S) × (o ≡ throws e s))
Outcome-cases (returns a s) = inl (a, s, refl)
Outcome-cases (throws e s) = inr (e, s, refl)
