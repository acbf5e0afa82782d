-- ===== src/Configuration/Conclude.antt =====
-- `Context::conclude` of src/service/ClusteredServiceConfiguration.cpp.
use aeron_cluster_cpp.Prelude.{
  ℕ, ◌≡◌, if◌then◌else◌, Bool, true, false, not, ◌&&◌, ◌||◌, ◌==◌, ◌⊎◌, inl, inr, [], ◌∷◌, Option,
  none, some, ℤ, pos, ltb_ℤ, Text,
}
use aeron_cluster_cpp.Prelude.Outcome.{
  M, Outcome, returns, throws, Fault, invalid_service_id, archive_not_ipc,
}
use aeron_cluster_cpp.Configuration.{ServiceContext}

-- The archive client's configuration, as far as the code uses it: two channels, and the three calls
-- `aeron(…).ownsAeronClient(false).errorHandler(…)` in a row, which leave the channels alone and
-- which the same three calls only repeat.
pub record ArchiveSettings (A : Type 0) : Type 0 where
  pub control_request_channel : A → Text
  pub control_response_channel : A → Text
  pub give : ℕ → ℕ → A → A
  pub request-give :
      (aeron handler : ℕ) (a : A)
      → control_request_channel (give aeron handler a) ≡ control_request_channel a
  pub response-give :
      (aeron handler : ℕ) (a : A)
      → control_response_channel (give aeron handler a) ≡ control_response_channel a
  pub give-give :
      (aeron handler : ℕ) (a : A) → give aeron handler (give aeron handler a) ≡ give aeron handler a

-- What the Aeron library has: `Aeron::connect` by directory and error handler, the default error
-- handler, and IPC_CHANNEL.
pub record AeronLibrary : Type 0 where
  pub connect_aeron : Text → ℕ → Fault ⊎ ℕ
  pub default_error_handler : ℕ
  pub ipc_channel : Text

-- `std::string::starts_with`.
abbrev pub starts_with : Text → Text → Bool
starts_with bytes [] = true
starts_with [] (p ∷ ps) = false
starts_with (b ∷ bs) (p ∷ ps) = b == p && starts_with bs ps

unfoldable pub or_else : Option ℕ → ℕ → ℕ
or_else none n = n
or_else (some m) n = m

unfoldable pub in_range : ℤ → Bool
in_range id = not (ltb_ℤ id (pos 0) || ltb_ℤ (pos 127) id)

module _ {A : Type 0} ⦃archive : ArchiveSettings A⦄ (library : AeronLibrary) where
  unfoldable pub is_local : A → Bool
  is_local a =
      starts_with (archive.control_request_channel a) library.ipc_channel
      && starts_with (archive.control_response_channel a) library.ipc_channel

  unfoldable pub handler_of : ServiceContext A → ℕ
  unfolding or_else
  handler_of c = or_else c.error_handler library.default_error_handler

  -- A client of its own where it was given none.
  unfoldable pub connect_if_needed : M (ServiceContext A) ℕ
  unfolding handler_of
  connect_if_needed c = elim c.aeron [
    | some aeron ↦ returns aeron c
    | none ↦ elim (library.connect_aeron c.aeron_directory_name (handler_of c)) [
      | inl e ↦ throws e c
      | inr aeron ↦ returns aeron (record c { aeron = some aeron; owns_aeron_client = true })
    ]
  ]

  unfoldable pub conclude : M (ServiceContext A) (Unit {0})
  unfolding in_range is_local handler_of connect_if_needed
  conclude c =
      let h : ℕ = handler_of c in
      let handled : ServiceContext A = record c { error_handler = some h } in
      let rest : Outcome (ServiceContext A) (Unit {0}) = elim (connect_if_needed handled) [
        | throws e b ↦ throws e b
        | returns aeron b ↦
            if is_local b.archive_context
            then returns tt (record b { archive_context = archive.give aeron h b.archive_context })
            else throws archive_not_ipc b
      ] in
      if in_range c.service_id then rest else throws invalid_service_id c
