-- ===== src/Configuration/Laws.antt =====
-- What concluding a configuration promises (src/service/ClusteredServiceConfiguration.cpp).
use aeron_cluster_cpp.Prelude.{
  ℕ, ◌≡◌, refl, true, inl, inr, some, arith, Option-cases, Bool-cases, Sum-cases,
}
use aeron_cluster_cpp.Prelude.Outcome.{returns, Outcome-cases}
use aeron_cluster_cpp.Configuration.{ServiceContext}
use aeron_cluster_cpp.Configuration.Conclude.{
  ArchiveSettings, AeronLibrary, or_else, in_range, is_local, handler_of, connect_if_needed,
  conclude,
}

module _ {A : Type 0} ⦃archive : ArchiveSettings A⦄ (library : AeronLibrary) where
  -- A configuration that is concluded.
  pub record IsConcluded (c : ServiceContext A) : Type 0 where
    pub id_in_range : in_range c.service_id ≡ true
    pub archive_is_local : is_local library c.archive_context ≡ true
    pub aeron : ℕ
    pub has_aeron : c.aeron ≡ some aeron
    pub handler : ℕ
    pub has_handler : c.error_handler ≡ some handler
    pub archive_given : archive.give aeron handler c.archive_context ≡ c.archive_context

  is_local-give :
      (aeron handler : ℕ) (a : A)
      → is_local library (archive.give aeron handler a) ≡ is_local library a
  unfolding is_local
  is_local-give aeron handler a =
      rw (archive.request-give aeron handler a, archive.response-give aeron handler a) refl

  connected :
      (c b : ServiceContext A) (aeron : ℕ)
      → connect_if_needed library c ≡ returns aeron b
      → (b.aeron ≡ some aeron)
        × (b.archive_context ≡ c.archive_context)
        × (b.service_id ≡ c.service_id)
        × (b.error_handler ≡ c.error_handler)
  unfolding connect_if_needed
  connected c b aeron e = elim (Option-cases c.aeron) [
    | inr (n, f) ↦ (ground arith, ground arith, ground arith, ground arith)
    | inl f ↦
        elim (Sum-cases (library.connect_aeron c.aeron_directory_name (handler_of library c))) [
          | inl (x, g) ↦ absurd (ground arith)
          | inr (n, g) ↦ (ground arith, ground arith, ground arith, ground arith)
        ]
  ]

  pub conclude-IsConcluded :
      (c b : ServiceContext A) → conclude library c ≡ returns tt b → IsConcluded b
  unfolding conclude
  conclude-IsConcluded c b e =
      let handled : ServiceContext A = record c { error_handler = some (handler_of library c) } in
      elim (Bool-cases (in_range c.service_id)) [
        | inr f ↦ absurd (ground arith)
        | inl f ↦ elim (Outcome-cases (connect_if_needed library handled)) [
          | inr (x, k, g) ↦ absurd (ground arith)
          | inl (aeron, k, g) ↦
              let (has, same_archive, same_id, same_handler) = connected handled k aeron g in
              elim (Bool-cases (is_local library k.archive_context)) [
                | inr m ↦ absurd (ground arith)
                | inl m ↦ record {
                  id_in_range = ground arith;
                  archive_is_local =
                      ground (arith, is_local-give aeron (handler_of library c) k.archive_context);
                  aeron = aeron;
                  has_aeron = ground arith;
                  handler = handler_of library c;
                  has_handler = ground arith;
                  archive_given =
                      ground
                        (arith, archive.give-give aeron (handler_of library c) k.archive_context);
                }
              ]
        ]
      ]

  pub conclude_concluded :
      (c : ServiceContext A) → IsConcluded c → conclude library c ≡ returns tt c
  unfolding conclude connect_if_needed handler_of or_else
  conclude_concluded c k =
      ground (arith, k.id_in_range, k.archive_is_local, k.has_aeron, k.has_handler, k.archive_given)
