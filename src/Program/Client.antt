-- ===== src/Program/Client.antt =====
-- The loop of src/client/main.cpp on a publication that the client has added with `addPublication` and
-- looks for with `findExclusivePublication` (`AsyncConnect::createIngressPublications` of
-- src/client/AeronCluster.cpp).
use aeron_cluster_cpp.Prelude.{◌≡◌, ◌⊎◌, false, [], none, ℤ, pos, negsuc, ltb_ℤ}
use aeron_cluster_cpp.Aeron.{Constants}
use aeron_cluster_cpp.Client.State.{AsyncConnect, ClientContext, ClientDriver}

module _ ⦃c : Constants⦄ (d : ClientDriver) (ctx : ClientContext) (id : ℤ) where
  -- The connect has no publication, and nothing to find one by but the id of `addPublication`.
  pub record HasNoIngress (a : AsyncConnect) : Type 0 where
    pub same_ctx : a.ctx ≡ ctx
    pub no_publication : a.ingress_publication ≡ none
    pub early : (a.step ≡ negsuc 0) ⊎ (a.step ≡ pos 0)
    pub in_time : ltb_ℤ a.deadline_ns (pos 0) ≡ false
    pub registered : (a.ingress_registration_id ≡ c.null_value) ⊎ (a.ingress_registration_id ≡ id)
    pub nothing_sent : a.sent ≡ []

  -- The connect once the id was taken down.
  abbrev with_id : AsyncConnect → AsyncConnect
  with_id a = record a { ingress_registration_id = id }
