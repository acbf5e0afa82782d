-- ===== src/Client/Decorator.antt =====
-- The header that goes before a message to the cluster: src/client/IngressSessionDecorator.{h,cpp}, with
-- the fields that are set in its buffer.
use aeron_cluster_cpp.Prelude.{ℤ}
use aeron_cluster_cpp.Aeron.{Constants}

pub record IngressSessionDecorator : Type 0 where
  pub leadership_term_id : ℤ
  pub cluster_session_id : ℤ
  pub timestamp : ℤ

module _ ⦃c : Constants⦄ where
  -- The constructor; the term id passes through an unsigned number of the same width.
  unfoldable pub ingress_session_decorator : ℤ → ℤ → IngressSessionDecorator
  ingress_session_decorator cluster_session_id leadership_term_id = record {
    leadership_term_id = leadership_term_id;
    cluster_session_id = cluster_session_id;
    timestamp = c.null_value;
  }

unfoldable pub decorate_session : ℤ → IngressSessionDecorator → IngressSessionDecorator
decorate_session cluster_session_id h = record h { cluster_session_id = cluster_session_id }

unfoldable pub decorate_term : ℤ → IngressSessionDecorator → IngressSessionDecorator
decorate_term leadership_term_id h = record h { leadership_term_id = leadership_term_id }
