-- ===== src/Agent/Log/Contiguous.antt =====
-- The log that the agent joins goes on where the agent stands (src/service/ClusteredServiceAgent.cpp,
-- `joinActiveLog`).
use aeron_cluster_cpp.Prelude.{
  ℕ, ℤ, ◌≡◌, refl, sym, ap, ◌∙◌, Bool, true, false, none, some, ◌==ℤ◌, ==ℤ_iff, arith, Option-cases,
  Bool-cases, inl, inr,
}
use aeron_cluster_cpp.Prelude.Outcome.{
  M, Outcome, returns, throws, log_not_contiguous, event_not_contiguous, ◌>>=◌, ◌>>◌, final, modify,
  pure, Outcome-cases,
}
use aeron_cluster_cpp.Aeron.{Constants}
use aeron_cluster_cpp.Agent.State.{Agent, ActiveLogEvent, Role, on_role_change}
use aeron_cluster_cpp.Agent.Driver.{Driver}
use aeron_cluster_cpp.Agent.Service.{ack, set_role, with_proxy, leave_callback}
use aeron_cluster_cpp.Agent.Service.Core.{notify-KeepsCore}
use aeron_cluster_cpp.Agent.Log.{
  seek_subscription_id, seek_subscription, seek_image, rejoin_sessions, take_image, join_active_log,
  keep_event,
}

-- A computation that leaves the log adapter as it is, however it ends.
abbrev KeepsAdapter : {A : Type 0} → M Agent A → Type 0
KeepsAdapter m = (a : Agent) → (final (m a)).log_adapter ≡ a.log_adapter

KeepsAdapter-bind :
    {A B : Type 0} (m : M Agent A) (f : A → M Agent B)
    → KeepsAdapter m
    → ((x : A) → KeepsAdapter (f x))
    → KeepsAdapter (m >>= f)
KeepsAdapter-bind m f hm hf a = elim (Outcome-cases (m a)) [
  | inl (x, b, e) ↦ ground (arith, e, hm a, hf x b)
  | inr (g, b, e) ↦ ground (arith, e, hm a)
]

module _ ⦃c : Constants⦄ where
  set_role-KeepsAdapter : (role : Role) → KeepsAdapter (set_role role)
  unfolding set_role leave_callback
  set_role-KeepsAdapter role a =
      let b = record a { role = role; in_lifecycle_callback = true } in
      let kept = ap (λ x. x.log_adapter) (notify-KeepsCore (on_role_change role) b) in
      ground (arith, kept)

  ack-KeepsAdapter : (id : ℤ) → KeepsAdapter (ack id)
  unfolding ack with_proxy
  ack-KeepsAdapter id a = ground arith

  rejoin_sessions-KeepsAdapter :
      (d : Driver) (e : ActiveLogEvent) (a : Agent)
      → (rejoin_sessions d e a).log_adapter ≡ a.log_adapter
  unfolding rejoin_sessions
  rejoin_sessions-KeepsAdapter d e a = ground arith

module _ ⦃c : Constants⦄ (d : Driver) where
  refused_image :
      (e : ActiveLogEvent) (image : ℕ) (a : Agent)
      → (d.image_join_position image ==ℤ a.log_position) ≡ false
      → take_image d e image a ≡ throws log_not_contiguous (keep_event e a)
  unfolding take_image keep_event
  refused_image e image a f = rw (f, ◌>>=◌, ◌>>◌) refl

  refused_event :
      (e : ActiveLogEvent) (image : ℕ) (a : Agent)
      → (d.image_join_position image ==ℤ a.log_position) ≡ true
      → (e.log_position ==ℤ a.log_position) ≡ false
      → take_image d e image a ≡ throws event_not_contiguous (keep_event e a)
  unfolding take_image keep_event
  refused_event e image a f g = rw (f, g, ◌>>=◌, ◌>>◌) refl

  -- What is left of `joinActiveLog` once the agent has taken the image.
  abbrev after_take : ActiveLogEvent → M Agent Bool
  after_take e = do
    _ ← ack c.null_value
    modify λ b. record b { member_id = e.member_id }
    modify (rejoin_sessions d e)
    set_role e.role
    pure true

  after_take-KeepsAdapter : (e : ActiveLogEvent) → KeepsAdapter (after_take e)
  after_take-KeepsAdapter e =
      KeepsAdapter-bind (ack c.null_value) _ (ack-KeepsAdapter c.null_value) λ _ a.
        let b = record a { member_id = e.member_id } in
        KeepsAdapter-bind (set_role e.role) _ (set_role-KeepsAdapter e.role) (λ _ x. refl)
          (rejoin_sessions d e b)
        ∙ rejoin_sessions-KeepsAdapter d e b

  -- The agent that has the image of an event.
  abbrev with_image : ActiveLogEvent → ℕ → Agent → Agent
  with_image e image a = record a {
    log_adapter = record (a.log_adapter) {
      image = some image;
      max_log_position = e.max_log_position;
    };
    active_log_event = some (record e { subscription = none });
  }

  takes :
      (e : ActiveLogEvent) (image : ℕ) (a : Agent)
      → (d.image_join_position image ==ℤ a.log_position) ≡ true
      → (e.log_position ==ℤ a.log_position) ≡ true
      → take_image d e image a ≡ after_take e (with_image e image a)
  unfolding take_image keep_event
  takes e image a f g = rw (f, g, ◌>>=◌, ◌>>◌) refl

  taken :
      (e : ActiveLogEvent) (image : ℕ) (a b : Agent)
      → take_image d e image a ≡ returns true b
      → (d.image_join_position image ≡ a.log_position)
        × (e.log_position ≡ a.log_position)
        × (b.log_adapter.image ≡ some image)
  taken e image a b h = elim (Bool-cases (d.image_join_position image ==ℤ a.log_position)) [
    | inr f ↦ absurd (ground (arith, refused_image e image a f))
    | inl f ↦ elim (Bool-cases (e.log_position ==ℤ a.log_position)) [
      | inr g ↦ absurd (ground (arith, refused_event e image a f g))
      | inl g ↦ (
        (==ℤ_iff (d.image_join_position image) a.log_position).0 f,
        (==ℤ_iff e.log_position a.log_position).0 g,
        ap (λ x. x.image)
            (ap (λ (o : Outcome Agent Bool). (final o).log_adapter) (sym h ∙ takes e image a f g)
              ∙ after_take-KeepsAdapter e (with_image e image a)),
      )
    ]
  ]

  position-seek_subscription_id :
      (e : ActiveLogEvent) → (seek_subscription_id d e).log_position ≡ e.log_position
  unfolding seek_subscription_id
  position-seek_subscription_id e = ground arith

  position-seek_subscription :
      (e : ActiveLogEvent) → (seek_subscription d e).log_position ≡ e.log_position
  unfolding seek_subscription
  position-seek_subscription e = ground arith

  position-seek_image :
      (s : ℕ) (e : ActiveLogEvent) → (seek_image d s e).log_position ≡ e.log_position
  unfolding seek_image
  position-seek_image s e = ground arith

  -- Where `joinActiveLog` returns true, the image that the log adapter then has starts at the position
  -- that the agent had, and the event was for that position.
  pub join_active_log_contiguous :
      (e : ActiveLogEvent) (a b : Agent)
      → join_active_log d e a ≡ returns true b
      → (image : ℕ) × (b.log_adapter.image ≡ some image)
        × (d.image_join_position image ≡ a.log_position)
        × (e.log_position ≡ a.log_position)
  unfolding join_active_log
  join_active_log_contiguous e a b h =
      let e1 : ActiveLogEvent = seek_subscription_id d e in
      let e2 : ActiveLogEvent = seek_subscription d e1 in
      elim (Bool-cases (e1.log_subscription_id ==ℤ c.null_value)) [
        | inl f ↦ absurd (ground arith)
        | inr f ↦ elim (Option-cases e2.subscription) [
          | inl g ↦ absurd (ground arith)
          | inr (s, g) ↦ elim (Option-cases (seek_image d s e2).image) [
            | inl k ↦ absurd (ground arith)
            | inr (image, k) ↦
                let (joins, at, takes_image) = taken (seek_image d s e2) image a b (ground arith) in
                (
                  image,
                  takes_image,
                  joins,
                  ground (
                    arith,
                    position-seek_image s e2,
                    position-seek_subscription e1,
                    position-seek_subscription_id e,
                  ),
                )
          ]
        ]
      ]
