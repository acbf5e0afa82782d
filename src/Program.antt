-- ===== src/Program.antt =====
-- The programs. src/service/service-main.cpp: its service, its configuration, and the loop that waits for
-- the agent; what it prints is left out, and its last loop, which calls `doWork` for ever.
-- src/client/main.cpp: the loop that waits for the client.
pub mod Service
pub mod Client
use aeron_cluster_cpp.Prelude.{
  ℕ, zero, suc, if◌then◌else◌, Bool, true, not, List, [], ◌∷◌, none, some, ℤ, pos, ◌==ℤ◌, Text,
}
use aeron_cluster_cpp.Prelude.Outcome.{M, Outcome, returns, throws, out_of_fuel}
use aeron_cluster_cpp.Aeron.{Constants}
use aeron_cluster_cpp.Agent.State.{Agent, Callback, on_take_snapshot, Script, done}
use aeron_cluster_cpp.Agent.Launch.{LaunchDriver, Launch, poll_launch}
use aeron_cluster_cpp.Client.State.{AsyncConnect, AeronCluster, ClientDriver}
use aeron_cluster_cpp.Client.Connect.{poll_connect}
use aeron_cluster_cpp.Configuration.{
  ServiceContext, set_service_id, set_archive_context, set_clustered_service,
}

-- `TestService`: a snapshot is complete where the answer of the publication's `offer`, read as a bool,
-- is true; a callback that returns nothing ends.
unfoldable pub test_service : (List Callback → ℤ) → List Callback → Script
test_service offer (on_take_snapshot publication ∷ history) =
    done (not (offer (on_take_snapshot publication ∷ history) ==ℤ pos 0))
test_service offer history = done true

-- The settings of `main`, for the two setters of the archive client's configuration.
unfoldable pub configure :
    {A : Type 0}
    → (Text → A → A)
    → (Text → A → A)
    → (List Callback → ℤ)
    → ServiceContext A
    → ServiceContext A
unfolding set_service_id set_archive_context set_clustered_service test_service
configure set_request set_response offer c =
    let local : Text = 97 ∷ 101 ∷ 114 ∷ 111 ∷ 110 ∷ 58 ∷ 105 ∷ 112 ∷ 99 ∷ [] in
    let c1 = set_service_id (pos 0) c in
    let c2 = set_archive_context (set_request local c1.archive_context) c1 in
    let c3 = set_archive_context (set_response local c2.archive_context) c2 in
    set_clustered_service (some (test_service offer)) c3

module _ ⦃c : Constants⦄ where
  -- `while (cluster == nullptr)`, by rounds: poll until there is an agent, with the answers of each
  -- round.
  unfoldable pub await_agent : ℕ → (ℕ → LaunchDriver) → M Launch Agent
  await_agent zero d l = throws out_of_fuel l
  await_agent (suc rounds) d l = elim (poll_launch (d 0) l) [
    | throws e k ↦ throws e k
    | returns found k ↦ elim found [
      | some a ↦ returns a k
      | none ↦ await_agent rounds (λ n. d (suc n)) k
    ]
  ]

  -- The loop of the client's `main`, by rounds: poll until there is a client.
  unfoldable pub await_client : ℕ → ClientDriver → ℕ → M AsyncConnect AeronCluster
  await_client parse_rounds d zero a = throws out_of_fuel a
  await_client parse_rounds d (suc rounds) a = elim (poll_connect d parse_rounds a) [
    | throws e b ↦ throws e b
    | returns client b ↦ elim client [
      | some x ↦ returns x b
      | none ↦ await_client parse_rounds d rounds b
    ]
  ]
