-- ===== src/Agent/Service/Core.antt =====
-- What a callback can change: the application acts on the agent only through the members that it
-- may call (src/service/ClusteredServiceAgent.cpp, `closeClientSession` and `cancelTimer`).
use aeron_cluster_cpp.Prelude.{
  ℕ, ◌≡◌, refl, ◌∙◌, if◌then◌else◌, Bool, true, false, [], ◌∷◌, Option, none, some, ℤ, arith,
}
use aeron_cluster_cpp.Prelude.Outcome.{
  M, Outcome, returns, throws, Fault, ◌>>=◌, pure, throw, unknown_session, final,
}
use aeron_cluster_cpp.Aeron.{Constants}
use aeron_cluster_cpp.Sessions.{get_client_session, mark_closing}
use aeron_cluster_cpp.Sessions.Marks.{core_table, all_open-mark}
use aeron_cluster_cpp.Proxy.{Proxy, claim, cancel_timer, close_session}
use aeron_cluster_cpp.Agent.State.{
  Agent, Callback, gave, threw, Script, done, fails, closes_session, cancels_timer,
}
use aeron_cluster_cpp.Agent.Service.{
  with_proxy, check_for_valid_invocation, read_session, write_session, request_close,
  close_client_session, cancel_timer_of, run_script, notify,
}

-- The agent without what the application may change: the callbacks made so far, the requests to
-- the consensus module, and which sessions are closing.
abbrev pub core : Agent → Agent
core a = record a { history = []; proxy = none; table = core_table a.table }

pub core-with_proxy :
    {A : Type 0} (m : M Proxy A) (a : Agent) → core (final (with_proxy m a)) ≡ core a
unfolding with_proxy
core-with_proxy m a = ground arith

pub core-write_session : (r : ℕ) (a : Agent) → core (write_session r mark_closing a) ≡ core a
unfolding write_session
core-write_session r a = ground (arith, all_open-mark r a.table.sessions)

-- A computation that changes nothing of the core, however it ends.
abbrev pub KeepsCore : {A : Type 0} → M Agent A → Type 0
KeepsCore m = (a : Agent) → core (final (m a)) ≡ core a

pub core_after :
    {A B : Type 0} (a : Agent) (o : Outcome Agent A) (f : A → M Agent B)
    → core (final o) ≡ core a
    → ((x : A) → KeepsCore (f x))
    → core
        (final (elim o as (λ _. Outcome Agent B) [ returns x b ↦ f x b | throws e b ↦ throws e b ]))
      ≡ core a
core_after a (returns x b) f e h = h x b ∙ e
core_after a (throws g b) f e h = e

pub KeepsCore-bind :
    {A B : Type 0} (m : M Agent A) (f : A → M Agent B)
    → KeepsCore m
    → ((x : A) → KeepsCore (f x))
    → KeepsCore (m >>= f)
KeepsCore-bind m f hm hf a = core_after a (m a) f (hm a) hf

pub KeepsCore-if :
    {A : Type 0} (b : Bool) (m n : M Agent A)
    → KeepsCore m
    → KeepsCore n
    → KeepsCore (if b then m else n)
KeepsCore-if true m n hm hn = hm
KeepsCore-if false m n hm hn = hn

pub KeepsCore-option :
    {A B : Type 0} (o : Option A) (m : M Agent B) (f : A → M Agent B)
    → KeepsCore m
    → ((x : A) → KeepsCore (f x))
    → KeepsCore (elim o as (λ _. M Agent B) [ none ↦ m | some x ↦ f x ])
KeepsCore-option none m f hm hf = hm
KeepsCore-option (some x) m f hm hf = hf x

-- What is done by the reply keeps the core too.
pub core_resumed :
    (a : Agent) (o : Outcome Agent Bool) (f : Bool → M Agent Bool) (g : Fault → M Agent Bool)
    → core (final o) ≡ core a
    → ((b : Bool) → KeepsCore (f b))
    → ((e : Fault) → KeepsCore (g e))
    → core
        (final (elim o as (λ _. Outcome Agent Bool) [ returns b x ↦ f b x | throws e x ↦ g e x ]))
      ≡ core a
core_resumed a (returns b x) f g e hf hg = hf b x ∙ e
core_resumed a (throws h x) f g e hf hg = hg h x ∙ e

check_for_valid_invocation-KeepsCore : KeepsCore check_for_valid_invocation
unfolding check_for_valid_invocation
check_for_valid_invocation-KeepsCore a = ground arith

pub read_session-KeepsCore : (r : ℕ) → KeepsCore (read_session r)
unfolding read_session
read_session-KeepsCore r a = ground arith

module _ ⦃c : Constants⦄ where
  request_close-KeepsCore : (id : ℤ) (r : ℕ) → KeepsCore (request_close id r)
  unfolding request_close
  request_close-KeepsCore id r a =
      core_after a (with_proxy (claim (close_session id)) a)
        (λ sent b. if sent then returns true (write_session r mark_closing b) else returns false b)
        (core-with_proxy _ a) (λ sent b. ground (arith, core-write_session r b))

  close_found : ℤ → ℕ → M Agent Bool
  close_found id r = read_session r >>= λ s. if s.is_closing then pure true else request_close id r

  close_found-KeepsCore : (id : ℤ) (r : ℕ) → KeepsCore (close_found id r)
  unfolding close_found
  close_found-KeepsCore id r =
      KeepsCore-bind (read_session r) (λ s. if s.is_closing then pure true else request_close id r)
        (read_session-KeepsCore r)
        λ s. KeepsCore-if s.is_closing _ _ (λ a. refl) (request_close-KeepsCore id r)

  pub close_client_session-KeepsCore : (id : ℤ) → KeepsCore (close_client_session id)
  unfolding close_client_session close_found
  close_client_session-KeepsCore id =
      KeepsCore-bind check_for_valid_invocation _ check_for_valid_invocation-KeepsCore λ _ a.
        KeepsCore-option (get_client_session id a.table) (throw unknown_session) (close_found id)
          (λ b. refl) (close_found-KeepsCore id) a

  pub cancel_timer_of-KeepsCore : (id : ℤ) → KeepsCore (cancel_timer_of id)
  unfolding cancel_timer_of
  cancel_timer_of-KeepsCore id =
      KeepsCore-bind check_for_valid_invocation (λ _. with_proxy (claim (cancel_timer id)))
        check_for_valid_invocation-KeepsCore (λ _. core-with_proxy _)

  pub run_script-KeepsCore : (s : Script) → KeepsCore (run_script s)
  unfolding run_script
  run_script-KeepsCore (done b) a = refl
  run_script-KeepsCore (fails e) a = refl
  run_script-KeepsCore (closes_session id next) a =
      core_resumed a (close_client_session id a) (λ b. run_script (next (gave b)))
        (λ e. run_script (next (threw e))) (close_client_session-KeepsCore id a)
        (λ b. run_script-KeepsCore (next (gave b))) (λ e. run_script-KeepsCore (next (threw e)))
  run_script-KeepsCore (cancels_timer id next) a =
      core_resumed a (cancel_timer_of id a) (λ b. run_script (next (gave b)))
        (λ e. run_script (next (threw e))) (cancel_timer_of-KeepsCore id a)
        (λ b. run_script-KeepsCore (next (gave b))) (λ e. run_script-KeepsCore (next (threw e)))

  -- Whatever the application does in a callback, and however the callback ends, the agent differs
  -- after it in the callbacks made, the requests sent and the sessions marked, and in nothing else.
  pub notify-KeepsCore : (call : Callback) → KeepsCore (notify call)
  unfolding notify
  notify-KeepsCore call a = run_script-KeepsCore _ (record a { history = call ∷ a.history })
