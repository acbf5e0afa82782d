-- ===== src/Agent/Service/Live.antt =====
-- The members that the application may call, and the callbacks, read through no null or dangling
-- pointer (src/service/ClusteredServiceAgent.cpp).
use aeron_cluster_cpp.Prelude.{
  ℕ, ◌≡◌, refl, ◌++◌, [], ◌||◌, ap, inl, inr, if◌then◌else◌, Bool, true, false, List, ◌∷◌, some, ℤ,
  Option-cases, Bool-cases,
}
use aeron_cluster_cpp.Prelude.Outcome.{
  M, Outcome, returns, throws, Fault, is_undefined, invalid_invocation, ◌>>=◌,
}
use aeron_cluster_cpp.Aeron.{Constants}
use aeron_cluster_cpp.Publication.{verdict, Verdict-cases}
use aeron_cluster_cpp.Sessions.{get_client_session, mark_closing}
use aeron_cluster_cpp.Sessions.Laws.{IsValid, get_client_session_live}
use aeron_cluster_cpp.Sessions.Marks.{IsValid_of_core_table}
use aeron_cluster_cpp.Proxy.{Proxy, Request, claim, attempts, cancel_timer, close_session}
use aeron_cluster_cpp.Agent.State.{
  Agent, Callback, Reply, gave, threw, Script, done, fails, closes_session, cancels_timer,
}
use aeron_cluster_cpp.Agent.Service.{
  with_proxy, check_for_valid_invocation, write_session, request_close, close_client_session,
  cancel_timer_of, run_script, notify,
}
use aeron_cluster_cpp.Agent.Service.Core.{core-write_session}
use aeron_cluster_cpp.Agent.Service.Requests.{
  request-verdict, is_valid, close_known, close_invalid, close_unknown,
}

-- An application that is not itself the cause of undefined behaviour.
abbrev pub IsDecent : Script → Type 0
IsDecent (done b) = Unit
IsDecent (fails e) = is_undefined e ≡ false
IsDecent (closes_session id next) = (r : Reply) → IsDecent (next r)
IsDecent (cancels_timer id next) = (r : Reply) → IsDecent (next r)

-- A well-formed table, a proxy, and such an application.
pub record IsLive (a : Agent) : Type 0 where
  pub valid : IsValid a.table
  pub proxy : Proxy
  pub has_proxy : a.proxy ≡ some proxy
  pub decent : (calls : List Callback) → IsDecent (a.ctx.service calls)

-- A call that leaves the agent so, and did not end with undefined behaviour.
abbrev pub IsDefined : {A : Type 0} → Outcome Agent A → Type 0
IsDefined (returns x a) = IsLive a
IsDefined (throws e a) = IsLive a × (is_undefined e ≡ false)

pub IsDefined-after :
    {A B : Type 0} (o : Outcome Agent A) (f : A → M Agent B) (g : Fault → M Agent B)
    → IsDefined o
    → ((x : A) (b : Agent) → IsLive b → IsDefined (f x b))
    → ((e : Fault) (b : Agent) → is_undefined e ≡ false → IsLive b → IsDefined (g e b))
    → IsDefined (elim o as (λ _. Outcome Agent B) [ returns x b ↦ f x b | throws e b ↦ g e b ])
IsDefined-after (returns x b) f g h hf hg = hf x b h
IsDefined-after (throws e b) f g h hf hg = hg e b h.1 h.0

pub IsDefined-bind :
    {A B : Type 0} (m : M Agent A) (f : A → M Agent B) (a : Agent)
    → IsDefined (m a)
    → ((x : A) (b : Agent) → IsLive b → IsDefined (f x b))
    → IsDefined ((m >>= f) a)
IsDefined-bind m f a h hf = IsDefined-after (m a) f (λ e b. throws e b) h hf (λ e b u l. (l, u))

pub IsDefined-choice :
    {A : Type 0} (b : Bool) (o q : Outcome Agent A)
    → IsDefined o
    → IsDefined q
    → IsDefined (if b then o else q)
IsDefined-choice true o q ho hq = ho
IsDefined-choice false o q ho hq = hq

pub IsDefined-if :
    {A : Type 0} (b : Bool) (m n : M Agent A) (a : Agent)
    → IsDefined (m a)
    → IsDefined (n a)
    → IsDefined ((if b then m else n) a)
IsDefined-if true m n a hm hn = hm
IsDefined-if false m n a hm hn = hn

module _ ⦃c : Constants⦄ where
  claim-IsDefined : (r : Request) (a : Agent) → IsLive a → IsDefined (with_proxy (claim r) a)
  unfolding is_undefined
  claim-IsDefined r a l =
      let p = l.proxy in
      elim (Verdict-cases (verdict p.answers p.calls attempts)) [
        | inl (k, f) ↦
            rw (request-verdict r a p l.has_proxy, f)
              (record {
                valid = l.valid;
                proxy = record p { calls = k; sent = p.sent ++ r ∷ [] };
                has_proxy = refl;
                decent = l.decent;
              })
        | inr g ↦ elim g [
          | inl (k, f) ↦
              rw (request-verdict r a p l.has_proxy, f)
                (record {
                  valid = l.valid;
                  proxy = record p { calls = k };
                  has_proxy = refl;
                  decent = l.decent;
                })
          | inr (k, f) ↦
              rw (request-verdict r a p l.has_proxy, f)
                (
                  record {
                    valid = l.valid;
                    proxy = record p { calls = k };
                    has_proxy = refl;
                    decent = l.decent;
                  },
                  refl,
                )
        ]
      ]

  mark-IsLive : (r : ℕ) (a : Agent) → IsLive a → IsLive (write_session r mark_closing a)
  unfolding write_session
  mark-IsLive r a l = record {
    valid =
        IsValid_of_core_table a.table (write_session r mark_closing a).table
          (ap (λ x. x.table) (core-write_session r a)) l.valid;
    proxy = l.proxy;
    has_proxy = l.has_proxy;
    decent = l.decent;
  }

  request_close-IsDefined :
      (id : ℤ) (r : ℕ) (a : Agent) → IsLive a → IsDefined (request_close id r a)
  unfolding request_close
  request_close-IsDefined id r a l =
      IsDefined-after (with_proxy (claim (close_session id)) a)
        (λ sent b. if sent then returns true (write_session r mark_closing b) else returns false b)
        (λ e b. throws e b) (claim-IsDefined (close_session id) a l)
        (λ sent b k. IsDefined-choice sent _ _ (mark-IsLive r b k) k) (λ e b u k. (k, u))

  close-IsDefined : (id : ℤ) (a : Agent) → IsLive a → IsDefined (close_client_session id a)
  unfolding is_undefined
  close-IsDefined id a l = elim (Bool-cases (is_valid a)) [
    | inr v ↦ rw (close_invalid id a v) (l, refl)
    | inl v ↦ elim (Option-cases (get_client_session id a.table)) [
      | inl f ↦ rw (close_unknown id a v f) (l, refl)
      | inr (r, f) ↦
          let (s, live, same, seen) = get_client_session_live a.table id r l.valid f in
          rw (close_known id a v f live) (
            IsDefined-choice s.is_closing (returns true a) (request_close id r a) l
              (request_close-IsDefined id r a l))
    ]
  ]

  cancel-IsDefined : (id : ℤ) (a : Agent) → IsLive a → IsDefined (cancel_timer_of id a)
  unfolding cancel_timer_of check_for_valid_invocation is_undefined
  cancel-IsDefined id a l =
      IsDefined-bind check_for_valid_invocation (λ _. with_proxy (claim (cancel_timer id))) a
        (IsDefined-choice (a.in_lifecycle_callback || a.is_background_invocation)
          (throws invalid_invocation a) (returns tt a) (l, refl) l)
        (λ x b k. claim-IsDefined (cancel_timer id) b k)

  run_script-IsDefined :
      (s : Script) (a : Agent) → IsDecent s → IsLive a → IsDefined (run_script s a)
  unfolding run_script
  run_script-IsDefined (done b) a h l = l
  run_script-IsDefined (fails e) a h l = (l, h)
  run_script-IsDefined (closes_session id next) a h l =
      IsDefined-after (close_client_session id a) (λ b. run_script (next (gave b)))
        (λ e. run_script (next (threw e))) (close-IsDefined id a l)
        (λ b x k. run_script-IsDefined (next (gave b)) x (h (gave b)) k)
        (λ e x u k. run_script-IsDefined (next (threw e)) x (h (threw e)) k)
  run_script-IsDefined (cancels_timer id next) a h l =
      IsDefined-after (cancel_timer_of id a) (λ b. run_script (next (gave b)))
        (λ e. run_script (next (threw e))) (cancel-IsDefined id a l)
        (λ b x k. run_script-IsDefined (next (gave b)) x (h (gave b)) k)
        (λ e x u k. run_script-IsDefined (next (threw e)) x (h (threw e)) k)

  pub notify-IsDefined : (call : Callback) (a : Agent) → IsLive a → IsDefined (notify call a)
  unfolding notify
  notify-IsDefined call a l =
      run_script-IsDefined (a.ctx.service (call ∷ a.history))
        (record a { history = call ∷ a.history }) (l.decent (call ∷ a.history))
        (record { valid = l.valid; proxy = l.proxy; has_proxy = l.has_proxy; decent = l.decent })
