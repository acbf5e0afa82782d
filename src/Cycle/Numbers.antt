-- ===== src/Cycle/Numbers.antt =====
-- The numbers of the acknowledgements (src/service/ClusteredServiceAgent.cpp, `ack`).
pub mod Requests
pub mod Events
pub mod Launch
pub mod Life
use aeron_cluster_cpp.Prelude.{
  ◌≡◌, if◌then◌else◌, List, [], ◌∷◌, Option, none, some, ℤ, pos, ◌+ℤ◌, ◌==ℤ◌,
}
use aeron_cluster_cpp.Proxy.{
  Proxy, Request, remove_member, schedule_timer, cancel_timer, close_session, service_ack,
}
use aeron_cluster_cpp.Cycle.Stable.{Part}

-- The number that follows the acknowledgements among some requests, if these carry consecutive
-- numbers from the given one on.
abbrev pub next_number : ℤ → List Request → Option ℤ
next_number n [] = some n
next_number n (service_ack position time number relevant_id service_id ∷ rs) =
    let rest = next_number (n +ℤ pos 1) rs in if number ==ℤ n then rest else none
next_number n (remove_member member_id is_passive ∷ rs) = next_number n rs
next_number n (schedule_timer correlation_id deadline ∷ rs) = next_number n rs
next_number n (cancel_timer correlation_id ∷ rs) = next_number n rs
next_number n (close_session id ∷ rs) = next_number n rs

-- The proxy has sent acknowledgements with consecutive numbers, and the agent's number is the one that
-- comes next; without a proxy it is the first.
abbrev pub GoesOn : ℤ → ℤ → Option Proxy → Type 0
GoesOn first next (some p) = next_number first p.sent ≡ some next
GoesOn first next none = next ≡ first

abbrev pub Numbered : ℤ → Part
Numbered first next proxy table = GoesOn first next proxy
