-- ===== src/Client/Endpoints/Faults.antt =====
-- How `parseIngressEndpoints` of src/client/AeronCluster.cpp can fail.
use aeron_cluster_cpp.Prelude.{
  ℕ, zero, suc, ◌≡◌, refl, Bool, true, false, List, [], ◌∷◌, ℤ, pos, negsuc, Text, arith,
  Option-cases, inl, inr,
}
use aeron_cluster_cpp.Prelude.Outcome.{
  Outcome, returns, throws, Fault, missing_separator, invalid_argument, out_of_range, out_of_fuel,
  Outcome-cases,
}
use aeron_cluster_cpp.Client.Endpoints.{
  MemberIngress, find_from, parse_endpoint, parse_loop, parse_ingress_endpoints, stoi, signed,
  in_range, unsigned, negated, prefix,
}

-- The exceptions of parsing: those that the code throws, those of std::stoi, and no end.
unfoldable pub is_parse_fault : Fault → Bool
is_parse_fault missing_separator = true
is_parse_fault invalid_argument = true
is_parse_fault out_of_range = true
is_parse_fault out_of_fuel = true
is_parse_fault _ = false

unfoldable parses : {A : Type 0} → Outcome (Unit {0}) A → Bool
parses (returns x u) = true
parses (throws e u) = is_parse_fault e

in_range-parses : (n : ℤ) → parses (in_range n) ≡ true
unfolding parses in_range is_parse_fault
in_range-parses (pos n) = ground arith
in_range-parses (negsuc n) = ground arith

signed-parses : (s : Text) → parses (signed s) ≡ true
unfolding parses signed is_parse_fault
signed-parses [] = refl
signed-parses (x ∷ xs) = elim (Option-cases (unsigned xs)) [
  | inl e ↦ elim (Option-cases (unsigned (x ∷ xs))) [
    | inl f ↦ ground arith
    | inr (n, f) ↦ ground (arith, in_range-parses (pos n))
  ]
  | inr (m, e) ↦ elim (Option-cases (unsigned (x ∷ xs))) [
    | inl f ↦ ground (arith, in_range-parses (pos m), in_range-parses (negated m))
    | inr (n, f) ↦
        ground
          (arith, in_range-parses (pos m), in_range-parses (negated m), in_range-parses (pos n))
  ]
]

stoi-parses : (s : Text) → parses (stoi s) ≡ true
unfolding parses stoi is_parse_fault
stoi-parses [] = refl
stoi-parses (x ∷ xs) = ground (arith, signed-parses (x ∷ xs), stoi-parses xs)

parse_endpoint-parses :
    (null_value : ℤ) (comma : ℕ) (s : Text) (ms : List MemberIngress)
    → parses (parse_endpoint null_value comma s ms) ≡ true
unfolding parses parse_endpoint is_parse_fault
parse_endpoint-parses null_value comma s ms =
    elim (Option-cases (find_from 61 0 (prefix comma s))) [
      | inl e ↦ ground arith
      | inr (sep, e) ↦ ground (arith, stoi-parses (prefix sep (prefix comma s)))
    ]

parse_loop-parses :
    (rounds : ℕ) (null_value : ℤ) (from : ℕ) (s : Text) (ms : List MemberIngress)
    → parses (parse_loop rounds null_value from s ms) ≡ true
unfolding parses parse_loop is_parse_fault
parse_loop-parses zero null_value from s ms = refl
parse_loop-parses (suc rounds) null_value from s ms = elim (Option-cases (find_from 44 from s)) [
  | inl e ↦ ground arith
  | inr (comma, e) ↦ elim (Outcome-cases (parse_endpoint null_value comma s ms)) [
    | inl (ns, u, f) ↦ ground (arith, parse_loop-parses rounds null_value comma s ns)
    | inr (g, u, f) ↦ ground (arith, parse_endpoint-parses null_value comma s ms)
  ]
]

pub parse_ingress_endpoints_fault :
    (rounds : ℕ) (null_value : ℤ) (s : Text) (e : Fault) (u : Unit {0})
    → parse_ingress_endpoints rounds null_value s ≡ throws e u
    → is_parse_fault e ≡ true
unfolding parse_ingress_endpoints parses
parse_ingress_endpoints_fault rounds null_value s e u h =
    ground (arith, parse_loop-parses rounds null_value 0 s [])
