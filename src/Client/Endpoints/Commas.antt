-- ===== src/Client/Endpoints/Commas.antt =====
-- When `parseIngressEndpoints` of src/client/AeronCluster.cpp ends, and with what.
use aeron_cluster_cpp.Prelude.{
  ℕ, zero, suc, ◌≡◌, refl, List, [], ◌∷◌, Option, none, some, ℤ, Text, arith,
}
use aeron_cluster_cpp.Prelude.Outcome.{Outcome, returns, throws, out_of_fuel}
use aeron_cluster_cpp.Client.Endpoints.{
  MemberIngress, find_from, parse_endpoint, parse_loop, parse_ingress_endpoints, stoi,
  insert_member, prefix, suffix,
}

-- From a place where the byte stands, the search finds that place.
find_from_found :
    (x from : ℕ) (s : Text) (i : ℕ) → find_from x from s ≡ some i → find_from x i s ≡ some i
unfolding find_from
find_from_found x from [] i e = cc
find_from_found x zero (y ∷ ys) zero e = e
find_from_found x zero (y ∷ ys) (suc i) e = ground (arith, find_from_found x zero ys i)
find_from_found x (suc from) (y ∷ ys) zero e = ground arith
find_from_found x (suc from) (y ∷ ys) (suc i) e = ground (arith, find_from_found x from ys i)

-- Whether an endpoint parses does not depend on the members so far.
parse_endpoint_returns :
    (null_value : ℤ) (comma : ℕ) (s : Text) (ms ns ms' : List MemberIngress)
    → parse_endpoint null_value comma s ms ≡ returns ms' tt
    → (ns' : List MemberIngress) × (parse_endpoint null_value comma s ns ≡ returns ns' tt)
unfolding parse_endpoint
parse_endpoint_returns null_value comma s ms ns ms' e = go (find_from 61 0 (prefix comma s)) refl
  where
    go :
        (o : Option ℕ)
        → find_from 61 0 (prefix comma s) ≡ o
        → (ns' : List MemberIngress) × (parse_endpoint null_value comma s ns ≡ returns ns' tt)
    go none f = absurd (ground arith)
    go (some sep) f = number (stoi (prefix sep (prefix comma s))) refl
      where
        number :
            (o : Outcome (Unit {0}) ℤ)
            → stoi (prefix sep (prefix comma s)) ≡ o
            → (ns' : List MemberIngress) × (parse_endpoint null_value comma s ns ≡ returns ns' tt)
        number (throws g u) h = absurd (ground arith)
        number (returns id u) h = (
          insert_member
              (record {
                member_id = id;
                registration_id = null_value;
                endpoint = suffix (suc sep) (prefix comma s);
                publication = none;
              })
              ns,
          ground arith,
        )

spins :
    (rounds : ℕ) (null_value : ℤ) (comma : ℕ) (s : Text) (ms ns ms' : List MemberIngress)
    → find_from 44 comma s ≡ some comma
    → parse_endpoint null_value comma s ms ≡ returns ms' tt
    → parse_loop rounds null_value comma s ns ≡ throws out_of_fuel tt
unfolding parse_loop
spins zero null_value comma s ms ns ms' e f = refl
spins (suc rounds) null_value comma s ms ns ms' e f =
    let (ns', g) = parse_endpoint_returns null_value comma s ms ns ms' f in
    ground (arith, g, spins rounds null_value comma s ms ns' ms' e f)

-- What comes of the first endpoint of the list.
abbrev pub first_endpoint : ℤ → Text → Option ℕ → Outcome (Unit {0}) (List MemberIngress)
first_endpoint null_value s none = returns [] tt
first_endpoint null_value s (some comma) = elim (parse_endpoint null_value comma s []) [
  | throws e _ ↦ throws e tt
  | returns _ _ ↦ throws out_of_fuel tt
]

-- However many rounds it is given, the function returns only for a list without a comma, and then
-- no member; with a comma it throws if the first endpoint is malformed, and goes round for ever if
-- it is not.
pub parse_ingress_endpoints_lem :
    (rounds : ℕ) (null_value : ℤ) (s : Text)
    → parse_ingress_endpoints (suc rounds) null_value s
      ≡ first_endpoint null_value s (find_from 44 0 s)
unfolding parse_ingress_endpoints parse_loop
parse_ingress_endpoints_lem rounds null_value s = go (find_from 44 0 s) refl
  where
    go :
        (o : Option ℕ)
        → find_from 44 0 s ≡ o
        → parse_ingress_endpoints (suc rounds) null_value s ≡ first_endpoint null_value s o
    go none e = ground arith
    go (some comma) e = outcome (parse_endpoint null_value comma s []) refl
      where
        outcome :
            (o : Outcome (Unit {0}) (List MemberIngress))
            → parse_endpoint null_value comma s [] ≡ o
            → parse_ingress_endpoints (suc rounds) null_value s
              ≡ first_endpoint null_value s (some comma)
        outcome (throws g u) f = ground arith
        outcome (returns ms u) f =
            ground
              (arith, spins rounds null_value comma s [] ms ms (find_from_found 44 0 s comma e) f)
