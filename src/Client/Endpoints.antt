-- ===== src/Client/Endpoints.antt =====
-- `parseIngressEndpoints` of src/client/AeronCluster.cpp, and what it uses of std::string. A string is
-- its bytes.
pub mod Commas
pub mod Faults
use aeron_cluster_cpp.Prelude.{
  ℕ, zero, suc, ◌+◌, ◌*◌, ◌-◌, ◌≡◌, refl, ltb, leb, ◌==◌, if◌then◌else◌, Bool, true, false, not,
  ◌&&◌, ◌||◌, List, [], ◌∷◌, Option, none, some, ℤ, pos, negsuc, ◌==ℤ◌, ltb_ℤ, Text, arith,
}
use aeron_cluster_cpp.Prelude.Outcome.{
  Outcome, returns, throws, Fault, missing_separator, invalid_argument, out_of_range, out_of_fuel,
}

-- `struct MemberIngress`; a publication of the library is a handle.
pub record MemberIngress : Type 0 where
  pub member_id : ℤ
  pub registration_id : ℤ
  pub endpoint : Text
  pub publication : Option ℕ

-- `find(x, from)`.
unfoldable pub find_from : ℕ → ℕ → Text → Option ℕ
find_from x from [] = none
find_from x zero (y ∷ ys) =
    let rest = find_from x zero ys in
    if x == y then some 0 else elim rest [ none ↦ none | some i ↦ some (suc i) ]
find_from x (suc from) (y ∷ ys) = elim (find_from x from ys) [ none ↦ none | some i ↦ some (suc i) ]

-- `substr(0, n)` and `substr(n)`, for an `n` within the string.
unfoldable pub prefix : ℕ → Text → Text
prefix zero s = []
prefix (suc n) [] = []
prefix (suc n) (x ∷ xs) = x ∷ prefix n xs

unfoldable pub suffix : ℕ → Text → Text
suffix zero s = s
suffix (suc n) [] = []
suffix (suc n) (x ∷ xs) = suffix n xs

is_digit : ℕ → Bool
is_digit x = leb 48 x && leb x 57

is_space : ℕ → Bool
is_space x = x == 32 || (leb 9 x && leb x 13)

-- The number that the leading digits stand for, after those that were read.
leading_number : ℕ → Text → ℕ
unfolding is_digit
leading_number n [] = n
leading_number n (x ∷ xs) =
    let rest = leading_number (n * 10 + (x - 48)) xs in if is_digit x then rest else n

-- `std::stoi`: blanks, a sign, and at least one digit; what follows is ignored.
unsigned : Text → Option ℕ
unfolding is_digit leading_number
unsigned [] = none
unsigned (x ∷ xs) = if is_digit x then some (leading_number 0 (x ∷ xs)) else none

in_range : ℤ → Outcome (Unit {0}) ℤ
in_range (pos n) = if ltb n 2147483648 then returns (pos n) tt else throws out_of_range tt
in_range (negsuc n) = if ltb n 2147483648 then returns (negsuc n) tt else throws out_of_range tt

negated : ℕ → ℤ
negated zero = pos 0
negated (suc n) = negsuc n

signed : Text → Outcome (Unit {0}) ℤ
unfolding unsigned in_range negated
signed [] = throws invalid_argument tt
signed (x ∷ xs) =
    let minus : Outcome (Unit {0}) ℤ = elim (unsigned xs) [
      | none ↦ throws invalid_argument tt
      | some n ↦ in_range (negated n)
    ] in
    let plus : Outcome (Unit {0}) ℤ = elim (unsigned xs) [
      | none ↦ throws invalid_argument tt
      | some n ↦ in_range (pos n)
    ] in
    let plain : Outcome (Unit {0}) ℤ = elim (unsigned (x ∷ xs)) [
      | none ↦ throws invalid_argument tt
      | some n ↦ in_range (pos n)
    ] in
    if x == 45 then minus else if x == 43 then plus else plain

unfoldable pub stoi : Text → Outcome (Unit {0}) ℤ
unfolding is_space signed
stoi [] = throws invalid_argument tt
stoi (x ∷ xs) = let rest = stoi xs in if is_space x then rest else signed (x ∷ xs)

-- `std::map::insert`: in the order of the keys, and a key that is there stays.
unfoldable pub insert_member : MemberIngress → List MemberIngress → List MemberIngress
insert_member m [] = m ∷ []
insert_member m (n ∷ ns) =
    let rest = insert_member m ns in
    if m.member_id ==ℤ n.member_id
    then n ∷ ns
    else if ltb_ℤ m.member_id n.member_id
    then m ∷ n ∷ ns
    else n ∷ rest

-- The body of the loop, at a comma.
unfoldable pub parse_endpoint :
    ℤ → ℕ → Text → List MemberIngress → Outcome (Unit {0}) (List MemberIngress)
unfolding find_from prefix suffix stoi insert_member
parse_endpoint null_value comma endpoints members =
    let endpoint : Text = prefix comma endpoints in
    elim (find_from 61 0 endpoint) [
      | none ↦ throws missing_separator tt
      | some sep ↦ elim (stoi (prefix sep endpoint)) [
        | throws e _ ↦ throws e tt
        | returns member_id _ ↦
            returns
              (insert_member
                (record {
                  member_id = member_id;
                  registration_id = null_value;
                  endpoint = suffix (suc sep) endpoint;
                  publication = none;
                })
                members)
              tt
      ]
    ]

-- The loop, by rounds: the next comma is sought from `pos` on, at which one stands.
unfoldable pub parse_loop :
    ℕ → ℤ → ℕ → Text → List MemberIngress → Outcome (Unit {0}) (List MemberIngress)
unfolding parse_endpoint find_from
parse_loop zero null_value from endpoints members = throws out_of_fuel tt
parse_loop (suc rounds) null_value from endpoints members = elim (find_from 44 from endpoints) [
  | none ↦ returns members tt
  | some comma ↦ elim (parse_endpoint null_value comma endpoints members) [
    | throws e _ ↦ throws e tt
    | returns members' _ ↦ parse_loop rounds null_value comma endpoints members'
  ]
]

unfoldable pub parse_ingress_endpoints : ℕ → ℤ → Text → Outcome (Unit {0}) (List MemberIngress)
unfolding parse_loop
parse_ingress_endpoints rounds null_value endpoints = parse_loop rounds null_value 0 endpoints []
