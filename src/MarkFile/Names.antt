-- ===== src/MarkFile/Names.antt =====
-- The names of mark files (src/service/ClusterMarkFile.cpp).
use aeron_cluster_cpp.Prelude.{
  ℕ, suc, ◌≡◌, refl, ◌∙◌, ==_iff, ◌==◌, if◌then◌else◌, Bool, true, false, ◌&&◌, ◌||◌, [], ◌∷◌,
  Option, none, some, Text, arith,
}

-- SERVICE_FILENAME_PREFIX and FILENAME
abbrev pub service_filename_prefix : Text
service_filename_prefix =
    99 ∷ 108 ∷ 117 ∷ 115 ∷ 116 ∷ 101 ∷ 114 ∷ 45 ∷ 109 ∷ 97 ∷ 114 ∷ 107 ∷ 45 ∷ 115 ∷ 101 ∷ 114 ∷ 118
    ∷ 105 ∷ 99 ∷ 101 ∷ 45 ∷ []

abbrev pub filename : Text
filename =
    99 ∷ 108 ∷ 117 ∷ 115 ∷ 116 ∷ 101 ∷ 114 ∷ 45 ∷ 109 ∷ 97 ∷ 114 ∷ 107 ∷ 46 ∷ 100 ∷ 97 ∷ 116 ∷ []

unfoldable pub contains : ℕ → Text → Bool
contains x [] = false
contains x (y ∷ ys) = x == y || contains x ys

-- `std::string::find_first_of`: the first place with one of the characters.
unfoldable pub find_first_of : Text → Text → Option ℕ
unfolding contains
find_first_of characters [] = none
find_first_of characters (x ∷ xs) =
    let rest = find_first_of characters xs in
    if contains x characters then some 0 else elim rest [ none ↦ none | some n ↦ some (suc n) ]

abbrev pub same_text : Text → Text → Bool
same_text [] [] = true
same_text (x ∷ xs) (y ∷ ys) = x == y && same_text xs ys
same_text _ _ = false

unfoldable pub is_service_mark_file : Text → Bool
unfolding find_first_of
is_service_mark_file path = elim (find_first_of service_filename_prefix path) [
  | none ↦ false
  | some n ↦ n == 0
]

unfoldable pub is_consensus_module_mark_file : Text → Bool
is_consensus_module_mark_file path = same_text path filename

-- A path is taken for a service's mark file exactly when its first byte is one of the bytes of the
-- prefix, wherever in the prefix that byte stands.
pub is_service_mark_file_lem :
    (path : Text)
    → is_service_mark_file path
      ≡ elim path as (λ _. Bool) [ [] ↦ false | x ∷ xs ↦ contains x service_filename_prefix ]
unfolding is_service_mark_file find_first_of
is_service_mark_file_lem [] = refl
is_service_mark_file_lem (x ∷ xs) = ground arith

same_first : (x y : ℕ) (xs ys : Text) → same_text (x ∷ xs) (y ∷ ys) ≡ true → x ≡ y
same_first x y xs ys e = ground (arith, ==_iff x y)

contains_c : contains 99 service_filename_prefix ≡ true
unfolding contains
contains_c = refl

-- The mark file of the consensus module is taken for a service's, too.
pub consensus_module-service :
    (path : Text) → is_consensus_module_mark_file path ≡ true → is_service_mark_file path ≡ true
unfolding is_consensus_module_mark_file
consensus_module-service [] e = absurd (ground arith)
consensus_module-service (x ∷ xs) e =
    let first : x ≡ 99 = same_first x 99 xs _ e in
    is_service_mark_file_lem (x ∷ xs) ∙ rw first contains_c
