-- ===== src/Tests/MarkFile.antt =====
-- The theorems on mark files, with a codec that keeps the sign and the size of a field in two cells
-- (src/service/ClusterMarkFile.cpp).
use aeron_cluster_cpp.Prelude.{
  ℕ, zero, suc, ◌+◌, ◌<◌, ◌≡◌, refl, sym, ap, ◌∙◌, ◌≢◌, ◌==◌, ==_iff, if◌then◌else◌, true, inr, ℤ,
  pos, negsuc, leb_ℤ, ◌+ℤ◌, arith,
}
use aeron_cluster_cpp.Prelude.Outcome.{returns, throws, undefined}
use aeron_cluster_cpp.MarkFile.{
  Field, component_type, header_length, error_buffer_length, pid, start_timestamp,
  candidate_term_id, Mapping, MarkFileCodec, FileSystem, set_field, may_take, cluster_mark_file,
  claim_file, clear_errors, set_memory,
}
use aeron_cluster_cpp.MarkFile.Header.{field, IsLaidOut}
use aeron_cluster_cpp.MarkFile.Reopen.{reopen_keeps_vote, reopen_grown}
use aeron_cluster_cpp.Tests.Samples.{aeron_constants}

abbrev place : Field → ℕ
place component_type = 0
place header_length = 2
place error_buffer_length = 4
place pid = 6
place start_timestamp = 8
place candidate_term_id = 10

abbrev at_place : ℕ → Field
at_place zero = component_type
at_place (suc (suc zero)) = header_length
at_place (suc (suc (suc (suc zero)))) = error_buffer_length
at_place (suc (suc (suc (suc (suc (suc zero)))))) = pid
at_place (suc (suc (suc (suc (suc (suc (suc (suc zero)))))))) = start_timestamp
at_place _ = candidate_term_id

at_place-place : (f : Field) → at_place (place f) ≡ f
at_place-place component_type = refl
at_place-place header_length = refl
at_place-place error_buffer_length = refl
at_place-place pid = refl
at_place-place start_timestamp = refl
at_place-place candidate_term_id = refl

place_apart : (f g : Field) → f ≢ g → place f ≢ place g
place_apart f g h e = h (sym (at_place-place f) ∙ ap at_place e ∙ at_place-place g)

abbrev half : Field → ℕ
half component_type = 0
half header_length = 1
half error_buffer_length = 2
half pid = 3
half start_timestamp = 4
half candidate_term_id = 5

place-half : (f : Field) → (place f ≡ half f + half f) × (half f < 6)
place-half component_type = (refl, omega arith)
place-half header_length = (refl, omega arith)
place-half error_buffer_length = (refl, omega arith)
place-half pid = (refl, omega arith)
place-half start_timestamp = (refl, omega arith)
place-half candidate_term_id = (refl, omega arith)

abbrev sign : ℤ → ℕ
sign (pos n) = 0
sign (negsuc n) = 1

abbrev amount : ℤ → ℕ
amount (pos n) = n
amount (negsuc n) = n

abbrev signed : ℕ → ℕ → ℤ
signed s n = if s == 0 then pos n else negsuc n

signed-parts : (x : ℤ) → signed (sign x) (amount x) ≡ x
signed-parts (pos n) = refl
signed-parts (negsuc n) = refl

abbrev put : ℕ → ℤ → (ℕ → ℕ) → ℕ → ℕ
put p x b i = if i == p then sign x else if i == suc p then amount x else b i

==_refl : (n : ℕ) → (n == n) ≡ true
==_refl n = ground (arith, ==_iff n n)

put_same : (p : ℕ) (x : ℤ) (b : ℕ → ℕ) → signed (put p x b p) (put p x b (suc p)) ≡ x
put_same p x b = ground (arith, ==_refl p, ==_refl (suc p), ==_iff (suc p) p, signed-parts x)

put_apart :
    (p q h k : ℕ) (x : ℤ) (b : ℕ → ℕ)
    → p ≡ h + h
    → q ≡ k + k
    → p ≢ q
    → (put q x b p ≡ b p) × (put q x b (suc p) ≡ b (suc p))
put_apart p q h k x b e f n = (
  ground (arith, ==_iff p q, ==_iff p (suc q)),
  ground (arith, ==_iff (suc p) q, ==_iff (suc p) (suc q)),
)

put_other :
    (f g : Field) (x : ℤ) (b : ℕ → ℕ)
    → f ≢ g
    → signed (put (place g) x b (place f)) (put (place g) x b (suc (place f)))
      ≡ signed (b (place f)) (b (suc (place f)))
put_other f g x b n =
    let (first, second) =
      put_apart (place f) (place g) (half f) (half g) x b (place-half f).0 (place-half g).0
        (place_apart f g n) in
    ap (λ s. signed s (put (place g) x b (suc (place f)))) first ∙ ap (signed (b (place f))) second

read_same :
    (f : Field) (b b' : ℕ → ℕ)
    → ((i : ℕ) → i < 12 → b i ≡ b' i)
    → signed (b (place f)) (b (suc (place f))) ≡ signed (b' (place f)) (b' (suc (place f)))
read_same f b b' h =
    let (twice, small) = place-half f in
    ap (λ s. signed s (b (suc (place f)))) (h (place f) (omega arith))
    ∙ ap (signed (b' (place f))) (h (suc (place f)) (omega arith))

abbrev codec : MarkFileCodec
codec = record {
  read = λ f b. signed (b (place f)) (b (suc (place f)));
  write = λ f. put (place f);
  span = 12;
  span_bound = omega arith;
  read-write = λ f x b. put_same (place f) x b;
  read_other = λ f g x b n. put_other f g x b n;
  read_span = λ f b b' h. read_same f b b' h;
  null_component = pos 0;
  backup = pos 5;
  consensus_module = pos 1;
}

-- A file of the consensus module with room for an error buffer of 1024 bytes, and a vote.
abbrev mapping : Mapping
mapping = record {
  size = 9216;
  bytes = put 0 (pos 1) (put 2 (pos 8192) (put 4 (pos 512) (put 10 (pos 7) (λ _. 3))));
}

abbrev system : Mapping → FileSystem
system m = record {
  file_exists = true;
  map_existing = inr m;
  create_new = λ _. inr mapping;
  process_id = pos 99;
  now = pos 1000;
}

laid_out : IsLaidOut codec mapping 512
laid_out = record { starts = refl; has_length = refl; mapped = omega arith }

-- Totals that are an int.
fits_1024 : leb_ℤ (pos 8192 +ℤ pos 1024) (pos 2147483647) ≡ true
unfolding ◌+ℤ◌
fits_1024 = refl

fits_2048 : leb_ℤ (pos 8192 +ℤ pos 2048) (pos 2147483647) ≡ true
unfolding ◌+ℤ◌
fits_2048 = refl

fits_4096 : leb_ℤ (pos 8192 +ℤ pos 4096) (pos 2147483647) ≡ true
unfolding ◌+ℤ◌
fits_4096 = refl

-- The file once the consensus module has opened it with an error buffer of a length.
abbrev marked : ℕ → Mapping
marked length = record {
  size = 9216;
  bytes = put 8 (pos 1000) (
      put 6 (pos 99) (
        put 4 (pos length) (put 2 (pos 8192) (put 0 (pos 1) (set_memory 8192 512 mapping.bytes)))));
}

opens :
    (length : ℕ)
    → leb_ℤ (pos 8192 +ℤ pos length) (pos 2147483647) ≡ true
    → cluster_mark_file codec (system mapping) (pos 1) (pos length)
      ≡ inr (returns tt (marked length))
unfolding cluster_mark_file clear_errors claim_file set_field may_take set_memory
opens length b = rw b refl

reopen_keeps_vote_example :
    (again : Mapping) × (cluster_mark_file codec (system (marked 1024)) (pos 1) (pos 2048)
      ≡ inr (returns tt again))
    × (field codec candidate_term_id again ≡ field codec candidate_term_id mapping)
reopen_keeps_vote_example =
    reopen_keeps_vote codec (system mapping) (system (marked 1024)) (pos 1) (pos 2048) 512 1024
      mapping (marked 1024) refl refl laid_out fits_1024 (omega arith) (opens 1024 fits_1024) refl
      refl fits_2048

reopen_grown_example :
    cluster_mark_file codec (system (marked 4096)) (pos 1) (pos 4096)
    ≡ inr (throws undefined (marked 4096))
reopen_grown_example =
    reopen_grown codec (system mapping) (system (marked 4096)) (pos 1) (pos 4096) 512 4096 mapping
      (marked 4096) refl refl laid_out fits_4096 (omega arith) (opens 4096 fits_4096) refl refl
      fits_4096
