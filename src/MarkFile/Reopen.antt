-- ===== src/MarkFile/Reopen.antt =====
-- A component that opens its own mark file again (src/service/ClusterMarkFile.cpp).
use mathlib.Core.Path.{subst}
use aeron_cluster_cpp.Prelude.{
  ℕ, ◌+◌, ◌≤◌, ◌<◌, leb→le, ◌≡◌, refl, sym, ap, ◌∙◌, if◌then◌else◌, Bool, true, false, inr, ℤ, pos,
  ◌⊎◌, leb_ℤ, ◌+ℤ◌, ==ℤ_refl, arith,
}
use aeron_cluster_cpp.Prelude.Outcome.{
  Outcome, returns, throws, Fault, mark_file_type, undefined, ◌>>=◌, ◌>>◌,
}
use aeron_cluster_cpp.Aeron.{Constants}
use aeron_cluster_cpp.MarkFile.{
  header_length, error_buffer_length, clear_errors, candidate_term_id, Mapping, MarkFileCodec,
  mark_header_length, FileSystem, may_take, cluster_mark_file,
}
use aeron_cluster_cpp.MarkFile.Header.{
  field, cleared, IsLaidOut, IsMarked, cluster_mark_file_existing,
}

module _ ⦃c : Constants⦄ (codec : MarkFileCodec) where
  may_take_own : (type : ℤ) → may_take codec type type ≡ true
  unfolding may_take
  may_take_own type = ground (arith, ==ℤ_refl type)

  returned_same :
      (b : Bool) (first after m : Mapping)
      → Path
          (Fault ⊎ Outcome Mapping (Unit {0}))
          (inr (if b then returns tt first else throws mark_file_type m))
          (inr (returns tt after))
      → first ≡ after
  returned_same true first after m e = cc
  returned_same false first after m e = cc

  -- What a first opening leaves is laid out for the next.
  marked-IsLaidOut :
      (fs : FileSystem) (type : ℤ) (k : ℕ) (m after : Mapping)
      → IsMarked codec fs type (pos k) m after
      → mark_header_length + k ≤ m.size
      → IsLaidOut codec after k
  marked-IsLaidOut fs type k m after h b = record {
    starts = h.has_header;
    has_length = h.has_errors;
    mapped = rw h.same_size b;
  }

  -- A component that opened an existing file, with an error buffer that lies in the mapping, opens it
  -- again with any length that keeps the total an int: that does not throw, and the vote is still
  -- the one that was there before the first opening.
  pub reopen_keeps_vote :
      (fs fs' : FileSystem) (type length : ℤ) (n k : ℕ) (m after : Mapping)
      → fs.file_exists ≡ true
      → fs.map_existing ≡ inr m
      → IsLaidOut codec m n
      → leb_ℤ (pos mark_header_length +ℤ pos k) (pos 2147483647) ≡ true
      → mark_header_length + k ≤ m.size
      → cluster_mark_file codec fs type (pos k) ≡ inr (returns tt after)
      → fs'.file_exists ≡ true
      → fs'.map_existing ≡ inr after
      → leb_ℤ (pos mark_header_length +ℤ length) (pos 2147483647) ≡ true
      → (again : Mapping) × (cluster_mark_file codec fs' type length ≡ inr (returns tt again))
        × (field codec candidate_term_id again ≡ field codec candidate_term_id m)
  reopen_keeps_vote fs fs' type length n k m after e f l b s o e' f' b' =
      let (first, opened, marked, _) =
        cluster_mark_file_existing codec fs type (pos k) n m e f l b in
      let same : first ≡ after = returned_same _ first after _ (sym opened ∙ o) in
      let laid : IsLaidOut codec first k = marked-IsLaidOut fs type k m first marked s in
      let (again, reopened, kept, _) =
        cluster_mark_file_existing codec fs' type length k first e' (f' ∙ ap inr (sym same)) laid
          b' in
      (
        again,
        reopened
            ∙ ap
                (λ x.
                  inr
                    (if x then returns tt again else throws mark_file_type (cleared codec k first)))
                (ap (λ y. may_take codec y type) marked.has_type ∙ may_take_own type),
        kept.same_vote ∙ marked.same_vote,
      )

  not_mapped :
      (m : Mapping) (k : ℕ)
      → field codec header_length m ≡ pos mark_header_length
      → field codec error_buffer_length m ≡ pos k
      → m.size < mark_header_length + k
      → clear_errors codec m ≡ throws undefined m
  unfolding clear_errors
  not_mapped m k h l b = ground (arith, h, l, leb→le (8192 + k) m.size)

  -- A file is not grown: a component that opens an existing file with an error buffer that ends past
  -- the mapping leaves a header that says so, and its next opening, with the file mapped as it is,
  -- clears memory past the mapping.
  pub reopen_grown :
      (fs fs' : FileSystem) (type length : ℤ) (n k : ℕ) (m after : Mapping)
      → fs.file_exists ≡ true
      → fs.map_existing ≡ inr m
      → IsLaidOut codec m n
      → leb_ℤ (pos mark_header_length +ℤ pos k) (pos 2147483647) ≡ true
      → m.size < mark_header_length + k
      → cluster_mark_file codec fs type (pos k) ≡ inr (returns tt after)
      → fs'.file_exists ≡ true
      → fs'.map_existing ≡ inr after
      → leb_ℤ (pos mark_header_length +ℤ length) (pos 2147483647) ≡ true
      → cluster_mark_file codec fs' type length ≡ inr (throws undefined after)
  unfolding cluster_mark_file
  reopen_grown fs fs' type length n k m after e f l b s o e' f' b' =
      let (first, opened, marked, _) =
        cluster_mark_file_existing codec fs type (pos k) n m e f l b in
      let same : first ≡ after = returned_same _ first after _ (sym opened ∙ o) in
      let fails : clear_errors codec after ≡ throws undefined after =
        subst (λ x. clear_errors codec x ≡ throws undefined x) same
          (not_mapped first k marked.has_header marked.has_errors (rw marked.same_size s)) in
      rw (b', e', f', ◌>>=◌, ◌>>◌, fails) refl
