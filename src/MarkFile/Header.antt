-- ===== src/MarkFile/Header.antt =====
-- What opening a mark file does to its header (src/service/ClusterMarkFile.cpp).
use aeron_cluster_cpp.Prelude.{
  ℕ, ◌+◌, ◌≤◌, ◌<◌, ◌≡◌, refl, ◌≢◌, ap, ◌∙◌, leb→le, le→leb, if◌then◌else◌, true, inr, ℤ, pos,
  leb_ℤ, ◌+ℤ◌, arith,
}
use aeron_cluster_cpp.Prelude.Outcome.{returns, throws, mark_file_type, ◌>>=◌, ◌>>◌}
use aeron_cluster_cpp.Aeron.{Constants}
use aeron_cluster_cpp.MarkFile.{
  Field, component_type, header_length, error_buffer_length, pid, start_timestamp,
  candidate_term_id, Mapping, MarkFileCodec, mark_header_length, set_memory, FileSystem, set_field,
  clear_errors, may_take, claim_file, cluster_mark_file,
}

-- The fields, told apart.
abbrev code : Field → ℕ
code component_type = 0
code header_length = 1
code error_buffer_length = 2
code pid = 3
code start_timestamp = 4
code candidate_term_id = 5

module _ ⦃c : Constants⦄ (codec : MarkFileCodec) where
  -- A field of a mapped file.
  abbrev pub field : Field → Mapping → ℤ
  field f m = codec.read f m.bytes

  -- A field after a write of another, told by their codes.
  past :
      (f g : Field) (x : ℤ) (m : Mapping)
      → code f ≢ code g
      → field f (set_field codec g x m) ≡ field f m
  unfolding set_field
  past f g x m h = codec.read_other f g x m.bytes (λ e. h (ap code e))

  read_back : (f : Field) (x : ℤ) (m : Mapping) → field f (set_field codec f x m) ≡ x
  unfolding set_field
  read_back f x m = codec.read-write f x m.bytes

  -- A file whose header is as this version writes it, and whose error buffer is mapped.
  pub record IsLaidOut (m : Mapping) (length : ℕ) : Type 0 where
    pub starts : field header_length m ≡ pos mark_header_length
    pub has_length : field error_buffer_length m ≡ pos length
    pub mapped : mark_header_length + length ≤ m.size

  -- The file with its error buffer cleared.
  abbrev pub cleared : ℕ → Mapping → Mapping
  cleared length m = record m { bytes = set_memory mark_header_length length m.bytes }

  below_header :
      (length : ℕ) (b : ℕ → ℕ) (i : ℕ)
      → i < codec.span
      → set_memory mark_header_length length b i ≡ b i
  unfolding set_memory
  below_header length b i h = ground (arith, leb→le 8192 i, codec.span_bound)

  field-cleared : (f : Field) (length : ℕ) (m : Mapping) → field f (cleared length m) ≡ field f m
  field-cleared f length m =
      codec.read_span f (set_memory mark_header_length length m.bytes) m.bytes
        (below_header length m.bytes)

  clear_errors_lem :
      (length : ℕ) (m : Mapping)
      → IsLaidOut m length
      → clear_errors codec m ≡ returns tt (cleared length m)
  unfolding clear_errors
  clear_errors_lem length m l =
      ground (arith, l.starts, l.has_length, le→leb (8192 + length) m.size, l.mapped)

  -- The header that a claimed file has.
  pub record IsMarked (fs : FileSystem) (type length : ℤ) (before after : Mapping) : Type 0 where
    pub has_type : field component_type after ≡ type
    pub has_header : field header_length after ≡ pos mark_header_length
    pub has_errors : field error_buffer_length after ≡ length
    pub has_pid : field pid after ≡ fs.process_id
    pub has_start : field start_timestamp after ≡ fs.now
    pub same_vote : field candidate_term_id after ≡ field candidate_term_id before
    pub same_size : after.size ≡ before.size

  claim_file-IsMarked :
      (fs : FileSystem) (type length : ℤ) (m : Mapping)
      → (after : Mapping) × (claim_file codec fs type length m ≡ (
          if may_take codec (field component_type m) type
          then returns tt after
          else throws mark_file_type m))
        × IsMarked fs type length m after
  unfolding claim_file set_field
  claim_file-IsMarked fs type length m =
      let m1 = set_field codec component_type type m in
      let m2 = set_field codec header_length (pos mark_header_length) m1 in
      let m3 = set_field codec error_buffer_length length m2 in
      let m4 = set_field codec pid fs.process_id m3 in
      let m5 = set_field codec start_timestamp fs.now m4 in
      (
        m5,
        refl,
        record {
          has_type =
              past component_type start_timestamp fs.now m4 (omega arith)
              ∙ past component_type pid fs.process_id m3 (omega arith)
              ∙ past component_type error_buffer_length length m2 (omega arith)
              ∙ past component_type header_length (pos mark_header_length) m1 (omega arith)
              ∙ read_back component_type type m;
          has_header =
              past header_length start_timestamp fs.now m4 (omega arith)
              ∙ past header_length pid fs.process_id m3 (omega arith)
              ∙ past header_length error_buffer_length length m2 (omega arith)
              ∙ read_back header_length (pos mark_header_length) m1;
          has_errors =
              past error_buffer_length start_timestamp fs.now m4 (omega arith)
              ∙ past error_buffer_length pid fs.process_id m3 (omega arith)
              ∙ read_back error_buffer_length length m2;
          has_pid =
              past pid start_timestamp fs.now m4 (omega arith) ∙ read_back pid fs.process_id m3;
          has_start = read_back start_timestamp fs.now m4;
          same_vote =
              past candidate_term_id start_timestamp fs.now m4 (omega arith)
              ∙ past candidate_term_id pid fs.process_id m3 (omega arith)
              ∙ past candidate_term_id error_buffer_length length m2 (omega arith)
              ∙ past candidate_term_id header_length (pos mark_header_length) m1 (omega arith)
              ∙ past candidate_term_id component_type type m (omega arith);
          same_size = refl;
        },
      )

  open_existing :
      (fs : FileSystem) (type length : ℤ) (n : ℕ) (m : Mapping)
      → fs.file_exists ≡ true
      → fs.map_existing ≡ inr m
      → IsLaidOut m n
      → leb_ℤ (pos mark_header_length +ℤ length) (pos 2147483647) ≡ true
      → cluster_mark_file codec fs type length ≡ inr (claim_file codec fs type length (cleared n m))
  unfolding cluster_mark_file
  open_existing fs type length n m e f l b = rw (b, e, f, ◌>>=◌, ◌>>◌, clear_errors_lem n m l) refl

  pub cluster_mark_file_existing :
      (fs : FileSystem) (type length : ℤ) (n : ℕ) (m : Mapping)
      → fs.file_exists ≡ true
      → fs.map_existing ≡ inr m
      → IsLaidOut m n
      → leb_ℤ (pos mark_header_length +ℤ length) (pos 2147483647) ≡ true
      → (after : Mapping) × (cluster_mark_file codec fs type length
          ≡ inr (
              if may_take codec (field component_type m) type
              then returns tt after
              else throws mark_file_type (cleared n m)))
        × IsMarked fs type length m after
        × ((f : Field) → field f (cleared n m) ≡ field f m)
  cluster_mark_file_existing fs type length n m e f l b =
      let (after, claimed, k) = claim_file-IsMarked fs type length (cleared n m) in
      (
        after,
        open_existing fs type length n m e f l b
            ∙ ap inr (
                claimed
                ∙ ap
                    (λ x.
                      if may_take codec x type
                      then returns tt after
                      else throws mark_file_type (cleared n m))
                    (field-cleared component_type n m)),
        record {
          has_type = k.has_type;
          has_header = k.has_header;
          has_errors = k.has_errors;
          has_pid = k.has_pid;
          has_start = k.has_start;
          same_vote = k.same_vote ∙ field-cleared candidate_term_id n m;
          same_size = k.same_size;
        },
        λ x. field-cleared x n m,
      )
