-- ===== src/MarkFile.antt =====
-- src/service/ClusterMarkFile.{h,cpp}: the file in which a component of the cluster leaves its mark. The
-- header at its start is read and written by generated code, and the library maps it to memory.
pub mod Names
pub mod Header
pub mod Reopen
use aeron_cluster_cpp.Prelude.{
  ℕ, ◌+◌, ◌≤◌, ◌<◌, ◌≡◌, ◌≢◌, ◌==◌, ltb, leb, if◌then◌else◌, Bool, true, false, not, ◌&&◌, ◌||◌,
  ◌⊎◌, inl, inr, ℤ, pos, negsuc, ltb_ℤ, leb_ℤ, ◌+ℤ◌, ◌==ℤ◌,
}
use aeron_cluster_cpp.Prelude.Outcome.{
  M, Outcome, returns, throws, Fault, mark_file_type, undefined, pure, throw, ◌>>=◌, ◌>>◌, get,
  modify, when,
}
use aeron_cluster_cpp.Aeron.{Constants}

-- The fields of the header that the code uses; a component's type is its code.
pub data Field : Type 0 where
  component_type header_length error_buffer_length pid start_timestamp candidate_term_id : Field

-- The bytes of a file in memory, and how many of them are mapped.
pub record Mapping : Type 0 where
  pub size : ℕ
  pub bytes : ℕ → ℕ

-- The generated codec `MarkFileHeader`: fields at offsets below `span`, which a write of one field
-- and a write past them leave alone, and the codes of three component types.
pub record MarkFileCodec : Type 0 where
  pub read : Field → (ℕ → ℕ) → ℤ
  pub write : Field → ℤ → (ℕ → ℕ) → ℕ → ℕ
  pub span : ℕ
  pub span_bound : span ≤ 8192
  pub read-write : (f : Field) (x : ℤ) (b : ℕ → ℕ) → read f (write f x b) ≡ x
  pub read_other : (f g : Field) (x : ℤ) (b : ℕ → ℕ) → f ≢ g → read f (write g x b) ≡ read f b
  pub read_span :
      (f : Field) (b b' : ℕ → ℕ) → ((i : ℕ) → i < span → b i ≡ b' i) → read f b ≡ read f b'
  pub null_component : ℤ
  pub backup : ℤ
  pub consensus_module : ℤ

-- HEADER_LENGTH
abbrev pub mark_header_length : ℕ
mark_header_length = 8192

-- `AtomicBuffer::setMemory(0, length, 0)` of the bytes from an address on.
unfoldable pub set_memory : ℕ → ℕ → (ℕ → ℕ) → ℕ → ℕ
set_memory from length bytes i = if leb from i && ltb i (from + length) then 0 else bytes i

-- What the code finds: whether the file exists, what `mapExisting` and `createNew` of the library
-- give, the process id and the clock.
pub record FileSystem : Type 0 where
  pub file_exists : Bool
  pub map_existing : Fault ⊎ Mapping
  pub create_new : ℤ → Fault ⊎ Mapping
  pub process_id : ℤ
  pub now : ℤ

module _ ⦃c : Constants⦄ (codec : MarkFileCodec) where
  unfoldable pub set_field : Field → ℤ → Mapping → Mapping
  set_field f x m = record m { bytes = codec.write f x m.bytes }

  -- The existing error buffer is cleared, where the header says that it is; outside of the mapping
  -- that is undefined behaviour.
  unfoldable pub clear_errors : M Mapping (Unit {0})
  unfolding set_memory
  clear_errors m = elim (codec.read header_length m.bytes) [
    | negsuc _ ↦ throws undefined m
    | pos from ↦ elim (codec.read error_buffer_length m.bytes) [
      | negsuc _ ↦ throws undefined m
      | pos length ↦
          if leb (from + length) m.size
          then returns tt (record m { bytes = set_memory from length m.bytes })
          else throws undefined m
    ]
  ]

  -- Whether a component of a type may take the file of another.
  unfoldable pub may_take : ℤ → ℤ → Bool
  may_take existing type =
      existing ==ℤ codec.null_component
      || (existing ==ℤ type || (existing ==ℤ codec.backup && type ==ℤ codec.consensus_module))

  -- The end of the constructor.
  unfoldable pub claim_file : FileSystem → ℤ → ℤ → M Mapping (Unit {0})
  unfolding may_take set_field
  claim_file fs type length m =
      let marked : Mapping = set_field start_timestamp fs.now (
        set_field pid fs.process_id (
          set_field error_buffer_length length (
            set_field header_length (pos mark_header_length) (set_field component_type type m)))) in
      if may_take (codec.read component_type m.bytes) type
      then returns tt marked
      else throws mark_file_type m

  -- The constructor `ClusterMarkFile`; the bounds of the length are not checked, and a total that no
  -- int holds is undefined behaviour. `none` is a file that was not mapped.
  unfoldable pub cluster_mark_file : FileSystem → ℤ → ℤ → Fault ⊎ Outcome Mapping (Unit {0})
  unfolding clear_errors claim_file set_field ◌+ℤ◌
  cluster_mark_file fs type length =
      let total : ℤ = pos mark_header_length +ℤ length in
      let existing : Fault ⊎ Outcome Mapping (Unit {0}) = elim fs.map_existing [
        | inl e ↦ inl e
        | inr m ↦ inr ((clear_errors >> claim_file fs type length) m)
      ] in
      let created : Fault ⊎ Outcome Mapping (Unit {0}) = elim (fs.create_new total) [
        | inl e ↦ inl e
        | inr m ↦ inr (claim_file fs type length (set_field candidate_term_id c.null_value m))
      ] in
      if leb_ℤ total (pos 2147483647)
      then (if fs.file_exists then existing else created)
      else inl undefined
