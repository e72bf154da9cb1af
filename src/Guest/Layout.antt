-- ===== src/Guest/Layout.antt =====
-- The 192-byte journal: how `to_bytes` lays it out, and that its slices give the fields back.

use agenc_prover.Base.{
  ℕ, ◌*◌, ◌≡◌, refl, ap, ◌∙◌, List, ◌∷◌, some, some, All, IsByte, IsBytes, length, take, drop,
  concat, replicate, take-append, drop-concat, length-concat, All-concat, Text, ok, arith,
}
use agenc_prover.Base.Panics.{copy_chunks-concat, copy_from_slice_fits}
use agenc_prover.Guest.Field.{JournalField, copy_field, zero_field}
use agenc_prover.Guest.Journal.{
  JournalFields, field_list, journal_try_from_slices, serialize_journal,
}
use agenc_prover.Guest.Spec.{IsJournal}

-- A slice of the right length is copied whole.
pub copy_field-ok : (name : Text) (v : List ℕ) → length v ≡ 32 → copy_field name v ≡ ok v
unfolding copy_field
copy_field-ok name v e =
    ground (arith, copy_from_slice_fits zero_field 0 v (omega arith) (omega arith))

abbrev pub slice : List ℕ → ℕ → List ℕ
slice bytes k = take 32 (drop (k * 32) bytes)

field_list-lengths : (f : JournalFields) → IsJournal f → All (λ x. length x ≡ 32) (field_list f)
field_list-lengths f h = (
  h.task_pda_field.0,
  (
    h.agent_authority_field.0,
    (
      h.constraint_hash_field.0,
      (h.output_commitment_field.0, (h.binding_field.0, (h.nullifier_field.0, tt))),
    ),
  ),
)

field_list-All : (f : JournalFields) → IsJournal f → All (All IsByte) (field_list f)
field_list-All f h = (
  h.task_pda_field.1,
  (
    h.agent_authority_field.1,
    (
      h.constraint_hash_field.1,
      (h.output_commitment_field.1, (h.binding_field.1, (h.nullifier_field.1, tt))),
    ),
  ),
)

-- The journal is the six fields one after the other.
pub serialize_journal-concat :
    (f : JournalFields) → IsJournal f → serialize_journal f ≡ some (concat (field_list f))
unfolding serialize_journal
serialize_journal-concat f h =
    copy_chunks-concat 32 (replicate 192 0) (field_list f) (field_list-lengths f h) refl

module _ (f : JournalFields) (h : IsJournal f) where
  slice-concat :
      (k : ℕ) (x : JournalField) (xs : List JournalField)
      → drop k (field_list f) ≡ x ∷ xs
      → length x ≡ 32
      → slice (concat (field_list f)) k ≡ x
  slice-concat k x xs e l =
      ap (take 32) (drop-concat 32 k (field_list f) (field_list-lengths f h) ∙ ap concat e)
      ∙ take-append 32 x (concat xs) l

  slice_copies :
      (name : Text) (k : ℕ) (x : JournalField) (xs : List JournalField)
      → drop k (field_list f) ≡ x ∷ xs
      → length x ≡ 32
      → copy_field name (slice (concat (field_list f)) k) ≡ ok x
  slice_copies name k x xs e l = rw (slice-concat k x xs e l) (copy_field-ok name x l)

  -- `try_from_slices` reads the six slices of the serialised journal back.
  parse_concat :
      (let bytes = concat (field_list f) in
        journal_try_from_slices
          (slice bytes 0)
          (slice bytes 1)
          (slice bytes 2)
          (slice bytes 3)
          (slice bytes 4)
          (slice bytes 5))
      ≡ ok f
  unfolding journal_try_from_slices
  parse_concat = rw (
    slice_copies _ 0 f.task_pda _ refl h.task_pda_field.0,
    slice_copies _ 1 f.agent_authority _ refl h.agent_authority_field.0,
    slice_copies _ 2 f.constraint_hash _ refl h.constraint_hash_field.0,
    slice_copies _ 3 f.output_commitment _ refl h.output_commitment_field.0,
    slice_copies _ 4 f.binding _ refl h.binding_field.0,
    slice_copies _ 5 f.nullifier _ refl h.nullifier_field.0,
  )

-- A well-formed journal is written to 192 bytes without a panic, and `try_from_slices` reads the
-- six consecutive 32-byte slices back to the same fields.
pub serialize_journal_roundtrip :
    (f : JournalFields)
    → IsJournal f
    → (bytes : List ℕ) × (serialize_journal f ≡ some bytes)
      × IsBytes 192 bytes
      × (journal_try_from_slices
            (slice bytes 0)
            (slice bytes 1)
            (slice bytes 2)
            (slice bytes 3)
            (slice bytes 4)
            (slice bytes 5)
          ≡ ok f)
serialize_journal_roundtrip f h = (
  concat (field_list f),
  serialize_journal-concat f h,
  (
    length-concat 32 (field_list f) (field_list-lengths f h),
    All-concat IsByte (field_list f) (field_list-All f h),
  ),
  parse_concat f h,
)
