-- ===== src/Guest/UnitChecks/Mismatches.antt =====
-- The unit tests of guest/src/lib.rs on fields that do not match, for every lawful hash.
use agenc_prover.Base.{err, ◌≡◌, refl, sym, ap}
use agenc_prover.Guest.Crates.{Crates, IsLawful}
use agenc_prover.Guest.Field.{
  JournalValidationError, constraint_hash_mismatch, output_commitment_mismatch, binding_mismatch,
  nullifier_mismatch,
}
use agenc_prover.Guest.Journal.{JournalFields, validate_against_witness}
use agenc_prover.Guest.Spec.{IsJournal}
use agenc_prover.Guest.UnitTests.{
  witness_bytes, flip, ValidateAgainstWitnessRejectsConstraintHashMismatch,
  ValidateAgainstWitnessRejectsOutputCommitmentMismatch,
  ValidateAgainstWitnessRejectsBindingMismatch, ValidateAgainstWitnessRejectsNullifierMismatch,
}
use agenc_prover.Guest.Validate.{
  Rejects, zero_salt, wrong_constraint_hash, wrong_output_commitment, wrong_binding,
  wrong_nullifier,
}
use agenc_prover.Guest.UnitTests.Facts.{flip-IsField, flip-neq, salt_nonzero}
use agenc_prover.Guest.UnitChecks.{derived, derived-IsJournal, sent-IsWitness, validates, rejected}

module _ (c : Crates) (laws : IsLawful c) where
  open laws use {digest}

  abbrev fields : JournalFields
  fields = derived c laws

  journal : IsJournal fields
  journal = derived-IsJournal c laws

  constraint_hash_only :
      (e : JournalValidationError)
      → Rejects digest
          (record fields { constraint_hash = flip fields.constraint_hash })
          witness_bytes
          e
      → e ≡ constraint_hash_mismatch fields.constraint_hash (flip fields.constraint_hash)
  constraint_hash_only _ (zero_salt z) = absurd (salt_nonzero z)
  constraint_hash_only _ (wrong_constraint_hash z n) = refl
  constraint_hash_only _ (wrong_output_commitment z p n) =
      absurd (flip-neq fields.constraint_hash journal.constraint_hash_field p)
  constraint_hash_only _ (wrong_binding z p q x n) =
      absurd (flip-neq fields.constraint_hash journal.constraint_hash_field p)
  constraint_hash_only _ (wrong_nullifier z p q b x n) =
      absurd (flip-neq fields.constraint_hash journal.constraint_hash_field p)

  pub constraint_hash_rejected :
      validate_against_witness c
        (record fields { constraint_hash = flip fields.constraint_hash })
        witness_bytes
      ≡ err (constraint_hash_mismatch fields.constraint_hash (flip fields.constraint_hash))
  constraint_hash_rejected =
      rejected c laws (record fields { constraint_hash = flip fields.constraint_hash })
        witness_bytes _
        (record {
          task_pda_field = journal.task_pda_field;
          agent_authority_field = journal.agent_authority_field;
          constraint_hash_field = flip-IsField fields.constraint_hash journal.constraint_hash_field;
          output_commitment_field = journal.output_commitment_field;
          binding_field = journal.binding_field;
          nullifier_field = journal.nullifier_field;
        })
        (sent-IsWitness c laws)
        (λ d.
          flip-neq fields.constraint_hash journal.constraint_hash_field d.constraint_hash_derived)
        constraint_hash_only

  validate_against_witness_rejects_constraint_hash_mismatch_lem :
      ValidateAgainstWitnessRejectsConstraintHashMismatch c
  unfolding ValidateAgainstWitnessRejectsConstraintHashMismatch
  validate_against_witness_rejects_constraint_hash_mismatch_lem =
      validates c laws _ witness_bytes _ constraint_hash_rejected

  output_commitment_only :
      (e : JournalValidationError)
      → Rejects digest
          (record fields { output_commitment = flip fields.output_commitment })
          witness_bytes
          e
      → e ≡ output_commitment_mismatch fields.output_commitment (flip fields.output_commitment)
  output_commitment_only _ (zero_salt z) = absurd (salt_nonzero z)
  output_commitment_only _ (wrong_constraint_hash z n) = absurd (n refl)
  output_commitment_only _ (wrong_output_commitment z p n) = refl
  output_commitment_only _ (wrong_binding z p q x n) =
      absurd (flip-neq fields.output_commitment journal.output_commitment_field q)
  output_commitment_only _ (wrong_nullifier z p q b x n) =
      absurd (flip-neq fields.output_commitment journal.output_commitment_field q)

  pub output_commitment_rejected :
      validate_against_witness c
        (record fields { output_commitment = flip fields.output_commitment })
        witness_bytes
      ≡ err (output_commitment_mismatch fields.output_commitment (flip fields.output_commitment))
  output_commitment_rejected =
      rejected c laws (record fields { output_commitment = flip fields.output_commitment })
        witness_bytes _
        (record {
          task_pda_field = journal.task_pda_field;
          agent_authority_field = journal.agent_authority_field;
          constraint_hash_field = journal.constraint_hash_field;
          output_commitment_field =
              flip-IsField fields.output_commitment journal.output_commitment_field;
          binding_field = journal.binding_field;
          nullifier_field = journal.nullifier_field;
        })
        (sent-IsWitness c laws)
        (λ d.
          flip-neq fields.output_commitment journal.output_commitment_field
            d.output_commitment_derived)
        output_commitment_only

  validate_against_witness_rejects_output_commitment_mismatch_lem :
      ValidateAgainstWitnessRejectsOutputCommitmentMismatch c
  unfolding ValidateAgainstWitnessRejectsOutputCommitmentMismatch
  validate_against_witness_rejects_output_commitment_mismatch_lem =
      validates c laws _ witness_bytes _ output_commitment_rejected

  binding_only :
      (e : JournalValidationError)
      → Rejects digest (record fields { binding = flip fields.binding }) witness_bytes e
      → e ≡ binding_mismatch fields.binding (flip fields.binding)
  binding_only _ (zero_salt z) = absurd (salt_nonzero z)
  binding_only _ (wrong_constraint_hash z n) = absurd (n refl)
  binding_only _ (wrong_output_commitment z p n) = absurd (n refl)
  binding_only _ (wrong_binding z p q x n) = ap (λ y. binding_mismatch y (flip fields.binding)) x
  binding_only _ (wrong_nullifier z p q b x n) =
      absurd (flip-neq fields.binding journal.binding_field b)

  pub binding_rejected :
      validate_against_witness c (record fields { binding = flip fields.binding }) witness_bytes
      ≡ err (binding_mismatch fields.binding (flip fields.binding))
  binding_rejected =
      rejected c laws (record fields { binding = flip fields.binding }) witness_bytes _
        (record {
          task_pda_field = journal.task_pda_field;
          agent_authority_field = journal.agent_authority_field;
          constraint_hash_field = journal.constraint_hash_field;
          output_commitment_field = journal.output_commitment_field;
          binding_field = flip-IsField fields.binding journal.binding_field;
          nullifier_field = journal.nullifier_field;
        })
        (sent-IsWitness c laws)
        (λ d. flip-neq fields.binding journal.binding_field d.binding_derived) binding_only

  validate_against_witness_rejects_binding_mismatch_lem :
      ValidateAgainstWitnessRejectsBindingMismatch c
  unfolding ValidateAgainstWitnessRejectsBindingMismatch
  validate_against_witness_rejects_binding_mismatch_lem =
      validates c laws _ witness_bytes _ binding_rejected

  nullifier_only :
      (e : JournalValidationError)
      → Rejects digest (record fields { nullifier = flip fields.nullifier }) witness_bytes e
      → e ≡ nullifier_mismatch fields.nullifier (flip fields.nullifier)
  nullifier_only _ (zero_salt z) = absurd (salt_nonzero z)
  nullifier_only _ (wrong_constraint_hash z n) = absurd (n refl)
  nullifier_only _ (wrong_output_commitment z p n) = absurd (n refl)
  nullifier_only _ (wrong_binding z p q x n) = absurd (n (sym x))
  nullifier_only _ (wrong_nullifier z p q b x n) =
      ap (λ y. nullifier_mismatch y (flip fields.nullifier)) x

  pub nullifier_rejected :
      validate_against_witness c (record fields { nullifier = flip fields.nullifier }) witness_bytes
      ≡ err (nullifier_mismatch fields.nullifier (flip fields.nullifier))
  nullifier_rejected =
      rejected c laws (record fields { nullifier = flip fields.nullifier }) witness_bytes _
        (record {
          task_pda_field = journal.task_pda_field;
          agent_authority_field = journal.agent_authority_field;
          constraint_hash_field = journal.constraint_hash_field;
          output_commitment_field = journal.output_commitment_field;
          binding_field = journal.binding_field;
          nullifier_field = flip-IsField fields.nullifier journal.nullifier_field;
        })
        (sent-IsWitness c laws)
        (λ d. flip-neq fields.nullifier journal.nullifier_field d.nullifier_derived) nullifier_only

  validate_against_witness_rejects_nullifier_mismatch_lem :
      ValidateAgainstWitnessRejectsNullifierMismatch c
  unfolding ValidateAgainstWitnessRejectsNullifierMismatch
  validate_against_witness_rejects_nullifier_mismatch_lem =
      validates c laws _ witness_bytes _ nullifier_rejected
