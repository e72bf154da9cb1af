-- ===== src/Guest/UnitChecks.antt =====
-- The unit tests of guest/src/lib.rs on validation, for every lawful hash and number library.
pub mod Mismatches
use agenc_prover.Base.{none, some, Result, ok, err, text, ◌≡◌, refl, sym, ap, ◌∙◌, inl, inr}
use mathlib.Core.Path.{subst}
use agenc_prover.Guest.Crates.{Crates, IsLawful}
use agenc_prover.Guest.Field.{
  JournalValidationError, zero_field_error, constraint_hash_mismatch, output_commitment_mismatch,
  binding_mismatch, nullifier_mismatch, zero_field,
}
use agenc_prover.Guest.Hashes.{
  compute_constraint_hash_lem, compute_output_commitment_lem, compute_binding_lem,
  compute_nullifier_lem,
}
use agenc_prover.Guest.Journal.{JournalFields, PrivateWitness, validate_against_witness}
use agenc_prover.Guest.Reduce.{reduce-IsBytes}
use agenc_prover.Guest.Spec.{
  IsJournal, IsWitness, IsDerived, constraint_hash_of, output_commitment_of, binding_of,
  nullifier_of,
}
use agenc_prover.Guest.UnitTests.{
  witness_bytes, test_task, test_agent, flip, derived_fields, Validates,
  ValidateAgainstWitnessAcceptsMatchingFields, ValidateAgainstWitnessRejectsZeroSalt,
  ValidateAgainstWitnessRejectsConstraintHashMismatch,
  ValidateAgainstWitnessRejectsOutputCommitmentMismatch,
  ValidateAgainstWitnessRejectsBindingMismatch, ValidateAgainstWitnessRejectsNullifierMismatch,
}
use agenc_prover.Guest.Validate.{
  Rejects, zero_salt, wrong_constraint_hash, wrong_output_commitment, wrong_binding,
  wrong_nullifier, validate_decides, validate_iff,
}
use agenc_prover.Guest.UnitTests.Facts.{
  flip-IsField, flip-neq, salted-IsWitness, task-IsField, agent-IsField, salt-IsField, zero-IsField,
  salt_nonzero,
}

module _ (c : Crates) (laws : IsLawful c) where
  open laws use {digest, digest-IsBytes}

  -- What the fields of the tests are.
  abbrev pub derived : JournalFields
  derived =
      let h = constraint_hash_of digest witness_bytes.output in
      let o = output_commitment_of digest witness_bytes.output witness_bytes.salt in
      record {
        task_pda = test_task;
        agent_authority = test_agent;
        constraint_hash = h;
        output_commitment = o;
        binding = binding_of digest test_task test_agent o;
        nullifier = nullifier_of digest h o witness_bytes.agent_secret;
      }

  pub derived-IsJournal : IsJournal derived
  unfolding constraint_hash_of output_commitment_of binding_of nullifier_of
  derived-IsJournal = record {
    task_pda_field = task-IsField;
    agent_authority_field = agent-IsField;
    constraint_hash_field = reduce-IsBytes _;
    output_commitment_field = reduce-IsBytes _;
    binding_field = reduce-IsBytes _;
    nullifier_field = digest-IsBytes _;
  }

  pub sent-IsWitness : IsWitness witness_bytes
  sent-IsWitness = salted-IsWitness witness_bytes.salt salt-IsField

  derived_fields_lem : derived_fields c ≡ some derived
  unfolding derived_fields
  derived_fields_lem =
      let j = derived-IsJournal in
      let w = sent-IsWitness in
      simp (
        compute_constraint_hash_lem c laws witness_bytes.output w.output_fields,
        compute_output_commitment_lem c laws witness_bytes.output witness_bytes.salt w.output_fields
            w.salt_field,
        compute_binding_lem c laws test_task test_agent derived.output_commitment task-IsField
            agent-IsField j.output_commitment_field,
        compute_nullifier_lem c laws derived.constraint_hash derived.output_commitment
            witness_bytes.agent_secret j.constraint_hash_field j.output_commitment_field
            w.agent_secret_field,
      )

  pub validates :
      (change : JournalFields → JournalFields) (w : PrivateWitness)
      (expected : JournalFields → Result (Unit {0}) JournalValidationError)
      → validate_against_witness c (change derived) w ≡ expected derived
      → Validates c change w expected
  unfolding Validates
  validates change w expected e =
      subst
        (λ o. elim o [
          | none ↦ ⊥
          | some fields ↦ validate_against_witness c (change fields) w ≡ expected fields
        ])
        (sym derived_fields_lem) e

  -- Fields that can only be rejected in one way are rejected in that way.
  pub rejected :
      (f : JournalFields) (w : PrivateWitness) (e : JournalValidationError)
      → IsJournal f
      → IsWitness w
      → ¬ IsDerived digest f w
      → ((e' : JournalValidationError) → Rejects digest f w e' → e' ≡ e)
      → validate_against_witness c f w ≡ err e
  rejected f w e hf hw n only = elim (validate_decides c laws f w hf hw) [
    | inl (d, _) ↦ absurd (n d)
    | inr (e', r, eq) ↦ eq ∙ ap err (only e' r)
  ]

  pub derived_accepted : validate_against_witness c derived witness_bytes ≡ ok tt
  derived_accepted =
      (validate_iff c laws derived witness_bytes derived-IsJournal sent-IsWitness).1 (record {
        salt_nonzero = salt_nonzero;
        constraint_hash_derived = refl;
        output_commitment_derived = refl;
        binding_derived = refl;
        nullifier_derived = refl;
      })

  validate_against_witness_accepts_matching_fields_lem :
      ValidateAgainstWitnessAcceptsMatchingFields c
  unfolding ValidateAgainstWitnessAcceptsMatchingFields
  validate_against_witness_accepts_matching_fields_lem =
      validates (λ fields. fields) witness_bytes (λ fields. ok tt) derived_accepted

  zero_salt_only :
      (e : JournalValidationError)
      → Rejects digest derived (record witness_bytes { salt = zero_field }) e
      → e ≡ zero_field_error (text "salt")
  zero_salt_only _ (zero_salt z) = refl
  zero_salt_only _ (wrong_constraint_hash z n) = absurd (z refl)
  zero_salt_only _ (wrong_output_commitment z p n) = absurd (z refl)
  zero_salt_only _ (wrong_binding z p q x n) = absurd (z refl)
  zero_salt_only _ (wrong_nullifier z p q b x n) = absurd (z refl)

  pub zero_salt_rejected :
      validate_against_witness c derived (record witness_bytes { salt = zero_field })
      ≡ err (zero_field_error (text "salt"))
  zero_salt_rejected =
      rejected derived (record witness_bytes { salt = zero_field }) _ derived-IsJournal
        (salted-IsWitness zero_field zero-IsField) (λ d. d.salt_nonzero refl) zero_salt_only

  validate_against_witness_rejects_zero_salt_lem : ValidateAgainstWitnessRejectsZeroSalt c
  unfolding ValidateAgainstWitnessRejectsZeroSalt
  validate_against_witness_rejects_zero_salt_lem =
      validates (λ fields. fields) (record witness_bytes { salt = zero_field }) _ zero_salt_rejected
