-- ===== src/Prover/UnitChecks.antt =====
-- The unit tests of server/src/prover.rs that do not need a zkVM, for every lawful hash.
use agenc_prover.Base.{Option, none, some, Text, text, err, be_bytes, contains, ◌≡◌, refl, sym}
use mathlib.Core.Path.{subst}
use agenc_prover.Base.Panics.{copy_chunks, copy_from_slice}
use agenc_prover.Guest.Crates.{Crates, IsLawful}
use agenc_prover.Guest.Field.{JournalValidationError, zero_field}
use agenc_prover.Guest.Hashes.{
  compute_constraint_hash_lem, compute_output_commitment_lem, compute_binding_lem,
  compute_nullifier_lem,
}
use agenc_prover.Guest.Journal.{JournalFields, validate_against_witness, display_validation_error}
use agenc_prover.Guest.UnitChecks.{
  derived, derived-IsJournal, sent-IsWitness, derived_accepted, zero_salt_rejected,
}
use agenc_prover.Guest.UnitChecks.Mismatches.{
  constraint_hash_rejected, output_commitment_rejected, binding_rejected, nullifier_rejected,
}
use agenc_prover.Guest.UnitTests.{witness_bytes, test_task, test_agent, flip}
use agenc_prover.Prover.Generate.{
  ProveRequest, ProveError, Build, default_build, journal_fields, private_witness, invalid_request,
  generate_proof_with_dev_mode, validate_request_semantics, ensure_dev_mode_disabled,
}
use agenc_prover.Prover.Seal.{
  encode_seal, negate_pi_a, negate_g1, subtract_be_bytes, subtract_loop, all_zero,
  guest_id_to_image_id, to_le_bytes, bn254_field_modulus_q,
}
use agenc_prover.Prover.UnitTests.{
  field_from_u32, default_output, default_prove_request, Refuses, DevModeGuardIsFailClosed,
  WithoutProductionFeatureReturnsGuidanceError, ZeroSaltIsRejectedBeforeProving,
  InvalidConstraintHashIsRejectedBeforeProving, InvalidOutputCommitmentIsRejectedBeforeProving,
  InvalidBindingIsRejectedBeforeProving, InvalidNullifierIsRejectedBeforeProving,
  EncodeSealPrefixesTrustedSelector, EncodeSealPreservesZeroPiAyCoordinate,
  GuestIdToImageIdConvertsLittleEndianWords,
}

module _ (c : Crates) (laws : IsLawful c) where
  open laws use {digest}

  abbrev fields : JournalFields
  fields = derived c laws

  -- The default request is the one of the tests of guest/src/lib.rs.
  abbrev request_of : JournalFields → ProveRequest
  request_of f = record {
    task_pda = f.task_pda;
    agent_authority = f.agent_authority;
    constraint_hash = f.constraint_hash;
    output_commitment = f.output_commitment;
    binding = f.binding;
    nullifier = f.nullifier;
    output = witness_bytes.output;
    salt = witness_bytes.salt;
    agent_secret = witness_bytes.agent_secret;
  }

  default_prove_request_lem : default_prove_request c ≡ some (request_of fields)
  unfolding default_prove_request default_output field_from_u32 be_bytes
  default_prove_request_lem =
      let j = derived-IsJournal c laws in
      let w = sent-IsWitness c laws in
      simp (
        compute_constraint_hash_lem c laws witness_bytes.output w.output_fields,
        compute_output_commitment_lem c laws witness_bytes.output witness_bytes.salt w.output_fields
            w.salt_field,
        compute_binding_lem c laws test_task test_agent fields.output_commitment j.task_pda_field
            j.agent_authority_field j.output_commitment_field,
        compute_nullifier_lem c laws fields.constraint_hash fields.output_commitment
            witness_bytes.agent_secret j.constraint_hash_field j.output_commitment_field
            w.agent_secret_field,
      )

  refuses :
      (build : Build) (change : ProveRequest → ProveRequest) (dev : Option Text) (e : ProveError)
      → generate_proof_with_dev_mode c build (change (request_of fields)) dev ≡ err e
      → Refuses c build change dev e
  unfolding Refuses
  refuses build change dev e h =
      subst
        (λ o. elim o [
          | none ↦ ⊥
          | some request ↦ generate_proof_with_dev_mode c build (change request) dev ≡ err e
        ])
        (sym default_prove_request_lem) h

  invalid :
      (build : Build) (r : ProveRequest) (dev : Option Text) (e : JournalValidationError)
      → validate_against_witness c (journal_fields r) (private_witness r) ≡ err e
      → generate_proof_with_dev_mode c build r dev
        ≡ err (invalid_request (display_validation_error e))
  unfolding generate_proof_with_dev_mode validate_request_semantics
  invalid build r dev e h = rw h refl

  dev_mode_guard_is_fail_closed_lem : (build : Build) → DevModeGuardIsFailClosed c build
  unfolding DevModeGuardIsFailClosed generate_proof_with_dev_mode validate_request_semantics
      ensure_dev_mode_disabled
  dev_mode_guard_is_fail_closed_lem build = refuses build _ _ _ (rw (derived_accepted c laws) refl)

  without_production_feature_returns_guidance_error_lem :
      WithoutProductionFeatureReturnsGuidanceError c
  unfolding WithoutProductionFeatureReturnsGuidanceError generate_proof_with_dev_mode
      validate_request_semantics ensure_dev_mode_disabled contains text
  without_production_feature_returns_guidance_error_lem = (
    text "proof generation requires building with --features production-prover",
    refuses default_build (λ r. r) none _ (rw (derived_accepted c laws) refl),
    refl,
  )

  zero_salt_is_rejected_before_proving_lem :
      (build : Build) → ZeroSaltIsRejectedBeforeProving c build
  unfolding ZeroSaltIsRejectedBeforeProving display_validation_error text
  zero_salt_is_rejected_before_proving_lem build = refuses build _ _ _ (
      invalid build (record (request_of fields) { salt = zero_field }) none _
        (zero_salt_rejected c laws))

  invalid_constraint_hash_is_rejected_before_proving_lem :
      (build : Build) → InvalidConstraintHashIsRejectedBeforeProving c build
  unfolding InvalidConstraintHashIsRejectedBeforeProving display_validation_error
  invalid_constraint_hash_is_rejected_before_proving_lem build = refuses build _ _ _ (
      invalid build (record (request_of fields) { constraint_hash = flip fields.constraint_hash })
        none _ (constraint_hash_rejected c laws))

  invalid_output_commitment_is_rejected_before_proving_lem :
      (build : Build) → InvalidOutputCommitmentIsRejectedBeforeProving c build
  unfolding InvalidOutputCommitmentIsRejectedBeforeProving display_validation_error
  invalid_output_commitment_is_rejected_before_proving_lem build = refuses build _ _ _ (
      invalid build
        (record (request_of fields) { output_commitment = flip fields.output_commitment }) none _
        (output_commitment_rejected c laws))

  invalid_binding_is_rejected_before_proving_lem :
      (build : Build) → InvalidBindingIsRejectedBeforeProving c build
  unfolding InvalidBindingIsRejectedBeforeProving display_validation_error
  invalid_binding_is_rejected_before_proving_lem build = refuses build _ _ _ (
      invalid build (record (request_of fields) { binding = flip fields.binding }) none _
        (binding_rejected c laws))

  invalid_nullifier_is_rejected_before_proving_lem :
      (build : Build) → InvalidNullifierIsRejectedBeforeProving c build
  unfolding InvalidNullifierIsRejectedBeforeProving display_validation_error
  invalid_nullifier_is_rejected_before_proving_lem build = refuses build _ _ _ (
      invalid build (record (request_of fields) { nullifier = flip fields.nullifier }) none _
        (nullifier_rejected c laws))

encode_seal_prefixes_trusted_selector_lem : EncodeSealPrefixesTrustedSelector
unfolding EncodeSealPrefixesTrustedSelector encode_seal negate_pi_a negate_g1 subtract_be_bytes
    subtract_loop all_zero bn254_field_modulus_q
encode_seal_prefixes_trusted_selector_lem = (refl, refl, refl, refl, refl)

encode_seal_preserves_zero_pi_a_y_coordinate_lem : EncodeSealPreservesZeroPiAyCoordinate
unfolding EncodeSealPreservesZeroPiAyCoordinate encode_seal negate_pi_a negate_g1 subtract_be_bytes
    subtract_loop all_zero bn254_field_modulus_q
encode_seal_preserves_zero_pi_a_y_coordinate_lem = refl

guest_id_to_image_id_converts_little_endian_words_lem : GuestIdToImageIdConvertsLittleEndianWords
unfolding GuestIdToImageIdConvertsLittleEndianWords guest_id_to_image_id to_le_bytes copy_chunks
    copy_from_slice
guest_id_to_image_id_converts_little_endian_words_lem = (refl, refl, refl, refl, refl)
