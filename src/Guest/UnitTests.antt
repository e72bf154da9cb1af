-- ===== src/Guest/UnitTests.antt =====
-- The unit tests of guest/src/lib.rs, each as the statement of its assertion.
--
-- SHA-256 is a parameter (Guest/Crates), so the vectors of the SDK are statements about the parameter.
pub mod Facts
use agenc_prover.Base.Panics.{◌>>=◌}
use agenc_prover.Base.{
  ℕ, ◌-◌, List, [], ◌∷◌, ◌++◌, Option, none, some, Text, text, Result, ok, err, panic, replicate,
  ◌≡◌,
}
use agenc_prover.Guest.Crates.{Crates}
use agenc_prover.Guest.Field.{
  JournalField, JournalValidationError, zero_field_error, constraint_hash_mismatch,
  output_commitment_mismatch, binding_mismatch, nullifier_mismatch, journal_field_len,
}
use agenc_prover.Guest.Hash.{
  compute_constraint_hash, compute_output_commitment, compute_binding,
  compute_nullifier_from_agent_secret,
}
use agenc_prover.Guest.Journal.{JournalFields, PrivateWitness, validate_against_witness}

abbrev pub witness_bytes : PrivateWitness
witness_bytes = record {
  output = record {
    output_0 = replicate 31 0 ++ 1 ∷ [];
    output_1 = replicate 31 0 ++ 2 ∷ [];
    output_2 = replicate 31 0 ++ 3 ∷ [];
    output_3 = replicate 31 0 ++ 4 ∷ [];
  };
  salt = replicate 30 0 ++ 0x30 ∷ 0x39 ∷ [];
  agent_secret = replicate 29 0 ++ 0x01 ∷ 0x09 ∷ 0x32 ∷ [];
}

abbrev pub test_task : JournalField
test_task = replicate 31 0 ++ 0x2a ∷ []

abbrev pub test_agent : JournalField
test_agent =
    1 ∷ 2 ∷ 3 ∷ 4 ∷ 5 ∷ 6 ∷ 7 ∷ 8 ∷ 9 ∷ 10 ∷ 11 ∷ 12 ∷ 13 ∷ 14 ∷ 15 ∷ 16 ∷ 17 ∷ 18 ∷ 19 ∷ 20 ∷ 21
    ∷ 22 ∷ 23 ∷ 24 ∷ 25 ∷ 26 ∷ 27 ∷ 28 ∷ 29 ∷ 30 ∷ 31 ∷ 32 ∷ []

-- `bytes[0] ^= 0xff`.
unfoldable pub flip : JournalField → JournalField
flip [] = []
flip (x ∷ xs) = (255 - x) ∷ xs

module _ (c : Crates) where
  unfoldable pub derived_fields : Option JournalFields
  derived_fields = do
    constraint_hash ← compute_constraint_hash c witness_bytes.output
    output_commitment ← compute_output_commitment c witness_bytes.output witness_bytes.salt
    binding ← compute_binding c test_task test_agent output_commitment
    nullifier ←
        compute_nullifier_from_agent_secret c constraint_hash output_commitment
          witness_bytes.agent_secret
    some (record {
      task_pda = test_task;
      agent_authority = test_agent;
      constraint_hash = constraint_hash;
      output_commitment = output_commitment;
      binding = binding;
      nullifier = nullifier;
    })

  ComputeConstraintHashMatchesSdkVector : Type 0
  ComputeConstraintHashMatchesSdkVector =
      compute_constraint_hash c witness_bytes.output
      ≡ some (
          27 ∷ 5 ∷ 2 ∷ 84 ∷ 39 ∷ 22 ∷ 233 ∷ 180 ∷ 224 ∷ 118 ∷ 227 ∷ 90 ∷ 187 ∷ 207 ∷ 226 ∷ 180 ∷ 153
          ∷ 111 ∷ 89 ∷ 65 ∷ 177 ∷ 42 ∷ 115 ∷ 94 ∷ 20 ∷ 181 ∷ 98 ∷ 20 ∷ 142 ∷ 87 ∷ 84 ∷ 23 ∷ [])

  ComputeOutputCommitmentMatchesSdkVector : Type 0
  ComputeOutputCommitmentMatchesSdkVector =
      compute_output_commitment c witness_bytes.output witness_bytes.salt
      ≡ some (
          5 ∷ 68 ∷ 147 ∷ 77 ∷ 26 ∷ 229 ∷ 129 ∷ 70 ∷ 252 ∷ 91 ∷ 137 ∷ 194 ∷ 187 ∷ 112 ∷ 184 ∷ 206
          ∷ 175 ∷ 196 ∷ 126 ∷ 146 ∷ 18 ∷ 138 ∷ 165 ∷ 201 ∷ 188 ∷ 180 ∷ 31 ∷ 10 ∷ 74 ∷ 50 ∷ 36 ∷ 30
          ∷ [])

  ComputeBindingMatchesSdkVector : Type 0
  ComputeBindingMatchesSdkVector =
      (derived_fields >>= λ fields.
      compute_binding c fields.task_pda fields.agent_authority fields.output_commitment)
      ≡ some (
          21 ∷ 13 ∷ 226 ∷ 197 ∷ 153 ∷ 150 ∷ 34 ∷ 181 ∷ 237 ∷ 51 ∷ 113 ∷ 126 ∷ 95 ∷ 159 ∷ 255 ∷ 117
          ∷ 59 ∷ 155 ∷ 2 ∷ 13 ∷ 16 ∷ 26 ∷ 14 ∷ 104 ∷ 94 ∷ 149 ∷ 113 ∷ 116 ∷ 45 ∷ 24 ∷ 164 ∷ 247
          ∷ [])

  ComputeNullifierMatchesSdkVector : Type 0
  ComputeNullifierMatchesSdkVector =
      (derived_fields >>= λ fields.
      compute_nullifier_from_agent_secret c fields.constraint_hash fields.output_commitment
        witness_bytes.agent_secret)
      ≡ some (
          244 ∷ 234 ∷ 41 ∷ 112 ∷ 18 ∷ 33 ∷ 223 ∷ 173 ∷ 165 ∷ 57 ∷ 218 ∷ 176 ∷ 51 ∷ 26 ∷ 185 ∷ 6 ∷ 68
          ∷ 155 ∷ 203 ∷ 55 ∷ 112 ∷ 100 ∷ 87 ∷ 191 ∷ 241 ∷ 141 ∷ 85 ∷ 247 ∷ 244 ∷ 9 ∷ 238 ∷ 159 ∷ [])

  -- The assertion on the validation of changed fields; it fails when the fields are not computed.
  unfoldable pub Validates :
      (JournalFields → JournalFields)
      → PrivateWitness
      → (JournalFields → Result (Unit {0}) JournalValidationError)
      → Type 0
  Validates change witness expected = elim derived_fields [
    | none ↦ ⊥
    | some fields ↦ validate_against_witness c (change fields) witness ≡ expected fields
  ]

  unfoldable pub ValidateAgainstWitnessAcceptsMatchingFields : Type 0
  ValidateAgainstWitnessAcceptsMatchingFields =
      Validates (λ fields. fields) witness_bytes (λ fields. ok tt)

  unfoldable pub ValidateAgainstWitnessRejectsZeroSalt : Type 0
  ValidateAgainstWitnessRejectsZeroSalt =
      Validates (λ fields. fields) (record witness_bytes { salt = replicate journal_field_len 0 })
        (λ fields. err (zero_field_error (text "salt")))

  unfoldable pub ValidateAgainstWitnessRejectsConstraintHashMismatch : Type 0
  ValidateAgainstWitnessRejectsConstraintHashMismatch =
      Validates (λ fields. record fields { constraint_hash = flip fields.constraint_hash })
        witness_bytes
        (λ fields.
          err (constraint_hash_mismatch fields.constraint_hash (flip fields.constraint_hash)))

  unfoldable pub ValidateAgainstWitnessRejectsOutputCommitmentMismatch : Type 0
  ValidateAgainstWitnessRejectsOutputCommitmentMismatch =
      Validates (λ fields. record fields { output_commitment = flip fields.output_commitment })
        witness_bytes
        (λ fields.
          err (output_commitment_mismatch fields.output_commitment (flip fields.output_commitment)))

  unfoldable pub ValidateAgainstWitnessRejectsBindingMismatch : Type 0
  ValidateAgainstWitnessRejectsBindingMismatch =
      Validates (λ fields. record fields { binding = flip fields.binding }) witness_bytes
        (λ fields. err (binding_mismatch fields.binding (flip fields.binding)))

  unfoldable pub ValidateAgainstWitnessRejectsNullifierMismatch : Type 0
  ValidateAgainstWitnessRejectsNullifierMismatch =
      Validates (λ fields. record fields { nullifier = flip fields.nullifier }) witness_bytes
        (λ fields. err (nullifier_mismatch fields.nullifier (flip fields.nullifier)))
