-- ===== src/Guest/Tests.antt =====
-- The theorems on guest/src/lib.rs at sample requests.
use agenc_prover.Base.{
  ℕ, ◌≡◌, ◌≢◌, ◌⊎◌, ◌↔◌, refl, sym, ◌∙◌, ok, err, some, List, [], ◌∷◌, IsBytes, text, arith,
  be_value, be_bytes, be_bytes-IsBytes, be_value-be_bytes, ap, ◌%◌,
}
use agenc_prover.Guest.Field.{
  JournalField, JournalValidationError, zero_field, invalid_field_length,
}
use agenc_prover.Guest.Hash.{elements}
use agenc_prover.Guest.Journal.{
  JournalFields, PrivateWitness, validate_against_witness, serialize_journal,
  journal_try_from_slices, witness_try_from_slices,
}
use agenc_prover.Guest.Spec.{IsDerived}
use agenc_prover.Guest.Reduce.{modulus, reduce}
use agenc_prover.Guest.Validate.{Rejects, validate_decides, validate_iff}
use agenc_prover.Guest.Layout.{serialize_journal_roundtrip, slice}
use agenc_prover.Guest.Binding.{
  BindingCollides, NullifierCollides, accepted_binding_binds, accepted_nullifier_binds,
}
use agenc_prover.Guest.Inputs.{first_misfit, try_from_slices_lem}
use agenc_prover.Guest.Separation.{
  Clash, Query, IsQuery, domain, hashed, hashed-value, value, binding_base, binding,
  binding_base_fields, binding_fields, equal_hashes-Clash,
}
use agenc_prover.Guest.Residues.{SameResidues}
use agenc_prover.Guest.Salt.{zero_residue_salt_accepted}
use agenc_prover.Guest.Samples.{
  sample_crates, sample_laws, constant_crates, constant_laws, constant_digest, byte_field-IsField,
  sample_output, byte_field, witness_of, sample_witness, derived_journal, derived_journal-IsJournal,
  witness_of-IsWitness, sample_valid,
}

validate_iff_example :
    (validate_against_witness sample_crates (derived_journal 1 sample_witness) sample_witness
      ≡ ok tt)
    ↔ IsDerived sample_laws.digest (derived_journal 1 sample_witness) sample_witness
validate_iff_example =
    validate_iff sample_crates sample_laws (derived_journal 1 sample_witness) sample_witness
      (derived_journal-IsJournal 1 sample_witness (omega arith))
      (witness_of-IsWitness 4 (omega arith))

-- The fields of one witness with another: the nullifier is wrong.
validate_decides_example :
    (IsDerived sample_laws.digest (derived_journal 1 sample_witness) (witness_of 9)
      × (validate_against_witness sample_crates (derived_journal 1 sample_witness) (witness_of 9)
          ≡ ok tt))
    ⊎ ((e : JournalValidationError) × Rejects sample_laws.digest
          (derived_journal 1 sample_witness)
          (witness_of 9)
          e
        × (validate_against_witness sample_crates (derived_journal 1 sample_witness) (witness_of 9)
            ≡ err e))
validate_decides_example =
    validate_decides sample_crates sample_laws (derived_journal 1 sample_witness) (witness_of 9)
      (derived_journal-IsJournal 1 sample_witness (omega arith))
      (witness_of-IsWitness 9 (omega arith))

serialize_journal_roundtrip_example :
    (bytes : List ℕ) × (serialize_journal (derived_journal 1 sample_witness) ≡ some bytes)
    × IsBytes 192 bytes
    × (journal_try_from_slices
          (slice bytes 0)
          (slice bytes 1)
          (slice bytes 2)
          (slice bytes 3)
          (slice bytes 4)
          (slice bytes 5)
        ≡ ok (derived_journal 1 sample_witness))
serialize_journal_roundtrip_example =
    serialize_journal_roundtrip (derived_journal 1 sample_witness)
      (derived_journal-IsJournal 1 sample_witness (omega arith))

-- Two agent secrets give one binding.
accepted_binding_binds_example :
    SameResidues
      (byte_field 1 ∷ byte_field 2 ∷ byte_field 3 ∷ elements sample_output)
      (byte_field 1 ∷ byte_field 2 ∷ byte_field 3 ∷ elements sample_output)
    ⊎ BindingCollides sample_laws.digest
        (derived_journal 1 (witness_of 4))
        (derived_journal 1 (witness_of 9))
        (witness_of 4)
        (witness_of 9)
accepted_binding_binds_example =
    accepted_binding_binds sample_crates sample_laws (derived_journal 1 (witness_of 4))
      (derived_journal 1 (witness_of 9)) (witness_of 4) (witness_of 9)
      (derived_journal-IsJournal 1 (witness_of 4) (omega arith))
      (derived_journal-IsJournal 1 (witness_of 9) (omega arith))
      (witness_of-IsWitness 4 (omega arith)) (witness_of-IsWitness 9 (omega arith))
      (sample_valid 1 4 (omega arith) (omega arith)) (sample_valid 1 9 (omega arith) (omega arith))
      refl

-- One witness has one nullifier for two tasks.
accepted_nullifier_binds_example :
    SameResidues
      (byte_field 4 ∷ byte_field 3 ∷ elements sample_output)
      (byte_field 4 ∷ byte_field 3 ∷ elements sample_output)
    ⊎ NullifierCollides sample_laws.digest (witness_of 4) (witness_of 4)
accepted_nullifier_binds_example =
    accepted_nullifier_binds sample_crates sample_laws (derived_journal 1 (witness_of 4))
      (derived_journal 7 (witness_of 4)) (witness_of 4) (witness_of 4)
      (derived_journal-IsJournal 1 (witness_of 4) (omega arith))
      (derived_journal-IsJournal 7 (witness_of 4) (omega arith))
      (witness_of-IsWitness 4 (omega arith)) (witness_of-IsWitness 4 (omega arith))
      (sample_valid 1 4 (omega arith) (omega arith)) (sample_valid 7 4 (omega arith) (omega arith))
      refl

-- The witness with the modulus as its salt, and the fields of the zero salt.
abbrev modulus_salt : JournalField
modulus_salt = be_bytes 32 modulus

abbrev modulus_witness : PrivateWitness
modulus_witness = record sample_witness { salt = modulus_salt }

abbrev zero_salt_journal : JournalFields
zero_salt_journal = derived_journal 1 (record sample_witness { salt = zero_field })

modulus_salt-value : be_value modulus_salt ≡ modulus
modulus_salt-value = be_value-be_bytes 32 modulus (omega arith)

zero_field-value : be_value zero_field ≡ 0
unfolding be_value
zero_field-value = refl

modulus_salt_nonzero : modulus_salt ≢ zero_field
modulus_salt_nonzero e = ground (zero_field-value, arith, modulus_salt-value, ap be_value e)

zero_residue_salt_accepted_example :
    validate_against_witness sample_crates zero_salt_journal modulus_witness ≡ ok tt
zero_residue_salt_accepted_example =
    zero_residue_salt_accepted sample_crates sample_laws zero_salt_journal modulus_witness
      (derived_journal-IsJournal 1 _ (omega arith))
      (let h = witness_of-IsWitness 4 (omega arith) in
        record {
          output_fields = h.output_fields;
          salt_field = be_bytes-IsBytes 32 modulus (omega arith);
          agent_secret_field = h.agent_secret_field;
        })
      modulus_salt_nonzero (ap (λ v. v % modulus) modulus_salt-value) refl refl refl refl

abbrev base_query : Query
base_query = binding_base (byte_field 1) (byte_field 2)

abbrev binding_query : Query
binding_query = binding (byte_field 1) (byte_field 2) (byte_field 3)

base_query-IsQuery : IsQuery base_query
base_query-IsQuery =
    binding_base_fields (byte_field-IsField 1 (omega arith)) (byte_field-IsField 2 (omega arith))

binding_query-IsQuery : IsQuery binding_query
binding_query-IsQuery =
    binding_fields (byte_field-IsField 1 (omega arith)) (byte_field-IsField 2 (omega arith))
      (byte_field-IsField 3 (omega arith))

domains_apart : domain base_query ≢ domain binding_query
unfolding domain
domains_apart e = ground (arith, e)

same_value : value constant_laws.digest binding_query ≡ value constant_laws.digest base_query
unfolding value
same_value = ap reduce (constant_digest _ _)

same_hash : hashed constant_crates base_query ≡ hashed constant_crates binding_query
same_hash =
    hashed-value constant_crates constant_laws base_query base_query-IsQuery
    ∙ ap some (sym same_value)
    ∙ sym (hashed-value constant_crates constant_laws binding_query binding_query-IsQuery)

equal_hashes-Clash_example : Clash constant_laws.digest base_query binding_query
equal_hashes-Clash_example =
    equal_hashes-Clash constant_crates constant_laws base_query binding_query base_query-IsQuery
      binding_query-IsQuery domains_apart same_hash

try_from_slices_lem_example :
    (journal_try_from_slices (byte_field 1) (byte_field 2) (byte_field 3) (7 ∷ []) (byte_field 5) []
      ≡ err (invalid_field_length (text "output_commitment") 32 1))
    × (witness_try_from_slices
          (byte_field 1)
          (byte_field 2)
          (byte_field 3)
          (byte_field 4)
          (byte_field 5)
          []
        ≡ err (invalid_field_length (text "agent_secret") 32 0))
unfolding first_misfit
try_from_slices_lem_example =
    try_from_slices_lem (byte_field 1) (byte_field 2) (byte_field 3) (7 ∷ []) (byte_field 5) []
      (byte_field 1) (byte_field 2) (byte_field 3) (byte_field 4) (byte_field 5) []
