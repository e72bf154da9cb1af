-- ===== src/GuestProgram/Tests.antt =====
-- The theorems on proofs at the sample request and the sample zkVM.
use agenc_prover.Base.{◌≡◌, ◌⊎◌, refl, ok, err, some, none, Option, Text}
use agenc_prover.Guest.Samples.{sample_crates, sample_laws, sample-IsDerived}
use agenc_prover.Guest.Journal.{serialize_journal, display_validation_error}
use agenc_prover.Guest.Field.{JournalValidationError}
use agenc_prover.Guest.Spec.{IsDerived}
use agenc_prover.Guest.Validate.{Rejects}
use agenc_prover.Prover.Seal.{trusted_risc0_image_id, encode_seal}
use agenc_prover.Prover.Zkvm.{Zkvm}
use agenc_prover.Prover.Generate.{
  ProveResponse, default_build, production, invalid_request, journal_fields, private_witness,
  generate_proof_with_dev_mode,
}
use agenc_prover.Prover.Sound.{IsBacked, accepted, generate_proof_decides, generate_proof_sound}
use agenc_prover.GuestProgram.Receipts.{receipt_proves_derived}
use agenc_prover.GuestProgram.Complete.{generate_proof_complete}
use agenc_prover.GuestProgram.Samples.{
  sample_zkvm, sample_zkvm_laws, sample_request, sample_request-IsRequest, sample_env,
  sample_inputs, sample_receipt, sample_proved, sample_pinned, sample_seal, sample_sealed,
}

receipt_proves_derived_example :
    IsDerived sample_laws.digest (journal_fields sample_request) (private_witness sample_request)
    × (serialize_journal (journal_fields sample_request)
        ≡ some (sample_zkvm.journal_bytes sample_receipt))
receipt_proves_derived_example =
    receipt_proves_derived sample_crates sample_laws sample_zkvm sample_zkvm_laws sample_request
      sample_env sample_receipt sample_request-IsRequest sample_inputs sample_proved

abbrev pub sample_response : ProveResponse
sample_response = record {
  seal_bytes = encode_seal sample_seal;
  journal = sample_zkvm.journal_bytes sample_receipt;
  image_id = trusted_risc0_image_id;
}

pub sample_response_given :
    generate_proof_with_dev_mode sample_crates (production sample_zkvm) sample_request none
    ≡ ok sample_response
sample_response_given =
    generate_proof_complete sample_crates sample_laws sample_zkvm sample_zkvm_laws sample_request
      sample_env sample_receipt sample_seal sample_request-IsRequest (sample-IsDerived 1 4)
      sample_pinned sample_inputs sample_proved sample_sealed refl

generate_proof_complete_example :
    generate_proof_with_dev_mode sample_crates (production sample_zkvm) sample_request none
    ≡ ok sample_response
generate_proof_complete_example =
    generate_proof_complete sample_crates sample_laws sample_zkvm sample_zkvm_laws sample_request
      sample_env sample_receipt sample_seal sample_request-IsRequest (sample-IsDerived 1 4)
      sample_pinned sample_inputs sample_proved sample_sealed refl

generate_proof_sound_example :
    IsDerived sample_laws.digest (journal_fields sample_request) (private_witness sample_request)
    × (◌≡◌ {A = Option Text} none none)
    × ((z : Zkvm) × (production sample_zkvm ≡ production z)
        × IsBacked z sample_request sample_response)
generate_proof_sound_example =
    generate_proof_sound sample_crates sample_laws (production sample_zkvm) sample_request none
      sample_response sample_request-IsRequest sample_response_given

generate_proof_decides_example :
    ((e : JournalValidationError) × Rejects sample_laws.digest
        (journal_fields sample_request)
        (private_witness sample_request)
        e
      × (generate_proof_with_dev_mode sample_crates default_build sample_request none
          ≡ err (invalid_request (display_validation_error e))))
    ⊎ (IsDerived sample_laws.digest (journal_fields sample_request) (private_witness sample_request)
        × (generate_proof_with_dev_mode sample_crates default_build sample_request none
            ≡ accepted default_build sample_request none))
generate_proof_decides_example =
    generate_proof_decides sample_crates sample_laws default_build sample_request none
      sample_request-IsRequest
