-- ===== src/GuestProgram/Complete.antt =====
-- The host of server/src/prover.rs and the guest of methods/guest/src/main.rs together: when a
-- proof is given.
use agenc_prover.Base.{ℕ, ◌≡◌, refl, List, none, some, length, ok, list_eq_refl}
use agenc_prover.Guest.Crates
use agenc_prover.Guest.Crates.{Crates}
use agenc_prover.Guest.Spec.{IsDerived}
use agenc_prover.Guest.Validate.{validate_iff}
use agenc_prover.Prover.Seal.{trusted_risc0_image_id, guest_id_to_image_id, encode_seal}
use agenc_prover.Prover.Zkvm
use agenc_prover.Prover.Zkvm.{Zkvm}
use agenc_prover.Prover.Generate.{
  ProveRequest, journal_fields, private_witness, production, executor_env, image_id, raw_seal,
  checked_image_id, prove_receipt, receipt_seal, generate_proof_real, generate_proof_with_dev_mode,
  validate_request_semantics, ensure_dev_mode_disabled,
}
use agenc_prover.Prover.Sound.{IsRequest}
use agenc_prover.GuestProgram.{guest_main}
use agenc_prover.GuestProgram.Receipts.{checked_journal-ok}

-- A derived request is answered with the seal, the journal and the pinned image, when the
-- development mode is off, the compiled guest is the pinned one, and the zkVM gives a receipt with
-- a Groth16 seal of 256 bytes.
pub generate_proof_complete :
    (c : Crates) (laws : Crates.IsLawful c) (z : Zkvm) (zkvm : Zkvm.IsLawful z (guest_main c z))
    (r : ProveRequest) (env : z.Env) (receipt : z.Receipt) (seal : List ℕ)
    → IsRequest r
    → IsDerived laws.digest (journal_fields r) (private_witness r)
    → guest_id_to_image_id z.agenc_guest_id ≡ some trusted_risc0_image_id
    → executor_env z r ≡ ok env
    → z.prove_with_opts env z.agenc_guest_elf ≡ ok receipt
    → z.groth16 receipt ≡ ok seal
    → length seal ≡ 256
    → generate_proof_with_dev_mode c (production z) r none
      ≡ ok (record {
        seal_bytes = encode_seal seal;
        journal = z.journal_bytes receipt;
        image_id = trusted_risc0_image_id;
      })
unfolding generate_proof_with_dev_mode validate_request_semantics ensure_dev_mode_disabled
    generate_proof_real checked_image_id image_id prove_receipt receipt_seal raw_seal
generate_proof_complete c laws z zkvm r env receipt seal h d pinned inputs proved sealed long =
    let valid =
      (validate_iff c laws (journal_fields r) (private_witness r) h.journal_ok h.witness_ok).1 d in
    let journal = checked_journal-ok c z zkvm r env receipt h inputs proved in
    rw (valid, pinned, list_eq_refl trusted_risc0_image_id, inputs, proved, sealed, long, journal)
      refl
