-- ===== src/Prover/Sound.antt =====
-- What a proof response of server/src/prover.rs guarantees, and which check answers first.
use agenc_prover.Base.{
  ℕ, ◌≡◌, refl, sym, ap, ◌∙◌, ◌⊎◌, inl, inr, Option-cases, List, Option, none, some, length, Text,
  text, Result, ok, err, ◌>>◌, >>=-eq-ok, map_err-eq-ok, ok_inj, list_eq_iff, arith,
}
use agenc_prover.Guest.Crates.{Crates, IsLawful}
use agenc_prover.Guest.Field.{JournalValidationError}
use agenc_prover.Guest.Journal.{display_validation_error, serialize_journal}
use agenc_prover.Guest.Spec.{IsJournal, IsWitness, IsDerived}
use agenc_prover.Guest.Validate.{Rejects, validate_decides}
use agenc_prover.Prover.Seal.{ImageId, trusted_risc0_image_id, guest_id_to_image_id, encode_seal}
use agenc_prover.Prover.Zkvm.{Zkvm}
use agenc_prover.Prover.Generate.{
  ProveRequest, ProveResponse, ProveError, invalid_request, dev_mode_enabled, prover_failed, Build,
  default_build, production, journal_fields, private_witness, checked_image_id, prove_receipt,
  receipt_seal, checked_journal, image_id, raw_seal, ensure_dev_mode_disabled, dev_mode_env_var,
  validate_request_semantics, executor_env, generate_proof_real, generate_proof_with_dev_mode,
}

pub record IsRequest (r : ProveRequest) : Type 0 where
  pub journal_ok : IsJournal (journal_fields r)
  pub witness_ok : IsWitness (private_witness r)

-- A response that the zkVM `z` backs: the pinned image, a 256-byte seal of a receipt of the
-- request's inputs, and the request's journal.
pub record IsBacked (z : Zkvm) (request : ProveRequest) (response : ProveResponse) : Type 0 where
  pub env : z.Env
  pub receipt : z.Receipt
  pub seal : List ℕ
  pub pinned : guest_id_to_image_id z.agenc_guest_id ≡ some trusted_risc0_image_id
  pub inputs : executor_env z request ≡ ok env
  pub proved : z.prove_with_opts env z.agenc_guest_elf ≡ ok receipt
  pub sealed : z.groth16 receipt ≡ ok seal
  pub seal_length : length seal ≡ 256
  pub returned_seal : response.seal_bytes ≡ encode_seal seal
  pub returned_journal : response.journal ≡ z.journal_bytes receipt
  pub same_journal : serialize_journal (journal_fields request) ≡ some response.journal
  pub returned_image_id : response.image_id ≡ trusted_risc0_image_id

checked_image_id-eq-ok :
    (z : Zkvm) {id : ImageId}
    → checked_image_id z ≡ ok id
    → (guest_id_to_image_id z.agenc_guest_id ≡ some trusted_risc0_image_id)
      × (id ≡ trusted_risc0_image_id)
unfolding checked_image_id image_id
checked_image_id-eq-ok z {id} h = ground (arith, list_eq_iff id trusted_risc0_image_id)

prove_receipt-eq-ok :
    (z : Zkvm) (request : ProveRequest) {receipt : z.Receipt}
    → prove_receipt z request ≡ ok receipt
    → (env : z.Env) × (executor_env z request ≡ ok env)
      × (z.prove_with_opts env z.agenc_guest_elf ≡ ok receipt)
unfolding prove_receipt
prove_receipt-eq-ok z request h =
    let (env, e, h') = >>=-eq-ok (executor_env z request) _ h in (env, e, map_err-eq-ok _ _ h')

receipt_seal-eq-ok :
    (z : Zkvm) (receipt : z.Receipt) {raw : List ℕ}
    → receipt_seal z receipt ≡ ok raw
    → (z.groth16 receipt ≡ ok raw) × (length raw ≡ 256)
unfolding receipt_seal raw_seal
receipt_seal-eq-ok z receipt h = ground arith

checked_journal-eq-ok :
    (z : Zkvm) (request : ProveRequest) (receipt : z.Receipt) {journal : List ℕ}
    → checked_journal z request receipt ≡ ok journal
    → (journal ≡ z.journal_bytes receipt)
      × (serialize_journal (journal_fields request) ≡ some journal)
unfolding checked_journal
checked_journal-eq-ok z request receipt {journal} h =
    elim (Option-cases (serialize_journal (journal_fields request))) [
      | inl e ↦ absurd (ground (arith, e))
      | inr (expected, e) ↦ ground (arith, e, list_eq_iff (z.journal_bytes receipt) expected)
    ]

generate_proof_real-IsBacked :
    (z : Zkvm) (request : ProveRequest) {response : ProveResponse}
    → generate_proof_real z request ≡ ok response
    → IsBacked z request response
unfolding generate_proof_real
generate_proof_real-IsBacked z request {response} h =
    let (id, e0, h0) = >>=-eq-ok (checked_image_id z) _ h in
    let (receipt, e1, h1) = >>=-eq-ok (prove_receipt z request) _ h0 in
    let (raw, e2, h2) = >>=-eq-ok (receipt_seal z receipt) _ h1 in
    let (journal, e3, h3) = >>=-eq-ok (checked_journal z request receipt) _ h2 in
    finish id receipt raw journal e0 e1 e2 e3 (ok_inj h3)
  where
    finish :
        (id : ImageId) (receipt : z.Receipt) (raw journal : List ℕ)
        → checked_image_id z ≡ ok id
        → prove_receipt z request ≡ ok receipt
        → receipt_seal z receipt ≡ ok raw
        → checked_journal z request receipt ≡ ok journal
        → record { seal_bytes = encode_seal raw; journal = journal; image_id = id } ≡ response
        → IsBacked z request response
    finish id receipt raw journal e0 e1 e2 e3 r =
        let (env, inputs, proved) = prove_receipt-eq-ok z request e1 in
        let (pinned, same_id) = checked_image_id-eq-ok z e0 in
        let (sealed, long) = receipt_seal-eq-ok z receipt e2 in
        let (returned, same) = checked_journal-eq-ok z request receipt e3 in
        record {
          env = env;
          receipt = receipt;
          seal = raw;
          pinned = pinned;
          inputs = inputs;
          proved = proved;
          sealed = sealed;
          seal_length = long;
          returned_seal = ap (λ p. p.seal_bytes) (sym r);
          returned_journal = ap (λ p. p.journal) (sym r) ∙ returned;
          same_journal = same ∙ ap (λ p. some p.journal) r;
          returned_image_id = ap (λ p. p.image_id) (sym r) ∙ same_id;
        }

-- What follows a successful validation.
unfoldable pub accepted : Build → ProveRequest → Option Text → Result ProveResponse ProveError
accepted build request (some value) = err (dev_mode_enabled dev_mode_env_var)
accepted default_build request none =
    err
      (prover_failed (text "proof generation requires building with --features production-prover"))
accepted (production z) request none = generate_proof_real z request

after_validation :
    (build : Build) (request : ProveRequest) (dev : Option Text)
    → (do
      ensure_dev_mode_disabled dev
      elim build [
        | production z ↦ generate_proof_real z request
        | default_build ↦ err (
            prover_failed
              (text "proof generation requires building with --features production-prover"))
      ])
      ≡ accepted build request dev
unfolding ensure_dev_mode_disabled accepted
after_validation default_build request none = refl
after_validation (production z) request none = refl
after_validation default_build request (some value) = refl
after_validation (production z) request (some value) = refl

accepted-IsBacked :
    (build : Build) (request : ProveRequest) (dev : Option Text) (response : ProveResponse)
    → accepted build request dev ≡ ok response
    → (dev ≡ none) × ((z : Zkvm) × (build ≡ production z) × IsBacked z request response)
unfolding accepted
accepted-IsBacked default_build request none response h = cc
accepted-IsBacked (production z) request none response h =
    (refl, (z, refl, generate_proof_real-IsBacked z request h))
accepted-IsBacked default_build request (some value) response h = cc
accepted-IsBacked (production z) request (some value) response h = cc

-- The checks answer in this order: the witness, the development mode, the build, and then the zkVM.
-- An invalid request is refused with the message of its first failing check whatever the
-- development mode and the build are, and no zkVM is run.
pub generate_proof_decides :
    (c : Crates) (laws : IsLawful c) (build : Build) (request : ProveRequest) (dev : Option Text)
    → IsRequest request
    → ((e : JournalValidationError) × Rejects laws.digest
          (journal_fields request)
          (private_witness request)
          e
        × (generate_proof_with_dev_mode c build request dev
            ≡ err (invalid_request (display_validation_error e))))
      ⊎ (IsDerived laws.digest (journal_fields request) (private_witness request)
          × (generate_proof_with_dev_mode c build request dev ≡ accepted build request dev))
unfolding generate_proof_with_dev_mode validate_request_semantics ensure_dev_mode_disabled accepted
generate_proof_decides c laws build request dev h =
    elim (validate_decides c laws (journal_fields request) (private_witness request) h.journal_ok
      h.witness_ok) [
        | inl (d, e) ↦ inr (d, rw e (after_validation build request dev))
        | inr (x, r, e) ↦ inl (x, r, rw e)
      ]

-- For a request of 32-byte fields a response is only given for a derived request with the development mode off, by a production
-- build whose zkVM backs it.
pub generate_proof_sound :
    (c : Crates) (laws : IsLawful c) (build : Build) (request : ProveRequest) (dev : Option Text)
    (response : ProveResponse)
    → IsRequest request
    → generate_proof_with_dev_mode c build request dev ≡ ok response
    → IsDerived laws.digest (journal_fields request) (private_witness request)
      × (dev ≡ none)
      × ((z : Zkvm) × (build ≡ production z) × IsBacked z request response)
generate_proof_sound c laws build request dev response h e =
    elim (generate_proof_decides c laws build request dev h) [
      | inl (x, r, e') ↦ cc
      | inr (d, e') ↦
          let (off, backed) = accepted-IsBacked build request dev response (sym e' ∙ e) in
          (d, off, backed)
    ]
