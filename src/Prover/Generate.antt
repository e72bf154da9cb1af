-- ===== src/Prover/Generate.antt =====
-- server/src/prover.rs: the request, the errors and the chain of checks around the zkVM.
use agenc_prover.Base.{
  ◌>>=◌, ◌>>◌, ℕ, not, List, [], ◌∷◌, ◌++◌, Option, none, some, length, Text, text, decimal, Result,
  ok, err, lift, map_err, list_eq, ◌==◌, if◌then◌else◌,
}
use agenc_prover.Guest.Crates.{Crates}
use agenc_prover.Guest.Field.{JournalField, journal_total_len}
use agenc_prover.Guest.Hash.{OutputFields}
use agenc_prover.Guest.Journal.{
  JournalFields, PrivateWitness, validate_against_witness, display_validation_error,
  serialize_journal,
}
use agenc_prover.Prover.Seal.{
  ImageId, trusted_risc0_image_id, seal_proof_len, guest_id_to_image_id, encode_seal,
  render_image_id,
}
use agenc_prover.Prover.Zkvm.{Zkvm}

pub record ProveRequest : Type 0 where
  pub task_pda : JournalField
  pub agent_authority : JournalField
  pub constraint_hash : JournalField
  pub output_commitment : JournalField
  pub binding : JournalField
  pub nullifier : JournalField
  pub output : OutputFields
  pub salt : JournalField
  pub agent_secret : JournalField

abbrev pub journal_fields : ProveRequest → JournalFields
journal_fields r = record {
  task_pda = r.task_pda;
  agent_authority = r.agent_authority;
  constraint_hash = r.constraint_hash;
  output_commitment = r.output_commitment;
  binding = r.binding;
  nullifier = r.nullifier;
}

abbrev pub private_witness : ProveRequest → PrivateWitness
private_witness r = record { output = r.output; salt = r.salt; agent_secret = r.agent_secret }

pub record ProveResponse : Type 0 where
  pub seal_bytes : List ℕ
  pub journal : List ℕ
  pub image_id : ImageId

pub data ProveError : Type 0 where
  unexpected_journal_length : (expected actual : ℕ) → ProveError
  untrusted_image_id : (expected actual : ImageId) → ProveError
  dev_mode_enabled : (variable : Text) → ProveError
  invalid_request prover_failed receipt_type_mismatch : (message : Text) → ProveError

-- `Display`; the debug form `{:?}` of an array is its `render_image_id` in square brackets.
unfoldable pub display_prove_error : ProveError → Text
display_prove_error (unexpected_journal_length expected actual) =
    text "unexpected journal length: expected "
    ++ (decimal expected ++ (text ", got " ++ decimal actual))
display_prove_error (untrusted_image_id expected actual) =
    text "compiled guest image_id does not match trusted pinned image_id: expected ["
    ++ (render_image_id expected ++ (text "], got [" ++ (render_image_id actual ++ text "]")))
display_prove_error (dev_mode_enabled variable) =
    variable ++ text " is set; refusing to generate proof output"
display_prove_error (invalid_request message) = text "invalid prove request: " ++ message
display_prove_error (prover_failed message) = text "prover failed: " ++ message
display_prove_error (receipt_type_mismatch message) = text "receipt type mismatch: " ++ message

-- The two builds: without and with the feature `production-prover`.
pub data Build : Type 1 where
  default_build : Build
  production : Zkvm → Build

unfoldable pub image_id : Build → Option ImageId
image_id default_build = some trusted_risc0_image_id
image_id (production z) = guest_id_to_image_id z.agenc_guest_id

unfoldable pub dev_mode_env_var : Text
dev_mode_env_var = text "RISC0_DEV_MODE"

-- `dev_mode_value` is the environment variable, if it is set.
unfoldable pub ensure_dev_mode_disabled : Option Text → Result (Unit {0}) ProveError
ensure_dev_mode_disabled none = ok tt
ensure_dev_mode_disabled (some value) = err (dev_mode_enabled dev_mode_env_var)

unfoldable pub validate_request_semantics : Crates → ProveRequest → Result (Unit {0}) ProveError
validate_request_semantics c request =
    map_err (validate_against_witness c (journal_fields request) (private_witness request))
      (λ e. invalid_request (display_validation_error e))

abbrev pub public_fields : ProveRequest → List (Text × JournalField)
public_fields r =
    (text "task_pda", r.task_pda)
    ∷ (text "agent_authority", r.agent_authority)
    ∷ (text "constraint_hash", r.constraint_hash)
    ∷ (text "output_commitment", r.output_commitment)
    ∷ (text "binding", r.binding)
    ∷ (text "nullifier", r.nullifier)
    ∷ []

abbrev pub witness_fields : ProveRequest → List (Text × JournalField)
witness_fields r =
    (text "output[0]", r.output.output_0)
    ∷ (text "output[1]", r.output.output_1)
    ∷ (text "output[2]", r.output.output_2)
    ∷ (text "output[3]", r.output.output_3)
    ∷ (text "salt", r.salt)
    ∷ (text "agent_secret", r.agent_secret)
    ∷ []

module _ (z : Zkvm) where
  open z use {Builder, Env, Receipt, write}

  -- `for (name, field) in fields { builder.write(*field).map_err(..)?; }`
  unfoldable pub write_fields : Builder → List (Text × JournalField) → Result Builder ProveError
  write_fields builder [] = ok builder
  write_fields builder ((name, field) ∷ fields) = do
    next ←
        map_err (write builder field)
          (λ e. prover_failed (text "failed to write " ++ (name ++ (text ": " ++ e))))
    write_fields next fields

  -- The executor environment of a request.
  unfoldable pub executor_env : ProveRequest → Result Env ProveError
  executor_env request = do
    with_public ← write_fields z.builder (public_fields request)
    with_witness ← write_fields with_public (witness_fields request)
    map_err (z.build with_witness) (λ e. prover_failed (text "failed to build executor env: " ++ e))

  -- `groth16.seal.clone().try_into()`.
  unfoldable pub raw_seal : List ℕ → Result (List ℕ) ProveError
  raw_seal seal =
      if length seal == seal_proof_len
      then ok seal
      else err (
          prover_failed (
            text "Groth16 seal is "
            ++ (decimal (length seal) ++ (text " bytes, expected " ++ decimal seal_proof_len))))

  -- The compiled guest must be the pinned one.
  unfoldable pub checked_image_id : Result ImageId ProveError
  checked_image_id = do
    current_image_id ← lift (image_id (production z))
    if list_eq current_image_id trusted_risc0_image_id
        then ok current_image_id
        else err (untrusted_image_id trusted_risc0_image_id current_image_id)

  unfoldable pub prove_receipt : ProveRequest → Result Receipt ProveError
  prove_receipt request = do
    env ← executor_env request
    map_err (z.prove_with_opts env z.agenc_guest_elf)
        (λ e. prover_failed (text "Groth16 proving failed: " ++ e))

  unfoldable pub receipt_seal : Receipt → Result (List ℕ) ProveError
  receipt_seal receipt = do
    seal ←
        map_err (z.groth16 receipt)
          (λ e. receipt_type_mismatch (text "expected Groth16 receipt: " ++ e))
    raw_seal seal

  -- The receipt's journal, if it is the request's.
  unfoldable pub checked_journal : ProveRequest → Receipt → Result (List ℕ) ProveError
  checked_journal request receipt =
      let journal = z.journal_bytes receipt in
      if not (length journal == journal_total_len)
      then err (unexpected_journal_length journal_total_len (length journal))
      else (do
        expected_journal ← lift (serialize_journal (journal_fields request))
        if list_eq journal expected_journal
            then ok journal
            else err (
                prover_failed (text "prover returned journal that does not match expected fields")))

  unfoldable pub generate_proof_real : ProveRequest → Result ProveResponse ProveError
  generate_proof_real request = do
    current_image_id ← checked_image_id
    receipt ← prove_receipt request
    raw ← receipt_seal receipt
    journal ← checked_journal request receipt
    ok (record { seal_bytes = encode_seal raw; journal = journal; image_id = current_image_id })

unfoldable pub generate_proof_with_dev_mode :
    Crates → Build → ProveRequest → Option Text → Result ProveResponse ProveError
generate_proof_with_dev_mode c build request dev_mode_value = do
  validate_request_semantics c request
  ensure_dev_mode_disabled dev_mode_value
  elim build [
    | production z ↦ generate_proof_real z request
    | default_build ↦ err (
        prover_failed (text "proof generation requires building with --features production-prover"))
  ]

-- `env` is `std::env::var_os`.
unfoldable pub generate_proof :
    Crates → Build → (Text → Option Text) → ProveRequest → Result ProveResponse ProveError
generate_proof c build env request =
    generate_proof_with_dev_mode c build request (env dev_mode_env_var)
