-- ===== src/GuestProgram/Samples.antt =====
-- A concrete zkVM in the place of risc0-zkvm, which runs the guest program, and a request for it.
use agenc_prover.Base.{
  ℕ, ◌≡◌, refl, sym, ap, ◌∙◌, List, [], ◌∷◌, ◌++◌, Option, none, some, Text, text, Result, ok, err,
  panic, replicate, arith, ok_inj,
}
use agenc_prover.Base.Panics.{copy_chunks, copy_from_slice}
use agenc_prover.Guest.Field.{JournalField}
use agenc_prover.Guest.Samples.{
  sample_crates, sample_witness, derived_journal, derived_journal-IsJournal, witness_of-IsWitness,
  sample_valid,
}
use agenc_prover.Guest.Layout.{serialize_journal_roundtrip}
use agenc_prover.Guest.Journal.{serialize_journal}
use agenc_prover.Prover.Seal.{trusted_risc0_image_id, guest_id_to_image_id, to_le_bytes}
use agenc_prover.Prover.Zkvm
use agenc_prover.Prover.Zkvm.{Zkvm}
use agenc_prover.Prover.Generate.{
  ProveRequest, journal_fields, private_witness, executor_env, write_fields,
}
use agenc_prover.Prover.Sound.{IsRequest}
use agenc_prover.GuestProgram.{guest_main}
use agenc_prover.GuestProgram.Receipts.{checked, executor_env-checked, inputs}

read_first : List JournalField → Option (JournalField × List JournalField)
read_first [] = none
read_first (x ∷ xs) = some (x, xs)

receipt_of : Result (List ℕ) Text → Result (List ℕ) Text
receipt_of (ok journal) = ok journal
receipt_of (err message) = err message
receipt_of panic = err (text "guest panicked")

-- The zkVM with that prover.
abbrev with_prover : (List JournalField → Result (List ℕ) Text) → Zkvm
with_prover prove = record {
  Builder = List JournalField;
  Env = List JournalField;
  builder = [];
  write = λ b f. ok (b ++ f ∷ []);
  build = λ b. ok b;
  read = read_first;
  Elf = Unit {0};
  agenc_guest_elf = tt;
  agenc_guest_id =
      1_022_075_555 ∷ 3_089_670_366 ∷ 898_064_310 ∷ 1_479_208_743 ∷ 2_182_458_164 ∷ 294_640_399
      ∷ 1_303_976_664 ∷ 340_009_566 ∷ [];
  Receipt = List ℕ;
  prove_with_opts = λ env elf. prove env;
  groth16 = λ receipt. ok (replicate 256 0);
  journal_bytes = λ receipt. receipt;
}

pub sample_zkvm : Zkvm
sample_zkvm =
    with_prover (λ env. receipt_of (guest_main sample_crates (with_prover (λ e. err [])) env))

-- What the guest does does not depend on the prover.
guest_main_same :
    (p q : List JournalField → Result (List ℕ) Text) (env : List JournalField)
    → guest_main sample_crates (with_prover p) env ≡ guest_main sample_crates (with_prover q) env
unfolding guest_main
guest_main_same p q env = refl

receipt_of-eq-ok : (x : Result (List ℕ) Text) (r : List ℕ) → receipt_of x ≡ ok r → x ≡ ok r
unfolding receipt_of
receipt_of-eq-ok (ok j) r h = h
receipt_of-eq-ok (err m) r h = cc
receipt_of-eq-ok panic r h = cc

pub sample_zkvm_laws : Zkvm.IsLawful sample_zkvm (guest_main sample_crates sample_zkvm)
unfolding sample_zkvm read_first
sample_zkvm_laws = record {
  pending = λ b. b;
  contents = λ e. e;
  pending-builder = refl;
  pending-write = λ b b' f h. sym (ok_inj h);
  contents-build = λ b e h. sym (ok_inj h);
  read-contents = λ e x xs h. (xs, ap read_first h, refl);
  journal_committed = λ e r h. guest_main_same _ _ e ∙ receipt_of-eq-ok _ r h;
}

abbrev pub sample_request : ProveRequest
sample_request =
    let f = derived_journal 1 sample_witness in
    record {
      task_pda = f.task_pda;
      agent_authority = f.agent_authority;
      constraint_hash = f.constraint_hash;
      output_commitment = f.output_commitment;
      binding = f.binding;
      nullifier = f.nullifier;
      output = sample_witness.output;
      salt = sample_witness.salt;
      agent_secret = sample_witness.agent_secret;
    }

pub sample_request-IsRequest : IsRequest sample_request
sample_request-IsRequest = record {
  journal_ok = derived_journal-IsJournal 1 sample_witness (omega arith);
  witness_ok = witness_of-IsWitness 4 (omega arith);
}

-- The run of the host's inputs, step by step.
sample_guest :
    (journal : List ℕ)
    → serialize_journal (journal_fields sample_request) ≡ some journal
    → checked sample_crates (journal_fields sample_request) (private_witness sample_request)
      ≡ ok journal
unfolding checked
sample_guest journal e = rw (sample_valid 1 4 (omega arith) (omega arith), e) refl

pub sample_journal :
    (journal : List ℕ) × (serialize_journal (journal_fields sample_request) ≡ some journal)
sample_journal =
    let (journal, e, bytes, back) =
      serialize_journal_roundtrip (journal_fields sample_request)
        sample_request-IsRequest.journal_ok in
    (journal, e)

pub sample_env : sample_zkvm.Env
unfolding sample_zkvm
sample_env = inputs sample_request

pub sample_inputs : executor_env sample_zkvm sample_request ≡ ok sample_env
unfolding executor_env write_fields sample_zkvm sample_env
sample_inputs = refl

pub sample_receipt : sample_zkvm.Receipt
unfolding sample_zkvm
sample_receipt = sample_journal.0

pub sample_proved :
    sample_zkvm.prove_with_opts sample_env sample_zkvm.agenc_guest_elf ≡ ok sample_receipt
unfolding receipt_of sample_zkvm sample_env sample_receipt
sample_proved = ap receipt_of (
    guest_main_same _ _ (inputs sample_request)
    ∙ executor_env-checked sample_crates sample_zkvm sample_zkvm_laws sample_request sample_inputs
    ∙ sample_guest (sample_journal.0) (sample_journal.1))

pub sample_pinned : guest_id_to_image_id sample_zkvm.agenc_guest_id ≡ some trusted_risc0_image_id
unfolding sample_zkvm guest_id_to_image_id trusted_risc0_image_id to_le_bytes copy_chunks
    copy_from_slice
sample_pinned = refl

abbrev pub sample_seal : List ℕ
sample_seal = replicate 256 0

pub sample_sealed : sample_zkvm.groth16 sample_receipt ≡ ok sample_seal
unfolding sample_zkvm
sample_sealed = refl
