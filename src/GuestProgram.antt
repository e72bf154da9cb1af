-- ===== src/GuestProgram.antt =====
-- methods/guest/src/main.rs: the program that the zkVM runs.
pub mod Receipts
pub mod Complete
pub mod Samples
pub mod Tests
use agenc_prover.Base.{ok, ◌>>=◌, ◌>>◌, ℕ, List, Text, Result, lift, map_err}
use agenc_prover.Guest.Crates.{Crates}
use agenc_prover.Guest.Journal.{
  JournalFields, PrivateWitness, validate_against_witness, display_validation_error,
  serialize_journal,
}
use agenc_prover.Prover.Zkvm.{Zkvm}

-- The bytes that `env::commit_slice` commits. `err message` is `panic!("{err}")` of a failed
-- validation, `panic` any other.
unfoldable pub guest_main : Crates → (z : Zkvm) → z.Env → Result (List ℕ) Text
guest_main c z e0 = do
  (task_pda, e1) ← lift (z.read e0)
  (agent_authority, e2) ← lift (z.read e1)
  (constraint_hash, e3) ← lift (z.read e2)
  (output_commitment, e4) ← lift (z.read e3)
  (binding, e5) ← lift (z.read e4)
  (nullifier, e6) ← lift (z.read e5)
  (output_0, e7) ← lift (z.read e6)
  (output_1, e8) ← lift (z.read e7)
  (output_2, e9) ← lift (z.read e8)
  (output_3, e10) ← lift (z.read e9)
  (salt, e11) ← lift (z.read e10)
  (agent_secret, e12) ← lift (z.read e11)
  let fields : JournalFields = record {
    task_pda = task_pda;
    agent_authority = agent_authority;
    constraint_hash = constraint_hash;
    output_commitment = output_commitment;
    binding = binding;
    nullifier = nullifier;
  }
  let witness : PrivateWitness = record {
    output = record {
      output_0 = output_0;
      output_1 = output_1;
      output_2 = output_2;
      output_3 = output_3;
    };
    salt = salt;
    agent_secret = agent_secret;
  }
  map_err (validate_against_witness c fields witness) display_validation_error
  lift (serialize_journal fields)
