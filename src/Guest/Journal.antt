-- ===== src/Guest/Journal.antt =====
-- guest/src/lib.rs: `JournalFields` and `PrivateWitness` with their methods.
use agenc_prover.Base.{
  ◌>>=◌, ◌>>◌, ℕ, List, [], ◌∷◌, ◌++◌, Option, not, replicate, Text, text, Result, ok, err, lift,
  list_eq, if◌then◌else◌,
}
use agenc_prover.Base.Panics.{copy_chunks}
use agenc_prover.Guest.Crates.{Crates}
use agenc_prover.Guest.Field.{
  JournalField, JournalError, JournalValidationError, zero_field_error, constraint_hash_mismatch,
  output_commitment_mismatch, binding_mismatch, nullifier_mismatch, copy_field, require_non_zero,
  journal_field_len, journal_total_len,
}
use agenc_prover.Guest.Hash.{
  OutputFields, compute_constraint_hash, compute_output_commitment, compute_binding,
  compute_nullifier_from_agent_secret,
}

pub record JournalFields : Type 0 where
  pub task_pda : JournalField
  pub agent_authority : JournalField
  pub constraint_hash : JournalField
  pub output_commitment : JournalField
  pub binding : JournalField
  pub nullifier : JournalField

pub record PrivateWitness : Type 0 where
  pub output : OutputFields
  pub salt : JournalField
  pub agent_secret : JournalField

-- `JournalFields::try_from_slices`.
unfoldable pub journal_try_from_slices :
    (task_pda agent_authority constraint_hash output_commitment binding nullifier : List ℕ)
    → Result JournalFields JournalError
journal_try_from_slices t a c o b n = do
  task_pda ← copy_field (text "task_pda") t
  agent_authority ← copy_field (text "agent_authority") a
  constraint_hash ← copy_field (text "constraint_hash") c
  output_commitment ← copy_field (text "output_commitment") o
  binding ← copy_field (text "binding") b
  nullifier ← copy_field (text "nullifier") n
  ok (record {
    task_pda = task_pda;
    agent_authority = agent_authority;
    constraint_hash = constraint_hash;
    output_commitment = output_commitment;
    binding = binding;
    nullifier = nullifier;
  })

-- `PrivateWitness::try_from_slices`.
unfoldable pub witness_try_from_slices :
    (output_0 output_1 output_2 output_3 salt agent_secret : List ℕ)
    → Result PrivateWitness JournalError
witness_try_from_slices a b c d s k = do
  output_0 ← copy_field (text "output[0]") a
  output_1 ← copy_field (text "output[1]") b
  output_2 ← copy_field (text "output[2]") c
  output_3 ← copy_field (text "output[3]") d
  salt ← copy_field (text "salt") s
  agent_secret ← copy_field (text "agent_secret") k
  ok (record {
    output = record {
      output_0 = output_0;
      output_1 = output_1;
      output_2 = output_2;
      output_3 = output_3;
    };
    salt = salt;
    agent_secret = agent_secret;
  })

-- `Display` of `JournalValidationError`.
unfoldable pub display_validation_error : JournalValidationError → Text
display_validation_error (zero_field_error field) = field ++ text " must be non-zero"
display_validation_error (constraint_hash_mismatch e a) =
    text "constraint_hash does not match derived value"
display_validation_error (output_commitment_mismatch e a) =
    text "output_commitment does not match derived value"
display_validation_error (binding_mismatch e a) = text "binding does not match derived value"
display_validation_error (nullifier_mismatch e a) = text "nullifier does not match derived value"

-- `if actual != expected { return Err(..) }`.
unfoldable pub require_equal :
    (JournalField → JournalField → JournalValidationError)
    → JournalField
    → JournalField
    → Result (Unit {0}) JournalValidationError
require_equal mismatch actual expected =
    if not (list_eq actual expected) then err (mismatch expected actual) else ok tt

unfoldable pub validate_against_witness :
    Crates → JournalFields → PrivateWitness → Result (Unit {0}) JournalValidationError
validate_against_witness c self witness = do
  require_non_zero (text "salt") witness.salt
  constraint_hash ← lift (compute_constraint_hash c witness.output)
  require_equal constraint_hash_mismatch self.constraint_hash constraint_hash
  output_commitment ← lift (compute_output_commitment c witness.output witness.salt)
  require_equal output_commitment_mismatch self.output_commitment output_commitment
  binding ← lift (compute_binding c self.task_pda self.agent_authority output_commitment)
  require_equal binding_mismatch self.binding binding
  nullifier ←
      lift (
        compute_nullifier_from_agent_secret c constraint_hash output_commitment
          witness.agent_secret)
  require_equal nullifier_mismatch self.nullifier nullifier

-- The six fields in order.
abbrev pub field_list : JournalFields → List JournalField
field_list f =
    f.task_pda ∷ f.agent_authority ∷ f.constraint_hash ∷ f.output_commitment ∷ f.binding
    ∷ f.nullifier ∷ []

unfoldable pub to_bytes : JournalFields → Option (List ℕ)
to_bytes self = copy_chunks journal_field_len (replicate journal_total_len 0) (field_list self)

unfoldable pub serialize_journal : JournalFields → Option (List ℕ)
unfolding to_bytes
serialize_journal fields = to_bytes fields
