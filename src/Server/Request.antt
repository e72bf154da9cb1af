-- ===== src/Server/Request.antt =====
-- server/src/main.rs: the request as it comes from JSON, and its conversion to fixed widths.
pub mod Widths
pub mod Fields
use agenc_prover.Base.{
  ◌>>=◌, ℕ, List, [], ◌∷◌, ◌++◌, length, Text, text, decimal, Result, ok, err, ◌==◌, if◌then◌else◌,
}
use agenc_prover.Guest.Field.{JournalField}
use agenc_prover.Guest.Hash.{OutputFields}
use agenc_prover.Prover.Generate
use agenc_prover.Server.Errors.{AppError, bad_request}

abbrev pub field_len : ℕ
field_len = 32

abbrev pub output_count : ℕ
output_count = 4

pub record ProveRequest : Type 0 where
  pub task_pda : List ℕ
  pub agent_authority : List ℕ
  pub constraint_hash : List ℕ
  pub output_commitment : List ℕ
  pub binding : List ℕ
  pub nullifier : List ℕ
  pub output : List (List ℕ)
  pub salt : List ℕ
  pub agent_secret : List ℕ

unfoldable pub vec_to_field : Text → List ℕ → Result JournalField AppError
vec_to_field name bytes =
    if length bytes == field_len
    then ok bytes
    else err (
        bad_request (
          name
          ++ (text " must be exactly "
              ++ (decimal field_len ++ (text " bytes, got " ++ decimal (length bytes))))))

unfoldable pub output_count_error : ℕ → AppError
output_count_error n = bad_request (
    text "output must contain exactly "
    ++ (decimal output_count ++ (text " field elements, got " ++ decimal n)))

-- `Vec<Vec<u8>>` to `[[u8; FIELD_LEN]; OUTPUT_COUNT]`.
unfoldable pub try_into_fixed_output : List (List ℕ) → Result OutputFields AppError
unfolding output_count_error
try_into_fixed_output (o0 ∷ o1 ∷ o2 ∷ o3 ∷ []) = do
  output_0 ← vec_to_field (text "output[0]") o0
  output_1 ← vec_to_field (text "output[1]") o1
  output_2 ← vec_to_field (text "output[2]") o2
  output_3 ← vec_to_field (text "output[3]") o3
  ok (record { output_0 = output_0; output_1 = output_1; output_2 = output_2; output_3 = output_3 })
try_into_fixed_output values = err (output_count_error (length values))

unfoldable pub try_into_fixed : ProveRequest → Result Generate.ProveRequest AppError
try_into_fixed self = do
  output ← try_into_fixed_output self.output
  task_pda ← vec_to_field (text "task_pda") self.task_pda
  agent_authority ← vec_to_field (text "agent_authority") self.agent_authority
  constraint_hash ← vec_to_field (text "constraint_hash") self.constraint_hash
  output_commitment ← vec_to_field (text "output_commitment") self.output_commitment
  binding ← vec_to_field (text "binding") self.binding
  nullifier ← vec_to_field (text "nullifier") self.nullifier
  salt ← vec_to_field (text "salt") self.salt
  agent_secret ← vec_to_field (text "agent_secret") self.agent_secret
  ok (record {
    task_pda = task_pda;
    agent_authority = agent_authority;
    constraint_hash = constraint_hash;
    output_commitment = output_commitment;
    binding = binding;
    nullifier = nullifier;
    output = output;
    salt = salt;
    agent_secret = agent_secret;
  })
