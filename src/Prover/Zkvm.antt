-- ===== src/Prover/Zkvm.antt =====
-- What server/src/prover.rs and methods/guest/src/main.rs use of the crate risc0-zkvm and of the
-- generated crate agenc-zkvm-methods.
use agenc_prover.Base.{ℕ, ◌≡◌, List, [], ◌∷◌, ◌++◌, Option, some, Text, Result, ok}
use agenc_prover.Guest.Field.{JournalField}

pub record Zkvm : Type 1 where
  -- `ExecutorEnv::builder()`, `write` of a 32-byte array and `build`.
  pub Builder : Type 0
  pub Env : Type 0
  pub builder : Builder
  pub write : Builder → JournalField → Result Builder Text
  pub build : Builder → Result Env Text
  -- `env::read` in the guest; `none` is its panic.
  pub read : Env → Option (JournalField × Env)
  -- `default_prover().prove_with_opts(env, AGENC_GUEST_ELF, &ProverOpts::groth16())`.
  pub Elf : Type 0
  pub agenc_guest_elf : Elf
  pub agenc_guest_id : List ℕ
  pub Receipt : Type 0
  pub prove_with_opts : Env → Elf → Result Receipt Text
  -- The seal of `receipt.inner.groth16()`, and `receipt.journal.bytes`.
  pub groth16 : Receipt → Result (List ℕ) Text
  pub journal_bytes : Receipt → List ℕ

-- The documented behaviour: the guest reads what the host wrote, in order, and a receipt of the
-- guest's ELF exists only for a run that ended without a panic and holds the bytes it committed.
pub record IsLawful (z : Zkvm) (guest : z.Env → Result (List ℕ) Text) : Type 0 where
  pub pending : z.Builder → List JournalField
  pub contents : z.Env → List JournalField
  pub pending-builder : pending z.builder ≡ []
  pub pending-write :
      (b b' : z.Builder) (f : JournalField) → z.write b f ≡ ok b' → pending b' ≡ pending b ++ f ∷ []
  pub contents-build : (b : z.Builder) (e : z.Env) → z.build b ≡ ok e → contents e ≡ pending b
  pub read-contents :
      (e : z.Env) (x : JournalField) (xs : List JournalField)
      → contents e ≡ x ∷ xs
      → (e' : z.Env) × (z.read e ≡ some (x, e')) × (contents e' ≡ xs)
  pub journal_committed :
      (e : z.Env) (r : z.Receipt)
      → z.prove_with_opts e z.agenc_guest_elf ≡ ok r
      → guest e ≡ ok (z.journal_bytes r)
