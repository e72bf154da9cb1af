-- ===== src/Guest/UnitTests/Facts.antt =====
-- The fields of the unit tests of guest/src/lib.rs: their widths and bytes, and changed ones.
use agenc_prover.Base.{
  ℕ, ◌<◌, Bool, true, ◌&&◌, All, length, List, [], ◌∷◌, ltb, ◌≡◌, ◌≢◌, refl, ap, arith,
}
use agenc_prover.Guest.Field.{JournalField, zero_field}
use agenc_prover.Guest.Spec.{IsField, IsWitness}
use agenc_prover.Guest.UnitTests.{witness_bytes, test_task, test_agent, flip}

-- A byte list by computation.
bytes : List ℕ → Bool
bytes [] = true
bytes (x ∷ xs) = ltb x 256 && bytes xs

bytes-All : (xs : List ℕ) → bytes xs ≡ true → All (λ x. x < 256) xs
unfolding bytes
bytes-All [] h = tt
bytes-All (x ∷ xs) h = (ground (arith, h), bytes-All xs (ground (arith, h)))

pub flip-IsField : (v : JournalField) → IsField v → IsField (flip v)
unfolding flip
flip-IsField [] h = h
flip-IsField (x ∷ xs) (l, (b, bs)) = (l, (omega arith, bs))

head_of : JournalField → ℕ
head_of [] = 0
head_of (x ∷ xs) = x

pub flip-neq : (v : JournalField) → IsField v → flip v ≢ v
unfolding flip head_of
flip-neq [] (l, b) e = absurd (omega arith)
flip-neq (x ∷ xs) (l, b) e = let h = ap head_of e in absurd (let k = b.0 in omega arith)

by_bytes : (v : JournalField) → length v ≡ 32 → bytes v ≡ true → IsField v
by_bytes v l h = (l, bytes-All v h)

pub salted-IsWitness :
    (salt : JournalField) → IsField salt → IsWitness (record witness_bytes { salt = salt })
unfolding bytes
salted-IsWitness salt h = record {
  output_fields = record {
    field_0 = by_bytes witness_bytes.output.output_0 refl refl;
    field_1 = by_bytes witness_bytes.output.output_1 refl refl;
    field_2 = by_bytes witness_bytes.output.output_2 refl refl;
    field_3 = by_bytes witness_bytes.output.output_3 refl refl;
  };
  salt_field = h;
  agent_secret_field = by_bytes witness_bytes.agent_secret refl refl;
}

pub task-IsField : IsField test_task
unfolding bytes
task-IsField = by_bytes test_task refl refl

pub agent-IsField : IsField test_agent
unfolding bytes
agent-IsField = by_bytes test_agent refl refl

pub salt-IsField : IsField witness_bytes.salt
unfolding bytes
salt-IsField = by_bytes witness_bytes.salt refl refl

pub zero-IsField : IsField zero_field
unfolding bytes
zero-IsField = by_bytes zero_field refl refl

last_salt : JournalField → ℕ
last_salt [] = 0
last_salt (x ∷ []) = x
last_salt (x ∷ y ∷ xs) = last_salt (y ∷ xs)

pub salt_nonzero : witness_bytes.salt ≢ zero_field
unfolding last_salt
salt_nonzero e = let h = ap last_salt e in absurd (omega arith)
