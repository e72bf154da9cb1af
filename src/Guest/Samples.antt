-- ===== src/Guest/Samples.antt =====
-- Concrete crates in the place of num-bigint and sha2, and a request of guest/src/lib.rs that
-- satisfies every check: the hash is the last 32 bytes of the message.
use agenc_prover.Base.{
  ℕ, zero, suc, ◌+◌, ◌*◌, ◌%◌, ◌^◌, ◌<◌, ◌≤◌, ◌≡◌, refl, ◌∙◌, List, [], ◌∷◌, ◌++◌, All, IsByte,
  IsBytes, length, be_value, be_bytes, be_value-be_bytes, be_bytes-All, be_bytes-IsBytes, pow-pos,
  replicate, All-replicate, length-replicate, arith, ◌==◌, ==_iff, if◌then◌else◌, inl, inr,
  Bool-cases, ok,
}
use native.Mathlib.Nat.{mod-lt, pow-suc, pow-le-pow_right}
use agenc_prover.Guest.Crates
use agenc_prover.Guest.Crates.{Crates}
use agenc_prover.Guest.Field.{JournalField}
use agenc_prover.Guest.Hash.{OutputFields}
use agenc_prover.Guest.Journal.{JournalFields, PrivateWitness, validate_against_witness}
use agenc_prover.Guest.Reduce.{reduce-IsBytes}
use agenc_prover.Guest.Validate.{validate_iff}
use agenc_prover.Guest.Spec.{
  IsField, IsOutput, IsJournal, IsWitness, IsDerived, constraint_hash_of, output_commitment_of,
  binding_of, nullifier_of,
}

-- A number's bytes without leading zeros.
strip : List ℕ → List ℕ
strip [] = []
strip (x ∷ xs) = let rest = strip xs in if x == 0 then rest else x ∷ xs

be_value-strip : (xs : List ℕ) → be_value (strip xs) ≡ be_value xs
unfolding strip be_value
be_value-strip [] = refl
be_value-strip (x ∷ xs) = ground (arith, be_value-strip xs)

strip-All : (xs : List ℕ) → All IsByte xs → All IsByte (strip xs)
unfolding strip
strip-All [] h = tt
strip-All (x ∷ xs) h = elim (Bool-cases (x == 0)) [
  | inl e ↦ rw e (strip-All xs h.1)
  | inr e ↦ rw e h
]

below_power : (n : ℕ) → n < 256 ^ n
below_power zero = omega arith
below_power (suc n) = omega (arith, below_power n, pow-suc 256 n)

power_le : (n k : ℕ) → 256 ^ k < 256 ^ n → k < n
power_le n k h = ground (arith, λ (p : n ≤ k). pow-le-pow_right {n = 256} (omega arith) p)

strip_minimal : (n : ℕ) (xs : List ℕ) → 0 < n → be_value xs < 256 ^ n → length (strip xs) ≤ n
unfolding strip be_value
strip_minimal n [] p h = omega arith
strip_minimal n (x ∷ xs) p h = elim (Bool-cases (x == 0)) [
  | inl e ↦
      (let z : x ≡ 0 = (==_iff x 0).0 e in
        let h' : 0 * 256 ^ length xs + be_value xs < 256 ^ n = rw z at h in
        rw e (strip_minimal n xs p (omega arith)))
  | inr e ↦
      (let z : 0 < x = ground arith in
        let q : 256 ^ length xs ≤ x * 256 ^ length xs = grind arith in
        rw e (power_le n (length xs) (omega arith)))
]

sample_digest : List ℕ → List ℕ
sample_digest m = be_bytes 32 (be_value m % 256 ^ 32)

sample_digest-IsBytes : (m : List ℕ) → IsBytes 32 (sample_digest m)
unfolding sample_digest
sample_digest-IsBytes m = be_bytes-IsBytes 32 _ (mod-lt (be_value m) (pow-pos 32))

pub sample_crates : Crates
sample_crates = record {
  BigUint = ℕ;
  from_bytes_be = be_value;
  rem = λ a b. a % b;
  to_bytes_be = λ v. strip (be_bytes v v);
  Hasher = List ℕ;
  new = [];
  update = λ h bs. h ++ bs;
  finalize = sample_digest;
}

pub sample_laws : Crates.IsLawful sample_crates
unfolding sample_crates
sample_laws = record {
  value = λ v. v;
  value-from_bytes_be = λ bs h. refl;
  value-rem = λ a b h. refl;
  be_value-to_bytes_be = λ a. be_value-strip (be_bytes a a) ∙ be_value-be_bytes a a (below_power a);
  to_bytes_be-All = λ a. strip-All (be_bytes a a) (be_bytes-All a a (below_power a));
  to_bytes_be_minimal =
      λ n a p h. strip_minimal n (be_bytes a a) p (rw (be_value-be_bytes a a (below_power a)) h);
  digest = sample_digest;
  digest-IsBytes = sample_digest-IsBytes;
  absorbed = λ h. h;
  absorbed-new = refl;
  absorbed-update = λ h bs. refl;
  finalize-digest = λ h. refl;
}

-- A field of one repeated byte.
abbrev pub byte_field : ℕ → JournalField
byte_field b = replicate 32 b

pub byte_field-IsField : (b : ℕ) → b < 256 → IsField (byte_field b)
byte_field-IsField b h = (length-replicate 32 b, All-replicate IsByte 32 b h)

-- The same crates with a hash that takes every message to zeros.
pub constant_crates : Crates
constant_crates = record sample_crates { finalize = λ h. byte_field 0 }

pub constant_laws : Crates.IsLawful constant_crates
unfolding constant_crates sample_crates sample_laws
constant_laws = record {
  value = λ v. v;
  value-from_bytes_be = λ bs h. refl;
  value-rem = λ a b h. refl;
  be_value-to_bytes_be = sample_laws.be_value-to_bytes_be;
  to_bytes_be-All = sample_laws.to_bytes_be-All;
  to_bytes_be_minimal = sample_laws.to_bytes_be_minimal;
  digest = λ m. byte_field 0;
  digest-IsBytes = λ m. byte_field-IsField 0 (omega arith);
  absorbed = λ h. h;
  absorbed-new = refl;
  absorbed-update = λ h bs. refl;
  finalize-digest = λ h. refl;
}

pub constant_digest : (m n : List ℕ) → constant_laws.digest m ≡ constant_laws.digest n
unfolding constant_laws
constant_digest m n = refl

abbrev pub sample_output : OutputFields
sample_output = record {
  output_0 = byte_field 5;
  output_1 = byte_field 6;
  output_2 = byte_field 7;
  output_3 = byte_field 8;
}

-- The witness with that byte in the agent secret.
abbrev pub witness_of : ℕ → PrivateWitness
witness_of k = record { output = sample_output; salt = byte_field 3; agent_secret = byte_field k }

abbrev pub sample_witness : PrivateWitness
sample_witness = witness_of 4

-- The public fields that a witness derives for a task and the agent 2.
abbrev pub derived_journal : ℕ → PrivateWitness → JournalFields
derived_journal t w =
    let d = sample_laws.digest in
    let o = output_commitment_of d w.output w.salt in
    let h = constraint_hash_of d w.output in
    record {
      task_pda = byte_field t;
      agent_authority = byte_field 2;
      constraint_hash = h;
      output_commitment = o;
      binding = binding_of d (byte_field t) (byte_field 2) o;
      nullifier = nullifier_of d h o w.agent_secret;
    }

pub derived_journal-IsJournal :
    (t : ℕ) (w : PrivateWitness) → t < 256 → IsJournal (derived_journal t w)
unfolding constraint_hash_of output_commitment_of binding_of nullifier_of
derived_journal-IsJournal t w h = record {
  task_pda_field = byte_field-IsField t h;
  agent_authority_field = byte_field-IsField 2 (omega arith);
  constraint_hash_field = reduce-IsBytes _;
  output_commitment_field = reduce-IsBytes _;
  binding_field = reduce-IsBytes _;
  nullifier_field = sample_laws.digest-IsBytes _;
}

sample_output-IsOutput : IsOutput sample_output
sample_output-IsOutput = record {
  field_0 = byte_field-IsField 5 (omega arith);
  field_1 = byte_field-IsField 6 (omega arith);
  field_2 = byte_field-IsField 7 (omega arith);
  field_3 = byte_field-IsField 8 (omega arith);
}

pub witness_of-IsWitness : (k : ℕ) → k < 256 → IsWitness (witness_of k)
witness_of-IsWitness k h = record {
  output_fields = sample_output-IsOutput;
  salt_field = byte_field-IsField 3 (omega arith);
  agent_secret_field = byte_field-IsField k h;
}

pub sample-IsDerived :
    (t k : ℕ) → IsDerived sample_laws.digest (derived_journal t (witness_of k)) (witness_of k)
sample-IsDerived t k = record {
  salt_nonzero = λ e. (ground arith);
  constraint_hash_derived = refl;
  output_commitment_derived = refl;
  binding_derived = refl;
  nullifier_derived = refl;
}

pub sample_valid :
    (t k : ℕ)
    → t < 256
    → k < 256
    → validate_against_witness sample_crates (derived_journal t (witness_of k)) (witness_of k)
      ≡ ok tt
sample_valid t k ht hk =
    (validate_iff sample_crates sample_laws (derived_journal t (witness_of k)) (witness_of k)
        (derived_journal-IsJournal t (witness_of k) ht) (witness_of-IsWitness k hk)).1
      (sample-IsDerived t k)
