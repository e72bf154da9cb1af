-- ===== src/Guest/Validate.antt =====
-- `validate_against_witness` of guest/src/lib.rs decides whether the public fields are derived.
use agenc_prover.Base.{
  ◌>>◌, ℕ, List, ◌≡◌, ◌≢◌, refl, sym, ap, ◌∙◌, ◌↔◌, ◌⊎◌, inl, inr, Bool-cases, text, Result, ok,
  err, list_eq, list_eq_iff,
}
use agenc_prover.Guest.Crates.{Crates, IsLawful}
use agenc_prover.Guest.Field.{
  JournalField, JournalValidationError, zero_field_error, constraint_hash_mismatch,
  output_commitment_mismatch, binding_mismatch, nullifier_mismatch, require_non_zero, zero_field,
}
use agenc_prover.Guest.Journal.{
  JournalFields, PrivateWitness, require_equal, validate_against_witness,
}
use agenc_prover.Guest.Reduce.{reduce-IsBytes}
use agenc_prover.Guest.Spec.{
  IsField, IsJournal, IsWitness, IsDerived, constraint_hash_of, output_commitment_of, binding_of,
  nullifier_of,
}
use agenc_prover.Guest.Hashes.{
  compute_constraint_hash_lem, compute_output_commitment_lem, compute_binding_lem,
  compute_nullifier_lem,
}

-- The first check that fails, and the error that reports it.
pub data Rejects (digest : List ℕ → List ℕ) (f : JournalFields) (w : PrivateWitness)
    : JournalValidationError → Type 0 where
  zero_salt : w.salt ≡ zero_field → Rejects digest f w (zero_field_error (text "salt"))
  wrong_constraint_hash :
      w.salt ≢ zero_field
      → f.constraint_hash ≢ constraint_hash_of digest w.output
      → Rejects digest f w
          (constraint_hash_mismatch (constraint_hash_of digest w.output) f.constraint_hash)
  wrong_output_commitment :
      w.salt ≢ zero_field
      → f.constraint_hash ≡ constraint_hash_of digest w.output
      → f.output_commitment ≢ output_commitment_of digest w.output w.salt
      → Rejects digest f w (
          output_commitment_mismatch
            (output_commitment_of digest w.output w.salt)
            f.output_commitment)
  wrong_binding :
      {expected : JournalField}
      → w.salt ≢ zero_field
      → f.constraint_hash ≡ constraint_hash_of digest w.output
      → f.output_commitment ≡ output_commitment_of digest w.output w.salt
      → expected ≡ binding_of digest f.task_pda f.agent_authority f.output_commitment
      → f.binding ≢ expected
      → Rejects digest f w (binding_mismatch expected f.binding)
  wrong_nullifier :
      {expected : JournalField}
      → w.salt ≢ zero_field
      → f.constraint_hash ≡ constraint_hash_of digest w.output
      → f.output_commitment ≡ output_commitment_of digest w.output w.salt
      → f.binding ≡ binding_of digest f.task_pda f.agent_authority f.output_commitment
      → expected ≡ nullifier_of digest f.constraint_hash f.output_commitment w.agent_secret
      → f.nullifier ≢ expected
      → Rejects digest f w (nullifier_mismatch expected f.nullifier)

require_non_zero_cases :
    (v : JournalField)
    → ((v ≢ zero_field) × (require_non_zero (text "salt") v ≡ ok tt))
      ⊎ ((v ≡ zero_field)
          × (require_non_zero (text "salt") v ≡ err (zero_field_error (text "salt"))))
unfolding require_non_zero
require_non_zero_cases v = elim (Bool-cases (list_eq v zero_field)) [
  | inl e ↦ inr ((list_eq_iff v zero_field).0 e, rw e)
  | inr e ↦ inl (λ eq. cc ((list_eq_iff v zero_field).1 eq), rw e)
]

require_equal_cases :
    (m : JournalField → JournalField → JournalValidationError) (a e : JournalField)
    → ((a ≡ e) × (require_equal m a e ≡ ok tt)) ⊎ ((a ≢ e) × (require_equal m a e ≡ err (m e a)))
unfolding require_equal
require_equal_cases m a e = elim (Bool-cases (list_eq a e)) [
  | inl t ↦ inl ((list_eq_iff a e).0 t, rw t)
  | inr t ↦ inr (λ eq. cc ((list_eq_iff a e).1 eq), rw t)
]

module _ (c : Crates) (laws : IsLawful c) (f : JournalFields) (w : PrivateWitness)
    (hf : IsJournal f) (hw : IsWitness w) where
  open laws use {digest, digest-IsBytes}

  abbrev constraint : JournalField
  constraint = constraint_hash_of digest w.output

  abbrev commitment : JournalField
  commitment = output_commitment_of digest w.output w.salt

  constraint-IsField : IsField constraint
  constraint-IsField = unfold constraint_hash_of in reduce-IsBytes _

  commitment-IsField : IsField commitment
  commitment-IsField = unfold output_commitment_of in reduce-IsBytes _

  -- The checks in order, over the reference hashes.
  checks : Result (Unit {0}) JournalValidationError
  checks = do
    require_non_zero (text "salt") w.salt
    require_equal constraint_hash_mismatch f.constraint_hash constraint
    require_equal output_commitment_mismatch f.output_commitment commitment
    require_equal binding_mismatch f.binding
        (binding_of digest f.task_pda f.agent_authority commitment)
    require_equal nullifier_mismatch f.nullifier
        (nullifier_of digest constraint commitment w.agent_secret)

  validate-checks : validate_against_witness c f w ≡ checks
  unfolding validate_against_witness checks
  validate-checks = simp (
    compute_constraint_hash_lem c laws w.output hw.output_fields,
    compute_output_commitment_lem c laws w.output w.salt hw.output_fields hw.salt_field,
    compute_binding_lem c laws f.task_pda f.agent_authority commitment hf.task_pda_field
        hf.agent_authority_field commitment-IsField,
    compute_nullifier_lem c laws constraint commitment w.agent_secret constraint-IsField
        commitment-IsField hw.agent_secret_field,
  )

  -- For 32-byte fields validation never panics: it accepts derived fields, or reports the first
  -- failing check.
  pub validate_decides :
      (IsDerived digest f w × (validate_against_witness c f w ≡ ok tt))
      ⊎ ((e : JournalValidationError) × Rejects digest f w e
          × (validate_against_witness c f w ≡ err e))
  unfolding checks
  validate_decides = rw validate-checks (elim (require_non_zero_cases w.salt) [
    | inr (z, e₀) ↦ inr (_, zero_salt z, rw e₀)
    | inl (z, e₀) ↦
        elim (require_equal_cases constraint_hash_mismatch f.constraint_hash constraint) [
          | inr (p, e₁) ↦ inr (_, wrong_constraint_hash z p, rw (e₀, e₁))
          | inl (p, e₁) ↦
              elim (require_equal_cases output_commitment_mismatch f.output_commitment commitment) [
                | inr (q, e₂) ↦ inr (_, wrong_output_commitment z p q, rw (e₀, e₁, e₂))
                | inl (q, e₂) ↦
                    elim (require_equal_cases binding_mismatch f.binding
                      (binding_of digest f.task_pda f.agent_authority commitment)) [
                        | inr (r, e₃) ↦ inr (_, wrong_binding z p q (rw q) r, rw (e₀, e₁, e₂, e₃))
                        | inl (r, e₃) ↦
                            elim (require_equal_cases nullifier_mismatch f.nullifier
                              (nullifier_of digest constraint commitment w.agent_secret)) [
                                | inr (s, e₄) ↦ inr (
                                  _,
                                  wrong_nullifier z p q (rw q r) (rw (p, q)) s,
                                  rw (e₀, e₁, e₂, e₃, e₄),
                                )
                                | inl (s, e₄) ↦ inl (
                                  record {
                                    salt_nonzero = z;
                                    constraint_hash_derived = p;
                                    output_commitment_derived = q;
                                    binding_derived = r;
                                    nullifier_derived = s;
                                  },
                                  rw (e₀, e₁, e₂, e₃, e₄),
                                )
                              ]
                      ]
              ]
        ]
  ])

  not-IsDerived : {e : JournalValidationError} → Rejects digest f w e → ¬ IsDerived digest f w
  not-IsDerived (zero_salt z) d = d.salt_nonzero z
  not-IsDerived (wrong_constraint_hash z n) d = n d.constraint_hash_derived
  not-IsDerived (wrong_output_commitment z p n) d = n d.output_commitment_derived
  not-IsDerived (wrong_binding z p q x n) d =
      n (d.binding_derived ∙ sym (x ∙ ap (binding_of digest f.task_pda f.agent_authority) q))
  not-IsDerived (wrong_nullifier z p q b x n) d = n (d.nullifier_derived ∙ sym (x ∙ rw (p, q) refl))

  -- For 32-byte fields validation succeeds exactly when the salt is not zero and the public fields
  -- are those that the witness derives.
  pub validate_iff : (validate_against_witness c f w ≡ ok tt) ↔ IsDerived digest f w
  validate_iff = elim validate_decides [
    | inl (d, e) ↦ (λ _. d, λ _. e)
    | inr (x, r, e) ↦ (λ h. cc, λ d. absurd (not-IsDerived r d))
  ]
