-- ===== src/Guest/Salt.antt =====
-- The zero test of the salt in guest/src/lib.rs looks at its bytes, and the hashes at its residue.
use agenc_prover.Base.{List, ℕ, ◌%◌, ◌≡◌, ◌≢◌, refl, sym, ap, ◌∙◌, ◌++◌, ok, be_value, be_bytes}
use agenc_prover.Guest.Crates.{Crates, IsLawful}
use agenc_prover.Guest.Field.{JournalField, zero_field}
use agenc_prover.Guest.Hash.{OutputFields, elements, output_commitment_domain_tag}
use agenc_prover.Guest.Journal.{JournalFields, PrivateWitness, validate_against_witness}
use agenc_prover.Guest.Reduce.{modulus, reduce}
use agenc_prover.Guest.Spec.{
  constraint_hash_of, binding_of, nullifier_of, IsJournal, IsWitness, commitment_message,
  output_commitment_of, reduced_fields,
}
use agenc_prover.Guest.Validate.{validate_iff}

reduce-zero : (s : JournalField) → be_value s % modulus ≡ 0 → reduce s ≡ reduce zero_field
unfolding reduce be_value
reduce-zero s e = ap (be_bytes 32) e

zero_commitment :
    (digest : List ℕ → List ℕ) (o : OutputFields) (s : JournalField)
    → be_value s % modulus ≡ 0
    → output_commitment_of digest o s ≡ output_commitment_of digest o zero_field
unfolding output_commitment_of commitment_message
zero_commitment digest o s e =
    ap (λ t. reduce (digest (output_commitment_domain_tag ++ (reduced_fields (elements o) ++ t))))
      (reduce-zero s e)

-- A salt that is a non-zero multiple of the modulus passes the zero test, and then the public
-- fields derived from the zero salt are accepted for it.
pub zero_residue_salt_accepted :
    (c : Crates) (laws : IsLawful c) (f : JournalFields) (w : PrivateWitness)
    → IsJournal f
    → IsWitness w
    → w.salt ≢ zero_field
    → be_value w.salt % modulus ≡ 0
    → f.constraint_hash ≡ constraint_hash_of laws.digest w.output
    → f.output_commitment ≡ output_commitment_of laws.digest w.output zero_field
    → f.binding ≡ binding_of laws.digest f.task_pda f.agent_authority f.output_commitment
    → f.nullifier ≡ nullifier_of laws.digest f.constraint_hash f.output_commitment w.agent_secret
    → validate_against_witness c f w ≡ ok tt
zero_residue_salt_accepted c laws f w hf hw nz z ch oc b n =
    let e = oc ∙ sym (zero_commitment laws.digest w.output w.salt z) in
    (validate_iff c laws f w hf hw).1 (record {
      salt_nonzero = nz;
      constraint_hash_derived = ch;
      output_commitment_derived = e;
      binding_derived = b ∙ ap (binding_of laws.digest f.task_pda f.agent_authority) e;
      nullifier_derived = n ∙ rw (ch, e) refl;
    })
