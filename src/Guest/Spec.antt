-- ===== src/Guest/Spec.antt =====
-- What the hashes of guest/src/lib.rs mean: the message that each one digests, and the field that
-- the digest is reduced to.
use agenc_prover.Base.{ℕ, List, [], ◌∷◌, ◌++◌, ◌≡◌, ◌≢◌, IsBytes}
use agenc_prover.Guest.Field.{JournalField, zero_field}
use agenc_prover.Guest.Hash.{
  OutputFields, elements, constraint_hash_domain_tag, output_commitment_domain_tag,
  binding_base_domain_tag, binding_domain_tag, nullifier_domain_tag,
}
use agenc_prover.Guest.Journal.{JournalFields, PrivateWitness}
use agenc_prover.Guest.Reduce.{reduce}

abbrev pub IsField : JournalField → Type 0
IsField = IsBytes 32

pub record IsOutput (o : OutputFields) : Type 0 where
  pub field_0 : IsField o.output_0
  pub field_1 : IsField o.output_1
  pub field_2 : IsField o.output_2
  pub field_3 : IsField o.output_3

pub record IsJournal (f : JournalFields) : Type 0 where
  pub task_pda_field : IsField f.task_pda
  pub agent_authority_field : IsField f.agent_authority
  pub constraint_hash_field : IsField f.constraint_hash
  pub output_commitment_field : IsField f.output_commitment
  pub binding_field : IsField f.binding
  pub nullifier_field : IsField f.nullifier

pub record IsWitness (w : PrivateWitness) : Type 0 where
  pub output_fields : IsOutput w.output
  pub salt_field : IsField w.salt
  pub agent_secret_field : IsField w.agent_secret

-- The reduced fields one after the other.
unfoldable pub reduced_fields : List JournalField → List ℕ
reduced_fields [] = []
reduced_fields (v ∷ vs) = reduce v ++ reduced_fields vs

unfoldable pub constraint_message : OutputFields → List ℕ
constraint_message o = constraint_hash_domain_tag ++ reduced_fields (elements o)

unfoldable pub commitment_message : OutputFields → JournalField → List ℕ
commitment_message o salt =
    output_commitment_domain_tag ++ (reduced_fields (elements o) ++ reduce salt)

unfoldable pub binding_base_message : JournalField → JournalField → List ℕ
binding_base_message task agent = binding_base_domain_tag ++ reduced_fields (task ∷ agent ∷ [])

unfoldable pub binding_message : JournalField → JournalField → List ℕ
binding_message base commitment = binding_domain_tag ++ reduced_fields (base ∷ commitment ∷ [])

unfoldable pub nullifier_message : JournalField → JournalField → JournalField → List ℕ
nullifier_message constraint commitment secret =
    nullifier_domain_tag ++ reduced_fields (constraint ∷ commitment ∷ secret ∷ [])

module _ (digest : List ℕ → List ℕ) where
  unfoldable pub constraint_hash_of : OutputFields → JournalField
  constraint_hash_of o = reduce (digest (constraint_message o))

  unfoldable pub output_commitment_of : OutputFields → JournalField → JournalField
  output_commitment_of o salt = reduce (digest (commitment_message o salt))

  unfoldable pub binding_of : JournalField → JournalField → JournalField → JournalField
  binding_of task agent commitment =
      reduce
        (digest (binding_message (reduce (digest (binding_base_message task agent))) commitment))

  -- The nullifier is the digest itself, with no reduction.
  unfoldable pub nullifier_of : JournalField → JournalField → JournalField → JournalField
  nullifier_of constraint commitment secret =
      digest (nullifier_message constraint commitment secret)

  -- The public fields are the ones that the witness derives.
  pub record IsDerived (f : JournalFields) (w : PrivateWitness) : Type 0 where
    pub salt_nonzero : w.salt ≢ zero_field
    pub constraint_hash_derived : f.constraint_hash ≡ constraint_hash_of w.output
    pub output_commitment_derived : f.output_commitment ≡ output_commitment_of w.output w.salt
    pub binding_derived :
        f.binding ≡ binding_of f.task_pda f.agent_authority (output_commitment_of w.output w.salt)
    pub nullifier_derived :
        f.nullifier
        ≡ nullifier_of
            (constraint_hash_of w.output)
            (output_commitment_of w.output w.salt)
            w.agent_secret
