-- ===== src/Guest/Binding.antt =====
-- What the hashes of guest/src/lib.rs commit to: equal results mean equal inputs modulo the field
-- modulus, or exhibit a collision of the digest.
use agenc_prover.Base.{ℕ, ◌≡◌, refl, sym, ◌∙◌, ◌⊎◌, inl, inr, List, [], ◌∷◌, append_inj, ok}
use agenc_prover.Guest.Crates.{Crates, IsLawful}
use agenc_prover.Guest.Field.{JournalField}
use agenc_prover.Guest.Hash.{
  OutputFields, elements, output_commitment_domain_tag, binding_domain_tag, binding_base_domain_tag,
  nullifier_domain_tag,
}
use agenc_prover.Guest.Journal.{JournalFields, PrivateWitness, validate_against_witness}
use agenc_prover.Guest.Reduce.{reduce}
use agenc_prover.Guest.Spec.{
  constraint_hash_of, IsJournal, IsWitness, IsDerived, reduced_fields, commitment_message,
  binding_base_message, binding_message, nullifier_message, output_commitment_of, binding_of,
  nullifier_of,
}
use agenc_prover.Guest.Validate.{validate_iff}
use agenc_prover.Guest.Residues.{
  SameResidue, SameResidues, Collides, reduce-SameResidue, reduced_fields-SameResidues,
  reduced_fields_lengths, collide, same_tag, canonical,
}

module _ (digest : List ℕ → List ℕ) where
  abbrev pub digest_field : List ℕ → JournalField
  digest_field m = reduce (digest m)

  output_commitment_of-SameResidues :
      (o o' : OutputFields) (s s' : JournalField)
      → output_commitment_of digest o s ≡ output_commitment_of digest o' s'
      → SameResidues (s ∷ elements o) (s' ∷ elements o')
        ⊎ Collides digest_field (commitment_message o s) (commitment_message o' s')
  unfolding output_commitment_of commitment_message
  output_commitment_of-SameResidues o o' s s' e = elim (collide digest_field _ _ e) [
    | inl m ↦
        let tag = output_commitment_domain_tag in
        let body = (append_inj tag _ tag _ refl m).1 in
        let (p, q) =
          append_inj (reduced_fields (elements o)) _ (reduced_fields (elements o')) _
            (reduced_fields_lengths (elements o) (elements o') refl) body in
        inl
          (reduce-SameResidue s s' q, reduced_fields-SameResidues (elements o) (elements o') refl p)
    | inr k ↦ inr k
  ]

  binding_of-SameResidues :
      (t a o t' a' o' : JournalField)
      → binding_of digest t a o ≡ binding_of digest t' a' o'
      → SameResidues (t ∷ a ∷ o ∷ []) (t' ∷ a' ∷ o' ∷ [])
        ⊎ (Collides digest_field
              (binding_message (digest_field (binding_base_message t a)) o)
              (binding_message (digest_field (binding_base_message t' a')) o')
            ⊎ Collides digest_field (binding_base_message t a) (binding_base_message t' a'))
  unfolding binding_of binding_message binding_base_message
  binding_of-SameResidues t a o t' a' o' e = elim (collide digest_field _ _ e) [
    | inl m ↦
        let (base, rest) =
          same_tag binding_domain_tag (digest_field _ ∷ o ∷ []) (digest_field _ ∷ o' ∷ []) refl m in
        elim (collide digest_field _ _ (canonical _ _ base)) [
          | inl n ↦
              let (p, q) = same_tag binding_base_domain_tag (t ∷ a ∷ []) (t' ∷ a' ∷ []) refl n in
              inl (p, (q.0, rest))
          | inr k ↦ inr (inr k)
        ]
    | inr k ↦ inr (inl k)
  ]

  nullifier_of-SameResidues :
      (x y z x' y' z' : JournalField)
      → nullifier_of digest x y z ≡ nullifier_of digest x' y' z'
      → SameResidues (x ∷ y ∷ z ∷ []) (x' ∷ y' ∷ z' ∷ [])
        ⊎ Collides digest (nullifier_message x y z) (nullifier_message x' y' z')
  unfolding nullifier_of nullifier_message
  nullifier_of-SameResidues x y z x' y' z' e = elim (collide digest _ _ e) [
    | inl m ↦ inl (same_tag nullifier_domain_tag _ _ refl m)
    | inr k ↦ inr k
  ]

  -- Commitments that stand for one element were derived from the same outputs and salt.
  commitment_residue-SameResidues :
      (o o' : OutputFields) (s s' : JournalField)
      → SameResidue (output_commitment_of digest o s) (output_commitment_of digest o' s')
      → SameResidues (s ∷ elements o) (s' ∷ elements o')
        ⊎ Collides digest_field (commitment_message o s) (commitment_message o' s')
  commitment_residue-SameResidues o o' s s' e =
      output_commitment_of-SameResidues o o' s s' (unfold output_commitment_of in canonical _ _ e)

module _ (digest : List ℕ → List ℕ) where
  -- The message of the binding that a request derives.
  abbrev pub derived_binding_message : JournalFields → PrivateWitness → List ℕ
  derived_binding_message f w =
      binding_message (digest_field digest (binding_base_message f.task_pda f.agent_authority))
        (output_commitment_of digest w.output w.salt)

  -- The message of the nullifier that a request derives.
  abbrev pub derived_nullifier_message : PrivateWitness → List ℕ
  derived_nullifier_message w =
      nullifier_message (constraint_hash_of digest w.output)
        (output_commitment_of digest w.output w.salt) w.agent_secret

  -- A collision among the messages behind the bindings of two requests.
  abbrev pub BindingCollides : (f f' : JournalFields) (w w' : PrivateWitness) → Type 0
  BindingCollides f f' w w' =
      Collides (digest_field digest) (derived_binding_message f w) (derived_binding_message f' w')
      ⊎ (Collides (digest_field digest) (binding_base_message f.task_pda f.agent_authority)
            (binding_base_message f'.task_pda f'.agent_authority)
          ⊎ Collides (digest_field digest) (commitment_message w.output w.salt)
              (commitment_message w'.output w'.salt))

  -- A collision among the messages behind the nullifiers of two requests.
  abbrev pub NullifierCollides : (w w' : PrivateWitness) → Type 0
  NullifierCollides w w' =
      Collides digest (derived_nullifier_message w) (derived_nullifier_message w')
      ⊎ Collides (digest_field digest) (commitment_message w.output w.salt)
          (commitment_message w'.output w'.salt)

module _ (c : Crates) (laws : IsLawful c) (f f' : JournalFields) (w w' : PrivateWitness)
    (hf : IsJournal f) (hf' : IsJournal f') (hw : IsWitness w) (hw' : IsWitness w')
    (accepted : validate_against_witness c f w ≡ ok tt)
    (accepted' : validate_against_witness c f' w' ≡ ok tt) where
  d : IsDerived laws.digest f w
  d = (validate_iff c laws f w hf hw).0 accepted

  d' : IsDerived laws.digest f' w'
  d' = (validate_iff c laws f' w' hf' hw').0 accepted'

  -- Two accepted requests with one binding agree, modulo the field modulus, in the task, the agent,
  -- the salt and the four outputs, or the reduced digest collides on their own messages: those of
  -- the binding, of its base or of the output commitment.
  pub accepted_binding_binds :
      f.binding ≡ f'.binding
      → SameResidues
          (f.task_pda ∷ f.agent_authority ∷ w.salt ∷ elements w.output)
          (f'.task_pda ∷ f'.agent_authority ∷ w'.salt ∷ elements w'.output)
        ⊎ BindingCollides laws.digest f f' w w'
  accepted_binding_binds e =
      elim (binding_of-SameResidues laws.digest _ _ _ _ _ _
        (sym d.binding_derived ∙ e ∙ d'.binding_derived)) [
          | inr (inl k) ↦ inr (inl k)
          | inr (inr k) ↦ inr (inr (inl k))
          | inl (p, (q, (r, _))) ↦ elim (commitment_residue-SameResidues laws.digest _ _ _ _ r) [
            | inr k ↦ inr (inr (inr k))
            | inl s ↦ inl (p, (q, s))
          ]
        ]

  -- Two accepted requests with one nullifier agree, modulo the field modulus, in the agent secret,
  -- the salt and the four outputs, or the digest collides on their own nullifier messages, or the
  -- reduced digest on their commitment messages.
  pub accepted_nullifier_binds :
      f.nullifier ≡ f'.nullifier
      → SameResidues
          (w.agent_secret ∷ w.salt ∷ elements w.output)
          (w'.agent_secret ∷ w'.salt ∷ elements w'.output)
        ⊎ NullifierCollides laws.digest w w'
  accepted_nullifier_binds e =
      elim (nullifier_of-SameResidues laws.digest _ _ _ _ _ _
        (sym d.nullifier_derived ∙ e ∙ d'.nullifier_derived)) [
          | inr k ↦ inr (inl k)
          | inl (p, (q, (r, _))) ↦ elim (commitment_residue-SameResidues laws.digest _ _ _ _ q) [
            | inr k ↦ inr (inr k)
            | inl s ↦ inl (r, s)
          ]
        ]
