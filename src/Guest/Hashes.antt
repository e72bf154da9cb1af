-- ===== src/Guest/Hashes.antt =====
-- The hash functions of guest/src/lib.rs compute what `Guest/Spec.antt` says, and never panic.
use mathlib.Core.List.{append-nil, append_assoc}
use agenc_prover.Base.{ℕ, ◌≡◌, refl, sym, ap, ◌∙◌, List, [], ◌∷◌, ◌++◌, some, All, IsByte, Text}
use agenc_prover.Guest.Crates.{Crates, IsLawful}
use agenc_prover.Guest.Field.{JournalField, digest_to_field_bytes}
use agenc_prover.Guest.Hash.{
  OutputFields, elements, update_fields, hash_fields_to_field, compute_constraint_hash,
  compute_output_commitment, compute_binding, compute_nullifier_from_agent_secret,
  output_commitment_domain_tag, binding_base_domain_tag, binding_domain_tag,
}
use agenc_prover.Guest.Reduce.{
  reduce, reduce-IsBytes, normalize_field_bytes-reduce, digest_to_field_bytes-reduce,
}
use agenc_prover.Guest.Spec.{
  IsField, IsOutput, reduced_fields, constraint_message, commitment_message, binding_base_message,
  binding_message, nullifier_message, constraint_hash_of, output_commitment_of, binding_of,
  nullifier_of,
}

elements-All : (o : OutputFields) → IsOutput o → All (All IsByte) (elements o)
elements-All o h = (h.field_0.1, (h.field_1.1, (h.field_2.1, (h.field_3.1, tt))))

module _ (c : Crates) (laws : IsLawful c) where
  open c use {Hasher, new, update, finalize}
  open laws use {digest, digest-IsBytes, absorbed, absorbed-new, absorbed-update, finalize-digest}

  update_fields-absorbed :
      (h : Hasher) (vs : List JournalField)
      → All (All IsByte) vs
      → (g : Hasher) × (update_fields c h vs ≡ some g)
        × (absorbed g ≡ absorbed h ++ reduced_fields vs)
  unfolding update_fields reduced_fields
  update_fields-absorbed h [] b = (h, refl, sym (append-nil (absorbed h)))
  update_fields-absorbed h (v ∷ vs) b =
      let (g, runs, text) = update_fields-absorbed (update h (reduce v)) vs b.1 in
      (
        g,
        rw (normalize_field_bytes-reduce c laws v b.0) runs,
        rw (text, absorbed-update h (reduce v))
            (append_assoc (absorbed h) (reduce v) (reduced_fields vs)),
      )

  -- From a new hasher that has read the tag.
  tagged :
      (tag : Text) (vs : List JournalField)
      → All (All IsByte) vs
      → (g : Hasher) × (update_fields c (update new tag) vs ≡ some g)
        × (absorbed g ≡ tag ++ reduced_fields vs)
  tagged tag vs b =
      let (g, runs, text) = update_fields-absorbed (update new tag) vs b in
      (g, runs, rw (text, absorbed-update new tag, absorbed-new) refl)

  finalized : (g : Hasher) {m : List ℕ} → absorbed g ≡ m → finalize g ≡ digest m
  finalized g e = finalize-digest g ∙ ap digest e

  reduced_digest :
      (g : Hasher) {m : List ℕ}
      → absorbed g ≡ m
      → digest_to_field_bytes c (finalize g) ≡ some (reduce (digest m))
  reduced_digest g {m} e =
      rw (finalized g e) (digest_to_field_bytes-reduce c laws (digest m) (digest-IsBytes m).1)

  pub hash_fields_to_field_lem :
      (tag : Text) (vs : List JournalField)
      → All (All IsByte) vs
      → hash_fields_to_field c tag vs ≡ some (reduce (digest (tag ++ reduced_fields vs)))
  unfolding hash_fields_to_field
  hash_fields_to_field_lem tag vs b =
      let (g, runs, text) = tagged tag vs b in rw runs (reduced_digest g text)

  pub compute_constraint_hash_lem :
      (o : OutputFields)
      → IsOutput o
      → compute_constraint_hash c o ≡ some (constraint_hash_of digest o)
  unfolding compute_constraint_hash constraint_hash_of constraint_message
  compute_constraint_hash_lem o h = hash_fields_to_field_lem _ (elements o) (elements-All o h)

  pub compute_output_commitment_lem :
      (o : OutputFields) (salt : JournalField)
      → IsOutput o
      → IsField salt
      → compute_output_commitment c o salt ≡ some (output_commitment_of digest o salt)
  unfolding compute_output_commitment output_commitment_of commitment_message
  compute_output_commitment_lem o salt h s =
      let (g, runs, text) = tagged output_commitment_domain_tag (elements o) (elements-All o h) in
      rw (runs, normalize_field_bytes-reduce c laws salt s.1)
        (reduced_digest (update g (reduce salt)) (
          absorbed-update g (reduce salt)
          ∙ ap (λ m. m ++ reduce salt) text
          ∙ append_assoc output_commitment_domain_tag (reduced_fields (elements o)) (reduce salt)))

  pub compute_binding_lem :
      (task agent commitment : JournalField)
      → IsField task
      → IsField agent
      → IsField commitment
      → compute_binding c task agent commitment ≡ some (binding_of digest task agent commitment)
  unfolding compute_binding binding_of binding_message binding_base_message
  compute_binding_lem task agent commitment t a o =
      rw (hash_fields_to_field_lem binding_base_domain_tag (task ∷ agent ∷ []) (t.1, (a.1, tt)))
        (hash_fields_to_field_lem binding_domain_tag _ ((reduce-IsBytes _).1, (o.1, tt)))

  pub compute_nullifier_lem :
      (constraint commitment secret : JournalField)
      → IsField constraint
      → IsField commitment
      → IsField secret
      → compute_nullifier_from_agent_secret c constraint commitment secret
        ≡ some (nullifier_of digest constraint commitment secret)
  unfolding compute_nullifier_from_agent_secret nullifier_of nullifier_message reduced_fields
  compute_nullifier_lem constraint commitment secret x y z =
      rw
        (
          normalize_field_bytes-reduce c laws constraint x.1,
          normalize_field_bytes-reduce c laws commitment y.1,
          normalize_field_bytes-reduce c laws secret z.1,
        )
        (ap some (finalized _ (simp (absorbed-update, absorbed-new, append_assoc, append-nil))))
