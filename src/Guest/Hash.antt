-- ===== src/Guest/Hash.antt =====
-- guest/src/lib.rs: the domain-separated hashes. `none` is a panic.
use agenc_prover.Base.Panics.{◌>>=◌}
use agenc_prover.Base.{List, [], ◌∷◌, Option, some, Text, text}
use agenc_prover.Guest.Crates.{Crates}
use agenc_prover.Guest.Field.{JournalField, normalize_field_bytes, digest_to_field_bytes}

unfoldable pub constraint_hash_domain_tag : Text
constraint_hash_domain_tag = text "AGENC_V2_CONSTRAINT_HASH"

unfoldable pub output_commitment_domain_tag : Text
output_commitment_domain_tag = text "AGENC_V2_OUTPUT_COMMITMENT"

unfoldable pub binding_base_domain_tag : Text
binding_base_domain_tag = text "AGENC_V2_BINDING_BASE"

unfoldable pub binding_domain_tag : Text
binding_domain_tag = text "AGENC_V2_BINDING"

unfoldable pub nullifier_domain_tag : Text
nullifier_domain_tag = text "AGENC_V2_NULLIFIER"

-- `[JournalField; OUTPUT_FIELD_COUNT]`.
pub record OutputFields : Type 0 where
  pub output_0 : JournalField
  pub output_1 : JournalField
  pub output_2 : JournalField
  pub output_3 : JournalField

abbrev pub elements : OutputFields → List JournalField
elements o = o.output_0 ∷ o.output_1 ∷ o.output_2 ∷ o.output_3 ∷ []

module _ (c : Crates) where
  open c use {Hasher, new, update, finalize}

  -- `for value in values { hasher.update(normalize_field_bytes(value)); }`
  unfoldable pub update_fields : Hasher → List JournalField → Option Hasher
  update_fields hasher [] = some hasher
  update_fields hasher (value ∷ values) = do
    bytes ← normalize_field_bytes c value
    update_fields (update hasher bytes) values

  unfoldable pub hash_fields_to_field : Text → List JournalField → Option JournalField
  hash_fields_to_field domain_tag values = do
    hasher ← update_fields (update new domain_tag) values
    digest_to_field_bytes c (finalize hasher)

  unfoldable pub compute_constraint_hash : OutputFields → Option JournalField
  compute_constraint_hash output = hash_fields_to_field constraint_hash_domain_tag (elements output)

  unfoldable pub compute_output_commitment : OutputFields → JournalField → Option JournalField
  compute_output_commitment output salt = do
    hasher ← update_fields (update new output_commitment_domain_tag) (elements output)
    salt_bytes ← normalize_field_bytes c salt
    digest_to_field_bytes c (finalize (update hasher salt_bytes))

  unfoldable pub compute_binding : JournalField → JournalField → JournalField → Option JournalField
  compute_binding task_pda agent_authority output_commitment = do
    binding_base ← hash_fields_to_field binding_base_domain_tag (task_pda ∷ agent_authority ∷ [])
    hash_fields_to_field binding_domain_tag (binding_base ∷ output_commitment ∷ [])

  unfoldable pub compute_nullifier_from_agent_secret :
      JournalField → JournalField → JournalField → Option JournalField
  compute_nullifier_from_agent_secret constraint_hash output_commitment agent_secret = do
    constraint_bytes ← normalize_field_bytes c constraint_hash
    commitment_bytes ← normalize_field_bytes c output_commitment
    secret_bytes ← normalize_field_bytes c agent_secret
    let h₁ = update (update new nullifier_domain_tag) constraint_bytes
    some (finalize (update (update h₁ commitment_bytes) secret_bytes))
