-- ===== src/Guest/Separation.antt =====
-- Domain separation of the hashes of guest/src/lib.rs: what hashes of different domains share.
use agenc_prover.Base.{
  ℕ, ◌+◌, ◌*◌, ◌≡◌, ◌≢◌, refl, sym, ap, ◌∙◌, List, [], ◌∷◌, ◌++◌, Option, some, length,
  length-append, Text, text, arith,
}
use agenc_prover.Guest.Crates.{Crates, IsLawful}
use agenc_prover.Guest.Field.{JournalField}
use agenc_prover.Guest.Hash.{
  OutputFields, elements, constraint_hash_domain_tag, output_commitment_domain_tag,
  binding_base_domain_tag, binding_domain_tag, nullifier_domain_tag, hash_fields_to_field,
  compute_constraint_hash, compute_output_commitment, compute_binding,
  compute_nullifier_from_agent_secret,
}
use agenc_prover.Guest.Hashes.{
  hash_fields_to_field_lem, compute_constraint_hash_lem, compute_output_commitment_lem,
  compute_binding_lem, compute_nullifier_lem,
}
use agenc_prover.Guest.Reduce.{reduce, reduce-IsBytes, reduce-reduce}
use agenc_prover.Guest.Spec.{
  IsField, IsOutput, reduced_fields, constraint_message, commitment_message, binding_base_message,
  binding_message, nullifier_message, constraint_hash_of, output_commitment_of, binding_of,
  nullifier_of,
}
use agenc_prover.Guest.Residues.{length-reduced_fields}

-- What a hash of the guest is asked for. The first hash inside `compute_binding` is a query too.
pub data Query : Type 0 where
  constraint : OutputFields → Query
  commitment : OutputFields → JournalField → Query
  binding_base : JournalField → JournalField → Query
  binding nullifier : JournalField → JournalField → JournalField → Query

pub data Domain : Type 0 where
  constraint_domain commitment_domain binding_base_domain binding_domain nullifier_domain : Domain

unfoldable pub domain : Query → Domain
domain (constraint o) = constraint_domain
domain (commitment o s) = commitment_domain
domain (binding_base t a) = binding_base_domain
domain (binding t a o) = binding_domain
domain (nullifier x y z) = nullifier_domain

-- The fields of a query have 32 bytes each.
pub data IsQuery : Query → Type 0 where
  constraint_fields : {o : OutputFields} → IsOutput o → IsQuery (constraint o)
  commitment_fields :
      {o : OutputFields} {s : JournalField} → IsOutput o → IsField s → IsQuery (commitment o s)
  binding_base_fields : {t a : JournalField} → IsField t → IsField a → IsQuery (binding_base t a)
  binding_fields :
      {t a o : JournalField} → IsField t → IsField a → IsField o → IsQuery (binding t a o)
  nullifier_fields :
      {x y z : JournalField} → IsField x → IsField y → IsField z → IsQuery (nullifier x y z)

unfoldable pub tag : Domain → Text
tag constraint_domain = constraint_hash_domain_tag
tag commitment_domain = output_commitment_domain_tag
tag binding_base_domain = binding_base_domain_tag
tag binding_domain = binding_domain_tag
tag nullifier_domain = nullifier_domain_tag

-- The code's hash of a query.
unfoldable pub hashed : Crates → Query → Option JournalField
hashed c (constraint o) = compute_constraint_hash c o
hashed c (commitment o s) = compute_output_commitment c o s
hashed c (binding_base t a) = hash_fields_to_field c binding_base_domain_tag (t ∷ a ∷ [])
hashed c (binding t a o) = compute_binding c t a o
hashed c (nullifier x y z) = compute_nullifier_from_agent_secret c x y z

-- The bytes that come after the tag in what the hash digests last.
unfoldable pub body : (List ℕ → List ℕ) → Query → List ℕ
body digest (constraint o) = reduced_fields (elements o)
body digest (commitment o s) = reduced_fields (elements o) ++ reduce s
body digest (binding_base t a) = reduced_fields (t ∷ a ∷ [])
body digest (binding t a o) = reduced_fields (reduce (digest (binding_base_message t a)) ∷ o ∷ [])
body digest (nullifier x y z) = reduced_fields (x ∷ y ∷ z ∷ [])

abbrev pub message : (List ℕ → List ℕ) → Query → List ℕ
message digest q = tag (domain q) ++ body digest q

-- The value of the hash: the digest, which only the nullifier leaves unreduced.
unfoldable pub value : (List ℕ → List ℕ) → Query → JournalField
value digest (nullifier x y z) = digest (message digest (nullifier x y z))
value digest q = reduce (digest (message digest q))

reduce-value :
    (digest : List ℕ → List ℕ) (q : Query)
    → reduce (value digest q) ≡ reduce (digest (message digest q))
unfolding value
reduce-value digest (constraint o) = reduce-reduce _
reduce-value digest (commitment o s) = reduce-reduce _
reduce-value digest (binding_base t a) = reduce-reduce _
reduce-value digest (binding t a o) = reduce-reduce _
reduce-value digest (nullifier x y z) = refl

pub hashed-value :
    (c : Crates) (laws : IsLawful c) (q : Query)
    → IsQuery q
    → hashed c q ≡ some (value laws.digest q)
unfolding hashed value domain tag body constraint_hash_of output_commitment_of binding_of
    nullifier_of constraint_message commitment_message binding_base_message binding_message
    nullifier_message
hashed-value c laws _ (constraint_fields {o} h) = compute_constraint_hash_lem c laws o h
hashed-value c laws _ (commitment_fields {o} {s} h k) = compute_output_commitment_lem c laws o s h k
hashed-value c laws _ (binding_base_fields {t} {a} h k) =
    hash_fields_to_field_lem c laws binding_base_domain_tag (t ∷ a ∷ []) (h.1, (k.1, tt))
hashed-value c laws _ (binding_fields {t} {a} {o} h k l) = compute_binding_lem c laws t a o h k l
hashed-value c laws _ (nullifier_fields {x} {y} {z} h k l) =
    compute_nullifier_lem c laws x y z h k l

size : Domain → ℕ
size constraint_domain = 152
size commitment_domain = 186
size binding_base_domain = 85
size binding_domain = 80
size nullifier_domain = 114

size_inj : (d e : Domain) → size d ≡ size e → d ≡ e
unfolding size
size_inj d e h = ground arith

tagged_length :
    (t : Text) (vs : List JournalField)
    → length (t ++ reduced_fields vs) ≡ length t + length vs * 32
tagged_length t vs = omega (arith, length-append t (reduced_fields vs), length-reduced_fields vs)

length-message :
    (digest : List ℕ → List ℕ) (q : Query) → length (message digest q) ≡ size (domain q)
unfolding domain tag body size text constraint_hash_domain_tag output_commitment_domain_tag
    binding_base_domain_tag binding_domain_tag nullifier_domain_tag
length-message digest (constraint o) = tagged_length constraint_hash_domain_tag (elements o)
length-message digest (commitment o s) = omega (
  arith,
  length-append output_commitment_domain_tag (reduced_fields (elements o) ++ reduce s),
  length-append (reduced_fields (elements o)) (reduce s),
  length-reduced_fields (elements o),
  (reduce-IsBytes s).0,
)
length-message digest (binding_base t a) = tagged_length binding_base_domain_tag (t ∷ a ∷ [])
length-message digest (binding t a o) = tagged_length binding_domain_tag (_ ∷ o ∷ [])
length-message digest (nullifier x y z) = tagged_length nullifier_domain_tag (x ∷ y ∷ z ∷ [])

tag_inj : (d e : Domain) → tag d ≡ tag e → d ≡ e
unfolding tag text constraint_hash_domain_tag output_commitment_domain_tag binding_base_domain_tag
    binding_domain_tag nullifier_domain_tag
tag_inj d e h = ground arith

-- What equal hashes of two queries come to.
pub record Clash (digest : List ℕ → List ℕ) (q r : Query) : Type 0 where
  pub other_tags : tag (domain q) ≢ tag (domain r)
  pub other_messages : message digest q ≢ message digest r
  pub same_residue : reduce (digest (message digest q)) ≡ reduce (digest (message digest r))

some_field_inj : {x y : JournalField} → some x ≡ some y → x ≡ y
some_field_inj e = ground arith

-- When the code computes one hash for two queries of different domains, with fields of 32 bytes each,
-- the two domains have different tags, and the two messages, each its tag and the reduced fields, are
-- a collision of the digest reduced modulo the field: different messages of the same residue. This
-- holds although one tag is a prefix of another.
pub equal_hashes-Clash :
    (c : Crates) (laws : IsLawful c) (q r : Query)
    → IsQuery q
    → IsQuery r
    → domain q ≢ domain r
    → hashed c q ≡ hashed c r
    → Clash laws.digest q r
equal_hashes-Clash c laws q r hq hr apart same = record {
  other_tags = λ e. apart (tag_inj (domain q) (domain r) e);
  other_messages = λ e. apart (
      size_inj (domain q) (domain r)
        (sym (length-message laws.digest q) ∙ ap length e ∙ length-message laws.digest r));
  same_residue =
      sym (reduce-value laws.digest q)
      ∙ ap reduce
          (some_field_inj (sym (hashed-value c laws q hq) ∙ same ∙ hashed-value c laws r hr))
      ∙ reduce-value laws.digest r;
}
