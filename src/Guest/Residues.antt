-- ===== src/Guest/Residues.antt =====
-- Fields of guest/src/lib.rs that stand for one element of the scalar field, and digests that collide.
use agenc_prover.Base.{
  ℕ, ◌%◌, ◌≡◌, ◌≢◌, refl, sym, ap, ◌∙◌, ◌⊎◌, inl, inr, Bool-cases, List, [], ◌∷◌, ◌++◌, length,
  append_inj, be_value, be_bytes, length-append, ◌*◌, list_eq, list_eq_iff, arith,
}
use agenc_prover.Guest.Field.{JournalField}
use agenc_prover.Guest.Reduce.{modulus, reduce, reduce-IsBytes, reduce-reduce, be_value-reduce}
use agenc_prover.Guest.Spec.{reduced_fields}

-- Two fields that stand for the same element of the scalar field.
abbrev pub SameResidue : JournalField → JournalField → Type 0
SameResidue x y = be_value x % modulus ≡ be_value y % modulus

abbrev pub SameResidues : List JournalField → List JournalField → Type 0
SameResidues [] [] = Unit {0}
SameResidues [] (y ∷ ys) = ⊥
SameResidues (x ∷ xs) [] = ⊥
SameResidues (x ∷ xs) (y ∷ ys) = SameResidue x y × SameResidues xs ys

-- These two messages are different, and `f` takes them to one result.
abbrev pub Collides : (List ℕ → List ℕ) → List ℕ → List ℕ → Type 0
Collides f m n = (m ≢ n) × (f m ≡ f n)

pub length-reduced_fields : (xs : List JournalField) → length (reduced_fields xs) ≡ length xs * 32
unfolding reduced_fields
length-reduced_fields [] = refl
length-reduced_fields (x ∷ xs) = omega (
  arith,
  length-append (reduce x) (reduced_fields xs),
  length-reduced_fields xs,
  (reduce-IsBytes x).0,
)

pub reduce-SameResidue : (x y : JournalField) → reduce x ≡ reduce y → SameResidue x y
reduce-SameResidue x y e = sym (be_value-reduce x) ∙ ap be_value e ∙ be_value-reduce y

pub reduced_fields-SameResidues :
    (xs ys : List JournalField)
    → length xs ≡ length ys
    → reduced_fields xs ≡ reduced_fields ys
    → SameResidues xs ys
unfolding reduced_fields
reduced_fields-SameResidues [] [] l e = tt
reduced_fields-SameResidues [] (y ∷ ys) l e = absurd (omega arith)
reduced_fields-SameResidues (x ∷ xs) [] l e = absurd (omega arith)
reduced_fields-SameResidues (x ∷ xs) (y ∷ ys) l e =
    let (p, q) =
      append_inj (reduce x) (reduced_fields xs) (reduce y) (reduced_fields ys)
        ((reduce-IsBytes x).0 ∙ sym (reduce-IsBytes y).0) e in
    (reduce-SameResidue x y p, reduced_fields-SameResidues xs ys (omega arith) q)

pub reduced_fields_lengths :
    (xs ys : List JournalField)
    → length xs ≡ length ys
    → length (reduced_fields xs) ≡ length (reduced_fields ys)
reduced_fields_lengths xs ys e =
    length-reduced_fields xs ∙ ap (λ (n : ℕ). n * 32) e ∙ sym (length-reduced_fields ys)

pub collide : (f : List ℕ → List ℕ) (m n : List ℕ) → f m ≡ f n → (m ≡ n) ⊎ Collides f m n
collide f m n e = elim (Bool-cases (list_eq m n)) [
  | inl t ↦ inl ((list_eq_iff m n).0 t)
  | inr t ↦ inr (λ eq. cc ((list_eq_iff m n).1 eq), e)
]

-- Messages under one tag.
pub same_tag :
    (tag : List ℕ) (xs ys : List JournalField)
    → length xs ≡ length ys
    → tag ++ reduced_fields xs ≡ tag ++ reduced_fields ys
    → SameResidues xs ys
same_tag tag xs ys l e = reduced_fields-SameResidues xs ys l (append_inj tag _ tag _ refl e).1

pub SameResidue-reduce : (x y : JournalField) → SameResidue x y → reduce x ≡ reduce y
unfolding reduce
SameResidue-reduce x y e = ap (be_bytes 32) e

-- Results of the reduction that stand for one element are equal.
pub canonical : (m n : List ℕ) → SameResidue (reduce m) (reduce n) → reduce m ≡ reduce n
canonical m n e = sym (reduce-reduce m) ∙ SameResidue-reduce _ _ e ∙ reduce-reduce n
