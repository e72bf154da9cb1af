-- ===== src/Prover/Negate.antt =====
-- The seal encoding of server/src/prover.rs negates the y coordinate of the first point.
use mathlib.Core.List.{append_assoc}
use agenc_prover.Base.{
  ℕ, zero, suc, pow-pos, ◌+◌, ◌-◌, ◌*◌, ◌%◌, ◌^◌, ◌≤◌, ◌<◌, ◌≡◌, ◌≢◌, refl, sym, ap, ◌∙◌, inl, inr,
  Bool-cases, List, [], ◌∷◌, ◌++◌, length, replicate, take-append, drop-append, length-append,
  All-append, All-replicate, IsByte, IsBytes, be_value, be_value_inj, arith, true, ◌↔◌,
  if◌then◌else◌,
}
use agenc_prover.Prover.Seal.{
  subtract_be_bytes, bn254_field_modulus_q, all_zero, negate_g1, negate_pi_a, encode_seal,
  trusted_seal_selector,
}
use agenc_prover.Prover.Subtract.{subtract_be_bytes_le}

-- The order of the base field of BN254.
abbrev pub field_q : ℕ
field_q = 0x30644e72e131a029b85045b68181585d97816a916871ca8d3c208c16d87cfd47

be_value-q : be_value bn254_field_modulus_q ≡ field_q
unfolding be_value bn254_field_modulus_q
be_value-q = refl

q-IsBytes : IsBytes 32 bn254_field_modulus_q
unfolding bn254_field_modulus_q
q-IsBytes = omega arith

-- The new y coordinate, as `negate_g1` computes it.
negated : List ℕ → List ℕ
negated y = if all_zero y then replicate 32 0 else subtract_be_bytes bn254_field_modulus_q y

zero_value : (x p v : ℕ) → 0 < p → x * p + v ≡ 0 → (x ≡ 0) × (v ≡ 0)
zero_value zero p v h e = omega arith
zero_value (suc x) p v h e = absurd (grind arith)

all_zero_iff : (y : List ℕ) → (all_zero y ≡ true) ↔ (be_value y ≡ 0)
unfolding all_zero be_value
all_zero_iff [] = (λ _. refl, λ _. refl)
all_zero_iff (x ∷ y) = (
  λ h. ground (arith, all_zero_iff y),
  λ h.
      ground
        (arith, all_zero_iff y, zero_value x (256 ^ length y) (be_value y) (pow-pos (length y)) h),
)

zeros-value : be_value (replicate 32 0) ≡ 0
unfolding be_value
zeros-value = refl

-- The new coordinate is the field's negation of the old one.
negated-value :
    (y : List ℕ)
    → IsBytes 32 y
    → be_value y < field_q
    → IsBytes 32 (negated y) × (be_value (negated y) ≡ (field_q - be_value y) % field_q)
unfolding negated
negated-value y h lt = elim (Bool-cases (all_zero y)) [
  | inl z ↦ rw z (
    (refl, All-replicate IsByte 32 0 (omega arith)),
    zeros-value ∙ rw ((all_zero_iff y).0 z) (omega arith),
  )
  | inr n ↦
      let pos : be_value y ≢ 0 = λ e. cc ((all_zero_iff y).1 e) in
      let le : be_value y ≤ be_value bn254_field_modulus_q = rw be_value-q (omega arith) in
      let (l, b, v) =
        subtract_be_bytes_le bn254_field_modulus_q y (q-IsBytes.0 ∙ sym h.0) q-IsBytes.1 h.1 le in
      rw n ((l ∙ q-IsBytes.0, b), v ∙ rw be_value-q (omega (arith, pos)))
]

negated-lt : (y : List ℕ) → IsBytes 32 y → be_value y < field_q → be_value (negated y) < field_q
negated-lt y h lt = omega (arith, (negated-value y h lt).1)

-- Negating a reduced coordinate twice gives its bytes back.
negated-negated : (y : List ℕ) → IsBytes 32 y → be_value y < field_q → negated (negated y) ≡ y
negated-negated y h lt =
    let (hn, vn) = negated-value y h lt in
    let (hm, vm) = negated-value (negated y) hn (negated-lt y h lt) in
    be_value_inj (negated (negated y)) y (hm.0 ∙ sym h.0) hm.1 h.1 (omega (arith, vn, vm))

-- A proof is the first point's coordinates `x` and `y`, and the rest.
module _ (x y rest : List ℕ) (hx : IsBytes 32 x) (hy : IsBytes 32 y) where
  negate_pi_a-parts : negate_pi_a (x ++ (y ++ rest)) ≡ x ++ (negated y ++ rest)
  unfolding negate_pi_a negate_g1 negated
  negate_pi_a-parts =
      rw
        (
          ← append_assoc x y rest,
          take-append 64 (x ++ y) rest (omega (arith, length-append x y)),
          drop-append 64 (x ++ y) rest (omega (arith, length-append x y)),
          take-append 32 x y hx.0,
          drop-append 32 x y hx.0,
        )
        (append_assoc x (negated y) rest)

-- For a proof of two 32-byte coordinates and 192 further bytes, with a reduced y coordinate, the
-- seal is the trusted selector and the proof with the first point's y coordinate negated in the
-- base field, and has 260 bytes.
pub encode_seal_lem :
    (x y rest : List ℕ)
    → IsBytes 32 x
    → IsBytes 32 y
    → IsBytes 192 rest
    → be_value y < field_q
    → (y' : List ℕ) × (encode_seal (x ++ (y ++ rest))
        ≡ trusted_seal_selector ++ (x ++ (y' ++ rest)))
      × (be_value y' ≡ (field_q - be_value y) % field_q)
      × IsBytes 260 (encode_seal (x ++ (y ++ rest)))
unfolding encode_seal
encode_seal_lem x y rest hx hy hr lt =
    let (hn, vn) = negated-value y hy lt in
    let e = negate_pi_a-parts x y rest hx hy in
    (
      negated y,
      ap (◌++◌ trusted_seal_selector) e,
      vn,
      rw e (
        omega (arith, length-append x (negated y ++ rest), length-append (negated y) rest),
        (
          omega arith,
          (
            omega arith,
            (
              omega arith,
              (
                omega arith,
                All-append IsByte x (negated y ++ rest) hx.1
                    (All-append IsByte (negated y) rest hn.1 hr.1),
              ),
            ),
          ),
        ),
      ),
    )

-- For a first point of two 32-byte coordinates with a reduced y coordinate, negating twice gives the
-- proof back.
pub negate_pi_a_twice :
    (x y rest : List ℕ)
    → IsBytes 32 x
    → IsBytes 32 y
    → be_value y < field_q
    → negate_pi_a (negate_pi_a (x ++ (y ++ rest))) ≡ x ++ (y ++ rest)
negate_pi_a_twice x y rest hx hy lt = rw (
  negate_pi_a-parts x y rest hx hy,
  negate_pi_a-parts x (negated y) rest hx (negated-value y hy lt).0,
  negated-negated y hy lt,
)
