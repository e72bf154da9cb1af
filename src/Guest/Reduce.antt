-- ===== src/Guest/Reduce.antt =====
-- Reduction by the field modulus as a function on numbers, and that the code computes it.
use native.Mathlib.Nat.{mod-mod}
use agenc_prover.Base.{
  ℕ, zero, ap₂, ◌-◌, ◌%◌, ◌^◌, ◌≤◌, ◌<◌, ◌≡◌, refl, sym, ap, ◌∙◌, List, ◌++◌, some, All, length,
  replicate, take-replicate, length-append, length-replicate, All-append, All-replicate, IsByte,
  IsBytes, be_value, be_bytes, be_bytes-be_value, be_value-zeros, be_value-be_bytes,
  be_bytes-IsBytes, arith,
}
use agenc_prover.Base.Panics.{copy_from_slice, copy_from_slice_fits}
use agenc_prover.Guest.Crates.{Crates, IsLawful}
use agenc_prover.Guest.Field.{
  JournalField, zero_field, field_modulus_bytes, field_modulus, biguint_to_bytes32,
  normalize_field_bytes, digest_to_field_bytes,
}

-- The modulus of `FIELD_MODULUS_BYTES`, the order of the BN254 scalar field.
abbrev pub modulus : ℕ
modulus = 0x30644e72e131a029b85045b68181585d2833e84879b9709143e1f593f0000001

be_value-field_modulus_bytes : be_value field_modulus_bytes ≡ modulus
unfolding be_value field_modulus_bytes
be_value-field_modulus_bytes = refl

field_modulus_bytes-All : All IsByte field_modulus_bytes
unfolding field_modulus_bytes
field_modulus_bytes-All = omega arith

pub remainder-lt : (v : ℕ) → v % modulus < 256 ^ 32
remainder-lt v = omega arith

-- The 32-byte digits of a value reduced by the modulus.
unfoldable pub reduce : List ℕ → JournalField
reduce bytes = be_bytes 32 (be_value bytes % modulus)

pub reduce-IsBytes : (bytes : List ℕ) → IsBytes 32 (reduce bytes)
unfolding reduce
reduce-IsBytes bytes =
    be_bytes-IsBytes 32 (be_value bytes % modulus) (remainder-lt (be_value bytes))

pub be_value-reduce : (bytes : List ℕ) → be_value (reduce bytes) ≡ be_value bytes % modulus
unfolding reduce
be_value-reduce bytes =
    be_value-be_bytes 32 (be_value bytes % modulus) (remainder-lt (be_value bytes))

-- Reducing twice is reducing once.
pub reduce-reduce : (bytes : List ℕ) → reduce (reduce bytes) ≡ reduce bytes
unfolding reduce
reduce-reduce bytes =
    ap (λ (v : ℕ). be_bytes 32 (v % modulus)) (be_value-reduce bytes)
    ∙ ap (be_bytes 32) (mod-mod (be_value bytes) modulus)

module _ (c : Crates) (laws : IsLawful c) where
  open laws use {
    value, value-from_bytes_be, value-rem, be_value-to_bytes_be, to_bytes_be-All,
    to_bytes_be_minimal,
  }

  value-field_modulus : value (field_modulus c) ≡ modulus
  unfolding field_modulus
  value-field_modulus =
      value-from_bytes_be field_modulus_bytes field_modulus_bytes-All ∙ be_value-field_modulus_bytes

  -- A number below `256 ^ 32` is written without a panic, as its 32 digits.
  biguint_to_bytes32_lem :
      (b : c.BigUint) → value b < 256 ^ 32 → biguint_to_bytes32 c b ≡ some (be_bytes 32 (value b))
  unfolding biguint_to_bytes32
  biguint_to_bytes32_lem b h =
      copied
      ∙ ap some (
          sym (be_bytes-be_value 32 padded padded_length padded_All)
          ∙ ap (be_bytes 32) padded_value)
    where
      bytes : List ℕ
      bytes = c.to_bytes_be b

      gap : ℕ
      gap = 32 - length bytes

      short : length bytes ≤ 32
      short = to_bytes_be_minimal 32 b (omega arith) h

      padded : List ℕ
      padded = replicate gap 0 ++ bytes

      copied : copy_from_slice zero_field gap bytes ≡ some padded
      copied =
          copy_from_slice_fits zero_field gap bytes (omega arith) (omega (arith, short))
          ∙ ap (λ (xs : List ℕ). some (xs ++ bytes)) (take-replicate gap 32 0 (omega arith))

      padded_length : length padded ≡ 32
      padded_length =
          omega (arith, short, length-append (replicate gap 0) bytes, length-replicate gap (zero))

      padded_All : All IsByte padded
      padded_All =
          All-append IsByte (replicate gap 0) bytes (All-replicate IsByte gap 0 (omega arith))
            (to_bytes_be-All b)

      padded_value : be_value padded ≡ value b
      padded_value = be_value-zeros gap bytes ∙ be_value-to_bytes_be b

  reduced :
      (bytes : List ℕ)
      → All IsByte bytes
      → biguint_to_bytes32 c (c.rem (c.from_bytes_be bytes) (field_modulus c)) ≡ some (reduce bytes)
  unfolding reduce
  reduced bytes h =
      biguint_to_bytes32_lem _ (rw remainder (remainder-lt (be_value bytes)))
      ∙ ap (λ (v : ℕ). some (be_bytes 32 v)) remainder
    where
      remainder : value (c.rem (c.from_bytes_be bytes) (field_modulus c)) ≡ be_value bytes % modulus
      remainder =
          value-rem (c.from_bytes_be bytes) (field_modulus c) (rw value-field_modulus (omega arith))
          ∙ ap₂ ◌%◌ (value-from_bytes_be bytes h) value-field_modulus

  -- `normalize_field_bytes` never panics and reduces its argument by the field modulus.
  pub normalize_field_bytes-reduce :
      (f : JournalField) → All IsByte f → normalize_field_bytes c f ≡ some (reduce f)
  unfolding normalize_field_bytes
  normalize_field_bytes-reduce f h = reduced f h

  pub digest_to_field_bytes-reduce :
      (d : List ℕ) → All IsByte d → digest_to_field_bytes c d ≡ some (reduce d)
  unfolding digest_to_field_bytes
  digest_to_field_bytes-reduce d h = reduced d h
