-- ===== src/Guest/Field.antt =====
-- guest/src/lib.rs: constants, fixed-width fields and their reduction by the field modulus.
use agenc_prover.Base.{
  ℕ, ◌-◌, ◌*◌, List, [], ◌∷◌, Option, length, replicate, Text, Result, ok, err, lift, list_eq, ◌==◌,
  if◌then◌else◌,
}
use agenc_prover.Base.Panics.{copy_from_slice}
use agenc_prover.Guest.Crates.{Crates}

abbrev pub journal_field_len : ℕ
journal_field_len = 32

abbrev pub journal_field_count : ℕ
journal_field_count = 6

abbrev pub output_field_count : ℕ
output_field_count = 4

abbrev pub journal_total_len : ℕ
journal_total_len = journal_field_len * journal_field_count

-- A `[u8; 32]`; that its length is 32 and its entries are bytes is `IsBytes 32`.
abbrev pub JournalField : Type 0
JournalField = List ℕ

abbrev pub zero_field : JournalField
zero_field = replicate journal_field_len 0

unfoldable pub field_modulus_bytes : JournalField
field_modulus_bytes =
    48 ∷ 100 ∷ 78 ∷ 114 ∷ 225 ∷ 49 ∷ 160 ∷ 41 ∷ 184 ∷ 80 ∷ 69 ∷ 182 ∷ 129 ∷ 129 ∷ 88 ∷ 93 ∷ 40 ∷ 51
    ∷ 232 ∷ 72 ∷ 121 ∷ 185 ∷ 112 ∷ 145 ∷ 67 ∷ 225 ∷ 245 ∷ 147 ∷ 240 ∷ 0 ∷ 0 ∷ 1 ∷ []

pub data JournalError : Type 0 where
  invalid_field_length : (field : Text) (expected actual : ℕ) → JournalError

pub data JournalValidationError : Type 0 where
  zero_field_error : (field : Text) → JournalValidationError
  constraint_hash_mismatch output_commitment_mismatch binding_mismatch nullifier_mismatch :
      (expected actual : JournalField) → JournalValidationError

unfoldable pub copy_field : Text → List ℕ → Result JournalField JournalError
unfolding copy_from_slice
copy_field field value =
    if length value == journal_field_len
    then lift (copy_from_slice zero_field 0 value)
    else err (invalid_field_length field journal_field_len (length value))

unfoldable pub require_non_zero : Text → JournalField → Result (Unit {0}) JournalValidationError
require_non_zero field value =
    if list_eq value zero_field then err (zero_field_error field) else ok tt

module _ (c : Crates) where
  open c use {BigUint, from_bytes_be, to_bytes_be, rem}

  unfoldable pub field_modulus : BigUint
  field_modulus = from_bytes_be field_modulus_bytes

  -- `debug_assert!` asks what the copy asks again, so a panic of either is the copy's.
  unfoldable pub biguint_to_bytes32 : BigUint → Option JournalField
  biguint_to_bytes32 value =
      let bytes = to_bytes_be value in
      let start = journal_field_len - length bytes in copy_from_slice zero_field start bytes

  unfoldable pub normalize_field_bytes : JournalField → Option JournalField
  normalize_field_bytes value = biguint_to_bytes32 (rem (from_bytes_be value) field_modulus)

  unfoldable pub digest_to_field_bytes : List ℕ → Option JournalField
  digest_to_field_bytes digest = biguint_to_bytes32 (rem (from_bytes_be digest) field_modulus)
