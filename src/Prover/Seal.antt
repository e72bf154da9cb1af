-- ===== src/Prover/Seal.antt =====
-- server/src/prover.rs: the seal that the router expects, and the image id.
use agenc_prover.Base.{
  ℕ, ◌+◌, ◌-◌, ◌/◌, ◌%◌, ◌^◌, Bool, true, ◌&&◌, List, [], ◌∷◌, ◌++◌, map, Option, take, drop,
  replicate, Text, text, decimal, ◌==◌, if◌then◌else◌,
}
use agenc_prover.Base.Panics.{copy_chunks}

abbrev pub image_id_len : ℕ
image_id_len = 32

abbrev pub seal_selector_len : ℕ
seal_selector_len = 4

abbrev pub seal_proof_len : ℕ
seal_proof_len = 256

abbrev pub seal_bytes_len : ℕ
seal_bytes_len = 260

abbrev pub trusted_seal_selector : List ℕ
trusted_seal_selector = 0x52 ∷ 0x5a ∷ 0x56 ∷ 0x4d ∷ []

abbrev pub groth16_pi_a_len : ℕ
groth16_pi_a_len = 64

unfoldable pub bn254_field_modulus_q : List ℕ
bn254_field_modulus_q =
    0x30 ∷ 0x64 ∷ 0x4e ∷ 0x72 ∷ 0xe1 ∷ 0x31 ∷ 0xa0 ∷ 0x29 ∷ 0xb8 ∷ 0x50 ∷ 0x45 ∷ 0xb6 ∷ 0x81 ∷ 0x81
    ∷ 0x58 ∷ 0x5d ∷ 0x97 ∷ 0x81 ∷ 0x6a ∷ 0x91 ∷ 0x68 ∷ 0x71 ∷ 0xca ∷ 0x8d ∷ 0x3c ∷ 0x20 ∷ 0x8c
    ∷ 0x16 ∷ 0xd8 ∷ 0x7c ∷ 0xfd ∷ 0x47 ∷ []

-- An `ImageId`, `[u8; IMAGE_ID_LEN]`.
abbrev pub ImageId : Type 0
ImageId = List ℕ

unfoldable pub trusted_risc0_image_id : ImageId
trusted_risc0_image_id =
    163 ∷ 162 ∷ 235 ∷ 60 ∷ 222 ∷ 160 ∷ 40 ∷ 184 ∷ 182 ∷ 95 ∷ 135 ∷ 53 ∷ 39 ∷ 239 ∷ 42 ∷ 88 ∷ 52
    ∷ 171 ∷ 21 ∷ 130 ∷ 15 ∷ 219 ∷ 143 ∷ 17 ∷ 216 ∷ 26 ∷ 185 ∷ 77 ∷ 94 ∷ 34 ∷ 68 ∷ 20 ∷ []

-- `u32::wrapping_sub`.
abbrev pub wrapping_sub : ℕ → ℕ → ℕ
wrapping_sub a b = (a + 2 ^ 32 - b) % 2 ^ 32

-- The loop runs from the last byte to the first: the tail is done before the head.
unfoldable pub subtract_loop : List ℕ → List ℕ → List ℕ × ℕ
subtract_loop [] b = ([], 0)
subtract_loop (ai ∷ a) [] = (ai ∷ a, 0)
subtract_loop (ai ∷ a) (bi ∷ b) =
    let (out, borrow) = subtract_loop a b in
    let result = wrapping_sub (wrapping_sub ai bi) borrow in
    (result % 2 ^ 8 ∷ out, result / 2 ^ 31 % 2)

-- `a` after the loop.
unfoldable pub subtract_be_bytes : List ℕ → List ℕ → List ℕ
unfolding subtract_loop
subtract_be_bytes a b = (subtract_loop a b).0

unfoldable pub all_zero : List ℕ → Bool
all_zero [] = true
all_zero (b ∷ bs) = b == 0 && all_zero bs

-- The halves of a 64-byte array are 32 bytes long, so the copies of the source have equal lengths.
unfoldable pub negate_g1 : List ℕ → List ℕ
negate_g1 point =
    let y = drop 32 point in
    let negated_y =
      if all_zero y then replicate 32 0 else subtract_be_bytes bn254_field_modulus_q y in
    take 32 point ++ negated_y

unfoldable pub negate_pi_a : List ℕ → List ℕ
negate_pi_a proof_bytes =
    negate_g1 (take groth16_pi_a_len proof_bytes) ++ drop groth16_pi_a_len proof_bytes

unfoldable pub encode_seal : List ℕ → List ℕ
encode_seal proof_bytes = trusted_seal_selector ++ negate_pi_a proof_bytes

-- `u32::to_le_bytes`.
unfoldable pub to_le_bytes : ℕ → List ℕ
to_le_bytes w = w % 256 ∷ w / 256 % 256 ∷ w / 256 ^ 2 % 256 ∷ w / 256 ^ 3 % 256 ∷ []

unfoldable pub guest_id_to_image_id : List ℕ → Option ImageId
guest_id_to_image_id guest_id =
    copy_chunks seal_selector_len (replicate image_id_len 0) (map to_le_bytes guest_id)

-- `join(", ")` on a list of texts.
unfoldable pub join : Text → List Text → Text
join sep [] = []
join sep (t ∷ []) = t
join sep (t ∷ u ∷ us) = t ++ sep ++ join sep (u ∷ us)

unfoldable pub render_image_id : ImageId → Text
render_image_id image_id = join (text ", ") (map decimal image_id)
