-- ===== src/Prover/Tests.antt =====
-- The theorems on the seal and the image id of server/src/prover.rs at sample inputs.
use agenc_prover.Base.{
  ℕ, ◌-◌, ◌%◌, ◌<◌, ◌≡◌, refl, some, List, [], ◌∷◌, ◌++◌, IsByte, IsBytes, be_value, replicate,
  length-replicate, All-replicate, arith,
}
use agenc_prover.Prover.Seal.{ImageId, encode_seal, trusted_seal_selector, guest_id_to_image_id}
use agenc_prover.Prover.Negate.{field_q, encode_seal_lem}
use agenc_prover.Prover.ImageId.{words_of, guest_id_to_image_id_words}

repeated-IsBytes : (n b : ℕ) → b < 256 → IsBytes n (replicate n b)
repeated-IsBytes n b h = (length-replicate n b, All-replicate IsByte n b h)

-- A first coordinate of ones, a second of twos, and nines.
abbrev ones : List ℕ
ones = replicate 32 1

abbrev twos : List ℕ
twos = replicate 32 2

abbrev nines : List ℕ
nines = replicate 192 9

twos_reduced : be_value twos < field_q
unfolding be_value
twos_reduced = omega arith

encode_seal_lem_example :
    (y' : List ℕ) × (encode_seal (ones ++ (twos ++ nines))
      ≡ trusted_seal_selector ++ (ones ++ (y' ++ nines)))
    × (be_value y' ≡ (field_q - be_value twos) % field_q)
    × IsBytes 260 (encode_seal (ones ++ (twos ++ nines)))
encode_seal_lem_example =
    encode_seal_lem ones twos nines (repeated-IsBytes 32 1 (omega arith))
      (repeated-IsBytes 32 2 (omega arith)) (repeated-IsBytes 192 9 (omega arith)) twos_reduced

abbrev words : List ℕ
words = 1 ∷ 2 ∷ 3 ∷ 4 ∷ 5 ∷ 6 ∷ 7 ∷ 4_294_967_295 ∷ []

guest_id_to_image_id_words_example :
    (image : ImageId) × (guest_id_to_image_id words ≡ some image)
    × IsBytes 32 image
    × (words_of image ≡ words)
guest_id_to_image_id_words_example = guest_id_to_image_id_words words refl (
  omega arith,
  (
    omega arith,
    (omega arith, (omega arith, (omega arith, (omega arith, (omega arith, (omega arith, tt)))))),
  ),
)
