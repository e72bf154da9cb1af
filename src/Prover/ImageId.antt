-- ===== src/Prover/ImageId.antt =====
-- The image id of server/src/prover.rs holds the words of the guest id, lowest byte first.

use agenc_prover.Base.{
  ap₂, ℕ, suc, ◌+◌, ◌*◌, ◌^◌, ◌<◌, ◌≡◌, refl, ap, ◌∙◌, List, [], ◌∷◌, map, some, All, length,
  concat, length-concat, All-concat, replicate, IsByte, IsBytes, arith,
}
use agenc_prover.Base.Panics.{copy_chunks-concat}
use agenc_prover.Prover.Seal.{ImageId, to_le_bytes, guest_id_to_image_id}

abbrev pub IsWord : ℕ → Type 0
IsWord w = w < 2 ^ 32

-- The number that little-endian bytes stand for.
unfoldable pub le_value : List ℕ → ℕ
le_value [] = 0
le_value (b ∷ bs) = b + 256 * le_value bs

le_value-to_le_bytes : (w : ℕ) → IsWord w → le_value (to_le_bytes w) ≡ w
unfolding le_value to_le_bytes
le_value-to_le_bytes w h = omega arith

to_le_bytes-lengths : (ws : List ℕ) → All (λ b. length b ≡ 4) (map to_le_bytes ws)
unfolding to_le_bytes
to_le_bytes-lengths [] = tt
to_le_bytes-lengths (w ∷ ws) = (refl, to_le_bytes-lengths ws)

to_le_bytes-All : (ws : List ℕ) → All (All IsByte) (map to_le_bytes ws)
unfolding to_le_bytes
to_le_bytes-All [] = tt
to_le_bytes-All (w ∷ ws) = (omega arith, to_le_bytes-All ws)

length-words : (ws : List ℕ) → length (map to_le_bytes ws) ≡ length ws
length-words [] = refl
length-words (w ∷ ws) = ap suc (length-words ws)

-- The words that four bytes at a time stand for.
unfoldable pub words_of : List ℕ → List ℕ
words_of (a ∷ b ∷ c ∷ d ∷ bs) = le_value (a ∷ b ∷ c ∷ d ∷ []) ∷ words_of bs
words_of _ = []

words_of-words : (ws : List ℕ) → All IsWord ws → words_of (concat (map to_le_bytes ws)) ≡ ws
unfolding words_of to_le_bytes
words_of-words [] h = refl
words_of-words (w ∷ ws) h =
    ap₂ ◌∷◌ (unfold to_le_bytes in le_value-to_le_bytes w h.0) (words_of-words ws h.1)

-- Eight 32-bit words give 32 bytes without a panic, and the bytes stand for those words in little-endian
-- order.
pub guest_id_to_image_id_words :
    (guest_id : List ℕ)
    → length guest_id ≡ 8
    → All IsWord guest_id
    → (image : ImageId) × (guest_id_to_image_id guest_id ≡ some image)
      × IsBytes 32 image
      × (words_of image ≡ guest_id)
unfolding guest_id_to_image_id
guest_id_to_image_id_words ids e h =
    let chunks = map to_le_bytes ids in
    let fit = to_le_bytes-lengths ids in
    let eight : length chunks ≡ 8 = length-words ids ∙ e in
    (
      concat chunks,
      copy_chunks-concat 4 (replicate 32 0) chunks fit (omega (arith, eight)),
      (
        length-concat 4 chunks fit ∙ ap (λ (n : ℕ). n * 4) eight,
        All-concat IsByte chunks (to_le_bytes-All ids),
      ),
      words_of-words ids h,
    )
