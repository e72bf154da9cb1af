-- ===== src/Prover/UnitTests.antt =====
-- The unit tests of server/src/prover.rs, each as the statement of its assertions.
--
-- SHA-256 and the zkVM are parameters; a test that holds in every build takes the build.
use agenc_prover.Base.{
  ℕ, ◌+◌, true, List, [], ◌∷◌, ◌++◌, length, take, drop, replicate, get_elem?, Option, none, some,
  Text, text, ok, err, be_bytes, contains, ◌≡◌,
}
use agenc_prover.Base.Panics.{◌>>=◌}
use agenc_prover.Guest.Crates.{Crates}
use agenc_prover.Guest.Field.{JournalField, journal_total_len}
use agenc_prover.Guest.Hash.{
  OutputFields, compute_constraint_hash, compute_output_commitment, compute_binding,
  compute_nullifier_from_agent_secret,
}
use agenc_prover.Guest.UnitTests.{flip}
use agenc_prover.Prover.Generate.{
  ProveRequest, ProveError, ProveResponse, Build, default_build, generate_proof_with_dev_mode,
  dev_mode_enabled, invalid_request, prover_failed, dev_mode_env_var, image_id, generate_proof,
}
use agenc_prover.Prover.Seal.{
  encode_seal, subtract_be_bytes, bn254_field_modulus_q, trusted_seal_selector, seal_selector_len,
  seal_bytes_len, seal_proof_len, guest_id_to_image_id, trusted_risc0_image_id,
}

unfoldable pub field_from_u32 : ℕ → JournalField
field_from_u32 value = replicate 28 0 ++ be_bytes 4 value

abbrev default_task : JournalField
default_task = replicate 31 0 ++ 0x2a ∷ []

abbrev default_agent : JournalField
default_agent =
    1 ∷ 2 ∷ 3 ∷ 4 ∷ 5 ∷ 6 ∷ 7 ∷ 8 ∷ 9 ∷ 10 ∷ 11 ∷ 12 ∷ 13 ∷ 14 ∷ 15 ∷ 16 ∷ 17 ∷ 18 ∷ 19 ∷ 20 ∷ 21
    ∷ 22 ∷ 23 ∷ 24 ∷ 25 ∷ 26 ∷ 27 ∷ 28 ∷ 29 ∷ 30 ∷ 31 ∷ 32 ∷ []

unfoldable pub default_output : OutputFields
default_output = record {
  output_0 = field_from_u32 1;
  output_1 = field_from_u32 2;
  output_2 = field_from_u32 3;
  output_3 = field_from_u32 4;
}

module _ (c : Crates) where
  unfoldable pub default_prove_request : Option ProveRequest
  default_prove_request = do
    constraint_hash ← compute_constraint_hash c default_output
    output_commitment ← compute_output_commitment c default_output (field_from_u32 12345)
    binding ← compute_binding c default_task default_agent output_commitment
    nullifier ←
        compute_nullifier_from_agent_secret c constraint_hash output_commitment
          (field_from_u32 67890)
    some (record {
      task_pda = default_task;
      agent_authority = default_agent;
      constraint_hash = constraint_hash;
      output_commitment = output_commitment;
      binding = binding;
      nullifier = nullifier;
      output = default_output;
      salt = field_from_u32 12345;
      agent_secret = field_from_u32 67890;
    })

  -- A changed request is refused with that error; false when the request is not computed.
  unfoldable pub Refuses :
      Build → (ProveRequest → ProveRequest) → (dev : Option Text) → ProveError → Type 0
  Refuses build change dev error = elim default_prove_request [
    | none ↦ ⊥
    | some request ↦ generate_proof_with_dev_mode c build (change request) dev ≡ err error
  ]

  unfoldable pub DevModeGuardIsFailClosed : Build → Type 0
  DevModeGuardIsFailClosed build =
      Refuses build (λ request. request) (some (text "1")) (dev_mode_enabled dev_mode_env_var)

  unfoldable pub WithoutProductionFeatureReturnsGuidanceError : Type 0
  WithoutProductionFeatureReturnsGuidanceError =
      (message : Text) × Refuses default_build (λ request. request) none (prover_failed message)
      × (contains message (text "--features production-prover") ≡ true)

  unfoldable pub ZeroSaltIsRejectedBeforeProving : Build → Type 0
  ZeroSaltIsRejectedBeforeProving build =
      Refuses build (λ request. record request { salt = replicate 32 0 }) none
        (invalid_request (text "salt must be non-zero"))

  unfoldable pub InvalidConstraintHashIsRejectedBeforeProving : Build → Type 0
  InvalidConstraintHashIsRejectedBeforeProving build =
      Refuses build (λ request. record request { constraint_hash = flip request.constraint_hash })
        none (invalid_request (text "constraint_hash does not match derived value"))

  unfoldable pub InvalidOutputCommitmentIsRejectedBeforeProving : Build → Type 0
  InvalidOutputCommitmentIsRejectedBeforeProving build =
      Refuses build
        (λ request. record request { output_commitment = flip request.output_commitment }) none
        (invalid_request (text "output_commitment does not match derived value"))

  unfoldable pub InvalidBindingIsRejectedBeforeProving : Build → Type 0
  InvalidBindingIsRejectedBeforeProving build =
      Refuses build (λ request. record request { binding = flip request.binding }) none
        (invalid_request (text "binding does not match derived value"))

  unfoldable pub InvalidNullifierIsRejectedBeforeProving : Build → Type 0
  InvalidNullifierIsRejectedBeforeProving build =
      Refuses build (λ request. record request { nullifier = flip request.nullifier }) none
        (invalid_request (text "nullifier does not match derived value"))

-- 32 nines, 32 ones, and nines.
abbrev raw_seal_of_test : List ℕ
raw_seal_of_test = replicate 32 9 ++ (replicate 32 1 ++ replicate 192 9)

unfoldable pub EncodeSealPrefixesTrustedSelector : Type 0
EncodeSealPrefixesTrustedSelector =
    let encoded = encode_seal raw_seal_of_test in
    (length encoded ≡ seal_bytes_len)
    × (take seal_selector_len encoded ≡ trusted_seal_selector)
    × (take 32 (drop seal_selector_len encoded) ≡ take 32 raw_seal_of_test)
    × (take 32 (drop (seal_selector_len + 32) encoded)
        ≡ subtract_be_bytes bn254_field_modulus_q (replicate 32 1))
    × (drop (seal_selector_len + 64) encoded ≡ drop 64 raw_seal_of_test)

unfoldable pub EncodeSealPreservesZeroPiAyCoordinate : Type 0
EncodeSealPreservesZeroPiAyCoordinate =
    take 32 (drop (seal_selector_len + 32) (encode_seal (replicate seal_proof_len 0)))
    ≡ replicate 32 0

unfoldable pub GuestIdToImageIdConvertsLittleEndianWords : Type 0
GuestIdToImageIdConvertsLittleEndianWords =
    elim (guest_id_to_image_id (
      0x04030201 ∷ 0x08070605 ∷ 0x0c0b0a09 ∷ 0x100f0e0d ∷ 0x14131211 ∷ 0x18171615 ∷ 0x1c1b1a19
      ∷ 0x201f1e1d ∷ [])) [
        | none ↦ ⊥
        | some image ↦
            (get_elem? image 0 ≡ some 0x01)
            × (get_elem? image 1 ≡ some 0x02)
            × (get_elem? image 2 ≡ some 0x03)
            × (get_elem? image 3 ≡ some 0x04)
            × (get_elem? image 31 ≡ some 0x20)
      ]

-- The tests of the production build.
unfoldable pub CompiledGuestImageMatchesPinnedImage : Build → Type 0
CompiledGuestImageMatchesPinnedImage build = image_id build ≡ some trusted_risc0_image_id

unfoldable pub RealProofGenerationReturnsRouterPayload :
    Crates → Build → (Text → Option Text) → Type 0
RealProofGenerationReturnsRouterPayload c build env = elim (default_prove_request c) [
  | none ↦ ⊥
  | some request ↦
      (response : ProveResponse) × (generate_proof c build env request ≡ ok response)
      × (length response.seal_bytes ≡ seal_bytes_len)
      × (length response.journal ≡ journal_total_len)
      × (image_id build ≡ some response.image_id)
]
