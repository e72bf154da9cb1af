-- ===== src/Guest/Crates.antt =====
-- What guest/src/lib.rs uses of the crates num-bigint (`BigUint`) and sha2 (`Sha256`).
use agenc_prover.Base.{
  ℕ, ◌%◌, ◌^◌, ◌≤◌, ◌<◌, ◌≡◌, List, [], ◌++◌, All, length, IsByte, IsBytes, be_value,
}

pub record Crates : Type 1 where
  pub BigUint : Type 0
  pub from_bytes_be : List ℕ → BigUint
  pub rem : BigUint → BigUint → BigUint
  pub to_bytes_be : BigUint → List ℕ
  pub Hasher : Type 0
  pub new : Hasher
  pub update : Hasher → List ℕ → Hasher
  pub finalize : Hasher → List ℕ

-- The documented behaviour: numbers are natural numbers, `to_bytes_be` writes no more bytes than
-- the value needs, and a hasher digests the concatenation of its updates to 32 bytes.
pub record IsLawful (c : Crates) : Type 0 where
  pub value : c.BigUint → ℕ
  pub value-from_bytes_be : (bs : List ℕ) → All IsByte bs → value (c.from_bytes_be bs) ≡ be_value bs
  pub value-rem : (a b : c.BigUint) → 0 < value b → value (c.rem a b) ≡ value a % value b
  pub be_value-to_bytes_be : (a : c.BigUint) → be_value (c.to_bytes_be a) ≡ value a
  pub to_bytes_be-All : (a : c.BigUint) → All IsByte (c.to_bytes_be a)
  pub to_bytes_be_minimal :
      (n : ℕ) (a : c.BigUint) → 0 < n → value a < 256 ^ n → length (c.to_bytes_be a) ≤ n
  pub digest : List ℕ → List ℕ
  pub digest-IsBytes : (m : List ℕ) → IsBytes 32 (digest m)
  pub absorbed : c.Hasher → List ℕ
  pub absorbed-new : absorbed c.new ≡ []
  pub absorbed-update : (h : c.Hasher) (bs : List ℕ) → absorbed (c.update h bs) ≡ absorbed h ++ bs
  pub finalize-digest : (h : c.Hasher) → c.finalize h ≡ digest (absorbed h)
