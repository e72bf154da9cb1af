-- ===== src/Base/Chunks.antt =====
-- A list cut into chunks of one length.
use Prim.Native.Nat.{ℕ, zero, suc, ◌*◌, ◌+◌}
use mathlib.Core.Path.{◌≡◌, refl, sym, ap, ◌∙◌}
use mathlib.Core.List.{List, [], ◌∷◌, ◌++◌}
use native.Mathlib.Nat.{add_comm, zero-add, suc-add, suc-mul, zero-mul}
use native.Mathlib.Omega.{arith}
use agenc_prover.Base.Lists.{All, length, drop, length-append, drop-append, All-append}

module _ {ℓ} {A : Type ℓ} where
  abbrev pub concat : List (List A) → List A
  concat [] = []
  concat (xs ∷ xss) = xs ++ concat xss

  drop-nil : (n : ℕ) → drop {A = A} n [] ≡ []
  drop-nil zero = refl
  drop-nil (suc n) = refl

  pub drop-add : (m n : ℕ) (xs : List A) → drop (m + n) xs ≡ drop n (drop m xs)
  drop-add zero n xs = ap (λ k. drop k xs) (zero-add n)
  drop-add (suc m) n [] = drop-nil (suc m + n) ∙ sym (drop-nil n)
  drop-add (suc m) n (x ∷ xs) = ap (λ k. drop k (x ∷ xs)) (suc-add m n) ∙ drop-add m n xs

module _ {ℓ} {A : Type ℓ} where
  -- Whole chunks of a concatenation of chunks.
  pub drop-concat :
      (n k : ℕ) (xss : List (List A))
      → All (λ xs. length xs ≡ n) xss
      → drop (k * n) (concat xss) ≡ concat (drop k xss)
  drop-concat n zero xss h = ap (λ m. drop m (concat xss)) (zero-mul n)
  drop-concat n (suc k) [] h = drop-nil (suc k * n)
  drop-concat n (suc k) (xs ∷ xss) h =
      ap (λ m. drop m (xs ++ concat xss)) (suc-mul k n ∙ add_comm (k * n) n)
      ∙ drop-add n (k * n) (xs ++ concat xss)
      ∙ ap (drop (k * n)) (drop-append n xs (concat xss) h.0)
      ∙ drop-concat n k xss h.1

  pub length-concat :
      (n : ℕ) (xss : List (List A))
      → All (λ xs. length xs ≡ n) xss
      → length (concat xss) ≡ length xss * n
  length-concat n [] h = sym (zero-mul n)
  length-concat n (xs ∷ xss) h =
      grind (arith, length-append xs (concat xss), length-concat n xss h.1, h.0)

  pub All-concat {κ} : (P : A → Type κ) (xss : List (List A)) → All (All P) xss → All P (concat xss)
  All-concat P [] h = tt
  All-concat P (xs ∷ xss) h = All-append P xs (concat xss) h.0 (All-concat P xss h.1)
