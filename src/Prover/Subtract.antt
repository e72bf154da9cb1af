-- ===== src/Prover/Subtract.antt =====
-- `subtract_be_bytes` of server/src/prover.rs is subtraction with borrow.
use native.Mathlib.Nat.{pow-suc}
use agenc_prover.Base.{
  ℕ, zero, suc, be_value-lt, ◌+◌, ◌-◌, ◌*◌, ◌/◌, ◌%◌, ◌^◌, ◌≤◌, ◌<◌, ◌≡◌, ap, List, [], ◌∷◌, All,
  length, IsByte, be_value, arith,
}
use agenc_prover.Prover.Seal.{subtract_loop, subtract_be_bytes, wrapping_sub}

-- One round: the digit and the borrow make up the difference.
round :
    (a b borrow : ℕ)
    → a < 256
    → b < 256
    → borrow ≤ 1
    → let result = wrapping_sub (wrapping_sub a b) borrow in
      (result % 2 ^ 8 + b + borrow ≡ a + result / 2 ^ 31 % 2 * 256) × (result / 2 ^ 31 % 2 ≤ 1)
round a b borrow ha hb hc = omega arith

record IsDifference (a b : List ℕ) (r : List ℕ × ℕ) : Type 0 where
  pub borrows : r.1 ≤ 1
  pub same_length : length r.0 ≡ length a
  pub bytes : All IsByte r.0
  pub value : be_value r.0 + be_value b ≡ be_value a + r.1 * 256 ^ length a

-- The place values add up when the digit does.
round_value :
    (d y c x k p r b a : ℕ)
    → d + y + c ≡ x + k * 256
    → r + b ≡ a + c * p
    → d * p + r + (y * p + b) ≡ x * p + a + k * (p * 256)
round_value d y c x k p r b a e h = omega (arith, ap (λ (t : ℕ). t * p) e)

subtract_loop-IsDifference :
    (a b : List ℕ)
    → length a ≡ length b
    → All IsByte a
    → All IsByte b
    → IsDifference a b (subtract_loop a b)
unfolding subtract_loop be_value
subtract_loop-IsDifference [] [] e ha hb = omega arith
subtract_loop-IsDifference [] (y ∷ b) e ha hb = absurd (omega arith)
subtract_loop-IsDifference (x ∷ a) [] e ha hb = absurd (omega arith)
subtract_loop-IsDifference (x ∷ a) (y ∷ b) e ha hb =
    let rest = subtract_loop-IsDifference a b (omega arith) ha.1 hb.1 in
    let c = (subtract_loop a b).1 in
    let (digit, carried) = round x y c ha.0 hb.0 rest.borrows in
    let e' : length b ≡ length a = omega arith in
    record {
      borrows = carried;
      same_length = ap suc rest.same_length;
      bytes = (omega arith, rest.bytes);
      value =
          rw (rest.same_length, e', pow-suc 256 (length a))
            (round_value _ y c x _ (256 ^ length a) _ (be_value b) (be_value a) digit rest.value);
    }

-- A result below the modulus with at most one borrow.
wrap_value :
    (k r b a p : ℕ)
    → k ≤ 1
    → r < p
    → a < p
    → b < p
    → r + b ≡ a + k * p
    → (r ≡ (a + p - b) % p) × (b ≤ a → r ≡ a - b)
wrap_value zero r b a p hk hr ha hb e = (grind arith, λ le. omega arith)
wrap_value (suc zero) r b a p hk hr ha hb e = (grind arith, λ le. absurd (omega arith))
wrap_value (suc (suc k)) r b a p hk hr ha hb e = absurd (omega arith)

subtract_loop_value :
    (a b : List ℕ)
    → length a ≡ length b
    → All IsByte a
    → All IsByte b
    → let r = be_value (subtract_loop a b).0 in
      (r ≡ (be_value a + 256 ^ length a - be_value b) % 256 ^ length a)
      × (be_value b ≤ be_value a → r ≡ be_value a - be_value b)
subtract_loop_value a b e ha hb =
    let d = subtract_loop-IsDifference a b e ha hb in
    wrap_value _ _ (be_value b) (be_value a) (256 ^ length a) d.borrows
      (rw d.same_length at (be_value-lt (subtract_loop a b).0 d.bytes)) (be_value-lt a ha)
      (rw (← e) at (be_value-lt b hb)) d.value

-- For equally long lists of bytes, the value of `b` at most that of `a`, the result is a list of
-- bytes of that length whose value is the difference.
pub subtract_be_bytes_le :
    (a b : List ℕ)
    → length a ≡ length b
    → All IsByte a
    → All IsByte b
    → be_value b ≤ be_value a
    → (length (subtract_be_bytes a b) ≡ length a)
      × All IsByte (subtract_be_bytes a b)
      × (be_value (subtract_be_bytes a b) ≡ be_value a - be_value b)
unfolding subtract_be_bytes
subtract_be_bytes_le a b e ha hb le =
    let d = subtract_loop-IsDifference a b e ha hb in
    (d.same_length, d.bytes, (subtract_loop_value a b e ha hb).1 le)

-- For equally long lists of bytes the result is a list of bytes of that length whose value is the
-- difference modulo `256 ^ length a`.
pub subtract_be_bytes_wraps :
    (a b : List ℕ)
    → length a ≡ length b
    → All IsByte a
    → All IsByte b
    → (length (subtract_be_bytes a b) ≡ length a)
      × All IsByte (subtract_be_bytes a b)
      × (be_value (subtract_be_bytes a b)
          ≡ (be_value a + 256 ^ length a - be_value b) % 256 ^ length a)
unfolding subtract_be_bytes
subtract_be_bytes_wraps a b e ha hb =
    let d = subtract_loop-IsDifference a b e ha hb in
    (d.same_length, d.bytes, (subtract_loop_value a b e ha hb).0)
