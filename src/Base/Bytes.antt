-- ===== src/Base/Bytes.antt =====
-- Bytes, and what a list of them says as a big-endian number.
use Prim.Native.Nat.{ℕ, zero, suc, ◌+◌, ◌*◌, ◌/◌, ◌%◌, ◌^◌, ◌<◌}
use mathlib.Core.Path.{◌≡◌, refl, sym, ap, ◌∙◌}
use mathlib.Core.List.{List, [], ◌∷◌, ◌++◌}
use native.Mathlib.Omega.{arith}
use native.Mathlib.Nat.{pow-suc, one-le-pow, div-add-mod', mod-lt, div-lt_iff_lt-mul}
use agenc_prover.Base.Lists.{All, length, replicate}

abbrev pub IsByte : ℕ → Type 0
IsByte b = b < 256

-- An array of `n` bytes.
abbrev pub IsBytes : ℕ → List ℕ → Type 0
IsBytes n xs = (length xs ≡ n) × All IsByte xs

unfoldable pub be_value : List ℕ → ℕ
be_value [] = 0
be_value (x ∷ xs) = x * 256 ^ length xs + be_value xs

-- The `n` big-endian digits of a number below `256 ^ n`.
unfoldable pub be_bytes : ℕ → ℕ → List ℕ
be_bytes zero v = []
be_bytes (suc n) v = v / 256 ^ n ∷ be_bytes n (v % 256 ^ n)

pub pow-pos : (n : ℕ) → 0 < 256 ^ n
pow-pos n = one-le-pow n 256 (omega arith)

pub be_value-lt : (xs : List ℕ) → All IsByte xs → be_value xs < 256 ^ length xs
unfolding be_value
be_value-lt [] h = omega arith
be_value-lt (x ∷ xs) h =
    let p : 256 ^ suc (length xs) ≡ 256 ^ length xs * 256 = pow-suc 256 (length xs) in
    grind (arith, be_value-lt xs h.1)

pub length-be_bytes : (n v : ℕ) → length (be_bytes n v) ≡ n
unfolding be_bytes
length-be_bytes zero v = refl
length-be_bytes (suc n) v = ap suc (length-be_bytes n (v % 256 ^ n))

pub be_value-be_bytes : (n v : ℕ) → v < 256 ^ n → be_value (be_bytes n v) ≡ v
unfolding be_value be_bytes
be_value-be_bytes zero v h = omega arith
be_value-be_bytes (suc n) v h =
    rw (length-be_bytes n (v % 256 ^ n), be_value-be_bytes n (v % 256 ^ n) (mod-lt v (pow-pos n)))
      (div-add-mod' v (256 ^ n))

pub be_bytes-All : (n v : ℕ) → v < 256 ^ n → All IsByte (be_bytes n v)
unfolding be_bytes
be_bytes-All zero v h = tt
be_bytes-All (suc n) v h = (
  (div-lt_iff_lt-mul (pow-pos n)).1 (omega (arith, pow-suc 256 n)),
  be_bytes-All n (v % 256 ^ n) (mod-lt v (pow-pos n)),
)

pub be_bytes-IsBytes : (n v : ℕ) → v < 256 ^ n → IsBytes n (be_bytes n v)
be_bytes-IsBytes n v h = (length-be_bytes n v, be_bytes-All n v h)

-- The quotient and the remainder of a number written out by both.
pub div-mod_of_parts : (q r p : ℕ) → r < p → ((q * p + r) / p ≡ q) × ((q * p + r) % p ≡ r)
div-mod_of_parts q r p h = (grind arith, grind arith)

-- The digits of the value of `n` bytes are those bytes.
pub be_bytes-be_value :
    (n : ℕ) (xs : List ℕ) → length xs ≡ n → All IsByte xs → be_bytes n (be_value xs) ≡ xs
unfolding be_bytes be_value
be_bytes-be_value zero [] e h = refl
be_bytes-be_value zero (x ∷ xs) e h = absurd (omega arith)
be_bytes-be_value (suc n) [] e h = absurd (omega arith)
be_bytes-be_value (suc n) (x ∷ xs) e h =
    let e' : length xs ≡ n = omega arith in
    let lt : be_value xs < 256 ^ n = rw e' at (be_value-lt xs h.1) in
    let (q, r) = div-mod_of_parts x (be_value xs) (256 ^ n) lt in
    rw (e', q, r) (ap (◌∷◌ x) (be_bytes-be_value n xs e' h.1))

-- As many bytes of the same value are the same bytes.
pub be_value_inj :
    (xs ys : List ℕ)
    → length xs ≡ length ys
    → All IsByte xs
    → All IsByte ys
    → be_value xs ≡ be_value ys
    → xs ≡ ys
be_value_inj xs ys e hx hy v =
    sym (be_bytes-be_value (length ys) xs e hx)
    ∙ ap (be_bytes (length ys)) v
    ∙ be_bytes-be_value (length ys) ys refl hy

pub be_value-zeros : (k : ℕ) (xs : List ℕ) → be_value (replicate k 0 ++ xs) ≡ be_value xs
unfolding be_value
be_value-zeros zero xs = refl
be_value-zeros (suc k) xs = omega (arith, be_value-zeros k xs)
