-- ===== src/Base/Panics.antt =====
-- Code that returns or panics and has no other error: `none` is a panic.
use Prim.Native.Nat.{ℕ, ◌*◌, ◌-◌, ◌≤◌}
use mathlib.Core.Bool.{◌&&◌}
use mathlib.Core.List.{List, [], ◌∷◌, ◌++◌}
use mathlib.Core.Option.{Option, none, some}
use mathlib.Core.Path.{◌≡◌, refl}
use native.Mathlib.Omega.{arith}
use agenc_prover.Base.Tests.{◌==◌, leb, ltb, not_ltb, if◌then◌else◌}
use agenc_prover.Base.Chunks.{concat}
use agenc_prover.Base.Lists.{All, length, length-take, length-drop, take, drop}

infixl 5 ◌>>=◌
abbrev pub ◌>>=◌ {ℓ κ} : {A : Type ℓ} {B : Type κ} → Option A → (A → Option B) → Option B
none >>= f = none
some a >>= f = f a

-- `out[start..].copy_from_slice(src)`, which panics when `start` lies outside or the lengths differ.
unfoldable pub copy_from_slice : List ℕ → ℕ → List ℕ → Option (List ℕ)
copy_from_slice out start src =
    if leb start (length out) && length out - start == length src
    then some (take start out ++ src)
    else none

-- `for (chunk, field) in out.chunks_exact_mut(n).zip(fields) { chunk.copy_from_slice(field) }`.
unfoldable pub copy_chunks : ℕ → List ℕ → List (List ℕ) → Option (List ℕ)
copy_chunks n out [] = some out
copy_chunks n out (field ∷ fields) =
    let rest = copy_chunks n (drop n out) fields in
    if ltb (length out) n
    then some out
    else (do chunk ← copy_from_slice (take n out) 0 field; later ← rest; some (chunk ++ later))

pub copy_from_slice_fits :
    (out : List ℕ) (start : ℕ) (src : List ℕ)
    → start ≤ length out
    → length out - start ≡ length src
    → copy_from_slice out start src ≡ some (take start out ++ src)
unfolding copy_from_slice
copy_from_slice_fits out start src h e = ground arith

-- A whole buffer of `n`-byte chunks is overwritten by as many `n`-byte fields.
pub copy_chunks-concat :
    (n : ℕ) (out : List ℕ) (fields : List (List ℕ))
    → All (λ f. length f ≡ n) fields
    → length out ≡ length fields * n
    → copy_chunks n out fields ≡ some (concat fields)
unfolding copy_chunks
copy_chunks-concat n [] [] h e = refl
copy_chunks-concat n (x ∷ out) [] h e = absurd (omega arith)
copy_chunks-concat n out (field ∷ fields) h e =
    let more : n ≤ length out = grind arith in
    let copied =
      copy_from_slice_fits (take n out) 0 field (omega arith)
        (omega (arith, length-take n out more, h.0)) in
    let later = copy_chunks-concat n (drop n out) fields h.1 (grind (arith, length-drop n out)) in
    rw (not_ltb _ _ more, copied, later)
