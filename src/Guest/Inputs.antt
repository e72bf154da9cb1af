-- ===== src/Guest/Inputs.antt =====
-- The two `try_from_slices` of guest/src/lib.rs: they accept slices of 32 bytes, and name the first
-- that has another length.
use agenc_prover.Base.{
  ℕ, ◌≡◌, List, [], ◌∷◌, Option, none, some, length, Text, text, Result, ok, err, ◌==◌,
  if◌then◌else◌, arith,
}
use agenc_prover.Base.Panics.{copy_from_slice_fits}
use agenc_prover.Guest.Field.{JournalError, invalid_field_length, copy_field, zero_field}
use agenc_prover.Guest.Journal.{journal_try_from_slices, witness_try_from_slices}

-- The first named slice that is not 32 bytes long, with its length.
unfoldable pub first_misfit : List (Text × List ℕ) → Option (Text × ℕ)
first_misfit [] = none
first_misfit ((name, v) ∷ rest) =
    if length v == 32 then first_misfit rest else some (name, length v)

abbrev pub or_misfit {ℓ} : {A : Type ℓ} → Option (Text × ℕ) → A → Result A JournalError
or_misfit none a = ok a
or_misfit (some (name, n)) a = err (invalid_field_length name 32 n)

copy_field_lem :
    (name : Text) (v : List ℕ)
    → copy_field name v
      ≡ (if length v == 32 then ok v else err (invalid_field_length name 32 (length v)))
unfolding copy_field
copy_field_lem name v = ground (arith, copy_from_slice_fits zero_field 0 v)

journal_try_from_slices_lem :
    (t a c o b n : List ℕ)
    → journal_try_from_slices t a c o b n
      ≡ or_misfit
          (first_misfit (
            (text "task_pda", t)
            ∷ (text "agent_authority", a)
            ∷ (text "constraint_hash", c)
            ∷ (text "output_commitment", o)
            ∷ (text "binding", b)
            ∷ (text "nullifier", n)
            ∷ []))
          (record {
            task_pda = t;
            agent_authority = a;
            constraint_hash = c;
            output_commitment = o;
            binding = b;
            nullifier = n;
          })
unfolding journal_try_from_slices first_misfit
journal_try_from_slices_lem t a c o b n = simp copy_field_lem (ground arith)

witness_try_from_slices_lem :
    (a b c d s k : List ℕ)
    → witness_try_from_slices a b c d s k
      ≡ or_misfit
          (first_misfit (
            (text "output[0]", a)
            ∷ (text "output[1]", b)
            ∷ (text "output[2]", c)
            ∷ (text "output[3]", d)
            ∷ (text "salt", s)
            ∷ (text "agent_secret", k)
            ∷ []))
          (record {
            output = record { output_0 = a; output_1 = b; output_2 = c; output_3 = d };
            salt = s;
            agent_secret = k;
          })
unfolding witness_try_from_slices first_misfit
witness_try_from_slices_lem a b c d s k = simp copy_field_lem (ground arith)

-- Both `try_from_slices` accept six slices of 32 bytes, and otherwise name the first slice of
-- another length.
pub try_from_slices_lem :
    (t a c o b n : List ℕ) (o₀ o₁ o₂ o₃ s k : List ℕ)
    → (journal_try_from_slices t a c o b n
        ≡ or_misfit
            (first_misfit (
              (text "task_pda", t)
              ∷ (text "agent_authority", a)
              ∷ (text "constraint_hash", c)
              ∷ (text "output_commitment", o)
              ∷ (text "binding", b)
              ∷ (text "nullifier", n)
              ∷ []))
            (record {
              task_pda = t;
              agent_authority = a;
              constraint_hash = c;
              output_commitment = o;
              binding = b;
              nullifier = n;
            }))
      × (witness_try_from_slices o₀ o₁ o₂ o₃ s k
          ≡ or_misfit
              (first_misfit (
                (text "output[0]", o₀)
                ∷ (text "output[1]", o₁)
                ∷ (text "output[2]", o₂)
                ∷ (text "output[3]", o₃)
                ∷ (text "salt", s)
                ∷ (text "agent_secret", k)
                ∷ []))
              (record {
                output = record { output_0 = o₀; output_1 = o₁; output_2 = o₂; output_3 = o₃ };
                salt = s;
                agent_secret = k;
              }))
try_from_slices_lem t a c o b n o₀ o₁ o₂ o₃ s k =
    (journal_try_from_slices_lem t a c o b n, witness_try_from_slices_lem o₀ o₁ o₂ o₃ s k)
