-- ===== src/Server/Request/Widths.antt =====
-- `try_into_fixed` of server/src/main.rs checks every width, and reports the first that is wrong.
use agenc_prover.Base.{
  ℕ, ◌≡◌, refl, List, [], ◌∷◌, ◌++◌, Option, none, some, length, Text, text, decimal, Result, ok,
  err, panic, err_inj, ◌≢◌, sym, ◌∙◌, ◌==◌, if◌then◌else◌, arith,
}
use agenc_prover.Guest.Inputs.{first_misfit}
use agenc_prover.Prover.Generate
use agenc_prover.Server.Errors.{AppError, bad_request}
use agenc_prover.Server.Request.{
  ProveRequest, vec_to_field, try_into_fixed_output, try_into_fixed, output_count_error,
}

width_error : Text × ℕ → AppError
width_error (name, n) =
    bad_request
      (name ++ (text " must be exactly " ++ (decimal 32 ++ (text " bytes, got " ++ decimal n))))

-- All widths, in the order in which they are checked.
named : ProveRequest → (o0 o1 o2 o3 : List ℕ) → List (Text × List ℕ)
named r o0 o1 o2 o3 =
    (text "output[0]", o0)
    ∷ (text "output[1]", o1)
    ∷ (text "output[2]", o2)
    ∷ (text "output[3]", o3)
    ∷ (text "task_pda", r.task_pda)
    ∷ (text "agent_authority", r.agent_authority)
    ∷ (text "constraint_hash", r.constraint_hash)
    ∷ (text "output_commitment", r.output_commitment)
    ∷ (text "binding", r.binding)
    ∷ (text "nullifier", r.nullifier)
    ∷ (text "salt", r.salt)
    ∷ (text "agent_secret", r.agent_secret)
    ∷ []

abbrev or_width_error :
    Option (Text × ℕ) → Generate.ProveRequest → Result Generate.ProveRequest AppError
or_width_error none r = ok r
or_width_error (some m) r = err (width_error m)

fixed : ProveRequest → (o0 o1 o2 o3 : List ℕ) → Generate.ProveRequest
fixed r o0 o1 o2 o3 = record {
  task_pda = r.task_pda;
  agent_authority = r.agent_authority;
  constraint_hash = r.constraint_hash;
  output_commitment = r.output_commitment;
  binding = r.binding;
  nullifier = r.nullifier;
  output = record { output_0 = o0; output_1 = o1; output_2 = o2; output_3 = o3 };
  salt = r.salt;
  agent_secret = r.agent_secret;
}

-- What the conversion should answer, by the outputs given.
unfoldable pub expected : ProveRequest → List (List ℕ) → Result Generate.ProveRequest AppError
unfolding named fixed width_error
expected r (o0 ∷ o1 ∷ o2 ∷ o3 ∷ []) =
    or_width_error (first_misfit (named r o0 o1 o2 o3)) (fixed r o0 o1 o2 o3)
expected r os = err (output_count_error (length os))

vec_to_field_lem :
    (name : Text) (v : List ℕ)
    → vec_to_field name v ≡ (if length v == 32 then ok v else err (width_error (name, length v)))
unfolding vec_to_field width_error
vec_to_field_lem name v = refl

with_output :
    (r : ProveRequest) (os : List (List ℕ))
    → try_into_fixed (record r { output = os }) ≡ expected r os
unfolding try_into_fixed try_into_fixed_output expected first_misfit named fixed
with_output r [] = refl
with_output r (a ∷ []) = refl
with_output r (a ∷ b ∷ []) = refl
with_output r (a ∷ b ∷ c ∷ []) = refl
with_output r (a ∷ b ∷ c ∷ d ∷ e ∷ os) = refl
with_output r (a ∷ b ∷ c ∷ d ∷ []) = simp vec_to_field_lem (ground arith)

or_width_error-no_panic :
    (o : Option (Text × ℕ)) (r : Generate.ProveRequest) → or_width_error o r ≢ panic
unfolding width_error
or_width_error-no_panic none r = ground arith
or_width_error-no_panic (some m) r = ground arith

expected-no_panic : (r : ProveRequest) (os : List (List ℕ)) → expected r os ≢ panic
unfolding expected
expected-no_panic r [] = ground arith
expected-no_panic r (a ∷ []) = ground arith
expected-no_panic r (a ∷ b ∷ []) = ground arith
expected-no_panic r (a ∷ b ∷ c ∷ []) = ground arith
expected-no_panic r (a ∷ b ∷ c ∷ d ∷ e ∷ os) = ground arith
expected-no_panic r (a ∷ b ∷ c ∷ d ∷ []) =
    or_width_error-no_panic (first_misfit (named r a b c d)) (fixed r a b c d)

-- The request is converted unchanged when there are four outputs and all twelve fields are 32
-- bytes long. Otherwise it is a bad request that names the number of outputs or the first field of
-- another width, with that width.
pub try_into_fixed-expected : (r : ProveRequest) → try_into_fixed r ≡ expected r r.output
try_into_fixed-expected r = with_output r r.output

pub try_into_fixed-no_panic : (r : ProveRequest) → try_into_fixed r ≢ panic
try_into_fixed-no_panic r e = expected-no_panic r r.output (sym (try_into_fixed-expected r) ∙ e)

or_width_error-bad_request :
    (o : Option (Text × ℕ)) (r : Generate.ProveRequest) (e : AppError)
    → or_width_error o r ≡ err e
    → (m : Text) × (e ≡ bad_request m)
unfolding width_error
or_width_error-bad_request none r e h = cc h
or_width_error-bad_request (some (name, n)) r e h = (_, sym (err_inj h))

-- Every refusal of the conversion is a bad request.
expected-bad_request :
    (r : ProveRequest) (os : List (List ℕ)) (e : AppError)
    → expected r os ≡ err e
    → (m : Text) × (e ≡ bad_request m)
unfolding expected output_count_error
expected-bad_request r [] e h = (_, sym (err_inj h))
expected-bad_request r (a ∷ []) e h = (_, sym (err_inj h))
expected-bad_request r (a ∷ b ∷ []) e h = (_, sym (err_inj h))
expected-bad_request r (a ∷ b ∷ c ∷ []) e h = (_, sym (err_inj h))
expected-bad_request r (a ∷ b ∷ c ∷ d ∷ f ∷ os) e h = (_, sym (err_inj h))
expected-bad_request r (a ∷ b ∷ c ∷ d ∷ []) e h =
    or_width_error-bad_request (first_misfit (named r a b c d)) (fixed r a b c d) e h

pub try_into_fixed-bad_request :
    (r : ProveRequest) (e : AppError) → try_into_fixed r ≡ err e → (m : Text) × (e ≡ bad_request m)
try_into_fixed-bad_request r e h =
    expected-bad_request r r.output e (sym (with_output r r.output) ∙ h)
