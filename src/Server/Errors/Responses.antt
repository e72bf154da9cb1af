-- ===== src/Server/Errors/Responses.antt =====
-- The responses that the errors of server/src/main.rs become.
use agenc_prover.Base.{ℕ, ◌<◌, ◌≡◌, refl, none, some, Text, text, decimal}
use agenc_prover.Server.Errors.{
  AppError, StatusCode, into_response, bad_request, internal, unauthorized, overloaded,
  too_many_requests, timeout,
}

-- The response has this status and code, and asks for no wait.
pub record IsPlain (status : StatusCode) (code : Text) (e : AppError) : Type 0 where
  pub plain_status : (into_response e).status ≡ status
  pub plain_code : (into_response e).body.code ≡ code
  pub no_header : (into_response e).retry_after ≡ none
  pub no_seconds : (into_response e).body.retry_after_seconds ≡ none

-- The response has this status and code, and asks for a wait of whole positive seconds, the same in
-- its header and in its body.
pub record IsDelayed (status : StatusCode) (code : Text) (e : AppError) : Type 0 where
  pub seconds : ℕ
  pub positive : 0 < seconds
  pub delayed_status : (into_response e).status ≡ status
  pub delayed_code : (into_response e).body.code ≡ code
  pub header : (into_response e).retry_after ≡ some (decimal seconds)
  pub body_seconds : (into_response e).body.retry_after_seconds ≡ some seconds

pub bad_request-IsPlain : (m : Text) → IsPlain 400 (text "bad_request") (bad_request m)
unfolding bad_request into_response
bad_request-IsPlain m = record {
  plain_status = refl;
  plain_code = refl;
  no_header = refl;
  no_seconds = refl;
}

pub internal-IsPlain : (m : Text) → IsPlain 500 (text "internal_error") (internal m)
unfolding internal into_response
internal-IsPlain m = record {
  plain_status = refl;
  plain_code = refl;
  no_header = refl;
  no_seconds = refl;
}

pub unauthorized-IsPlain : (m : Text) → IsPlain 401 (text "unauthorized") (unauthorized m)
unfolding unauthorized into_response
unauthorized-IsPlain m = record {
  plain_status = refl;
  plain_code = refl;
  no_header = refl;
  no_seconds = refl;
}

pub too_many_requests-IsDelayed :
    (m : Text) (n : ℕ) → 0 < n → IsDelayed 429 (text "prove_rate_limited") (too_many_requests m n)
unfolding too_many_requests into_response
too_many_requests-IsDelayed m n h = record {
  seconds = n;
  positive = h;
  delayed_status = refl;
  delayed_code = refl;
  header = refl;
  body_seconds = refl;
}

pub overloaded-IsDelayed :
    (m : Text) (n : ℕ) → 0 < n → IsDelayed 503 (text "prove_overloaded") (overloaded m n)
unfolding overloaded into_response
overloaded-IsDelayed m n h = record {
  seconds = n;
  positive = h;
  delayed_status = refl;
  delayed_code = refl;
  header = refl;
  body_seconds = refl;
}

pub timeout-IsDelayed :
    (m : Text) (n : ℕ) → 0 < n → IsDelayed 504 (text "prove_timeout") (timeout m n)
unfolding timeout into_response
timeout-IsDelayed m n h = record {
  seconds = n;
  positive = h;
  delayed_status = refl;
  delayed_code = refl;
  header = refl;
  body_seconds = refl;
}
