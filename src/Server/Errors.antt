-- ===== src/Server/Errors.antt =====
-- server/src/main.rs: `AppError` and the HTTP response that it becomes.
pub mod Responses
use agenc_prover.Base.{ℕ, Option, none, some, Text, text, decimal}

-- A status code by its number.
abbrev pub StatusCode : Type 0
StatusCode = ℕ

pub record AppError : Type 0 where
  pub status : StatusCode
  pub code : Text
  pub message : Text
  pub retry_after_seconds : Option ℕ

unfoldable pub bad_request : Text → AppError
bad_request message = record {
  status = 400;
  code = text "bad_request";
  message = message;
  retry_after_seconds = none;
}

unfoldable pub internal : Text → AppError
internal message = record {
  status = 500;
  code = text "internal_error";
  message = message;
  retry_after_seconds = none;
}

unfoldable pub unauthorized : Text → AppError
unauthorized message = record {
  status = 401;
  code = text "unauthorized";
  message = message;
  retry_after_seconds = none;
}

unfoldable pub overloaded : Text → ℕ → AppError
overloaded message retry = record {
  status = 503;
  code = text "prove_overloaded";
  message = message;
  retry_after_seconds = some retry;
}

unfoldable pub too_many_requests : Text → ℕ → AppError
too_many_requests message retry = record {
  status = 429;
  code = text "prove_rate_limited";
  message = message;
  retry_after_seconds = some retry;
}

unfoldable pub timeout : Text → ℕ → AppError
timeout message retry = record {
  status = 504;
  code = text "prove_timeout";
  message = message;
  retry_after_seconds = some retry;
}

-- The JSON body of an error; `retry_after_seconds` is left out when it is `none`.
pub record ErrorResponse : Type 0 where
  pub error : Text
  pub code : Text
  pub retry_after_seconds : Option ℕ

-- The parts of the response that the code sets.
pub record Response : Type 0 where
  pub status : StatusCode
  pub body : ErrorResponse
  pub retry_after : Option Text

retry_header : Option ℕ → Option Text
retry_header none = none
retry_header (some seconds) = some (decimal seconds)

unfoldable pub into_response : AppError → Response
unfolding retry_header
into_response e = record {
  status = e.status;
  body = record { error = e.message; code = e.code; retry_after_seconds = e.retry_after_seconds };
  retry_after = retry_header e.retry_after_seconds;
}
