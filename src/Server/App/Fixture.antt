-- ===== src/Server/App/Fixture.antt =====
-- What the unit tests of server/src/main.rs send, scripts/prove-benchmark-request.json among it, and
-- the states of their services. The clock stands still at 0.
use agenc_prover.Base.{
  ◌∷◌, ℕ, Bool, false, List, [], Option, none, some, Text, text, err, replicate,
}
use agenc_prover.Prover.Generate.{prover_failed}
use agenc_prover.Server.App.{World, Request, get_method, post_method}
use agenc_prover.Server.Auth.{ProveAuth, disabled, api_key}
use agenc_prover.Server.Metrics.{new_observability}
use agenc_prover.Server.RateLimit.{RateLimiter, new_limiter, from_secs}
use agenc_prover.Server.Request.{ProveRequest, field_len}
use agenc_prover.Server.Runtime.{AppState, new_runtime, resolve_execution_policy}
use agenc_prover.Server.Threads.{returns, panics}

-- `valid_request_json`, read.
unfoldable pub valid_request : ProveRequest
valid_request = record {
  task_pda =
      0 ∷ 0 ∷ 0 ∷ 0 ∷ 0 ∷ 0 ∷ 0 ∷ 0 ∷ 0 ∷ 0 ∷ 0 ∷ 0 ∷ 0 ∷ 0 ∷ 0 ∷ 0 ∷ 0 ∷ 0 ∷ 0 ∷ 0 ∷ 0 ∷ 0 ∷ 0 ∷ 0
      ∷ 0 ∷ 0 ∷ 0 ∷ 0 ∷ 0 ∷ 0 ∷ 0 ∷ 42 ∷ [];
  agent_authority =
      1 ∷ 2 ∷ 3 ∷ 4 ∷ 5 ∷ 6 ∷ 7 ∷ 8 ∷ 9 ∷ 10 ∷ 11 ∷ 12 ∷ 13 ∷ 14 ∷ 15 ∷ 16 ∷ 17 ∷ 18 ∷ 19 ∷ 20 ∷ 21
      ∷ 22 ∷ 23 ∷ 24 ∷ 25 ∷ 26 ∷ 27 ∷ 28 ∷ 29 ∷ 30 ∷ 31 ∷ 32 ∷ [];
  constraint_hash =
      27 ∷ 5 ∷ 2 ∷ 84 ∷ 39 ∷ 22 ∷ 233 ∷ 180 ∷ 224 ∷ 118 ∷ 227 ∷ 90 ∷ 187 ∷ 207 ∷ 226 ∷ 180 ∷ 153
      ∷ 111 ∷ 89 ∷ 65 ∷ 177 ∷ 42 ∷ 115 ∷ 94 ∷ 20 ∷ 181 ∷ 98 ∷ 20 ∷ 142 ∷ 87 ∷ 84 ∷ 23 ∷ [];
  output_commitment =
      5 ∷ 68 ∷ 147 ∷ 77 ∷ 26 ∷ 229 ∷ 129 ∷ 70 ∷ 252 ∷ 91 ∷ 137 ∷ 194 ∷ 187 ∷ 112 ∷ 184 ∷ 206 ∷ 175
      ∷ 196 ∷ 126 ∷ 146 ∷ 18 ∷ 138 ∷ 165 ∷ 201 ∷ 188 ∷ 180 ∷ 31 ∷ 10 ∷ 74 ∷ 50 ∷ 36 ∷ 30 ∷ [];
  binding =
      21 ∷ 13 ∷ 226 ∷ 197 ∷ 153 ∷ 150 ∷ 34 ∷ 181 ∷ 237 ∷ 51 ∷ 113 ∷ 126 ∷ 95 ∷ 159 ∷ 255 ∷ 117 ∷ 59
      ∷ 155 ∷ 2 ∷ 13 ∷ 16 ∷ 26 ∷ 14 ∷ 104 ∷ 94 ∷ 149 ∷ 113 ∷ 116 ∷ 45 ∷ 24 ∷ 164 ∷ 247 ∷ [];
  nullifier =
      244 ∷ 234 ∷ 41 ∷ 112 ∷ 18 ∷ 33 ∷ 223 ∷ 173 ∷ 165 ∷ 57 ∷ 218 ∷ 176 ∷ 51 ∷ 26 ∷ 185 ∷ 6 ∷ 68
      ∷ 155 ∷ 203 ∷ 55 ∷ 112 ∷ 100 ∷ 87 ∷ 191 ∷ 241 ∷ 141 ∷ 85 ∷ 247 ∷ 244 ∷ 9 ∷ 238 ∷ 159 ∷ [];
  output =
      ((0 ∷ 0 ∷ 0 ∷ 0 ∷ 0 ∷ 0 ∷ 0 ∷ 0 ∷ 0 ∷ 0 ∷ 0 ∷ 0 ∷ 0 ∷ 0 ∷ 0 ∷ 0 ∷ 0 ∷ 0 ∷ 0 ∷ 0 ∷ 0 ∷ 0 ∷ 0
          ∷ 0 ∷ 0 ∷ 0 ∷ 0 ∷ 0 ∷ 0 ∷ 0 ∷ 0 ∷ 1 ∷ [])
        ∷ (0 ∷ 0 ∷ 0 ∷ 0 ∷ 0 ∷ 0 ∷ 0 ∷ 0 ∷ 0 ∷ 0 ∷ 0 ∷ 0 ∷ 0 ∷ 0 ∷ 0 ∷ 0 ∷ 0 ∷ 0 ∷ 0 ∷ 0 ∷ 0 ∷ 0 ∷ 0
            ∷ 0 ∷ 0 ∷ 0 ∷ 0 ∷ 0 ∷ 0 ∷ 0 ∷ 0 ∷ 2 ∷ [])
        ∷ (0 ∷ 0 ∷ 0 ∷ 0 ∷ 0 ∷ 0 ∷ 0 ∷ 0 ∷ 0 ∷ 0 ∷ 0 ∷ 0 ∷ 0 ∷ 0 ∷ 0 ∷ 0 ∷ 0 ∷ 0 ∷ 0 ∷ 0 ∷ 0 ∷ 0 ∷ 0
            ∷ 0 ∷ 0 ∷ 0 ∷ 0 ∷ 0 ∷ 0 ∷ 0 ∷ 0 ∷ 3 ∷ [])
        ∷ (0 ∷ 0 ∷ 0 ∷ 0 ∷ 0 ∷ 0 ∷ 0 ∷ 0 ∷ 0 ∷ 0 ∷ 0 ∷ 0 ∷ 0 ∷ 0 ∷ 0 ∷ 0 ∷ 0 ∷ 0 ∷ 0 ∷ 0 ∷ 0 ∷ 0 ∷ 0
            ∷ 0 ∷ 0 ∷ 0 ∷ 0 ∷ 0 ∷ 0 ∷ 0 ∷ 0 ∷ 4 ∷ [])
        ∷ []);
  salt =
      0 ∷ 0 ∷ 0 ∷ 0 ∷ 0 ∷ 0 ∷ 0 ∷ 0 ∷ 0 ∷ 0 ∷ 0 ∷ 0 ∷ 0 ∷ 0 ∷ 0 ∷ 0 ∷ 0 ∷ 0 ∷ 0 ∷ 0 ∷ 0 ∷ 0 ∷ 0 ∷ 0
      ∷ 0 ∷ 0 ∷ 0 ∷ 0 ∷ 0 ∷ 0 ∷ 48 ∷ 57 ∷ [];
  agent_secret =
      0 ∷ 0 ∷ 0 ∷ 0 ∷ 0 ∷ 0 ∷ 0 ∷ 0 ∷ 0 ∷ 0 ∷ 0 ∷ 0 ∷ 0 ∷ 0 ∷ 0 ∷ 0 ∷ 0 ∷ 0 ∷ 0 ∷ 0 ∷ 0 ∷ 0 ∷ 0 ∷ 0
      ∷ 0 ∷ 0 ∷ 0 ∷ 0 ∷ 0 ∷ 1 ∷ 9 ∷ 50 ∷ [];
}

unfoldable pub local_dev_app : AppState
local_dev_app = record {
  prove_auth = disabled;
  prove_runtime = new_runtime (resolve_execution_policy 1 900 10 60) 0 0;
  jobs = [];
}

unfoldable pub protected_app : AppState
protected_app = record {
  prove_auth = api_key (text "test-token");
  prove_runtime = new_runtime (resolve_execution_policy 1 900 10 60) 0 0;
  jobs = [];
}

unfoldable pub test_rate_limiter : (max_requests window_secs : ℕ) → RateLimiter
test_rate_limiter max_requests window_secs =
    new_limiter (record { max_requests = max_requests; window = from_secs window_secs }) 0 0

-- A runtime of a test's own; the prover stands in the `World`.
unfoldable pub test_app :
    ProveAuth → (permits request_timeout retry_after_seconds : ℕ) → RateLimiter → AppState
test_app auth permits request_timeout retry_after_seconds limiter = record {
  prove_auth = auth;
  prove_runtime = record {
    available = permits;
    max_in_flight = 1;
    request_timeout = request_timeout;
    retry_after_seconds = retry_after_seconds;
    rate_limiter = limiter;
    observability = new_observability;
  };
  jobs = [];
}

unfoldable pub get_request : Text → Request
get_request uri = record { method = get_method; uri = uri; authorization = none; body = none }

unfoldable pub post_request : Option Text → ProveRequest → Request
post_request authorization request = record {
  method = post_method;
  uri = text "/prove";
  authorization = authorization;
  body = some request;
}

-- A field of equal bytes, and the payload of the tests of widths.
unfoldable pub payload : List ℕ → List (List ℕ) → ProveRequest
payload task_pda output = record {
  task_pda = task_pda;
  agent_authority = replicate field_len 2;
  constraint_hash = replicate field_len 3;
  output_commitment = replicate field_len 4;
  binding = replicate field_len 5;
  nullifier = replicate field_len 6;
  output = output;
  salt = replicate field_len 8;
  agent_secret = replicate field_len 9;
}

-- A prover that must not be entered, and one that fails.
unfoldable pub unreachable : Text → World
unreachable message = record { now = 0; later = 0; prove_fn = λ r. panics message; late = false }

unfoldable pub failing : Text → Bool → World
failing message late = record {
  now = 0;
  later = 0;
  prove_fn = λ r. returns (err (prover_failed message)) 0;
  late = late;
}
