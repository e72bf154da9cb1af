-- ===== src/Server/Service/Arrival.antt =====
-- The handler of server/src/main.rs up to its first wait keeps the balance.
use agenc_prover.Base.{
  ℕ, ◌+◌, Bool, true, false, Result, ok, err, panic, leb, ◌≡◌, ◌≢◌, Option, arith, refl,
  if◌then◌else◌, Text,
}
use agenc_prover.Server.Runtime.{
  AppState, Answer, arrive, authorized, limit, convert, spawn, metrics,
}
use agenc_prover.Server.Service.Accounts.{
  Agree, received-Agree, unauthorized-Agree, bad_request-Agree, rate_limited-Agree,
  overloaded-Agree, started-Agree,
}
use agenc_prover.Prover.Generate
use agenc_prover.Server.Errors.{AppError}
use agenc_prover.Server.Auth.{ProveAuth, authorize}
use agenc_prover.Server.Request.{ProveRequest, try_into_fixed}
use agenc_prover.Server.Request.Widths.{try_into_fixed-no_panic}
use agenc_prover.Server.RateLimit.{RateLimiter, RateLimitBucket, check, check_window}
use agenc_prover.Server.Service.Invariant.{running_count, crashed_count, IsBalanced, Agree-at}

-- The same of a state in which one request is not decided yet.
record IsUndecided (s : AppState) : Type 0 where
  permits : s.prove_runtime.available + running_count s.jobs ≡ s.prove_runtime.max_in_flight
  agree : Agree (metrics s) (running_count s.jobs) (crashed_count s.jobs) 1

pub authorize-no_panic : (auth : ProveAuth) (header : Option Text) → authorize auth header ≢ panic
unfolding authorize
authorize-no_panic auth header = ground arith

pub check-no_panic :
    (l : RateLimiter) (b : RateLimitBucket) (now later : ℕ) → (check l b now later).1 ≢ panic
unfolding check check_window
check-no_panic l b now later = ground arith

-- Both branches of a test.
pub if-IsBalanced :
    (b : Bool) (x y : AppState × Answer)
    → (b ≡ true → IsBalanced (x.0))
    → (b ≡ false → IsBalanced (y.0))
    → IsBalanced ((if b then x else y).0)
if-IsBalanced true x y hx hy = hx refl
if-IsBalanced false x y hx hy = hy refl

spawn-IsBalanced :
    (s : AppState) (id : ℕ) (fixed : Generate.ProveRequest)
    → IsUndecided s
    → IsBalanced ((spawn s id fixed).0)
unfolding spawn running_count crashed_count
spawn-IsBalanced s id fixed h =
    if-IsBalanced (leb s.prove_runtime.available 0) _ _
      (λ _. record { permits = h.permits; agree = overloaded-Agree _ _ _ h.agree })
      (λ e. record {
        permits = (let p = h.permits in ground arith);
        agree = Agree-at _ refl (omega arith) (started-Agree _ _ _ h.agree);
      })

convert-IsBalanced :
    (s : AppState) (id : ℕ) (r : Result Generate.ProveRequest AppError)
    → IsUndecided s
    → r ≢ panic
    → IsBalanced ((convert s id r).0)
unfolding convert
convert-IsBalanced s id (ok fixed) h n = spawn-IsBalanced s id fixed h
convert-IsBalanced s id (err e) h n = record {
  permits = h.permits;
  agree = bad_request-Agree _ _ _ h.agree;
}
convert-IsBalanced s id panic h n = absurd (n refl)

limit-IsBalanced :
    (s : AppState) (id : ℕ) (r : ProveRequest) (x : RateLimiter × Result (Unit {0}) AppError)
    → IsUndecided s
    → x.1 ≢ panic
    → IsBalanced ((limit s id r x).0)
unfolding limit
limit-IsBalanced s id r (l, ok _) h n =
    convert-IsBalanced _ id (try_into_fixed r) (record { permits = h.permits; agree = h.agree })
      (try_into_fixed-no_panic r)
limit-IsBalanced s id r (l, err e) h n = record {
  permits = h.permits;
  agree = rate_limited-Agree _ _ _ h.agree;
}
limit-IsBalanced s id r (l, panic) h n = absurd (n refl)

authorized-IsBalanced :
    (s : AppState) (id : ℕ) (r : ProveRequest) (now later : ℕ) (x : Result RateLimitBucket AppError)
    → IsUndecided s
    → x ≢ panic
    → IsBalanced ((authorized s id r now later x).0)
unfolding authorized
authorized-IsBalanced s id r now later (ok b) h n =
    limit-IsBalanced s id r (check s.prove_runtime.rate_limiter b now later) h
      (check-no_panic s.prove_runtime.rate_limiter b now later)
authorized-IsBalanced s id r now later (err e) h n = record {
  permits = h.permits;
  agree = unauthorized-Agree _ _ _ h.agree;
}
authorized-IsBalanced s id r now later panic h n = absurd (n refl)

pub arrive-IsBalanced :
    (s : AppState) (header : Option Text) (r : ProveRequest) (now later : ℕ)
    → IsBalanced s
    → IsBalanced ((arrive s header r now later).0)
unfolding arrive
arrive-IsBalanced s header r now later h =
    authorized-IsBalanced _ _ r now later (authorize s.prove_auth header)
      (record { permits = h.permits; agree = received-Agree _ _ _ h.agree })
      (authorize-no_panic s.prove_auth header)
