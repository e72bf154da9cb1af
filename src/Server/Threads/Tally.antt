-- ===== src/Server/Threads/Tally.antt =====
-- The refusal counters of server/src/main.rs, against the requests that have been answered so.
pub mod Turns
pub mod Working
use agenc_prover.Base.{
  ℕ, ◌+◌, ◌%◌, ◌≡◌, ◌≢◌, ◌⊎◌, inl, inr, refl, sym, ap, ◌∙◌, arith, Bool, true, false, Bool-cases,
  Option, Text, Result, ok, err, panic, leb, ◌==◌, if◌then◌else◌,
}
use mathlib.Core.Path.{subst}
use agenc_prover.Prover.Generate
use agenc_prover.Prover.Generate.{ProveResponse, ProveError, invalid_request}
use agenc_prover.Server.Errors.{AppError, internal, overloaded, timeout, too_many_requests}
use agenc_prover.Server.Metrics.{Observability, u64_mod, fetch_add}
use agenc_prover.Server.RateLimit.{
  RateLimiter, RateLimitBucket, local_dev_bucket, protected_bucket, check, check_window,
}
use agenc_prover.Server.Runtime.{Answer, pending, success, failure, aborted}
use agenc_prover.Server.Threads.{
  Handler, entered, numbered, received, limited, admitted, turned_away, permitted, started, counted,
  Task, Pc, handling, awaited, alone, delivered, crashed, join_counted, join_classified, settled,
  lost,
}

-- The status of the refusal that a client has been given; 0 where there is none.
unfoldable pub status_of : Answer → ℕ
status_of (failure e) = e.status
status_of pending = 0
status_of (success response) = 0
status_of aborted = 0

unfoldable pub given : Pc → ℕ
given (handling h) = 0
given (awaited task) = 0
given (alone a task) = status_of a
given (delivered result) = 0
given (crashed join_error) = 0
given (join_counted e) = 0
given (join_classified e) = 0
given (settled a) = status_of a
given (lost a) = status_of a

unfoldable pub one_if : ℕ → ℕ → ℕ
one_if status k = if k == status then 1 else 0

-- The counters of refusals are those sums, modulo 2^64.
pub record IsTallied (unauthorized limited overloaded late a b c d : ℕ) : Type 0 where
  pub unauthorized_tally : a % u64_mod ≡ unauthorized
  pub limited_tally : b % u64_mod ≡ limited
  pub overloaded_tally : c % u64_mod ≡ overloaded
  pub late_tally : d % u64_mod ≡ late

-- One request that was given that status, beside the others.
abbrev pub Tallied : Observability → ℕ → (a b c d : ℕ) → Type 0
Tallied m k a b c d =
    IsTallied m.prove_unauthorized_total m.prove_rate_limited_total m.prove_overloaded_total
      m.prove_timeouts_total (one_if 401 k + a) (one_if 429 k + b) (one_if 503 k + c)
      (one_if 504 k + d)

module _ (u l o t a b c d : ℕ) where
  abbrev Before : Type 0
  Before =
      IsTallied u l o t (one_if 401 0 + a) (one_if 429 0 + b) (one_if 503 0 + c) (one_if 504 0 + d)

  abbrev After : (u l o t k : ℕ) → Type 0
  After u l o t k =
      IsTallied u l o t (one_if 401 k + a) (one_if 429 k + b) (one_if 503 k + c) (one_if 504 k + d)

  pub tally_unauthorized : Before → After (fetch_add u 1) l o t 401
  unfolding one_if
  tally_unauthorized h = record {
    unauthorized_tally = (let e = h.unauthorized_tally in omega arith);
    limited_tally = h.limited_tally;
    overloaded_tally = h.overloaded_tally;
    late_tally = h.late_tally;
  }

  pub tally_limited : Before → After u (fetch_add l 1) o t 429
  unfolding one_if
  tally_limited h = record {
    unauthorized_tally = h.unauthorized_tally;
    limited_tally = (let e = h.limited_tally in omega arith);
    overloaded_tally = h.overloaded_tally;
    late_tally = h.late_tally;
  }

  pub tally_overloaded : Before → After u l (fetch_add o 1) t 503
  unfolding one_if
  tally_overloaded h = record {
    unauthorized_tally = h.unauthorized_tally;
    limited_tally = h.limited_tally;
    overloaded_tally = (let e = h.overloaded_tally in omega arith);
    late_tally = h.late_tally;
  }

  pub tally_late : Before → After u l o (fetch_add t 1) 504
  unfolding one_if
  tally_late h = record {
    unauthorized_tally = h.unauthorized_tally;
    limited_tally = h.limited_tally;
    overloaded_tally = h.overloaded_tally;
    late_tally = (let e = h.late_tally in omega arith);
  }

  -- A status that no counter of refusals counts.
  pub tally_other : (k : ℕ) → (k ≡ 400) ⊎ (k ≡ 500) → Before → After u l o t k
  unfolding one_if
  tally_other k (inl e) h = rw e record {
    unauthorized_tally = h.unauthorized_tally;
    limited_tally = h.limited_tally;
    overloaded_tally = h.overloaded_tally;
    late_tally = h.late_tally;
  }
  tally_other k (inr e) h = rw e record {
    unauthorized_tally = h.unauthorized_tally;
    limited_tally = h.limited_tally;
    overloaded_tally = h.overloaded_tally;
    late_tally = h.late_tally;
  }

-- Nobody has poisoned a lock of the limiter.
abbrev pub IsOpen : RateLimiter → Type 0
IsOpen l = (l.local_dev.poisoned ≡ false) × (l.protected.poisoned ≡ false)

pub check-status :
    (l : RateLimiter) (b : RateLimitBucket) (now later : ℕ) (e : AppError)
    → IsOpen l
    → (check l b now later).1 ≡ err e
    → e.status ≡ 429
unfolding check check_window too_many_requests
check-status l local_dev_bucket now later e (p, q) h = ground (arith, p, h)
check-status l protected_bucket now later e (p, q) h = ground (arith, q, h)

pub check-IsOpen :
    (l : RateLimiter) (b : RateLimitBucket) (now later : ℕ)
    → IsOpen l
    → IsOpen ((check l b now later).0)
unfolding check
check-IsOpen l local_dev_bucket now later (p, q) = (ground (arith, p), q)
check-IsOpen l protected_bucket now later (p, q) = (p, ground (arith, q))
