-- ===== src/Server/Threads/Tally/Turns.antt =====
-- The refusal counters of server/src/main.rs in one turn of a request.
use agenc_prover.Base.{
  ℕ, ◌≡◌, inl, refl, sym, ap, Bool, true, false, Option, Text, Result, ok, err, panic, leb,
}
use mathlib.Core.Path.{subst}
use agenc_prover.Prover.Generate
use agenc_prover.Prover.Generate.{
  ProveResponse, ProveError, invalid_request, unexpected_journal_length, untrusted_image_id,
  dev_mode_enabled, prover_failed, receipt_type_mismatch,
}
use agenc_prover.Server.Auth.{ProveAuth, authorize}
use agenc_prover.Server.Errors.{AppError, bad_request, overloaded, unauthorized}
use agenc_prover.Server.Metrics.{
  Observability, next_request_id, record_request_received, record_unauthorized, record_bad_request,
  record_rate_limited, record_overloaded, count_started, gauge_up,
}
use agenc_prover.Server.RateLimit.{RateLimiter, RateLimitBucket}
use agenc_prover.Server.Request.{ProveRequest, try_into_fixed}
use agenc_prover.Server.Runtime.{ProveRuntime, failure, saturated}
use agenc_prover.Server.Service.Denials.{authorize-unauthorized}
use agenc_prover.Server.Request.Widths.{try_into_fixed-bad_request}
use agenc_prover.Server.Threads.{
  rule, judge, acquire, accept, handle, Handler, entered, numbered, received, limited, admitted,
  turned_away, permitted, started, counted, Pc, handling, join_counted, join_classified, settled,
}
use agenc_prover.Server.Threads.Tally.{
  status_of, given, Tallied, tally_unauthorized, tally_limited, tally_overloaded, tally_other,
  IsOpen, check-status, check-IsOpen,
}

-- The errors that a request keeps until it is answered.
abbrev pub Proper : Pc → Type 0
Proper (handling (limited e)) = e.status ≡ 429
Proper (handling (turned_away e)) = e.status ≡ 503
Proper (join_counted e) = e.status ≡ 500
Proper (join_classified e) = e.status ≡ 500
Proper _ = Unit {0}

-- After a turn, beside that many refusals of the others.
pub record TalliedAfter (a b c d : ℕ) (x : ProveRuntime × Pc) : Type 0 where
  pub tallied : Tallied x.0.observability (given (x.1)) a b c d
  pub proper : Proper (x.1)
  pub open_locks : IsOpen x.0.rate_limiter

module _ (a b c d : ℕ) where
  -- A request that is refused with that status.
  pub settles :
      (m : Observability) (r : ProveRuntime) (e : AppError) (k : ℕ)
      → e.status ≡ k
      → Tallied m k a b c d
      → IsOpen r.rate_limiter
      → TalliedAfter a b c d (record r { observability = m }, settled (failure e))
  unfolding given status_of
  settles m r e k same h locks = record {
    tallied = subst (λ j. Tallied m j a b c d) (sym same) h;
    proper = tt;
    open_locks = locks;
  }

  rule-Tallied :
      (r : ProveRuntime) (id : ℕ) (request : ProveRequest)
      (x : RateLimiter × Result (Unit {0}) AppError)
      → ((e : AppError) → x.1 ≡ err e → e.status ≡ 429)
      → IsOpen (x.0)
      → Tallied r.observability 0 a b c d
      → TalliedAfter a b c d (rule r id request x)
  unfolding rule given status_of
  rule-Tallied r id request (l, ok _) k locks h = record {
    tallied = h;
    proper = tt;
    open_locks = locks;
  }
  rule-Tallied r id request (l, err e) k locks h = record {
    tallied = h;
    proper = k e refl;
    open_locks = locks;
  }
  rule-Tallied r id request (l, panic) k locks h = record {
    tallied = h;
    proper = tt;
    open_locks = locks;
  }

  judge-Tallied :
      (auth : ProveAuth) (header : Option Text) (r : ProveRuntime) (id : ℕ) (request : ProveRequest)
      (now later : ℕ) (x : Result RateLimitBucket AppError)
      → authorize auth header ≡ x
      → IsOpen r.rate_limiter
      → Tallied r.observability 0 a b c d
      → TalliedAfter a b c d (judge r id request now later x)
  unfolding judge given status_of record_unauthorized unauthorized
  judge-Tallied auth header r id request now later (ok bucket) x locks h =
      rule-Tallied r id request _ (λ e. check-status r.rate_limiter bucket now later e locks)
        (check-IsOpen r.rate_limiter bucket now later locks) h
  judge-Tallied auth header r id request now later (err e) x locks h =
      let (m, same) = authorize-unauthorized auth header e x in
      settles (record_unauthorized r.observability) r e 401 (ap (λ y. y.status) same)
        (tally_unauthorized _ _ _ _ a b c d h) locks
  judge-Tallied auth header r id request now later panic x locks h = record {
    tallied = h;
    proper = tt;
    open_locks = locks;
  }

  acquire-Tallied :
      (r : ProveRuntime) (id : ℕ) (fixed : Generate.ProveRequest) (free : Bool)
      → leb r.available 0 ≡ free
      → IsOpen r.rate_limiter
      → Tallied r.observability 0 a b c d
      → TalliedAfter a b c d (acquire r id fixed)
  unfolding acquire given saturated overloaded
  acquire-Tallied r id fixed true e locks h =
      rw e (record { tallied = h; proper = refl; open_locks = locks })
  acquire-Tallied r id fixed false e locks h =
      rw e (record { tallied = h; proper = tt; open_locks = locks })

  accept-Tallied :
      (request : ProveRequest) (r : ProveRuntime) (id : ℕ)
      (x : Result Generate.ProveRequest AppError)
      → try_into_fixed request ≡ x
      → IsOpen r.rate_limiter
      → Tallied r.observability 0 a b c d
      → TalliedAfter a b c d (accept r id x)
  unfolding accept given status_of record_bad_request bad_request
  accept-Tallied request r id (ok fixed) x locks h = acquire-Tallied r id fixed _ refl locks h
  accept-Tallied request r id (err e) x locks h =
      let (m, same) = try_into_fixed-bad_request request e x in
      settles (record_bad_request r.observability) r e 400 (ap (λ y. y.status) same)
        (tally_other _ _ _ _ a b c d 400 (inl refl) h) locks
  accept-Tallied request r id panic x locks h = record {
    tallied = h;
    proper = tt;
    open_locks = locks;
  }

  pub handle-Tallied :
      (auth : ProveAuth) (r : ProveRuntime) (handler : Handler) (now later : ℕ)
      → Proper (handling handler)
      → IsOpen r.rate_limiter
      → Tallied r.observability 0 a b c d
      → TalliedAfter a b c d (handle auth r handler now later)
  unfolding handle given next_request_id record_request_received record_rate_limited
      record_overloaded count_started gauge_up
  handle-Tallied auth r (entered header request) now later p locks h = record {
    tallied = h;
    proper = tt;
    open_locks = locks;
  }
  handle-Tallied auth r (numbered id header request) now later p locks h = record {
    tallied = h;
    proper = tt;
    open_locks = locks;
  }
  handle-Tallied auth r (received id header request) now later p locks h =
      judge-Tallied auth header r id request now later _ refl locks h
  handle-Tallied auth r (limited e) now later p locks h =
      settles (record_rate_limited r.observability) r e 429 p (tally_limited _ _ _ _ a b c d h)
        locks
  handle-Tallied auth r (admitted id request) now later p locks h =
      accept-Tallied request r id _ refl locks h
  handle-Tallied auth r (turned_away e) now later p locks h =
      settles (record_overloaded r.observability) r e 503 p (tally_overloaded _ _ _ _ a b c d h)
        locks
  handle-Tallied auth r (permitted id fixed) now later p locks h = record {
    tallied = h;
    proper = tt;
    open_locks = locks;
  }
  handle-Tallied auth r (started id fixed) now later p locks h = record {
    tallied = h;
    proper = tt;
    open_locks = locks;
  }
  handle-Tallied auth r (counted id fixed) now later p locks h = record {
    tallied = h;
    proper = tt;
    open_locks = locks;
  }
