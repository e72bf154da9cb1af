-- ===== src/Server/Threads/Kept/Handling.antt =====
-- server/src/main.rs: the operations of the handler against the permits and the counters.
use agenc_prover.Base.{
  ℕ, ◌-◌, Bool, true, false, Result, ok, err, panic, leb, ◌≡◌, ◌≢◌, refl, arith, if◌then◌else◌,
}
use agenc_prover.Prover.Generate
use agenc_prover.Prover.Generate.{ProveResponse, ProveError}
use agenc_prover.Server.Errors.{AppError}
use agenc_prover.Server.Request.{ProveRequest}
use agenc_prover.Server.Request.Widths.{try_into_fixed-no_panic}
use agenc_prover.Server.Auth.{ProveAuth}
use agenc_prover.Server.RateLimit.{RateLimiter, RateLimitBucket}
use agenc_prover.Server.Runtime.{ProveRuntime, saturated}
use agenc_prover.Server.Service.Arrival.{authorize-no_panic, check-no_panic}
use agenc_prover.Server.Threads.{
  rule, judge, acquire, accept, handle, Handler, entered, numbered, received, limited, admitted,
  turned_away, permitted, started, counted, handling,
}
use agenc_prover.Server.Threads.Load.{Load, arrived, add, pc_load, handler_load}
use agenc_prover.Server.Threads.Counters.{
  next-Agrees, received-Agrees, unauthorized-Agrees, bad_request-Agrees, rate_limited-Agrees,
  overloaded-Agrees, started-Agrees, raised-Agrees,
}
use agenc_prover.Server.Threads.Kept.{IsKept, KeptAfter}

module _ (permits : ℕ) (l : Load) where
  rule-IsKept :
      (r : ProveRuntime) (id : ℕ) (request : ProveRequest)
      (x : RateLimiter × Result (Unit {0}) AppError)
      → x.1 ≢ panic
      → IsKept permits r (add arrived l)
      → KeptAfter permits l (rule r id request x)
  unfolding rule KeptAfter pc_load handler_load
  rule-IsKept r id request (limiter, ok _) n h = record {
    limit = h.limit;
    split = h.split;
    agrees = h.agrees;
  }
  rule-IsKept r id request (limiter, err e) n h = record {
    limit = h.limit;
    split = h.split;
    agrees = h.agrees;
  }
  rule-IsKept r id request (limiter, panic) n h = absurd (n refl)

  judge-IsKept :
      (r : ProveRuntime) (id : ℕ) (request : ProveRequest) (now later : ℕ)
      (b : Result RateLimitBucket AppError)
      → b ≢ panic
      → IsKept permits r (add arrived l)
      → KeptAfter permits l (judge r id request now later b)
  unfolding judge KeptAfter pc_load handler_load
  judge-IsKept r id request now later (ok bucket) n h =
      rule-IsKept r id request _ (check-no_panic r.rate_limiter bucket now later) h
  judge-IsKept r id request now later (err e) n h = record {
    limit = h.limit;
    split = h.split;
    agrees = unauthorized-Agrees _ _ _ _ _ _ h.agrees;
  }
  judge-IsKept r id request now later panic n h = absurd (n refl)

  acquire-IsKept :
      (r : ProveRuntime) (id : ℕ) (fixed : Generate.ProveRequest) (b : Bool)
      → leb r.available 0 ≡ b
      → IsKept permits r (add arrived l)
      → KeptAfter permits l (
          if b
          then (r, handling (turned_away (saturated r)))
          else (record r { available = r.available - 1 }, handling (permitted id fixed)))
  unfolding KeptAfter pc_load handler_load
  acquire-IsKept r id fixed true e h = record {
    limit = h.limit;
    split = h.split;
    agrees = h.agrees;
  }
  acquire-IsKept r id fixed false e h = record {
    limit = h.limit;
    split = (let p = h.split in ground (arith, e, p));
    agrees = h.agrees;
  }

  accept-IsKept :
      (r : ProveRuntime) (id : ℕ) (x : Result Generate.ProveRequest AppError)
      → x ≢ panic
      → IsKept permits r (add arrived l)
      → KeptAfter permits l (accept r id x)
  unfolding accept acquire KeptAfter pc_load handler_load
  accept-IsKept r id (ok fixed) n h = acquire-IsKept r id fixed _ refl h
  accept-IsKept r id (err e) n h = record {
    limit = h.limit;
    split = h.split;
    agrees = bad_request-Agrees _ _ _ _ _ _ h.agrees;
  }
  accept-IsKept r id panic n h = absurd (n refl)

  pub handle-IsKept :
      (auth : ProveAuth) (r : ProveRuntime) (handler : Handler) (now later : ℕ)
      → IsKept permits r (add (handler_load handler) l)
      → KeptAfter permits l (handle auth r handler now later)
  unfolding handle KeptAfter pc_load handler_load
  handle-IsKept auth r (entered header request) now later h = record {
    limit = h.limit;
    split = h.split;
    agrees = next-Agrees _ _ _ _ _ _ h.agrees;
  }
  handle-IsKept auth r (numbered id header request) now later h = record {
    limit = h.limit;
    split = h.split;
    agrees = received-Agrees _ _ _ _ _ _ h.agrees;
  }
  handle-IsKept auth r (received id header request) now later h =
      judge-IsKept r id request now later _ (authorize-no_panic auth header) h
  handle-IsKept auth r (limited e) now later h = record {
    limit = h.limit;
    split = h.split;
    agrees = rate_limited-Agrees _ _ _ _ _ _ h.agrees;
  }
  handle-IsKept auth r (admitted id request) now later h =
      accept-IsKept r id _ (try_into_fixed-no_panic request) h
  handle-IsKept auth r (turned_away e) now later h = record {
    limit = h.limit;
    split = h.split;
    agrees = overloaded-Agrees _ _ _ _ _ _ h.agrees;
  }
  handle-IsKept auth r (permitted id fixed) now later h = record {
    limit = h.limit;
    split = h.split;
    agrees = started-Agrees _ _ _ _ _ _ h.agrees;
  }
  handle-IsKept auth r (started id fixed) now later h = record {
    limit = h.limit;
    split = h.split;
    agrees = raised-Agrees _ _ _ _ _ _ h.agrees;
  }
  handle-IsKept auth r (counted id fixed) now later h = record {
    limit = h.limit;
    split = h.split;
    agrees = h.agrees;
  }
