-- ===== src/Server/Service/Limit.antt =====
-- The part of the configuration that the states of server/src/main.rs keep.
use agenc_prover.Base.{
  ℕ, ◌≡◌, refl, ◌∙◌, arith, List, [], ◌∷◌, Option, Text, Result, ok, err, panic,
}
use agenc_prover.Prover.Generate
use agenc_prover.Prover.Generate.{ProveResponse, ProveError}
use agenc_prover.Server.Errors.{AppError}
use agenc_prover.Server.Auth.{ProveAuth, authorize}
use agenc_prover.Server.Request.{ProveRequest, try_into_fixed}
use agenc_prover.Server.RateLimit.{RateLimiter, RateLimitBucket, check}
use agenc_prover.Server.Runtime.{
  AppState, Job, Answer, spawn, convert, limit, authorized, arrive, with_metrics, metrics,
}
use agenc_prover.Server.Metrics.{next_request_id, record_request_received}
use agenc_prover.Server.Service.{
  take_job, on_return, on_panic, on_join, on_expiry, on_disconnect, job_returns, job_panics,
  drop_job, abandon, Event, arrives, returns, panics, joins, expires, disconnects, step, run,
}

-- What a state keeps of the configuration.
abbrev pub settings : AppState → ProveAuth × (ℕ × ℕ)
settings s = (s.prove_auth, (s.prove_runtime.max_in_flight, s.prove_runtime.retry_after_seconds))

abbrev settings_of : AppState × Answer → ProveAuth × (ℕ × ℕ)
settings_of (s, answer) = settings s

spawn-settings :
    (s : AppState) (id : ℕ) (fixed : Generate.ProveRequest)
    → settings_of (spawn s id fixed) ≡ settings s
unfolding spawn
spawn-settings s id fixed = ground arith

convert-settings :
    (s : AppState) (id : ℕ) (r : Result Generate.ProveRequest AppError)
    → settings_of (convert s id r) ≡ settings s
unfolding convert
convert-settings s id (ok fixed) = spawn-settings s id fixed
convert-settings s id (err e) = refl
convert-settings s id panic = refl

limit-settings :
    (s : AppState) (id : ℕ) (r : ProveRequest) (x : RateLimiter × Result (Unit {0}) AppError)
    → settings_of (limit s id r x) ≡ settings s
unfolding limit
limit-settings s id r (l, ok _) = convert-settings _ id (try_into_fixed r)
limit-settings s id r (l, err e) = refl
limit-settings s id r (l, panic) = refl

authorized-settings :
    (s : AppState) (id : ℕ) (r : ProveRequest) (now later : ℕ) (x : Result RateLimitBucket AppError)
    → settings_of (authorized s id r now later x) ≡ settings s
unfolding authorized
authorized-settings s id r now later (ok b) =
    limit-settings s id r (check s.prove_runtime.rate_limiter b now later)
authorized-settings s id r now later (err e) = refl
authorized-settings s id r now later panic = refl

on_return-settings :
    (s : AppState) (found : Option (Job × List Job)) (x : Result ProveResponse ProveError) (d : ℕ)
    → settings_of (on_return s found x d) ≡ settings s
unfolding on_return job_returns
on_return-settings s found x d = ground arith

on_panic-settings :
    (s : AppState) (found : Option (Job × List Job)) → settings_of (on_panic s found) ≡ settings s
unfolding on_panic job_panics
on_panic-settings s found = ground arith

on_join-settings :
    (s : AppState) (message : Text) (found : Option (Job × List Job))
    → settings_of (on_join s message found) ≡ settings s
unfolding on_join drop_job
on_join-settings s message found = ground arith

on_expiry-settings :
    (s : AppState) (found : Option (Job × List Job)) → settings_of (on_expiry s found) ≡ settings s
unfolding on_expiry abandon
on_expiry-settings s found = ground arith

on_disconnect-settings :
    (s : AppState) (found : Option (Job × List Job))
    → settings_of (on_disconnect s found) ≡ settings s
unfolding on_disconnect abandon
on_disconnect-settings s found = ground arith

pub step-settings : (e : Event) (s : AppState) → settings_of (step e s) ≡ settings s
unfolding step arrive
step-settings (arrives header r now later) s =
    let (m, id) = next_request_id (metrics s) in
    authorized-settings (with_metrics s (record_request_received m)) id r now later
      (authorize s.prove_auth header)
step-settings (returns id x d) s = on_return-settings s (take_job id s.jobs) x d
step-settings (panics id) s = on_panic-settings s (take_job id s.jobs)
step-settings (joins id message) s = on_join-settings s message (take_job id s.jobs)
step-settings (expires id) s = on_expiry-settings s (take_job id s.jobs)
step-settings (disconnects id) s = on_disconnect-settings s (take_job id s.jobs)

pub run-settings : (es : List Event) (s : AppState) → settings (run es s) ≡ settings s
unfolding run
run-settings [] s = refl
run-settings (e ∷ es) s = run-settings es ((step e s).0) ∙ step-settings e s
