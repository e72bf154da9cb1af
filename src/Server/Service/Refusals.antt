-- ===== src/Server/Service/Refusals.antt =====
-- Which errors server/src/main.rs answers to the client.
use mathlib.Core.Path.{subst}
use agenc_prover.Base.{
  ℕ, ◌<◌, ◌≡◌, sym, ap, Bool, true, false, List, Option, none, some, Text, text, Result, ok, err,
  panic, arith,
}
use agenc_prover.Prover.Generate.{ProveResponse, ProveError, invalid_request}
use agenc_prover.Server.Errors.{AppError}
use agenc_prover.Server.Errors.Responses.{
  IsPlain, IsDelayed, bad_request-IsPlain, internal-IsPlain, timeout-IsDelayed,
}
use agenc_prover.Prover.Generate.{
  unexpected_journal_length, untrusted_image_id, dev_mode_enabled, prover_failed,
  receipt_type_mismatch,
}
use agenc_prover.Server.Runtime.{Progress}
use agenc_prover.Server.Service.Limit.{run-settings}
use agenc_prover.Server.Service.Asked.{bucket_of}
use agenc_prover.Server.Service.Rate.{run-HasRoom, start-HasRoom}
use agenc_prover.Server.Auth.{ProveAuth}
use agenc_prover.Server.RateLimit.{RateLimitPolicy}
use agenc_prover.Server.Runtime.{
  ExecutionPolicy, execution_retry_after, new_runtime, AppState, Answer, failure, pending, Job,
  running, returned, panicked,
}
use agenc_prover.Server.Service.{
  take_job, respond, timed_out, on_return, on_panic, on_join, on_expiry, on_disconnect, Event,
  arrives, returns, panics, joins, expires, disconnects, step, run, start,
}
use agenc_prover.Server.Service.Denials.{
  Refuses, invalid, failed, too_late, failure_inj, refused_spawn, IsSound, arrive-Refuses,
}

module _ (id : ℕ) (join_error : Text) where
  respond-Refuses :
      (result : Result ProveResponse ProveError) (e : AppError)
      → respond result ≡ failure e
      → Refuses (joins id join_error) e
  unfolding respond
  respond-Refuses (ok response) e h = cc h
  respond-Refuses panic e h = cc h
  respond-Refuses (err (invalid_request m)) e h =
      invalid (subst (IsPlain 400 (text "bad_request")) (failure_inj h) (bad_request-IsPlain m))
  respond-Refuses (err (unexpected_journal_length a b)) e h =
      failed (subst (IsPlain 500 (text "internal_error")) (failure_inj h) (internal-IsPlain _))
  respond-Refuses (err (untrusted_image_id a b)) e h =
      failed (subst (IsPlain 500 (text "internal_error")) (failure_inj h) (internal-IsPlain _))
  respond-Refuses (err (dev_mode_enabled v)) e h =
      failed (subst (IsPlain 500 (text "internal_error")) (failure_inj h) (internal-IsPlain _))
  respond-Refuses (err (prover_failed m)) e h =
      failed (subst (IsPlain 500 (text "internal_error")) (failure_inj h) (internal-IsPlain _))
  respond-Refuses (err (receipt_type_mismatch m)) e h =
      failed (subst (IsPlain 500 (text "internal_error")) (failure_inj h) (internal-IsPlain _))

  joined-Refuses :
      (s : AppState) (j : Job) (others : List Job) (b : Bool) (p : Progress) (e : AppError)
      → (on_join s join_error (some (record j { progress = p; awaited = b }, others))).1 ≡ failure e
      → Refuses (joins id join_error) e
  unfolding on_join
  joined-Refuses s j others false p e h = cc h
  joined-Refuses s j others true running e h = cc h
  joined-Refuses s j others true (returned result) e h = respond-Refuses result e h
  joined-Refuses s j others true panicked e h =
      failed (subst (IsPlain 500 (text "internal_error")) (failure_inj h) (internal-IsPlain _))

  on_join-Refuses :
      (s : AppState) (found : Option (Job × List Job)) (e : AppError)
      → (on_join s join_error found).1 ≡ failure e
      → Refuses (joins id join_error) e
  unfolding on_join
  on_join-Refuses s none e h = cc h
  on_join-Refuses s (some (j, others)) e h = joined-Refuses s j others j.awaited j.progress e h

on_expiry-Refuses :
    (id : ℕ) (s : AppState) (found : Option (Job × List Job)) (e : AppError)
    → 0 < s.prove_runtime.retry_after_seconds
    → (on_expiry s found).1 ≡ failure e
    → Refuses (expires id) e
unfolding on_expiry timed_out
on_expiry-Refuses id s none e w h = cc h
on_expiry-Refuses id s (some (j, others)) e w h = too_late (
    subst (IsDelayed 504 (text "prove_timeout")) (refused_spawn j.awaited _ _ h)
      (timeout-IsDelayed _ _ w))

-- These two never answer.
on_return-pending :
    (s : AppState) (found : Option (Job × List Job)) (x : Result ProveResponse ProveError) (d : ℕ)
    → (on_return s found x d).1 ≡ pending
unfolding on_return
on_return-pending s found x d = ground arith

on_panic-pending : (s : AppState) (found : Option (Job × List Job)) → (on_panic s found).1 ≡ pending
unfolding on_panic
on_panic-pending s found = ground arith

on_disconnect-pending :
    (s : AppState) (found : Option (Job × List Job)) → (on_disconnect s found).1 ≡ pending
unfolding on_disconnect
on_disconnect-pending s found = ground arith

not_failure : {a : Answer} {e : AppError} → a ≡ pending → a ≡ failure e → ⊥
not_failure p h = cc (p, h)

step-Refuses :
    (p : RateLimitPolicy) (event : Event) (s : AppState) (e : AppError)
    → IsSound p s
    → (step event s).1 ≡ failure e
    → Refuses event e
unfolding step
step-Refuses p (arrives header request now later) s e i h =
    arrive-Refuses header request now later p s e i h
step-Refuses p (returns id x d) s e i h =
    absurd (not_failure (on_return-pending s (take_job id s.jobs) x d) h)
step-Refuses p (panics id) s e i h =
    absurd (not_failure (on_panic-pending s (take_job id s.jobs)) h)
step-Refuses p (joins id message) s e i h = on_join-Refuses id message s (take_job id s.jobs) e h
step-Refuses p (expires id) s e i h = on_expiry-Refuses id s (take_job id s.jobs) e i.wait h
step-Refuses p (disconnects id) s e i h =
    absurd (not_failure (on_disconnect-pending s (take_job id s.jobs)) h)

start-wait :
    (auth : ProveAuth) (policy : ExecutionPolicy) (now now' : ℕ)
    → 0 < (start auth policy now now').prove_runtime.retry_after_seconds
unfolding start new_runtime execution_retry_after
start-wait auth policy now now' = omega arith

reached-IsSound :
    (auth : ProveAuth) (policy : ExecutionPolicy) (now now' : ℕ) (es : List Event)
    → IsSound policy.rate_limit (run es (start auth policy now now'))
reached-IsSound auth policy now now' es =
    let s = start auth policy now now' in
    let r =
      run-HasRoom policy.rate_limit (bucket_of auth) es s (start-HasRoom auth policy now now') in
    record {
      wait =
          subst (λ n. 0 < n) (sym (ap (λ x. x.1.1) (run-settings es s)))
            (start-wait auth policy now now');
      windows = r.windows;
      open_locks = r.open_locks;
    }

-- In every state that the service can reach, the errors that an event answers are these: an arrival
-- is refused with 401, 429, 400 or 503, a wait that ends with its job with 400 or 500, and a wait
-- whose time is over with 504, each with the code of that status; no other event answers an error.
-- 429, 503 and 504 carry the same positive number of seconds in the header Retry-After and in the
-- body, and the others carry none.
pub step-refusal :
    (auth : ProveAuth) (policy : ExecutionPolicy) (now now' : ℕ) (es : List Event) (event : Event)
    (e : AppError)
    → (step event (run es (start auth policy now now'))).1 ≡ failure e
    → Refuses event e
step-refusal auth policy now now' es event e h =
    step-Refuses policy.rate_limit event (run es (start auth policy now now')) e
      (reached-IsSound auth policy now now' es) h
