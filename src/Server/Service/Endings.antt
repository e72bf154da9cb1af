-- ===== src/Server/Service/Endings.antt =====
-- The ends of a job, and of the wait for it, in server/src/main.rs keep the balance.
use agenc_prover.Base.{
  ℕ, Bool, true, false, Result, List, [], ◌∷◌, ◌≡◌, Option, none, some, arith, refl, if◌then◌else◌,
  Option-cases, sym, ◌∙◌, inl, inr, Text,
}
use mathlib.Core.Path.{subst}
use agenc_prover.Prover.Generate.{ProveResponse, ProveError}
use agenc_prover.Server.Metrics.{record_timeout}
use agenc_prover.Server.Runtime.{
  Progress, running, returned, panicked, Job, AppState, Answer, metrics, with_metrics, pending,
}
use agenc_prover.Server.Service.{
  take_job, on_return, on_panic, on_join, on_expiry, on_disconnect, job_returns, job_panics,
  drop_job, abandon, Event, arrives, returns, panics, joins, expires, disconnects, step, run,
}
use agenc_prover.Server.Service.Accounts.{
  timeout-Agree, failed-Agree, finished-Agree, crashed-Agree,
}
use agenc_prover.Server.Service.Invariant.{
  runs, crashes, running_count, crashed_count, Counts, take_job-count, IsBalanced, Agree-at,
}
use agenc_prover.Server.Service.Arrival.{if-IsBalanced, arrive-IsBalanced}

-- The jobs that are left when one has returned.
left-counts :
    (j : Job) (others : List Job) (b : Bool) (result : Result ProveResponse ProveError)
    → let js = if b then record j { progress = returned result } ∷ others else others in
      (running_count js ≡ running_count others) × (crashed_count js ≡ crashed_count others)
unfolding running_count crashed_count runs crashes
left-counts j others true result = (omega arith, omega arith)
left-counts j others false result = (refl, refl)

on_return-IsBalanced :
    (s : AppState) (j : Job) (others : List Job) (p : Progress)
    (result : Result ProveResponse ProveError) (d : ℕ)
    → IsBalanced s
    → Counts s.jobs (record j { progress = p }) others
    → IsBalanced ((on_return s (some (record j { progress = p }, others)) result d).0)
unfolding on_return job_returns runs crashes
on_return-IsBalanced s j others running result d h (e, f) =
    let (e', f') = left-counts j others j.awaited result in
    record {
      permits = (let q = h.permits in omega arith);
      agree =
          Agree-at _ (sym e') (sym f')
            (finished-Agree _ result d _ _ (Agree-at _ e (f ∙ omega arith) h.agree));
    }
on_return-IsBalanced s j others (returned _) result d h c = h
on_return-IsBalanced s j others panicked result d h c = h

on_panic-IsBalanced :
    (s : AppState) (j : Job) (others : List Job) (p : Progress)
    → IsBalanced s
    → Counts s.jobs (record j { progress = p }) others
    → IsBalanced ((on_panic s (some (record j { progress = p }, others))).0)
unfolding on_panic job_panics runs crashes running_count crashed_count
on_panic-IsBalanced s j others running h (e, f) = record {
  permits = (let q = h.permits in omega arith);
  agree =
      Agree-at _ (omega arith) refl
        (crashed-Agree _ (running_count others) _ 0 (Agree-at _ e (f ∙ omega arith) h.agree));
}
on_panic-IsBalanced s j others (returned _) h c = h
on_panic-IsBalanced s j others panicked h c = h

on_join-IsBalanced :
    (s : AppState) (join_error : Text) (j : Job) (others : List Job) (p : Progress)
    → IsBalanced s
    → Counts s.jobs (record j { progress = p }) others
    → IsBalanced ((on_join s join_error (some (record j { progress = p }, others))).0)
unfolding on_join drop_job runs crashes
on_join-IsBalanced s join_error j others running h c = if-IsBalanced j.awaited _ _ (λ _. h) (λ _. h)
on_join-IsBalanced s join_error j others (returned _) h (e, f) =
    if-IsBalanced j.awaited _ _
      (λ _. record {
        permits = (let q = h.permits in omega arith);
        agree = Agree-at _ (e ∙ omega arith) (f ∙ omega arith) h.agree;
      })
      (λ _. h)
on_join-IsBalanced s join_error j others panicked h (e, f) =
    if-IsBalanced j.awaited _ _
      (λ _. record {
        permits = (let q = h.permits in omega arith);
        agree = failed-Agree _ _ _ (Agree-at _ (e ∙ omega arith) f h.agree);
      })
      (λ _. h)

-- A job that nobody waits for any more counts as before.
abandon-IsBalanced :
    (s : AppState) (j : Job) (others : List Job) (p : Progress)
    → IsBalanced s
    → Counts s.jobs (record j { progress = p }) others
    → IsBalanced (abandon s (record j { progress = p }) others)
unfolding abandon runs crashes running_count crashed_count
abandon-IsBalanced s j others running h (e, f) = record {
  permits = (let q = h.permits in omega arith);
  agree = Agree-at _ e f h.agree;
}
abandon-IsBalanced s j others (returned _) h (e, f) = record {
  permits = (let q = h.permits in omega arith);
  agree = Agree-at _ (e ∙ omega arith) (f ∙ omega arith) h.agree;
}
abandon-IsBalanced s j others panicked h (e, f) = record {
  permits = (let q = h.permits in omega arith);
  agree = Agree-at _ e f h.agree;
}

timed_out-IsBalanced :
    (s : AppState) (j : Job) (others : List Job) (p : Progress)
    → IsBalanced (abandon s (record j { progress = p }) others)
    → IsBalanced
        (with_metrics (abandon s (record j { progress = p }) others) (record_timeout (metrics s)))
unfolding abandon running_count crashed_count
timed_out-IsBalanced s j others running h = record {
  permits = h.permits;
  agree = timeout-Agree _ _ _ h.agree;
}
timed_out-IsBalanced s j others (returned _) h = record {
  permits = h.permits;
  agree = timeout-Agree _ _ _ h.agree;
}
timed_out-IsBalanced s j others panicked h = record {
  permits = h.permits;
  agree = timeout-Agree _ _ _ h.agree;
}

on_expiry-IsBalanced :
    (s : AppState) (j : Job) (others : List Job)
    → IsBalanced s
    → Counts s.jobs j others
    → IsBalanced ((on_expiry s (some (j, others))).0)
unfolding on_expiry
on_expiry-IsBalanced s j others h c =
    let b = abandon-IsBalanced s j others j.progress h c in
    if-IsBalanced j.awaited _ _ (λ _. timed_out-IsBalanced s j others j.progress b) (λ _. h)

on_disconnect-IsBalanced :
    (s : AppState) (j : Job) (others : List Job)
    → IsBalanced s
    → Counts s.jobs j others
    → IsBalanced ((on_disconnect s (some (j, others))).0)
unfolding on_disconnect
on_disconnect-IsBalanced s j others h c =
    if-IsBalanced j.awaited _ _ (λ _. abandon-IsBalanced s j others j.progress h c) (λ _. h)

-- An event about a job, whether it is found or not.
found-IsBalanced :
    (s : AppState) (act : Option (Job × List Job) → AppState × Answer) (id : ℕ)
    → IsBalanced s
    → act none ≡ (s, pending)
    → ((j : Job) (others : List Job)
        → Counts s.jobs j others
        → IsBalanced ((act (some (j, others))).0))
    → IsBalanced ((act (take_job id s.jobs)).0)
found-IsBalanced s act id h n f = elim (Option-cases (take_job id s.jobs)) [
  | inl e ↦ subst (λ o. IsBalanced ((act o).0)) (sym e) (subst (λ x. IsBalanced (x.0)) (sym n) h)
  | inr ((j, others), e) ↦
      subst (λ o. IsBalanced ((act o).0)) (sym e) (f j others (take_job-count id s.jobs j others e))
]

step-IsBalanced : (e : Event) (s : AppState) → IsBalanced s → IsBalanced ((step e s).0)
unfolding step on_return on_panic on_join on_expiry on_disconnect
step-IsBalanced (arrives header request now later) s h =
    arrive-IsBalanced s header request now later h
step-IsBalanced (returns id result d) s h =
    found-IsBalanced s (λ o. on_return s o result d) id h refl
      (λ j js. on_return-IsBalanced s j js j.progress result d h)
step-IsBalanced (panics id) s h =
    found-IsBalanced s (on_panic s) id h refl (λ j js. on_panic-IsBalanced s j js j.progress h)
step-IsBalanced (joins id message) s h =
    found-IsBalanced s (on_join s message) id h refl
      (λ j js. on_join-IsBalanced s message j js j.progress h)
step-IsBalanced (expires id) s h =
    found-IsBalanced s (on_expiry s) id h refl (λ j js. on_expiry-IsBalanced s j js h)
step-IsBalanced (disconnects id) s h =
    found-IsBalanced s (on_disconnect s) id h refl (λ j js. on_disconnect-IsBalanced s j js h)

pub run-IsBalanced : (es : List Event) (s : AppState) → IsBalanced s → IsBalanced (run es s)
unfolding run
run-IsBalanced [] s h = h
run-IsBalanced (e ∷ es) s h = run-IsBalanced es ((step e s).0) (step-IsBalanced e s h)
