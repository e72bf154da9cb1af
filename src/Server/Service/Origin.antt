-- ===== src/Server/Service/Origin.antt =====
-- The requests of server/src/main.rs that its jobs belong to, and what their results are.
use mathlib.Core.Path.{subst}
use mathlib.Core.List.{append_assoc, append-nil}
use agenc_prover.Base.{
  ℕ, ◌≡◌, refl, sym, ap, ◌∙◌, inl, inr, true, false, List, [], ◌∷◌, ◌++◌, Option, none, some, Text,
  Result, ok, All,
}
use agenc_prover.Prover.Generate
use agenc_prover.Prover.Generate.{
  ProveResponse, ProveError, invalid_request, unexpected_journal_length, untrusted_image_id,
  dev_mode_enabled, prover_failed, receipt_type_mismatch,
}
use agenc_prover.Server.Auth.{authorize}
use agenc_prover.Server.Request.{ProveRequest, try_into_fixed}
use agenc_prover.Server.RateLimit.{RateLimitBucket}
use agenc_prover.Server.Metrics.{next_request_id}
use agenc_prover.Server.Runtime.{
  Progress, running, returned, panicked, Job, AppState, Answer, metrics, arrive,
}
use agenc_prover.Server.Service.{
  take_job, on_return, on_panic, on_join, on_expiry, on_disconnect, Event, arrives, returns, panics,
  joins, expires, disconnects, step, run,
}
use agenc_prover.Server.Service.Jobs.{
  on_return-All, on_panic-All, on_join-All, on_expiry-All, on_disconnect-All, found-All,
}
use agenc_prover.Server.Service.Order.{Arrived, arrive-Arrived}

-- A request that came with the events `es` of a service that began in `s₀`: its arrival among them,
-- the number that it was given there, and its converted fields.
pub record IsOrigin (s₀ : AppState) (es : List Event) (id : ℕ) (fixed : Generate.ProveRequest)
    : Type 0 where
  pub before : List Event
  pub after : List Event
  pub header : Option Text
  pub request : ProveRequest
  pub now : ℕ
  pub later : ℕ
  pub bucket : RateLimitBucket
  pub arrived : es ≡ before ++ arrives header request now later ∷ after
  pub number : id ≡ (next_request_id (metrics (run before s₀))).1
  pub let_in : authorize (run before s₀).prove_auth header ≡ ok bucket
  pub converted : try_into_fixed request ≡ ok fixed

-- The prover's answer to the request, where there is one.
abbrev pub IsResult :
    (Generate.ProveRequest → Result ProveResponse ProveError)
    → Generate.ProveRequest
    → Progress
    → Type 0
IsResult prove fixed running = Unit {0}
IsResult prove fixed (returned result) = result ≡ prove fixed
IsResult prove fixed panicked = Unit {0}

run-append :
    (es : List Event) (e : Event) (s : AppState) → run (es ++ e ∷ []) s ≡ (step e (run es s)).0
unfolding run
run-append [] e s = refl
run-append (d ∷ es) e s = run-append es e ((step d s).0)

module _ (prove : Generate.ProveRequest → Result ProveResponse ProveError) (s₀ : AppState) where
  pub record IsTraced (es : List Event) (j : Job) : Type 0 where
    pub origin : IsOrigin s₀ es j.request_id j.fixed
    pub result : IsResult prove j.fixed j.progress

  -- More events change nothing about what is past.
  IsOrigin-append :
      (es : List Event) (e : Event) (id : ℕ) (fixed : Generate.ProveRequest)
      → IsOrigin s₀ es id fixed
      → IsOrigin s₀ (es ++ e ∷ []) id fixed
  IsOrigin-append es e id fixed h = record {
    before = h.before;
    after = h.after ++ e ∷ [];
    header = h.header;
    request = h.request;
    now = h.now;
    later = h.later;
    bucket = h.bucket;
    arrived = ap (λ x. x ++ e ∷ []) h.arrived ∙ append_assoc h.before _ (e ∷ []);
    number = h.number;
    let_in = h.let_in;
    converted = h.converted;
  }

  IsTraced-append :
      (es : List Event) (e : Event) (j : Job) → IsTraced es j → IsTraced (es ++ e ∷ []) j
  IsTraced-append es e j h = record {
    origin = IsOrigin-append es e j.request_id j.fixed h.origin;
    result = h.result;
  }

  All-append_event :
      (es : List Event) (e : Event) (js : List Job)
      → All (IsTraced es) js
      → All (IsTraced (es ++ e ∷ [])) js
  All-append_event es e [] h = tt
  All-append_event es e (j ∷ js) (h, hs) = (IsTraced-append es e j h, All-append_event es e js hs)

  left-IsTraced :
      (es : List Event) (j : Job) → IsTraced es j → IsTraced es (record j { awaited = false })
  left-IsTraced es j h = record { origin = h.origin; result = h.result }

  crash-IsTraced :
      (es : List Event) (j : Job) → IsTraced es j → IsTraced es (record j { progress = panicked })
  crash-IsTraced es j h = record { origin = h.origin; result = tt }

  -- The event is the end of no job, or of one whose result is the prover's answer to its request.
  abbrev pub IsHonest : Event → AppState → Type 0
  IsHonest (arrives header request now later) s = Unit {0}
  IsHonest (returns id result duration) s =
      (j : Job) (others : List Job) → take_job id s.jobs ≡ some (j, others) → result ≡ prove j.fixed
  IsHonest (panics id) s = Unit {0}
  IsHonest (joins id message) s = Unit {0}
  IsHonest (expires id) s = Unit {0}
  IsHonest (disconnects id) s = Unit {0}

  -- All events are so, one after the other.
  abbrev pub IsHonestRun : List Event → AppState → Type 0
  IsHonestRun [] s = Unit {0}
  IsHonestRun (e ∷ es) s = IsHonest e s × IsHonestRun es ((step e s).0)

  Arrived-All :
      (P : Job → Type 0) (s : AppState) (id : ℕ) (header : Option Text) (request : ProveRequest)
      (now later : ℕ) (x : AppState × Answer)
      → All P s.jobs
      → ((b : RateLimitBucket) (fixed : Generate.ProveRequest)
          → authorize s.prove_auth header ≡ ok b
          → try_into_fixed request ≡ ok fixed
          → P (record { request_id = id; fixed = fixed; progress = running; awaited = true }))
      → Arrived s id header request now later x
      → All P (x.0.jobs)
  Arrived-All P s id header request now later (t, a) h f (inl (e, _, _, _, kept)) =
      subst (All P) (sym kept.0) h
  Arrived-All P s id header request now later (t, a) h f
        (inr (b, let_in, (_, inl (e, _, _, kept)))) =
      subst (All P) (sym kept.0) h
  Arrived-All P s id header request now later (t, a) h f
        (inr (b, let_in, (_, inr (_, inl (e, _, _, kept))))) =
      subst (All P) (sym kept.0) h
  Arrived-All P s id header request now later (t, a) h f
        (inr (b, let_in, (_, inr (_, inr (fixed, converted, inl (_, _, kept)))))) =
      subst (All P) (sym kept.0) h
  Arrived-All P s id header request now later (t, a) h f
        (inr (b, let_in, (_, inr (_, inr (fixed, converted, inr (_, _, new)))))) =
      subst (All P) (sym new) (f b fixed let_in converted, h)

  -- After an event about a job that may be there.
  job-All :
      (es : List Event) (e : Event) (s : AppState)
      (act : Option (Job × List Job) → AppState × Answer) (id : ℕ)
      → All (IsTraced es) s.jobs
      → (act none).0.jobs ≡ s.jobs
      → ((j : Job) (others : List Job)
          → take_job id s.jobs ≡ some (j, others)
          → IsTraced (es ++ e ∷ []) j
          → All (IsTraced (es ++ e ∷ [])) others
          → All (IsTraced (es ++ e ∷ [])) s.jobs
          → All (IsTraced (es ++ e ∷ [])) ((act (some (j, others))).0.jobs))
      → All (IsTraced (es ++ e ∷ [])) ((act (take_job id s.jobs)).0.jobs)
  job-All es e s act id h n f =
      let h' = All-append_event es e s.jobs h in
      found-All (IsTraced (es ++ e ∷ [])) act s id h' n (λ j js t hj hs. f j js t hj hs h')

  step-All :
      (es : List Event) (e : Event) (s : AppState)
      → s ≡ run es s₀
      → All (IsTraced es) s.jobs
      → IsHonest e s
      → All (IsTraced (es ++ e ∷ [])) ((step e s).0.jobs)
  unfolding step
  step-All es (arrives header request now later) s same h honest =
      let e = arrives header request now later in
      Arrived-All (IsTraced (es ++ e ∷ [])) s ((next_request_id (metrics s)).1) header request now
        later (arrive s header request now later) (All-append_event es e s.jobs h)
        (λ b fixed let_in converted. record {
          origin = record {
            before = es;
            after = [];
            header = header;
            request = request;
            now = now;
            later = later;
            bucket = b;
            arrived = refl;
            number = ap (λ x. (next_request_id (metrics x)).1) same;
            let_in = ap (λ x. authorize x.prove_auth header) (sym same) ∙ let_in;
            converted = converted;
          };
          result = tt;
        })
        (arrive-Arrived s header request now later)
  step-All es (returns id result d) s same h honest =
      job-All es (returns id result d) s (λ o. on_return s o result d) id h refl
        (λ j js e hj hs h'.
          on_return-All (IsTraced _) s j js j.progress result d h' hs
            (record { origin = hj.origin; result = honest j js e }))
  step-All es (panics id) s same h honest =
      job-All es (panics id) s (on_panic s) id h refl
        (λ j js e hj hs h'. on_panic-All (IsTraced _) (crash-IsTraced _) s j js j.progress h' hs hj)
  step-All es (joins id m) s same h honest =
      job-All es (joins id m) s (on_join s m) id h refl
        (λ j js e hj hs h'. on_join-All (IsTraced _) s m j js j.progress j.awaited h' hs)
  step-All es (expires id) s same h honest =
      job-All es (expires id) s (on_expiry s) id h refl
        (λ j js e hj hs h'. on_expiry-All (IsTraced _) (left-IsTraced _) s j js j.awaited h' hs hj)
  step-All es (disconnects id) s same h honest =
      job-All es (disconnects id) s (on_disconnect s) id h refl (λ j js e hj hs h'.
        on_disconnect-All (IsTraced _) (left-IsTraced _) s j js j.awaited h' hs hj)

  pub run-All :
      (past es : List Event) (s : AppState)
      → s ≡ run past s₀
      → All (IsTraced past) s.jobs
      → IsHonestRun es s
      → All (IsTraced (past ++ es)) ((run es s).jobs)
  unfolding run
  run-All past [] s same h honest = subst (λ x. All (IsTraced x) s.jobs) (sym (append-nil past)) h
  run-All past (e ∷ es) s same h (honest, rest) =
      let s₁ = (step e s).0 in
      subst (λ x. All (IsTraced x) ((run es s₁).jobs)) (append_assoc past (e ∷ []) es)
        (run-All (past ++ e ∷ []) es s₁ (ap (λ x. (step e x).0) same ∙ sym (run-append past e s₀))
          (step-All past e s same h honest) rest)
