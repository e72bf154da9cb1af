-- ===== src/Server/Service/Jobs.antt =====
-- What every event of server/src/main.rs keeps of its jobs.
use mathlib.Core.Path.{subst}
use agenc_prover.Base.{
  ℕ, ◌≡◌, refl, sym, inl, inr, Bool, true, false, List, [], ◌∷◌, Option, none, some, Option-cases,
  Text, Result, ==_iff, ◌==◌, if◌then◌else◌, All, arith,
}
use agenc_prover.Prover.Generate.{ProveResponse, ProveError}
use agenc_prover.Server.Runtime.{Progress, running, returned, panicked, Job, AppState, Answer}
use agenc_prover.Server.Service.{
  take_job, on_return, on_panic, on_join, on_expiry, on_disconnect, job_returns, job_panics,
  drop_job, abandon,
}

-- A job of that number, and the other jobs, all with the property `P`.
abbrev pub Taken : (Job → Type 0) → ℕ → Job × List Job → Type 0
Taken P id (j, others) = P j × All P others × (j.request_id ≡ id)

pub some_inj : {x y : Job × List Job} → some x ≡ some y → x ≡ y
some_inj e = ground arith

take_job-cons :
    (P : Job → Type 0) (id : ℕ) (k : Job) (js : List Job) (b : Bool)
    (rest : Option (Job × List Job)) (x : Job × List Job)
    → P k
    → All P js
    → (b ≡ true → k.request_id ≡ id)
    → ((y : Job × List Job) → rest ≡ some y → Taken P id y)
    → if◌then◌else◌ {A = Option (Job × List Job)} b
        (some (k, js))
        (elim rest [ none ↦ none | some (i, is) ↦ some (i, k ∷ is) ])
      ≡ some x
    → Taken P id x
take_job-cons P id k js true rest x hk hs hb ih e =
    subst (Taken P id) (some_inj e) (hk, hs, hb refl)
take_job-cons P id k js false none x hk hs hb ih e = cc e
take_job-cons P id k js false (some (i, is)) x hk hs hb ih e =
    let (a, b, c) = ih (i, is) refl in subst (Taken P id) (some_inj e) (a, (hk, b), c)

pub take_job-Taken :
    (P : Job → Type 0) (id : ℕ) (js : List Job) (x : Job × List Job)
    → All P js
    → take_job id js ≡ some x
    → Taken P id x
unfolding take_job
take_job-Taken P id [] x h e = cc e
take_job-Taken P id (k ∷ js) x (h, hs) e =
    take_job-cons P id k js (k.request_id == id) (take_job id js) x h hs
      ((==_iff k.request_id id).0) (λ y f. take_job-Taken P id js y hs f) e

-- A property that the ends of a job and of its wait keep holds of all jobs after each such event.
module _ (P : Job → Type 0) where
  awaited-All :
      (b : Bool) (j : Job) (others : List Job)
      → P j
      → All P others
      → All P (if b then j ∷ others else others)
  awaited-All true j others h hs = (h, hs)
  awaited-All false j others h hs = hs

  pub on_return-All :
      (s : AppState) (j : Job) (others : List Job) (p : Progress)
      (x : Result ProveResponse ProveError) (d : ℕ)
      → All P s.jobs
      → All P others
      → P (record j { progress = returned x })
      → All P ((on_return s (some (record j { progress = p }, others)) x d).0.jobs)
  unfolding on_return job_returns
  on_return-All s j others running x d h hs ended =
      awaited-All j.awaited (record j { progress = returned x }) others ended hs
  on_return-All s j others (returned _) x d h hs ended = h
  on_return-All s j others panicked x d h hs ended = h

  pub on_panic-All :
      (crash : (j : Job) → P j → P (record j { progress = panicked })) (s : AppState) (j : Job)
      (others : List Job) (p : Progress)
      → All P s.jobs
      → All P others
      → P (record j { progress = p })
      → All P ((on_panic s (some (record j { progress = p }, others))).0.jobs)
  unfolding on_panic job_panics
  on_panic-All crash s j others running h hs hj = (crash (record j { progress = running }) hj, hs)
  on_panic-All crash s j others (returned _) h hs hj = h
  on_panic-All crash s j others panicked h hs hj = h

  pub on_join-All :
      (s : AppState) (m : Text) (j : Job) (others : List Job) (p : Progress) (b : Bool)
      → All P s.jobs
      → All P others
      → All P ((on_join s m (some (record j { progress = p; awaited = b }, others))).0.jobs)
  unfolding on_join drop_job
  on_join-All s m j others p false h hs = h
  on_join-All s m j others running true h hs = h
  on_join-All s m j others (returned _) true h hs = hs
  on_join-All s m j others panicked true h hs = hs

  abandon-All :
      (left : (j : Job) → P j → P (record j { awaited = false })) (s : AppState) (j : Job)
      (others : List Job) (p : Progress)
      → All P others
      → P (record j { progress = p })
      → All P ((abandon s (record j { progress = p }) others).jobs)
  unfolding abandon
  abandon-All left s j others running hs hj = (left (record j { progress = running }) hj, hs)
  abandon-All left s j others (returned _) hs hj = hs
  abandon-All left s j others panicked hs hj = (left (record j { progress = panicked }) hj, hs)

  pub on_expiry-All :
      (left : (j : Job) → P j → P (record j { awaited = false })) (s : AppState) (j : Job)
      (others : List Job) (b : Bool)
      → All P s.jobs
      → All P others
      → P (record j { awaited = b })
      → All P ((on_expiry s (some (record j { awaited = b }, others))).0.jobs)
  unfolding on_expiry
  on_expiry-All left s j others true h hs hj =
      abandon-All left s (record j { awaited = true }) others j.progress hs hj
  on_expiry-All left s j others false h hs hj = h

  pub on_disconnect-All :
      (left : (j : Job) → P j → P (record j { awaited = false })) (s : AppState) (j : Job)
      (others : List Job) (b : Bool)
      → All P s.jobs
      → All P others
      → P (record j { awaited = b })
      → All P ((on_disconnect s (some (record j { awaited = b }, others))).0.jobs)
  unfolding on_disconnect
  on_disconnect-All left s j others true h hs hj =
      abandon-All left s (record j { awaited = true }) others j.progress hs hj
  on_disconnect-All left s j others false h hs hj = h

  -- The same, whether the event finds a job or not.
  pub found-All :
      (act : Option (Job × List Job) → AppState × Answer) (s : AppState) (id : ℕ)
      → All P s.jobs
      → (act none).0.jobs ≡ s.jobs
      → ((j : Job) (others : List Job)
          → take_job id s.jobs ≡ some (j, others)
          → P j
          → All P others
          → All P ((act (some (j, others))).0.jobs))
      → All P ((act (take_job id s.jobs)).0.jobs)
  found-All act s id h n f = elim (Option-cases (take_job id s.jobs)) [
    | inl e ↦ subst (λ o. All P ((act o).0.jobs)) (sym e) (subst (All P) (sym n) h)
    | inr ((j, others), e) ↦
        (let (hj, hs, _) = take_job-Taken P id s.jobs (j, others) h e in
          subst (λ o. All P ((act o).0.jobs)) (sym e) (f j others e hj hs))
  ]
