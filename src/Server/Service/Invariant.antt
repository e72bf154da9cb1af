-- ===== src/Server/Service/Invariant.antt =====
-- What the jobs of server/src/main.rs count for, and the balance that every event keeps.
use agenc_prover.Base.{
  ℕ, ◌+◌, Bool, true, false, List, [], ◌∷◌, ◌≡◌, Option, none, some, ap, arith, refl, ◌==◌,
  if◌then◌else◌, ap,
}
use mathlib.Core.Path.{subst}
use agenc_prover.Server.Metrics.{Observability}
use agenc_prover.Server.Runtime.{Progress, running, returned, panicked, Job, AppState, metrics}
use agenc_prover.Server.Service.{take_job, start}
use agenc_prover.Server.Service.Accounts.{Agree, new-Agree}
use agenc_prover.Server.Runtime.{ExecutionPolicy, new_runtime}
use agenc_prover.Server.Auth.{ProveAuth}

-- Whether a task runs, and whether it has ended by a panic.
unfoldable pub runs : Progress → ℕ
runs running = 1
runs (returned _) = 0
runs panicked = 0

unfoldable pub crashes : Progress → ℕ
crashes running = 0
crashes (returned _) = 0
crashes panicked = 1

unfoldable pub running_count : List Job → ℕ
unfolding runs
running_count [] = 0
running_count (j ∷ js) = runs j.progress + running_count js

unfoldable pub crashed_count : List Job → ℕ
unfolding crashes
crashed_count [] = 0
crashed_count (j ∷ js) = crashes j.progress + crashed_count js

-- What the first list counts is what the job and the second list count.
abbrev pub Counts : List Job → Job → List Job → Type 0
Counts js j others =
    (running_count js ≡ runs j.progress + running_count others)
    × (crashed_count js ≡ crashes j.progress + crashed_count others)

all_runs : Job × List Job → ℕ
all_runs (j, js) = runs j.progress + running_count js

all_crashes : Job × List Job → ℕ
all_crashes (j, js) = crashes j.progress + crashed_count js

some_inj : {x y : Job × List Job} → some x ≡ some y → x ≡ y
some_inj e = ground arith

take_job-count-cons :
    (id : ℕ) (k : Job) (js : List Job) (b : Bool) (rest : Option (Job × List Job)) (j : Job)
    (others : List Job)
    → ((i : Job) (is : List Job) → rest ≡ some (i, is) → Counts js i is)
    → if◌then◌else◌ {A = Option (Job × List Job)} b
        (some (k, js))
        (elim rest [ none ↦ none | some (i, is) ↦ some (i, k ∷ is) ])
      ≡ some (j, others)
    → Counts (k ∷ js) j others
unfolding running_count crashed_count all_runs all_crashes
take_job-count-cons id k js true rest j others ih e =
    (ap (λ x. all_runs x) (some_inj e), ap (λ x. all_crashes x) (some_inj e))
take_job-count-cons id k js false none j others ih e = absurd (ground arith)
take_job-count-cons id k js false (some (i, is)) j others ih e =
    let (p, q) = ih i is refl in
    let p' = ap (λ x. all_runs x) (some_inj e) in
    let q' = ap (λ x. all_crashes x) (some_inj e) in (omega arith, omega arith)

pub take_job-count :
    (id : ℕ) (js : List Job) (j : Job) (others : List Job)
    → take_job id js ≡ some (j, others)
    → Counts js j others
unfolding take_job
take_job-count id [] j others e = absurd (ground arith)
take_job-count id (k ∷ js) j others e =
    take_job-count-cons id k js (k.request_id == id) (take_job id js) j others
      (take_job-count id js) e

-- The permits that are out are those of the running jobs, and the counters agree.
pub record IsBalanced (s : AppState) : Type 0 where
  pub permits : s.prove_runtime.available + running_count s.jobs ≡ s.prove_runtime.max_in_flight
  pub agree : Agree (metrics s) (running_count s.jobs) (crashed_count s.jobs) 0

pub start-IsBalanced :
    (auth : ProveAuth) (policy : ExecutionPolicy) (now now' : ℕ)
    → IsBalanced (start auth policy now now')
unfolding start new_runtime running_count crashed_count
start-IsBalanced auth policy now now' = record { permits = omega arith; agree = new-Agree }

pub Agree-at :
    (m : Observability) {a a' b b' u : ℕ} → a ≡ a' → b ≡ b' → Agree m a b u → Agree m a' b' u
Agree-at m {a = a} {a' = a'} {b = b} {b' = b'} {u = u} p q h =
    subst (λ x. Agree m x b' u) p (subst (λ y. Agree m a y u) q h)
