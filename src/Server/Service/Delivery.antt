-- ===== src/Server/Service/Delivery.antt =====
-- Whose proof a response of server/src/main.rs carries.
use mathlib.Core.Path.{subst}
use agenc_prover.Base.{
  ℕ, ◌≡◌, refl, sym, ap, Bool, true, false, List, [], Option, none, some, Text, Result, ok, err,
  panic,
}
use agenc_prover.Prover.Generate
use agenc_prover.Prover.Generate.{
  ProveResponse, ProveError, invalid_request, unexpected_journal_length, untrusted_image_id,
  dev_mode_enabled, prover_failed, receipt_type_mismatch,
}
use agenc_prover.Server.Runtime.{Progress, running, returned, panicked, Job, AppState}
use agenc_prover.Server.Service.{take_job, on_join, Event, joins, step, run}
use agenc_prover.Server.Service.Jobs.{Taken, take_job-Taken}
use agenc_prover.Server.Runtime.{success}
use agenc_prover.Server.Service.{respond}
use agenc_prover.Server.Service.Origin.{IsOrigin, IsResult, IsTraced, IsHonestRun, run-All}

-- A wait that is answered with a response was for a job whose result that response is.
respond-success :
    (result : Result ProveResponse ProveError) (response : ProveResponse)
    → respond result ≡ success response
    → result ≡ ok response
unfolding respond
respond-success (ok r) response h = cc h
respond-success panic response h = cc h
respond-success (err (invalid_request m)) response h = cc h
respond-success (err (unexpected_journal_length a b)) response h = cc h
respond-success (err (untrusted_image_id a b)) response h = cc h
respond-success (err (dev_mode_enabled v)) response h = cc h
respond-success (err (prover_failed m)) response h = cc h
respond-success (err (receipt_type_mismatch m)) response h = cc h

joined-success :
    (s : AppState) (m : Text) (j : Job) (others : List Job) (b : Bool) (p : Progress)
    (response : ProveResponse)
    → (on_join s m (some (record j { progress = p; awaited = b }, others))).1 ≡ success response
    → p ≡ returned (ok response)
unfolding on_join
joined-success s m j others false p response h = cc h
joined-success s m j others true running response h = cc h
joined-success s m j others true (returned result) response h =
    ap returned (respond-success result response h)
joined-success s m j others true panicked response h = cc h

on_join-success :
    (P : Job → Type 0) (id : ℕ) (s : AppState) (m : Text) (found : Option (Job × List Job))
    (response : ProveResponse)
    → ((x : Job × List Job) → found ≡ some x → Taken P id x)
    → (on_join s m found).1 ≡ success response
    → (j : Job) × P j × (j.request_id ≡ id) × (j.progress ≡ returned (ok response))
unfolding on_join
on_join-success P id s m none response t h = cc h
on_join-success P id s m (some (j, others)) response t h =
    let (hj, _, same) = t (j, others) refl in
    (j, hj, same, joined-success s m j others j.awaited j.progress response h)

-- The request that a response answers: it came under the handler's number, and the prover answered
-- it with this response.
pub record IsAnswered (prove : Generate.ProveRequest → Result ProveResponse ProveError)
    (s₀ : AppState) (es : List Event) (id : ℕ) (response : ProveResponse) : Type 0 where
  pub fixed : Generate.ProveRequest
  pub origin : IsOrigin s₀ es id fixed
  pub proved : prove fixed ≡ ok response

pub joins-IsAnswered :
    (prove : Generate.ProveRequest → Result ProveResponse ProveError) (s₀ : AppState)
    (es : List Event) (id : ℕ) (m : Text) (response : ProveResponse)
    → s₀.jobs ≡ []
    → IsHonestRun prove s₀ es s₀
    → (step (joins id m) (run es s₀)).1 ≡ success response
    → IsAnswered prove s₀ es id response
unfolding run step
joins-IsAnswered prove s₀ es id m response idle honest h =
    let P = IsTraced prove s₀ es in
    let s = run es s₀ in
    let all = run-All prove s₀ [] es s₀ refl (rw idle tt) honest in
    let (j, t, same, ended) =
      on_join-success P id s m (take_job id s.jobs) response
        (λ x e. take_job-Taken P id s.jobs x all e) h in
    record {
      fixed = j.fixed;
      origin = subst (λ n. IsOrigin s₀ es n j.fixed) same t.origin;
      proved = sym (subst (IsResult prove j.fixed) ended t.result);
    }
