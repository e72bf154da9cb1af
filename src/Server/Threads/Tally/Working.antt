-- ===== src/Server/Threads/Tally/Working.antt =====
-- The refusal counters of server/src/main.rs in a turn of the blocking task, or of the end of a wait.
use agenc_prover.Base.{ℕ, ◌≡◌, inl, inr, refl, sym, Option, none, some, Result, ok, err, panic}
use mathlib.Core.Path.{subst}
use agenc_prover.Prover.Generate.{
  ProveResponse, ProveError, invalid_request, unexpected_journal_length, untrusted_image_id,
  dev_mode_enabled, prover_failed, receipt_type_mismatch,
}
use agenc_prover.Server.Auth.{ProveAuth}
use agenc_prover.Server.Errors.{bad_request, internal, timeout}
use agenc_prover.Server.Metrics.{
  Observability, record_timeout, count_result, gauge_down, count_completed, count_failed,
  add_duration, count_duration,
}
use agenc_prover.Server.Runtime.{ProveRuntime, Answer, failure}
use agenc_prover.Server.Service.{respond, timed_out}
use agenc_prover.Server.Threads.{
  work, take_turn, Task, working, ended, completed, measured, timed, classified, finished,
  unwinding, Pc, handling, awaited, alone, delivered, crashed, join_counted, join_classified,
  settled, lost, Turn, goes, works, Outcome, returns, panics, after_work, expires, disconnects,
  awaited_after, alone_after, Progress, still, left, gone,
}
use agenc_prover.Server.Threads.Tally.{status_of, given, Tallied, tally_late, tally_other, IsOpen}
use agenc_prover.Server.Threads.Tally.Turns.{Proper, TalliedAfter, handle-Tallied, settles}

-- The refusal counters and the limiter, as the blocking task leaves them.
record Worked (k a b c d : ℕ) (x : ProveRuntime × Progress) : Type 0 where
  worked : Tallied x.0.observability k a b c d
  worked_locks : IsOpen x.0.rate_limiter

module _ (a b c d : ℕ) where
  classify-Tallied :
      (k : ℕ) (m : Observability) (result : Result ProveResponse ProveError)
      → Tallied m k a b c d
      → Tallied (count_result m result) k a b c d
  unfolding count_result
  classify-Tallied k m (ok response) h = h
  classify-Tallied k m (err (invalid_request message)) h = h
  classify-Tallied k m (err (unexpected_journal_length x y)) h = h
  classify-Tallied k m (err (untrusted_image_id x y)) h = h
  classify-Tallied k m (err (dev_mode_enabled message)) h = h
  classify-Tallied k m (err (prover_failed message)) h = h
  classify-Tallied k m (err (receipt_type_mismatch message)) h = h
  classify-Tallied k m panic h = h

  work-Worked :
      (k : ℕ) (r : ProveRuntime) (task : Task) (outcome : Outcome)
      → IsOpen r.rate_limiter
      → Tallied r.observability k a b c d
      → Worked k a b c d (work r task outcome)
  unfolding work count_completed add_duration count_duration gauge_down
  work-Worked k r (working id fixed) (returns result duration) locks h = record {
    worked = h;
    worked_locks = locks;
  }
  work-Worked k r (working id fixed) (panics join_error) locks h = record {
    worked = h;
    worked_locks = locks;
  }
  work-Worked k r (ended result duration) outcome locks h = record {
    worked = h;
    worked_locks = locks;
  }
  work-Worked k r (completed result duration) outcome locks h = record {
    worked = h;
    worked_locks = locks;
  }
  work-Worked k r (measured result) outcome locks h = record { worked = h; worked_locks = locks }
  work-Worked k r (timed result) outcome locks h = record {
    worked = classify-Tallied k r.observability result h;
    worked_locks = locks;
  }
  work-Worked k r (classified result) outcome locks h = record { worked = h; worked_locks = locks }
  work-Worked k r (finished result) outcome locks h = record { worked = h; worked_locks = locks }
  work-Worked k r (unwinding join_error) outcome locks h = record {
    worked = h;
    worked_locks = locks;
  }

  awaited-Tallied :
      (x : ProveRuntime × Progress)
      → Worked 0 a b c d x
      → TalliedAfter a b c d (after_work awaited_after x)
  unfolding given
  awaited-Tallied (r, still task) h = record {
    tallied = h.worked;
    proper = tt;
    open_locks = h.worked_locks;
  }
  awaited-Tallied (r, left result) h = record {
    tallied = h.worked;
    proper = tt;
    open_locks = h.worked_locks;
  }
  awaited-Tallied (r, gone join_error) h = record {
    tallied = h.worked;
    proper = tt;
    open_locks = h.worked_locks;
  }

  alone-Tallied :
      (answer : Answer) (x : ProveRuntime × Progress)
      → Worked (status_of answer) a b c d x
      → TalliedAfter a b c d (after_work (alone_after answer) x)
  unfolding given
  alone-Tallied answer (r, still task) h = record {
    tallied = h.worked;
    proper = tt;
    open_locks = h.worked_locks;
  }
  alone-Tallied answer (r, left result) h = record {
    tallied = h.worked;
    proper = tt;
    open_locks = h.worked_locks;
  }
  alone-Tallied answer (r, gone join_error) h = record {
    tallied = h.worked;
    proper = tt;
    open_locks = h.worked_locks;
  }

  respond-Tallied :
      (r : ProveRuntime) (result : Result ProveResponse ProveError)
      → IsOpen r.rate_limiter
      → Tallied r.observability 0 a b c d
      → TalliedAfter a b c d (r, settled (respond result))
  unfolding respond given status_of bad_request internal
  respond-Tallied r (ok response) locks h = record { tallied = h; proper = tt; open_locks = locks }
  respond-Tallied r panic locks h = record { tallied = h; proper = tt; open_locks = locks }
  respond-Tallied r (err (invalid_request m)) locks h =
      settles a b c d r.observability r _ 400 refl (tally_other _ _ _ _ a b c d 400 (inl refl) h)
        locks
  respond-Tallied r (err (unexpected_journal_length x y)) locks h =
      settles a b c d r.observability r _ 500 refl (tally_other _ _ _ _ a b c d 500 (inr refl) h)
        locks
  respond-Tallied r (err (untrusted_image_id x y)) locks h =
      settles a b c d r.observability r _ 500 refl (tally_other _ _ _ _ a b c d 500 (inr refl) h)
        locks
  respond-Tallied r (err (dev_mode_enabled v)) locks h =
      settles a b c d r.observability r _ 500 refl (tally_other _ _ _ _ a b c d 500 (inr refl) h)
        locks
  respond-Tallied r (err (prover_failed m)) locks h =
      settles a b c d r.observability r _ 500 refl (tally_other _ _ _ _ a b c d 500 (inr refl) h)
        locks
  respond-Tallied r (err (receipt_type_mismatch m)) locks h =
      settles a b c d r.observability r _ 500 refl (tally_other _ _ _ _ a b c d 500 (inr refl) h)
        locks

  -- A turn that is possible.
  unfoldable pub IfTallied : Option (ProveRuntime × Pc) → Type 0
  IfTallied none = Unit {0}
  IfTallied (some x) = TalliedAfter a b c d x

  -- The wait of a request runs out.
  late-Tallied :
      (r : ProveRuntime) (p : Pc)
      → given p ≡ status_of (failure (timed_out r))
      → Proper p
      → IsOpen r.rate_limiter
      → Tallied r.observability 0 a b c d
      → TalliedAfter a b c d (record r { observability = record_timeout r.observability }, p)
  unfolding record_timeout timed_out timeout status_of
  late-Tallied r p same proper locks h = record {
    tallied =
        subst (λ k. Tallied (record_timeout r.observability) k a b c d) (sym same)
          (tally_late _ _ _ _ a b c d h);
    proper = proper;
    open_locks = locks;
  }

  pub turn-Tallied :
      (auth : ProveAuth) (r : ProveRuntime) (p : Pc) (turn : Turn)
      → Proper p
      → IsOpen r.rate_limiter
      → Tallied r.observability (given p) a b c d
      → IfTallied (take_turn auth r p turn)
  unfolding take_turn IfTallied given status_of count_completed count_failed gauge_down internal
  turn-Tallied auth r (handling handler) (goes now later) p locks h =
      handle-Tallied a b c d auth r handler now later p locks h
  turn-Tallied auth r (handling handler) (works outcome) p locks h = tt
  turn-Tallied auth r (handling handler) expires p locks h = tt
  turn-Tallied auth r (handling handler) disconnects p locks h = tt
  turn-Tallied auth r (awaited task) (goes now later) p locks h = tt
  turn-Tallied auth r (awaited task) (works outcome) p locks h =
      awaited-Tallied (work r task outcome) (work-Worked 0 r task outcome locks h)
  turn-Tallied auth r (awaited task) expires p locks h = late-Tallied r _ refl tt locks h
  turn-Tallied auth r (awaited task) disconnects p locks h = record {
    tallied = h;
    proper = tt;
    open_locks = locks;
  }
  turn-Tallied auth r (alone answer task) (goes now later) p locks h = tt
  turn-Tallied auth r (alone answer task) (works outcome) p locks h =
      alone-Tallied answer (work r task outcome)
        (work-Worked (status_of answer) r task outcome locks h)
  turn-Tallied auth r (alone answer task) expires p locks h = tt
  turn-Tallied auth r (alone answer task) disconnects p locks h = tt
  turn-Tallied auth r (delivered result) (goes now later) p locks h =
      respond-Tallied r result locks h
  turn-Tallied auth r (delivered result) (works outcome) p locks h = tt
  turn-Tallied auth r (delivered result) expires p locks h = late-Tallied r _ refl tt locks h
  turn-Tallied auth r (delivered result) disconnects p locks h = record {
    tallied = h;
    proper = tt;
    open_locks = locks;
  }
  turn-Tallied auth r (crashed join_error) (goes now later) p locks h = record {
    tallied = h;
    proper = refl;
    open_locks = locks;
  }
  turn-Tallied auth r (crashed join_error) (works outcome) p locks h = tt
  turn-Tallied auth r (crashed join_error) expires p locks h = late-Tallied r _ refl tt locks h
  turn-Tallied auth r (crashed join_error) disconnects p locks h = record {
    tallied = h;
    proper = tt;
    open_locks = locks;
  }
  turn-Tallied auth r (join_counted e) (goes now later) p locks h = record {
    tallied = h;
    proper = p;
    open_locks = locks;
  }
  turn-Tallied auth r (join_counted e) (works outcome) p locks h = tt
  turn-Tallied auth r (join_counted e) expires p locks h = tt
  turn-Tallied auth r (join_counted e) disconnects p locks h = tt
  turn-Tallied auth r (join_classified e) (goes now later) p locks h =
      settles a b c d (gauge_down r.observability) r e 500 p
        (tally_other _ _ _ _ a b c d 500 (inr refl) h) locks
  turn-Tallied auth r (join_classified e) (works outcome) p locks h = tt
  turn-Tallied auth r (join_classified e) expires p locks h = tt
  turn-Tallied auth r (join_classified e) disconnects p locks h = tt
  turn-Tallied auth r (settled answer) (goes now later) p locks h = tt
  turn-Tallied auth r (settled answer) (works outcome) p locks h = tt
  turn-Tallied auth r (settled answer) expires p locks h = tt
  turn-Tallied auth r (settled answer) disconnects p locks h = tt
  turn-Tallied auth r (lost answer) (goes now later) p locks h = tt
  turn-Tallied auth r (lost answer) (works outcome) p locks h = tt
  turn-Tallied auth r (lost answer) expires p locks h = tt
  turn-Tallied auth r (lost answer) disconnects p locks h = tt
