-- ===== src/Server/Threads/Refused.antt =====
-- The refusal counters of server/src/main.rs over every interleaving of requests.
use agenc_prover.Base.{
  ℕ, zero, suc, ◌+◌, ◌≡◌, refl, sym, ap, arith, All, List, [], ◌∷◌, ◌++◌, Option, none, some,
  get_elem?, set,
}
use mathlib.Core.Path.{subst}
use agenc_prover.Server.Auth.{ProveAuth}
use agenc_prover.Server.Metrics.{Observability, new_observability}
use agenc_prover.Server.RateLimit.{new_limiter}
use agenc_prover.Server.Runtime.{ExecutionPolicy, ProveRuntime, new_runtime}
use agenc_prover.Server.Threads.{Pc, handling, entered, Turn}
use agenc_prover.Server.Threads.Load.{others}
use agenc_prover.Server.Threads.System.{
  System, Event, arrives, moves, moved, move, step, run, start,
}
use agenc_prover.Server.Threads.Tally.{given, one_if, IsTallied, IsOpen}
use agenc_prover.Server.Threads.Tally.Turns.{Proper}
use agenc_prover.Server.Threads.Tally.Working.{IfTallied, turn-Tallied}

-- The requests that have been given a refusal with that status.
unfoldable pub refusals : ℕ → List Pc → ℕ
refusals status [] = 0
refusals status (p ∷ ps) = one_if status (given p) + refusals status ps

-- The counters 401, 429, 503 and 504 belong to, modulo 2^64, against the refusals of those requests.
abbrev pub CountsRefusals : Observability → List Pc → Type 0
CountsRefusals m ps =
    IsTallied m.prove_unauthorized_total m.prove_rate_limited_total m.prove_overloaded_total
      m.prove_timeouts_total (refusals 401 ps) (refusals 429 ps) (refusals 503 ps) (refusals 504 ps)

some_inj : {p q : Pc} → some p ≡ some q → p ≡ q
some_inj e = ground arith

module _ (status : ℕ) where
  refusals-others :
      (ps : List Pc) (i : ℕ) (p : Pc)
      → get_elem? ps i ≡ some p
      → refusals status ps ≡ one_if status (given p) + refusals status (others ps i)
  unfolding refusals others
  refusals-others [] i p e = absurd (ground arith)
  refusals-others (x ∷ ps) zero p e =
      ap (λ y. one_if status (given y) + refusals status ps) (some_inj e)
  refusals-others (x ∷ ps) (suc i) p e = let k = refusals-others ps i p e in omega arith

  refusals-set :
      (ps : List Pc) (i : ℕ) (p q : Pc)
      → get_elem? ps i ≡ some p
      → refusals status (set ps i q) ≡ one_if status (given q) + refusals status (others ps i)
  unfolding refusals others
  refusals-set [] i p q e = absurd (ground arith)
  refusals-set (x ∷ ps) zero p q e = refl
  refusals-set (x ∷ ps) (suc i) p q e = let k = refusals-set ps i p q e in omega arith

  refusals-append :
      (ps : List Pc) (p : Pc)
      → one_if status (given p) ≡ 0
      → refusals status (ps ++ p ∷ []) ≡ refusals status ps
  unfolding refusals
  refusals-append [] p e = omega arith
  refusals-append (x ∷ ps) p e = let k = refusals-append ps p e in omega arith

Proper-get : (ps : List Pc) (i : ℕ) (p : Pc) → All Proper ps → get_elem? ps i ≡ some p → Proper p
Proper-get [] i p h e = absurd (ground arith)
Proper-get (x ∷ ps) zero p h e = subst Proper (some_inj e) (h.0)
Proper-get (x ∷ ps) (suc i) p h e = Proper-get ps i p (h.1) e

Proper-set : (ps : List Pc) (i : ℕ) (q : Pc) → All Proper ps → Proper q → All Proper (set ps i q)
Proper-set [] i q h k = tt
Proper-set (x ∷ ps) zero q h k = (k, h.1)
Proper-set (x ∷ ps) (suc i) q h k = (h.0, Proper-set ps i q (h.1) k)

Proper-append : (ps : List Pc) (q : Pc) → All Proper ps → Proper q → All Proper (ps ++ q ∷ [])
Proper-append [] q h k = (k, tt)
Proper-append (x ∷ ps) q h k = (h.0, Proper-append ps q (h.1) k)

-- What every turn keeps.
record IsCounted (s : System) : Type 0 where
  counts : CountsRefusals s.runtime.observability s.requests
  all_proper : All Proper s.requests
  locks : IsOpen s.runtime.rate_limiter

-- The tally of equal sums.
retally :
    (u l o t : ℕ) {a b c d a' b' c' d' : ℕ}
    → a ≡ a'
    → b ≡ b'
    → c ≡ c'
    → d ≡ d'
    → IsTallied u l o t a b c d
    → IsTallied u l o t a' b' c' d'
retally u l o t ea eb ec ed h = record {
  unauthorized_tally = (let e = h.unauthorized_tally in omega arith);
  limited_tally = (let e = h.limited_tally in omega arith);
  overloaded_tally = (let e = h.overloaded_tally in omega arith);
  late_tally = (let e = h.late_tally in omega arith);
}

moved-IsCounted :
    (s : System) (i : ℕ) (p : Pc) (x : Option (ProveRuntime × Pc))
    → get_elem? s.requests i ≡ some p
    → IfTallied
        (refusals 401 (others s.requests i))
        (refusals 429 (others s.requests i))
        (refusals 503 (others s.requests i))
        (refusals 504 (others s.requests i))
        x
    → IsCounted s
    → IsCounted (moved s i x)
unfolding moved IfTallied
moved-IsCounted s i p none e k h = h
moved-IsCounted s i p (some (r, q)) e k h = record {
  counts =
      retally _ _ _ _ (sym (refusals-set 401 s.requests i p q e))
        (sym (refusals-set 429 s.requests i p q e)) (sym (refusals-set 503 s.requests i p q e))
        (sym (refusals-set 504 s.requests i p q e)) k.tallied;
  all_proper = Proper-set s.requests i q h.all_proper k.proper;
  locks = k.open_locks;
}

move-IsCounted :
    (s : System) (i : ℕ) (turn : Turn) (x : Option Pc)
    → get_elem? s.requests i ≡ x
    → IsCounted s
    → IsCounted (move s i turn x)
unfolding move
move-IsCounted s i turn none e h = h
move-IsCounted s i turn (some p) e h =
    moved-IsCounted s i p _ e
      (turn-Tallied _ _ _ _ s.auth s.runtime p turn (Proper-get s.requests i p h.all_proper e)
        h.locks
        (retally _ _ _ _ (refusals-others 401 s.requests i p e)
          (refusals-others 429 s.requests i p e) (refusals-others 503 s.requests i p e)
          (refusals-others 504 s.requests i p e) h.counts))
      h

step-IsCounted : (e : Event) (s : System) → IsCounted s → IsCounted (step e s)
unfolding step given one_if
step-IsCounted (arrives header request) s h = record {
  counts =
      retally _ _ _ _
        (sym (refusals-append 401 s.requests (handling (entered header request)) refl))
        (sym (refusals-append 429 s.requests (handling (entered header request)) refl))
        (sym (refusals-append 503 s.requests (handling (entered header request)) refl))
        (sym (refusals-append 504 s.requests (handling (entered header request)) refl)) h.counts;
  all_proper = Proper-append s.requests (handling (entered header request)) h.all_proper tt;
  locks = h.locks;
}
step-IsCounted (moves i turn) s h = move-IsCounted s i turn _ refl h

run_from-IsCounted : (es : List Event) (s : System) → IsCounted s → IsCounted (run es s)
unfolding run
run_from-IsCounted [] s h = h
run_from-IsCounted (e ∷ es) s h = run_from-IsCounted es (step e s) (step-IsCounted e s h)

-- After any requests and any turns of their tasks in any order, one shared operation at a time, the
-- counters of refusals are, modulo 2^64, the numbers of requests that have been given that refusal:
-- `prove_unauthorized_total` those with status 401, `prove_rate_limited_total` those with 429,
-- `prove_overloaded_total` those with 503, and `prove_timeouts_total` those with 504, whether or not
-- their blocking task is still at work.
pub run-CountsRefusals :
    (auth : ProveAuth) (policy : ExecutionPolicy) (now now' : ℕ) (es : List Event)
    → CountsRefusals
        (run es (start auth policy now now')).runtime.observability
        (run es (start auth policy now now')).requests
unfolding start new_runtime new_limiter new_observability refusals
run-CountsRefusals auth policy now now' es =
    (run_from-IsCounted es (start auth policy now now') record {
      counts = record {
        unauthorized_tally = refl;
        limited_tally = refl;
        overloaded_tally = refl;
        late_tally = refl;
      };
      all_proper = tt;
      locks = (refl, refl);
    }).counts
