-- ===== src/Server/Threads/Rank.antt =====
-- server/src/main.rs: how many operations a request to `/prove` can still take.
use agenc_prover.Base.{
  ℕ, zero, suc, ◌+◌, ◌*◌, ◌≤◌, ◌<◌, List, [], ◌∷◌, ◌++◌, Option, none, some, Text, Result, ok, err,
  panic, get_elem?, set, ◌≡◌, ap, refl, arith,
}
use agenc_prover.Prover.Generate
use agenc_prover.Prover.Generate.{ProveResponse, ProveError}
use agenc_prover.Server.Errors.{AppError}
use agenc_prover.Server.Request.{ProveRequest}
use agenc_prover.Server.Auth.{ProveAuth}
use agenc_prover.Server.RateLimit.{RateLimiter, RateLimitBucket}
use agenc_prover.Server.Runtime.{ProveRuntime, Answer}
use agenc_prover.Server.Threads.{
  rule, judge, acquire, accept, handle, work, take_turn, Handler, entered, numbered, received,
  limited, admitted, turned_away, permitted, started, counted, Task, working, ended, completed,
  measured, timed, classified, finished, unwinding, Pc, handling, awaited, alone, delivered,
  crashed, join_counted, join_classified, settled, lost, Turn, goes, works, Outcome, returns,
  panics, after_work, expires, disconnects, awaited_after, alone_after,
}
use agenc_prover.Server.Threads.System.{System, Event, arrives, moves, moved, move, step, run}

handler_rank : Handler → ℕ
handler_rank (entered header request) = 15
handler_rank (numbered id header request) = 14
handler_rank (received id header request) = 13
handler_rank (limited e) = 1
handler_rank (admitted id request) = 12
handler_rank (turned_away e) = 1
handler_rank (permitted id fixed) = 11
handler_rank (started id fixed) = 10
handler_rank (counted id fixed) = 9

task_rank : Task → ℕ
task_rank (working id fixed) = 7
task_rank (ended result duration) = 6
task_rank (completed result duration) = 5
task_rank (measured result) = 4
task_rank (timed result) = 3
task_rank (classified result) = 2
task_rank (finished result) = 1
task_rank (unwinding join_error) = 3

-- No request takes more operations than that.
unfoldable pub pc_rank : Pc → ℕ
unfolding handler_rank task_rank
pc_rank (handling h) = handler_rank h
pc_rank (awaited task) = 1 + task_rank task
pc_rank (alone a task) = task_rank task
pc_rank (delivered result) = 1
pc_rank (crashed join_error) = 3
pc_rank (join_counted e) = 2
pc_rank (join_classified e) = 1
pc_rank (settled a) = 0
pc_rank (lost a) = 0

unfoldable pub rank : List Pc → ℕ
rank [] = 0
rank (p ∷ ps) = pc_rank p + rank ps

-- A request that is at rank `n` has gone on.
Below : ℕ → ProveRuntime × Pc → Type 0
Below n (r, p) = pc_rank p < n

rule-Below :
    (r : ProveRuntime) (id : ℕ) (request : ProveRequest)
    (x : RateLimiter × Result (Unit {0}) AppError)
    → Below 13 (rule r id request x)
unfolding rule Below pc_rank handler_rank
rule-Below r id request (limiter, ok _) = omega arith
rule-Below r id request (limiter, err e) = omega arith
rule-Below r id request (limiter, panic) = omega arith

judge-Below :
    (r : ProveRuntime) (id : ℕ) (request : ProveRequest) (now later : ℕ)
    (b : Result RateLimitBucket AppError)
    → Below 13 (judge r id request now later b)
unfolding judge Below pc_rank handler_rank
judge-Below r id request now later (ok bucket) = rule-Below r id request _
judge-Below r id request now later (err e) = omega arith
judge-Below r id request now later panic = omega arith

accept-Below :
    (r : ProveRuntime) (id : ℕ) (x : Result Generate.ProveRequest AppError)
    → Below 12 (accept r id x)
unfolding accept acquire Below pc_rank handler_rank
accept-Below r id (ok fixed) = ground arith
accept-Below r id (err e) = omega arith
accept-Below r id panic = omega arith

handle-Below :
    (auth : ProveAuth) (r : ProveRuntime) (h : Handler) (now later : ℕ)
    → Below (handler_rank h) (handle auth r h now later)
unfolding handle Below pc_rank handler_rank task_rank
handle-Below auth r (entered header request) now later = omega arith
handle-Below auth r (numbered id header request) now later = omega arith
handle-Below auth r (received id header request) now later = judge-Below r id request now later _
handle-Below auth r (limited e) now later = omega arith
handle-Below auth r (admitted id request) now later = accept-Below r id _
handle-Below auth r (turned_away e) now later = omega arith
handle-Below auth r (permitted id fixed) now later = omega arith
handle-Below auth r (started id fixed) now later = omega arith
handle-Below auth r (counted id fixed) now later = omega arith

awaited-Below :
    (r : ProveRuntime) (task : Task) (outcome : Outcome)
    → Below (1 + task_rank task) (after_work awaited_after (work r task outcome))
unfolding work Below pc_rank task_rank
awaited-Below r (working id fixed) (returns result duration) = omega arith
awaited-Below r (working id fixed) (panics join_error) = omega arith
awaited-Below r (ended result duration) outcome = omega arith
awaited-Below r (completed result duration) outcome = omega arith
awaited-Below r (measured result) outcome = omega arith
awaited-Below r (timed result) outcome = omega arith
awaited-Below r (classified result) outcome = omega arith
awaited-Below r (finished result) outcome = omega arith
awaited-Below r (unwinding join_error) outcome = omega arith

alone-Below :
    (r : ProveRuntime) (a : Answer) (task : Task) (outcome : Outcome)
    → Below (task_rank task) (after_work (alone_after a) (work r task outcome))
unfolding work Below pc_rank task_rank
alone-Below r a (working id fixed) (returns result duration) = omega arith
alone-Below r a (working id fixed) (panics join_error) = omega arith
alone-Below r a (ended result duration) outcome = omega arith
alone-Below r a (completed result duration) outcome = omega arith
alone-Below r a (measured result) outcome = omega arith
alone-Below r a (timed result) outcome = omega arith
alone-Below r a (classified result) outcome = omega arith
alone-Below r a (finished result) outcome = omega arith
alone-Below r a (unwinding join_error) outcome = omega arith

-- After a turn, if it is possible.
Lowers : ℕ → Option (ProveRuntime × Pc) → Type 0
Lowers n none = Unit
Lowers n (some x) = Below n x

turn-Lowers :
    (auth : ProveAuth) (r : ProveRuntime) (p : Pc) (turn : Turn)
    → Lowers (pc_rank p) (take_turn auth r p turn)
unfolding take_turn Lowers Below pc_rank
turn-Lowers auth r (handling handler) (goes now later) = handle-Below auth r handler now later
turn-Lowers auth r (handling handler) (works outcome) = tt
turn-Lowers auth r (handling handler) expires = tt
turn-Lowers auth r (handling handler) disconnects = tt
turn-Lowers auth r (awaited task) (goes now later) = tt
turn-Lowers auth r (awaited task) (works outcome) = awaited-Below r task outcome
turn-Lowers auth r (awaited task) expires = omega arith
turn-Lowers auth r (awaited task) disconnects = omega arith
turn-Lowers auth r (alone a task) (goes now later) = tt
turn-Lowers auth r (alone a task) (works outcome) = alone-Below r a task outcome
turn-Lowers auth r (alone a task) expires = tt
turn-Lowers auth r (alone a task) disconnects = tt
turn-Lowers auth r (delivered result) (goes now later) = omega arith
turn-Lowers auth r (delivered result) (works outcome) = tt
turn-Lowers auth r (delivered result) expires = omega arith
turn-Lowers auth r (delivered result) disconnects = omega arith
turn-Lowers auth r (crashed join_error) (goes now later) = omega arith
turn-Lowers auth r (crashed join_error) (works outcome) = tt
turn-Lowers auth r (crashed join_error) expires = omega arith
turn-Lowers auth r (crashed join_error) disconnects = omega arith
turn-Lowers auth r (join_counted e) (goes now later) = omega arith
turn-Lowers auth r (join_counted e) (works outcome) = tt
turn-Lowers auth r (join_counted e) expires = tt
turn-Lowers auth r (join_counted e) disconnects = tt
turn-Lowers auth r (join_classified e) (goes now later) = omega arith
turn-Lowers auth r (join_classified e) (works outcome) = tt
turn-Lowers auth r (join_classified e) expires = tt
turn-Lowers auth r (join_classified e) disconnects = tt
turn-Lowers auth r (settled a) (goes now later) = tt
turn-Lowers auth r (settled a) (works outcome) = tt
turn-Lowers auth r (settled a) expires = tt
turn-Lowers auth r (settled a) disconnects = tt
turn-Lowers auth r (lost a) (goes now later) = tt
turn-Lowers auth r (lost a) (works outcome) = tt
turn-Lowers auth r (lost a) expires = tt
turn-Lowers auth r (lost a) disconnects = tt

-- The turns of a schedule that were possible, and the requests that came.
made : Option (ProveRuntime × Pc) → ℕ
made none = 0
made (some x) = 1

unfoldable pub turn_count : System → Turn → Option Pc → ℕ
unfolding made
turn_count s turn none = 0
turn_count s turn (some p) = made (take_turn s.auth s.runtime p turn)

unfoldable pub turns : List Event → System → ℕ
turns [] s = 0
turns (arrives header request ∷ es) s = turns es (step (arrives header request) s)
turns (moves i turn ∷ es) s =
    turn_count s turn (get_elem? s.requests i) + turns es (step (moves i turn) s)

unfoldable pub arrivals : List Event → ℕ
arrivals [] = 0
arrivals (arrives header request ∷ es) = 1 + arrivals es
arrivals (moves i turn ∷ es) = arrivals es

some_inj : {p q : Pc} → some p ≡ some q → p ≡ q
some_inj e = ground arith

rank-set :
    (ps : List Pc) (i : ℕ) (p q : Pc)
    → get_elem? ps i ≡ some p
    → rank (set ps i q) + pc_rank p ≡ rank ps + pc_rank q
unfolding rank
rank-set [] i p q e = absurd (ground arith)
rank-set (x ∷ ps) zero p q e = let e' = ap pc_rank (some_inj e) in omega arith
rank-set (x ∷ ps) (suc i) p q e = let e' = rank-set ps i p q e in omega arith

rank-append : (ps : List Pc) (p : Pc) → rank (ps ++ p ∷ []) ≡ rank ps + pc_rank p
unfolding rank
rank-append [] p = omega arith
rank-append (x ∷ ps) p = let e = rank-append ps p in omega arith

moved-rank :
    (s : System) (i : ℕ) (p : Pc) (x : Option (ProveRuntime × Pc))
    → get_elem? s.requests i ≡ some p
    → Lowers (pc_rank p) x
    → made x + rank (moved s i x).requests ≤ rank s.requests
unfolding moved made Lowers Below
moved-rank s i p none e h = omega arith
moved-rank s i p (some (r, q)) e h = let e' = rank-set s.requests i p q e in omega arith

move-rank :
    (s : System) (i : ℕ) (turn : Turn) (x : Option Pc)
    → get_elem? s.requests i ≡ x
    → turn_count s turn x + rank (move s i turn x).requests ≤ rank s.requests
unfolding move turn_count
move-rank s i turn none e = omega arith
move-rank s i turn (some p) e = moved-rank s i p _ e (turn-Lowers s.auth s.runtime p turn)

arrived-rank :
    (s : System) (header : Option Text) (request : ProveRequest)
    → rank (step (arrives header request) s).requests ≡ rank s.requests + 15
unfolding step pc_rank handler_rank
arrived-rank s header request = rank-append s.requests (handling (entered header request))

-- However their turns are interleaved, the turns of a schedule and the rank that it leaves are
-- together at most the rank that it found and fifteen for each request that came.
pub run-turns_le :
    (es : List Event) (s : System)
    → turns es s + rank (run es s).requests ≤ rank s.requests + 15 * arrivals es
unfolding run turns arrivals step
run-turns_le [] s = omega arith
run-turns_le (arrives header request ∷ es) s =
    let h = run-turns_le es (step (arrives header request) s) in
    let k = arrived-rank s header request in omega arith
run-turns_le (moves i turn ∷ es) s =
    let h = run-turns_le es (step (moves i turn) s) in
    let k = move-rank s i turn _ refl in omega arith
