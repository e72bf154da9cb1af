-- ===== src/Server/Threads/Load.antt =====
-- What the requests of server/src/main.rs that are under way count for, operation by operation.
use agenc_prover.Base.{
  ℕ, zero, suc, ◌+◌, ◌≤◌, List, [], ◌∷◌, ◌++◌, some, get_elem?, set, ◌≡◌, ap, refl, ◌∙◌, arith,
}
use agenc_prover.Server.Threads.{
  Handler, entered, numbered, received, limited, admitted, turned_away, permitted, started, counted,
  Task, working, ended, completed, measured, timed, classified, finished, unwinding, Pc, handling,
  awaited, alone, delivered, crashed, join_counted, join_classified, settled, lost,
}

-- Requests that have a number and are not counted as received; that are received and in no outcome's
-- counter; jobs that are counted as started and not as completed; that are completed and not counted
-- by their result; that are in the gauge; permits held; provers at work.
pub record Load : Type 0 where
  pub uncounted : ℕ
  pub undecided : ℕ
  pub unfinished : ℕ
  pub unclassified : ℕ
  pub gauged : ℕ
  pub held : ℕ
  pub proving : ℕ

abbrev pub nothing : Load
nothing = record {
  uncounted = 0;
  undecided = 0;
  unfinished = 0;
  unclassified = 0;
  gauged = 0;
  held = 0;
  proving = 0;
}

abbrev pub arrived : Load
arrived = record nothing { undecided = 1 }

-- A job whose gauge is up, and what it counts for while it holds its permit.
abbrev pub open_job : Load
open_job = record nothing { unfinished = 1; gauged = 1 }

abbrev pub closing_job : Load
closing_job = record nothing { unclassified = 1; gauged = 1 }

abbrev pub gauged_job : Load
gauged_job = record nothing { gauged = 1 }

abbrev pub holding : Load → Load
holding l = record l { held = 1 }

unfoldable pub handler_load : Handler → Load
handler_load (entered header request) = nothing
handler_load (numbered id header request) = record nothing { uncounted = 1 }
handler_load (received id header request) = arrived
handler_load (limited e) = arrived
handler_load (admitted id request) = arrived
handler_load (turned_away e) = arrived
handler_load (permitted id fixed) = holding arrived
handler_load (started id fixed) = record nothing { unfinished = 1; held = 1 }
handler_load (counted id fixed) = holding open_job

unfoldable pub task_load : Task → Load
task_load (working id fixed) = record (holding open_job) { proving = 1 }
task_load (ended result duration) = holding open_job
task_load (completed result duration) = holding closing_job
task_load (measured result) = holding closing_job
task_load (timed result) = holding closing_job
task_load (classified result) = holding gauged_job
task_load (finished result) = holding nothing
task_load (unwinding join_error) = holding open_job

unfoldable pub pc_load : Pc → Load
unfolding handler_load task_load
pc_load (handling h) = handler_load h
pc_load (awaited task) = task_load task
pc_load (alone a task) = task_load task
pc_load (delivered result) = nothing
pc_load (crashed join_error) = open_job
pc_load (join_counted e) = closing_job
pc_load (join_classified e) = gauged_job
pc_load (settled a) = nothing
pc_load (lost a) = open_job

abbrev pub add : Load → Load → Load
add a b = record {
  uncounted = a.uncounted + b.uncounted;
  undecided = a.undecided + b.undecided;
  unfinished = a.unfinished + b.unfinished;
  unclassified = a.unclassified + b.unclassified;
  gauged = a.gauged + b.gauged;
  held = a.held + b.held;
  proving = a.proving + b.proving;
}

unfoldable pub load : List Pc → Load
load [] = nothing
load (p ∷ ps) = add (pc_load p) (load ps)

-- The requests without the one at that place.
unfoldable pub others : List Pc → ℕ → List Pc
others [] i = []
others (p ∷ ps) zero = ps
others (p ∷ ps) (suc i) = p ∷ others ps i

left_comm : (a b c : ℕ) → a + (b + c) ≡ b + (a + c)
left_comm a b c = omega arith

zero_add : (n : ℕ) → 0 + n ≡ n
zero_add n = omega arith

add_left_comm : (a b c : Load) → add a (add b c) ≡ add b (add a c)
add_left_comm a b c = λ i. record {
  uncounted = left_comm a.uncounted b.uncounted c.uncounted i;
  undecided = left_comm a.undecided b.undecided c.undecided i;
  unfinished = left_comm a.unfinished b.unfinished c.unfinished i;
  unclassified = left_comm a.unclassified b.unclassified c.unclassified i;
  gauged = left_comm a.gauged b.gauged c.gauged i;
  held = left_comm a.held b.held c.held i;
  proving = left_comm a.proving b.proving c.proving i;
}

pub add-nothing : (l : Load) → add nothing l ≡ l
add-nothing l = λ i. record {
  uncounted = zero_add l.uncounted i;
  undecided = zero_add l.undecided i;
  unfinished = zero_add l.unfinished i;
  unclassified = zero_add l.unclassified i;
  gauged = zero_add l.gauged i;
  held = zero_add l.held i;
  proving = zero_add l.proving i;
}

some_inj : {p q : Pc} → some p ≡ some q → p ≡ q
some_inj e = ground arith

-- A request's share of the load.
pub load-others :
    (ps : List Pc) (i : ℕ) (p : Pc)
    → get_elem? ps i ≡ some p
    → load ps ≡ add (pc_load p) (load (others ps i))
unfolding load others
load-others [] i p e = absurd (ground arith)
load-others (q ∷ ps) zero p e = ap (λ x. add (pc_load x) (load ps)) (some_inj e)
load-others (q ∷ ps) (suc i) p e =
    ap (add (pc_load q)) (load-others ps i p e)
    ∙ add_left_comm (pc_load q) (pc_load p) (load (others ps i))

pub load-set :
    (ps : List Pc) (i : ℕ) (p q : Pc)
    → get_elem? ps i ≡ some p
    → load (set ps i q) ≡ add (pc_load q) (load (others ps i))
unfolding load others
load-set [] i p q e = absurd (ground arith)
load-set (x ∷ ps) zero p q e = refl
load-set (x ∷ ps) (suc i) p q e =
    ap (add (pc_load x)) (load-set ps i p q e)
    ∙ add_left_comm (pc_load x) (pc_load q) (load (others ps i))

-- A new request counts for nothing.
pub load-append : (ps : List Pc) (p : Pc) → load (ps ++ p ∷ []) ≡ add (pc_load p) (load ps)
unfolding load
load-append [] p = refl
load-append (q ∷ ps) p =
    ap (add (pc_load q)) (load-append ps p) ∙ add_left_comm (pc_load q) (pc_load p) (load ps)

-- Every prover at work holds a permit.
pub proving_le : (ps : List Pc) → (load ps).proving ≤ (load ps).held
unfolding load pc_load handler_load task_load
proving_le [] = omega arith
proving_le (p ∷ ps) = let h = proving_le ps in ground (arith, h)
