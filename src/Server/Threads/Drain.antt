-- ===== src/Server/Threads/Drain.antt =====
-- server/src/main.rs: the requests of `/prove` served to their end, one after the other.
use agenc_prover.Base.{
  ℕ, zero, suc, ◌+◌, ◌*◌, ◌≤◌, All, length, List, [], ◌∷◌, ◌++◌, Option, none, some, get_elem?, ◌≡◌,
  ap, refl, arith, Option-cases, inl, inr,
}
use mathlib.Core.Path.{subst}
use agenc_prover.Server.Auth.{ProveAuth}
use agenc_prover.Server.Runtime.{ExecutionPolicy}
use agenc_prover.Server.Threads.{
  take_turn, Pc, handling, awaited, alone, delivered, crashed, join_counted, join_classified,
  settled, lost,
}
use agenc_prover.Server.Threads.Rank.{rank, turn_count, turns, arrivals, run-turns_le}
use agenc_prover.Server.Threads.Rest.{
  next_turn, IsOver, has_settled, is_lost, IsAtRest, over-IsAtRest,
}
use agenc_prover.Server.Threads.Sound.{IsSound, run-IsSound}
use agenc_prover.Server.Threads.System.{System, Event, moves, step, run, start}

-- The first request that is under way, by its place.
unfoldable pub first_open : List Pc → Option (ℕ × Pc)
first_open [] = none
first_open (settled a ∷ ps) = elim (first_open ps) [ none ↦ none | some (i, p) ↦ some (suc i, p) ]
first_open (lost a ∷ ps) = elim (first_open ps) [ none ↦ none | some (i, p) ↦ some (suc i, p) ]
first_open (p ∷ ps) = some (0, p)

first_open-IsOver : (ps : List Pc) → first_open ps ≡ none → All IsOver ps
unfolding first_open
first_open-IsOver [] e = tt
first_open-IsOver (settled a ∷ ps) e = (has_settled, first_open-IsOver ps (ground arith))
first_open-IsOver (lost a ∷ ps) e = (is_lost, first_open-IsOver ps (ground arith))
first_open-IsOver (handling h ∷ ps) e = absurd (ground arith)
first_open-IsOver (awaited task ∷ ps) e = absurd (ground arith)
first_open-IsOver (alone a task ∷ ps) e = absurd (ground arith)
first_open-IsOver (delivered result ∷ ps) e = absurd (ground arith)
first_open-IsOver (crashed join_error ∷ ps) e = absurd (ground arith)
first_open-IsOver (join_counted x ∷ ps) e = absurd (ground arith)
first_open-IsOver (join_classified x ∷ ps) e = absurd (ground arith)

some_inj : {x y : ℕ × Pc} → some x ≡ some y → x ≡ y
some_inj e = ground arith

-- An open request, and that it can take its next turn.
IsOpen : System → List Pc → ℕ × Pc → Type 0
IsOpen s ps (i, p) = (get_elem? ps i ≡ some p) × (turn_count s (next_turn p) (some p) ≡ 1)

skipped :
    (s : System) (q : Pc) (ps : List Pc) (x : Option (ℕ × Pc)) (y : ℕ × Pc)
    → ((z : ℕ × Pc) → x ≡ some z → IsOpen s ps z)
    → elim x [ none ↦ none | some (i, p) ↦ some (suc i, p) ] ≡ some y
    → IsOpen s (q ∷ ps) y
unfolding IsOpen
skipped s q ps none y h e = absurd (ground arith)
skipped s q ps (some (i, p)) y h e = subst (IsOpen s (q ∷ ps)) (some_inj e) (h (i, p) refl)

first_open-IsOpen :
    (s : System) (ps : List Pc) (x : ℕ × Pc) → first_open ps ≡ some x → IsOpen s ps x
unfolding first_open IsOpen turn_count take_turn next_turn
first_open-IsOpen s [] x e = absurd (ground arith)
first_open-IsOpen s (settled a ∷ ps) x e =
    skipped s (settled a) ps (first_open ps) x (first_open-IsOpen s ps) e
first_open-IsOpen s (lost a ∷ ps) x e =
    skipped s (lost a) ps (first_open ps) x (first_open-IsOpen s ps) e
first_open-IsOpen s (handling h ∷ ps) x e =
    subst (IsOpen s (handling h ∷ ps)) (some_inj e) (refl, refl)
first_open-IsOpen s (awaited task ∷ ps) x e =
    subst (IsOpen s (awaited task ∷ ps)) (some_inj e) (refl, refl)
first_open-IsOpen s (alone a task ∷ ps) x e =
    subst (IsOpen s (alone a task ∷ ps)) (some_inj e) (refl, refl)
first_open-IsOpen s (delivered result ∷ ps) x e =
    subst (IsOpen s (delivered result ∷ ps)) (some_inj e) (refl, refl)
first_open-IsOpen s (crashed join_error ∷ ps) x e =
    subst (IsOpen s (crashed join_error ∷ ps)) (some_inj e) (refl, refl)
first_open-IsOpen s (join_counted y ∷ ps) x e =
    subst (IsOpen s (join_counted y ∷ ps)) (some_inj e) (refl, refl)
first_open-IsOpen s (join_classified y ∷ ps) x e =
    subst (IsOpen s (join_classified y ∷ ps)) (some_inj e) (refl, refl)

-- One turn of the drain.
drained-rank :
    (s : System) (x : ℕ × Pc)
    → IsOpen s s.requests x
    → 1 + rank (step (moves (x.0) (next_turn (x.1))) s).requests ≤ rank s.requests
unfolding IsOpen turns run arrivals
drained-rank s (i, p) (e, t) =
    let h = run-turns_le (moves i (next_turn p) ∷ []) s in
    let e' = ap (turn_count s (next_turn p)) e in omega arith

-- Turns of that request until none is under way.
unfoldable pub drain : ℕ → System → List Event
drain zero s = []
drain (suc n) s = elim (first_open s.requests) [
  | none ↦ []
  | some (i, p) ↦ moves i (next_turn p) ∷ drain n (step (moves i (next_turn p)) s)
]

drained-IsOver :
    (n : ℕ) (s : System) (x : Option (ℕ × Pc))
    → first_open s.requests ≡ x
    → ((s' : System) → rank s'.requests ≤ n → All IsOver (run (drain n s') s').requests)
    → rank s.requests ≤ suc n
    → All IsOver
        (run
          (elim x [
            | none ↦ []
            | some (i, p) ↦ moves i (next_turn p) ∷ drain n (step (moves i (next_turn p)) s)
          ])
          s).requests
unfolding run
drained-IsOver n s none e ih h = first_open-IsOver s.requests e
drained-IsOver n s (some (i, p)) e ih h =
    let k = drained-rank s (i, p) (first_open-IsOpen s s.requests (i, p) e) in
    ih (step (moves i (next_turn p)) s) (omega arith)

drain-IsOver : (n : ℕ) (s : System) → rank s.requests ≤ n → All IsOver (run (drain n s) s).requests
unfolding drain run
drain-IsOver zero s h = elim (Option-cases (first_open s.requests)) [
  | inl e ↦ first_open-IsOver s.requests e
  | inr (x, e) ↦
      absurd (let k = drained-rank s x (first_open-IsOpen s s.requests x e) in omega arith)
]
drain-IsOver (suc n) s h = drained-IsOver n s (first_open s.requests) refl (drain-IsOver n) h

drained-length :
    (n : ℕ) (s : System) (x : Option (ℕ × Pc))
    → ((s' : System) → length (drain n s') ≤ n)
    → length {A = Event} (elim x [
      | none ↦ []
      | some (i, p) ↦ moves i (next_turn p) ∷ drain n (step (moves i (next_turn p)) s)
    ])
      ≤ suc n
drained-length n s none ih = omega arith
drained-length n s (some (i, p)) ih = let k = ih (step (moves i (next_turn p)) s) in omega arith

length-drain_le : (n : ℕ) (s : System) → length (drain n s) ≤ n
unfolding drain
length-drain_le zero s = omega arith
length-drain_le (suc n) s = drained-length n s (first_open s.requests) (length-drain_le n)

run-append : (es fs : List Event) (s : System) → run (es ++ fs) s ≡ run fs (run es s)
unfolding run
run-append [] fs s = refl
run-append (e ∷ es) fs s = run-append es fs (step e s)

-- From every state that a schedule leaves, at most fifteen turns for each request that came lead
-- to the service at rest, with every permit free.
pub run-drain-IsAtRest :
    (auth : ProveAuth) (policy : ExecutionPolicy) (now now' : ℕ) (es : List Event)
    → (let s = run es (start auth policy now now') in
        let turns_left = drain (rank s.requests) s in
        (length turns_left ≤ 15 * arrivals es) × IsAtRest policy (run turns_left s))
unfolding start rank
run-drain-IsAtRest auth policy now now' es =
    let s₀ = start auth policy now now' in
    let s = run es s₀ in
    let turns_left = drain (rank s.requests) s in
    let bound = length-drain_le (rank s.requests) s in
    let h = run-turns_le es s₀ in
    (
      omega arith,
      over-IsAtRest policy (run turns_left s)
          (subst (IsSound policy) (run-append es turns_left s₀)
            (run-IsSound auth policy now now' (es ++ turns_left)))
          (drain-IsOver (rank s.requests) s (omega arith)),
    )
