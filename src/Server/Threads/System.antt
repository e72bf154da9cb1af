-- ===== src/Server/Threads/System.antt =====
-- server/src/main.rs: all requests to `/prove` over one runtime, their turns in any order.
use agenc_prover.Base.{ℕ, List, [], ◌∷◌, ◌++◌, Option, none, some, Text, get_elem?, set}
use agenc_prover.Server.Request.{ProveRequest}
use agenc_prover.Server.Auth.{ProveAuth}
use agenc_prover.Server.Runtime.{ExecutionPolicy, ProveRuntime, new_runtime}
use agenc_prover.Server.Threads.{Pc, handling, entered, Turn, take_turn}

-- All requests over one runtime.
pub record System : Type 0 where
  pub auth : ProveAuth
  pub runtime : ProveRuntime
  pub requests : List Pc

pub data Event : Type 0 where
  arrives : Option Text → ProveRequest → Event
  moves : (i : ℕ) → Turn → Event

-- An impossible turn, or one of a request that is not there, changes nothing.
unfoldable pub moved : System → ℕ → Option (ProveRuntime × Pc) → System
moved s i none = s
moved s i (some (r, pc)) = record s { runtime = r; requests = set s.requests i pc }

-- The turn of the request at that place.
unfoldable pub move : System → ℕ → Turn → Option Pc → System
unfolding moved
move s i turn none = s
move s i turn (some pc) = moved s i (take_turn s.auth s.runtime pc turn)

unfoldable pub step : Event → System → System
unfolding move
step (arrives header request) s = record s {
  requests = s.requests ++ handling (entered header request) ∷ [];
}
step (moves i turn) s = move s i turn (get_elem? s.requests i)

unfoldable pub run : List Event → System → System
run [] s = s
run (e ∷ es) s = run es (step e s)

unfoldable pub start : ProveAuth → ExecutionPolicy → (now now' : ℕ) → System
start auth policy now now' = record {
  auth = auth;
  runtime = new_runtime policy now now';
  requests = [];
}
