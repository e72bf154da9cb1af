-- ===== src/Server/Service/Proofs.antt =====
-- From a client's request to the proof in its response: server/src/main.rs with the prover of
-- server/src/prover.rs.
use mathlib.Core.Path.{subst}
use agenc_prover.Base.{ℕ, ◌≡◌, refl, List, [], ◌∷◌, ◌++◌, Option, Text, All}
use agenc_prover.Guest.Crates.{Crates, IsLawful}
use agenc_prover.Guest.Spec.{IsDerived}
use agenc_prover.Prover.Generate
use agenc_prover.Prover.Generate.{
  Build, production, ProveResponse, generate_proof, generate_proof_with_dev_mode, journal_fields,
  private_witness, dev_mode_env_var,
}
use agenc_prover.Prover.Sound.{IsBacked, generate_proof_sound}
use agenc_prover.Prover.Zkvm.{Zkvm}
use agenc_prover.Server.Auth.{ProveAuth}
use agenc_prover.Server.Request.Fields.{IsRaw, try_into_fixed-IsRequest}
use agenc_prover.Server.Runtime.{ExecutionPolicy, AppState, success}
use agenc_prover.Server.Service.{
  Event, arrives, returns, panics, joins, expires, disconnects, step, run, start,
}
use agenc_prover.Server.Service.Origin.{IsOrigin, IsHonestRun}
use agenc_prover.Server.Service.Delivery.{joins-IsAnswered}

-- The elements of an arriving request are bytes.
abbrev pub IsRawEvent : Event → Type 0
IsRawEvent (arrives header request now later) = IsRaw request
IsRawEvent (returns id result duration) = Unit {0}
IsRawEvent (panics id) = Unit {0}
IsRawEvent (joins id message) = Unit {0}
IsRawEvent (expires id) = Unit {0}
IsRawEvent (disconnects id) = Unit {0}

-- A response with a proof of the request that came under the number `id`: the request's public
-- fields are derived from its witness, and the zkVM of the production build backs the response.
pub record IsProof (c : Crates) (laws : IsLawful c) (build : Build) (s₀ : AppState)
    (es : List Event) (id : ℕ) (response : ProveResponse) : Type 1 where
  pub fixed : Generate.ProveRequest
  pub origin : IsOrigin s₀ es id fixed
  pub derived : IsDerived laws.digest (journal_fields fixed) (private_witness fixed)
  pub zkvm : Zkvm
  pub production_build : build ≡ production zkvm
  pub backed : IsBacked zkvm fixed response

All-at :
    (P : Event → Type 0) (xs : List Event) (x : Event) (ys : List Event)
    → All P (xs ++ x ∷ ys)
    → P x
All-at P [] x ys h = h.0
All-at P (z ∷ xs) x ys h = All-at P xs x ys h.1

-- When the requests consist of bytes, and every job that returns does so with what `generate_proof`
-- gives for its request, a handler's wait that ends with a response ends with a proof for its own
-- request: one that arrived under the handler's number, was authorized, and was converted to fields
-- whose public part is derived from the private witness; the response's journal is that request's,
-- its image id is the pinned one, and its seal encodes the 256 bytes of a receipt that the zkVM of a
-- production build made from the request's inputs.
pub joins-IsProof :
    (c : Crates) (laws : IsLawful c) (build : Build) (env : Text → Option Text) (auth : ProveAuth)
    (policy : ExecutionPolicy) (now now' : ℕ) (es : List Event) (id : ℕ) (m : Text)
    (response : ProveResponse)
    → let s₀ = start auth policy now now' in
      All IsRawEvent es
      → IsHonestRun (generate_proof c build env) s₀ es s₀
      → (step (joins id m) (run es s₀)).1 ≡ success response
      → IsProof c laws build s₀ es id response
unfolding start generate_proof
joins-IsProof c laws build env auth policy now now' es id m response raw honest h =
    let s₀ = start auth policy now now' in
    let a = joins-IsAnswered (generate_proof c build env) s₀ es id m response refl honest h in
    let o = a.origin in
    let bytes = All-at IsRawEvent o.before _ o.after (subst (All IsRawEvent) o.arrived raw) in
    let (derived, _, (z, built, backed)) =
      generate_proof_sound c laws build a.fixed (env dev_mode_env_var) response
        (try_into_fixed-IsRequest o.request a.fixed bytes o.converted) a.proved in
    record {
      fixed = a.fixed;
      origin = o;
      derived = derived;
      zkvm = z;
      production_build = built;
      backed = backed;
    }
