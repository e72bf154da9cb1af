-- ===== src/Server/Launch/Faults.antt =====
-- What can make `main` of server/src/main.rs panic before `serve`.
use agenc_prover.Base.{
  ◌<◌, ◌≡◌, ℕ, true, false, List, ◌∷◌, Option, none, some, Text, text, err, list_eq,
}
use agenc_prover.Prover.Generate.{Build, image_id}
use agenc_prover.Prover.Seal.{render_image_id}
use agenc_prover.Server.Config.{Std, Env, RuntimeConfig, runtime_config}
use agenc_prover.Server.Config.Accepted.{IsConfig}
use agenc_prover.Server.Host.{Host, InfoFault}
use agenc_prover.Server.Launch.{Serving, bind_message}

-- What makes the start panic once there is a configuration.
pub data ServeFault (host : Host) (build : Build) (c : RuntimeConfig) : Type 0 where
  too_many_permits : host.max_permits < c.execution_policy.max_in_flight → ServeFault host build c
  lost_bind_error :
      (e : Text)
      → host.bind c.addr ≡ some e
      → host.takes_stderr (bind_message host c.addr e) ≡ false
      → ServeFault host build c
  log_fault :
      host.bind c.addr ≡ none → InfoFault host build c.prove_auth c.addr → ServeFault host build c

-- The arguments can be read and ask for the image id.
abbrev pub Asking : List (Option Text) → Type 0
Asking (some name ∷ some arg ∷ args) = list_eq arg (text "image-id") ≡ true
Asking _ = ⊥

-- One of the first two arguments is not Unicode.
pub data IsUnreadable : List (Option Text) → Type 0 where
  bad_name : {args : List (Option Text)} → IsUnreadable (none ∷ args)
  bad_argument : {name : Text} {args : List (Option Text)} → IsUnreadable (some name ∷ none ∷ args)

-- What makes `main` panic before `serve`.
pub data MainFault (std : Std) (host : Host) (build : Build) (env : Env) (args : List (Option Text))
    : Type 0 where
  unreadable_argument : IsUnreadable args → MainFault std host build env args
  underivable_id : Asking args → image_id build ≡ none → MainFault std host build env args
  lost_image_id :
      (id : List ℕ)
      → Asking args
      → image_id build ≡ some id
      → host.takes_stdout (render_image_id id) ≡ false
      → MainFault std host build env args
  lost_config_error :
      (m : Text)
      → Serving args
      → runtime_config std env ≡ err m
      → host.takes_stderr m ≡ false
      → MainFault std host build env args
  serve_fault :
      (c : RuntimeConfig)
      → Serving args
      → IsConfig std env c
      → ServeFault host build c
      → MainFault std host build env args
