-- ===== src/Server/Launch/Outcomes.antt =====
-- The panics of `main` of server/src/main.rs before `serve`.
use agenc_prover.Base.{
  ◌≡◌, ◌≢◌, ◌↔◌, ◌⊎◌, refl, ap, ◌∙◌, inl, inr, ℕ, false, Bool-cases, List, [], ◌∷◌, Option, none,
  some, Option-cases, Text, text, Result, ok, err, panic, leb, list_eq, arith,
}
use agenc_prover.Prover.Generate.{Build, image_id}
use agenc_prover.Prover.Seal.{render_image_id}
use agenc_prover.Server.Config.{Std, Env, RuntimeConfig, runtime_config}
use agenc_prover.Server.Config.Startup.{runtime_config_iff}
use agenc_prover.Server.Config.Total.{runtime_config-no_panic}
use agenc_prover.Server.Host.{Host, log_start, log_start-InfoFault, InfoFault-log_start}
use agenc_prover.Server.Launch.{
  Serving, second_arg, dispatch-configured, panics, launch, dispatch, configured, bind_and_serve,
  bind_message, print_line, exit_with, print_image_id,
}
use agenc_prover.Server.Service.{start}
use agenc_prover.Server.Launch.Faults.{
  ServeFault, too_many_permits, lost_bind_error, log_fault, Asking, IsUnreadable, bad_name,
  bad_argument, MainFault, unreadable_argument, underivable_id, lost_image_id, lost_config_error,
  serve_fault,
}

bind_and_serve-panics :
    (host : Host) (build : Build) (c : RuntimeConfig) (now now' : ℕ)
    → bind_and_serve host build c.addr (start c.prove_auth c.execution_policy now now') ≡ panics
    → ServeFault host build c
unfolding bind_and_serve exit_with start
bind_and_serve-panics host build c now now' h = elim (Option-cases (host.bind c.addr)) [
  | inl bound ↦ elim (Bool-cases (log_start host build c.prove_auth c.addr)) [
    | inl logged ↦ absurd (ground (arith, bound, logged, h))
    | inr e ↦ log_fault bound (log_start-InfoFault host build c.prove_auth c.addr e)
  ]
  | inr (m, failed) ↦ elim (Bool-cases (host.takes_stderr (bind_message host c.addr m))) [
    | inl e ↦ absurd (ground (arith, failed, e, h))
    | inr e ↦ lost_bind_error m failed e
  ]
]

configured-panics :
    (std : Std) (host : Host) (build : Build) (env : Env) (args : List (Option Text)) (now now' : ℕ)
    (r : Result RuntimeConfig Text)
    → Serving args
    → runtime_config std env ≡ r
    → r ≢ panic
    → configured host build now now' r ≡ panics
    → MainFault std host build env args
unfolding configured exit_with
configured-panics std host build env args now now' (ok c) s e n h =
    serve_fault c s ((runtime_config_iff std env c).0 e)
      (elim (Bool-cases (leb c.execution_policy.max_in_flight host.max_permits)) [
        | inl fits ↦ bind_and_serve-panics host build c now now' (ground (arith, fits, h))
        | inr over ↦ too_many_permits (ground (arith, over))
      ])
configured-panics std host build env args now now' (err m) s e n h =
    elim (Bool-cases (host.takes_stderr m)) [
      | inl k ↦ absurd (ground (arith, k, h))
      | inr k ↦ lost_config_error m s e k
    ]
configured-panics std host build env args now now' panic s e n h = absurd (n refl)

print_image_id-panics :
    (std : Std) (host : Host) (build : Build) (env : Env) (args : List (Option Text))
    → Asking args
    → print_image_id host build ≡ panics
    → MainFault std host build env args
unfolding print_image_id print_line
print_image_id-panics std host build env args asks h = elim (Option-cases (image_id build)) [
  | inl e ↦ underivable_id asks e
  | inr (id, e) ↦ elim (Bool-cases (host.takes_stdout (render_image_id id))) [
    | inl k ↦ absurd (ground (arith, e, k, h))
    | inr k ↦ lost_image_id id asks e k
  ]
]

dispatch-panics :
    (std : Std) (host : Host) (build : Build) (env : Env) (args : List (Option Text)) (now now' : ℕ)
    → runtime_config std env ≢ panic
    → dispatch std host build env (second_arg args) now now' ≡ panics
    → MainFault std host build env args
unfolding dispatch second_arg
dispatch-panics std host build env [] now now' n h =
    configured-panics std host build env [] now now' (runtime_config std env) tt refl n h
dispatch-panics std host build env (none ∷ args) now now' n h = unreadable_argument bad_name
dispatch-panics std host build env (some name ∷ []) now now' n h =
    configured-panics std host build env (some name ∷ []) now now' (runtime_config std env) tt refl
      n h
dispatch-panics std host build env (some name ∷ none ∷ args) now now' n h =
    unreadable_argument bad_argument
dispatch-panics std host build env (some name ∷ some a ∷ args) now now' n h =
    elim (Bool-cases (list_eq a (text "image-id"))) [
      | inl e ↦
          print_image_id-panics std host build env (some name ∷ some a ∷ args) e
            (ground (arith, e, h))
      | inr e ↦
          configured-panics std host build env (some name ∷ some a ∷ args) now now'
            (runtime_config std env) e refl n (ground (arith, e, h))
    ]

ServeFault-panics :
    (host : Host) (build : Build) (c : RuntimeConfig) (now now' : ℕ)
    → ServeFault host build c
    → configured host build now now' (ok c) ≡ panics
unfolding configured bind_and_serve exit_with start
ServeFault-panics host build c now now' (too_many_permits over) = ground arith
ServeFault-panics host build c now now' (lost_bind_error e failed lost) =
    elim (Bool-cases (leb c.execution_policy.max_in_flight host.max_permits)) [
      | inl k ↦ ground (arith, k, failed, lost)
      | inr k ↦ ground (arith, k)
    ]
ServeFault-panics host build c now now' (log_fault bound fault) =
    let unlogged = InfoFault-log_start host build c.prove_auth c.addr fault in
    elim (Bool-cases (leb c.execution_policy.max_in_flight host.max_permits)) [
      | inl k ↦ ground (arith, k, bound, unlogged)
      | inr k ↦ ground (arith, k)
    ]

Asking-dispatch :
    (std : Std) (host : Host) (build : Build) (env : Env) (args : List (Option Text)) (now now' : ℕ)
    → Asking args
    → dispatch std host build env (second_arg args) now now' ≡ print_image_id host build
unfolding dispatch second_arg
Asking-dispatch std host build env [] now now' h = absurd h
Asking-dispatch std host build env (none ∷ args) now now' h = absurd h
Asking-dispatch std host build env (some name ∷ []) now now' h = absurd h
Asking-dispatch std host build env (some name ∷ none ∷ args) now now' h = absurd h
Asking-dispatch std host build env (some name ∷ some a ∷ args) now now' h = rw h refl

IsUnreadable-second_arg : (args : List (Option Text)) → IsUnreadable args → second_arg args ≡ none
unfolding second_arg
IsUnreadable-second_arg _ bad_name = refl
IsUnreadable-second_arg _ bad_argument = refl

MainFault-panics :
    (std : Std) (host : Host) (build : Build) (env : Env) (args : List (Option Text)) (now now' : ℕ)
    → MainFault std host build env args
    → dispatch std host build env (second_arg args) now now' ≡ panics
unfolding dispatch print_image_id print_line configured exit_with
MainFault-panics std host build env args now now' (unreadable_argument e) =
    ap (λ a. dispatch std host build env a now now') (IsUnreadable-second_arg args e)
MainFault-panics std host build env args now now' (underivable_id asks e) =
    Asking-dispatch std host build env args now now' asks ∙ ground (arith, e)
MainFault-panics std host build env args now now' (lost_image_id id asks e lost) =
    Asking-dispatch std host build env args now now' asks ∙ ground (arith, e, lost)
MainFault-panics std host build env args now now' (lost_config_error m s e lost) =
    dispatch-configured std host build env args now now' s
    ∙ ap (configured host build now now') e
    ∙ ground (arith, lost)
MainFault-panics std host build env args now now' (serve_fault c s accepted fault) =
    dispatch-configured std host build env args now now' s
    ∙ ap (configured host build now now') ((runtime_config_iff std env c).1 accepted)
    ∙ ServeFault-panics host build c now now' fault

-- With a parser of addresses that does not panic, the process panics before `serve` exactly when the
-- runtime cannot be built or there is one of these faults: the program's name or the argument after
-- it is not Unicode; with the argument `image-id`, the id cannot be derived or written; otherwise, an
-- error of the configuration cannot be written, or there is a configuration and it asks for more
-- proofs in flight than a semaphore has permits, or the error of its bind cannot be written, or one
-- of the log lines after its bind panics.
pub launch_panics_iff :
    (std : Std) (host : Host) (build : Build) (env : Env) (args : List (Option Text)) (now now' : ℕ)
    → ((t : Text) → std.parse_ip_addr t ≢ panic)
    → (launch std host build env args now now' ≡ panics)
      ↔ ((host.runtime_builds ≡ false) ⊎ MainFault std host build env args)
unfolding launch
launch_panics_iff std host build env args now now' parses = (
  λ h. elim (Bool-cases host.runtime_builds) [
    | inl b ↦ inr (
        dispatch-panics std host build env args now now' (runtime_config-no_panic std env parses)
          (ground (arith, b, h)))
    | inr b ↦ inl b
  ],
  λ f. elim (Bool-cases host.runtime_builds) [
    | inr b ↦ ground (arith, b)
    | inl b ↦ elim f [
      | inl e ↦ ground (arith, e)
      | inr k ↦
          (let p = MainFault-panics std host build env args now now' k in ground (arith, b, p))
    ]
  ],
)
