-- ===== src/Server/Launch.antt =====
-- server/src/main.rs: `main`, as far as `serve`.
mod Tests
pub mod Faults
pub mod Outcomes
use agenc_prover.Base.{
  ℕ, ◌≤◌, ◌≡◌, ◌↔◌, inl, inr, refl, sym, ap, ap₂, ◌∙◌, Bool, true, false, Bool-cases, List, [], ◌∷◌,
  ◌++◌, Option, none, some, Option-cases, Text, text, Result, ok, err, panic, leb, list_eq,
  if◌then◌else◌, arith,
}
use agenc_prover.Prover.Generate.{Build, image_id}
use agenc_prover.Prover.Seal.{render_image_id}
use agenc_prover.Server.Config.{Std, Env, SocketAddr, RuntimeConfig, runtime_config}
use agenc_prover.Server.Config.Startup.{runtime_config_iff}
use agenc_prover.Server.Config.Accepted.{IsConfig}
use agenc_prover.Server.Host.{Host, log_start, InfoFault, log_start-InfoFault, InfoFault-log_start}
use agenc_prover.Server.Runtime.{AppState}
use agenc_prover.Server.Service.{start}

-- How `main` goes on: it prints and returns, exits with status 1 and a message, panics, or serves.
pub data Launch : Type 0 where
  prints : Text → Launch
  exits : Text → Launch
  panics : Launch
  serves : SocketAddr → AppState → Launch

-- `println!` before the return, and `eprintln!` before `exit(1)`.
print_line : Host → Text → Launch
print_line host line = if host.takes_stdout line then prints line else panics

exit_with : Host → Text → Launch
exit_with host message = if host.takes_stderr message then exits message else panics

print_image_id : Host → Build → Launch
print_image_id host build = elim (image_id build) [
  | none ↦ panics
  | some id ↦ print_line host (render_image_id id)
]

pub bind_message : Host → SocketAddr → Text → Text
bind_message host addr e = text "failed to bind " ++ (host.display_addr addr ++ (text ": " ++ e))

-- The listener, the log lines and `serve`.
bind_and_serve : Host → Build → SocketAddr → AppState → Launch
bind_and_serve host build addr state = elim (host.bind addr) [
  | none ↦ if log_start host build state.prove_auth addr then serves addr state else panics
  | some e ↦ exit_with host (bind_message host addr e)
]

-- `ProveRuntime::new` and what follows; `now` and `now'` are the clock of the two windows.
configured : Host → Build → (now now' : ℕ) → Result RuntimeConfig Text → Launch
configured host build now now' (ok runtime) =
    if leb runtime.execution_policy.max_in_flight host.max_permits
    then bind_and_serve host build runtime.addr
        (start runtime.prove_auth runtime.execution_policy now now')
    else panics
configured host build now now' (err message) = exit_with host message
configured host build now now' panic = panics

-- `env::args().nth(1)`. An argument that is not Unicode is `none` in the list, and `env::args`
-- panics when it comes to one; `none` is that panic.
unfoldable pub second_arg : List (Option Text) → Option (Option Text)
second_arg [] = some none
second_arg (none ∷ args) = none
second_arg (some name ∷ []) = some none
second_arg (some name ∷ none ∷ args) = none
second_arg (some name ∷ some arg ∷ args) = some (some arg)

-- `main` after `env::args().nth(1)`.
dispatch : Std → Host → Build → Env → (arg : Option (Option Text)) → (now now' : ℕ) → Launch
dispatch std host build env none now now' = panics
dispatch std host build env (some none) now now' =
    configured host build now now' (runtime_config std env)
dispatch std host build env (some (some arg)) now now' =
    if list_eq arg (text "image-id")
    then print_image_id host build
    else configured host build now now' (runtime_config std env)

-- `main`, with the runtime that `#[tokio::main]` builds before it.
unfoldable pub launch :
    Std → Host → Build → Env → (args : List (Option Text)) → (now now' : ℕ) → Launch
unfolding dispatch print_image_id print_line exit_with bind_message configured bind_and_serve
launch std host build env args now now' =
    if host.runtime_builds then dispatch std host build env (second_arg args) now now' else panics

-- The arguments can be read and do not ask for the image id.
abbrev pub Serving : List (Option Text) → Type 0
Serving [] = Unit {0}
Serving (none ∷ args) = ⊥
Serving (some name ∷ []) = Unit {0}
Serving (some name ∷ none ∷ args) = ⊥
Serving (some name ∷ some arg ∷ args) = list_eq arg (text "image-id") ≡ false

-- The configuration with which the service runs.
pub record IsLaunched (std : Std) (host : Host) (build : Build) (env : Env) (now now' : ℕ)
    (addr : SocketAddr) (s : AppState) : Type 0 where
  pub runtime_builds : host.runtime_builds ≡ true
  pub config : RuntimeConfig
  pub accepted : IsConfig std env config
  pub permits : config.execution_policy.max_in_flight ≤ host.max_permits
  pub bound : host.bind config.addr ≡ none
  pub logged : ¬ InfoFault host build config.prove_auth config.addr
  pub same_addr : addr ≡ config.addr
  pub fresh : s ≡ start config.prove_auth config.execution_policy now now'

bind_and_serve-serves :
    (host : Host) (build : Build) (c : RuntimeConfig) (now now' : ℕ) (addr : SocketAddr)
    (s : AppState)
    → bind_and_serve host build c.addr (start c.prove_auth c.execution_policy now now')
      ≡ serves addr s
    → (host.bind c.addr ≡ none)
      × (log_start host build c.prove_auth c.addr ≡ true)
      × (addr ≡ c.addr)
      × (s ≡ start c.prove_auth c.execution_policy now now')
unfolding bind_and_serve exit_with start
bind_and_serve-serves host build c now now' addr s h = elim (Option-cases (host.bind c.addr)) [
  | inl bound ↦ elim (Bool-cases (log_start host build c.prove_auth c.addr)) [
    | inl logged ↦
        (bound, logged, ground (arith, bound, logged, h), ground (arith, bound, logged, h))
    | inr e ↦ absurd (ground (arith, bound, e, h))
  ]
  | inr (m, failed) ↦ elim (Bool-cases (host.takes_stderr (bind_message host c.addr m))) [
    | inl e ↦ absurd (ground (arith, failed, e, h))
    | inr e ↦ absurd (ground (arith, failed, e, h))
  ]
]

configured-serves :
    (std : Std) (host : Host) (build : Build) (env : Env) (now now' : ℕ) (addr : SocketAddr)
    (s : AppState) (r : Result RuntimeConfig Text)
    → host.runtime_builds ≡ true
    → runtime_config std env ≡ r
    → configured host build now now' r ≡ serves addr s
    → IsLaunched std host build env now now' addr s
unfolding configured exit_with
configured-serves std host build env now now' addr s (ok c) b e h =
    elim (Bool-cases (leb c.execution_policy.max_in_flight host.max_permits)) [
      | inl fits ↦
          (let (bound, logged, same, fresh) =
              bind_and_serve-serves host build c now now' addr s (ground (arith, fits, h)) in
            record {
              runtime_builds = b;
              config = c;
              accepted = (runtime_config_iff std env c).0 e;
              permits = ground (arith, fits);
              bound = bound;
              logged = λ fault.
                  (let lost = InfoFault-log_start host build c.prove_auth c.addr fault in
                    ground (arith, lost, logged));
              same_addr = same;
              fresh = fresh;
            })
      | inr over ↦ absurd (ground (arith, over, h))
    ]
configured-serves std host build env now now' addr s (err m) b e h =
    elim (Bool-cases (host.takes_stderr m)) [
      | inl k ↦ absurd (ground (arith, k, h))
      | inr k ↦ absurd (ground (arith, k, h))
    ]
configured-serves std host build env now now' addr s panic b e h = cc h

not_false : (b : Bool) → ¬ (b ≡ false) → b ≡ true
not_false true h = refl
not_false false h = absurd (h refl)

configured_fits :
    (host : Host) (build : Build) (now now' : ℕ) (c : RuntimeConfig)
    → c.execution_policy.max_in_flight ≤ host.max_permits
    → host.bind c.addr ≡ none
    → log_start host build c.prove_auth c.addr ≡ true
    → configured host build now now' (ok c)
      ≡ serves c.addr (start c.prove_auth c.execution_policy now now')
unfolding configured bind_and_serve start
configured_fits host build now now' c h bound logged = ground arith

configured-IsLaunched :
    (std : Std) (host : Host) (build : Build) (env : Env) (now now' : ℕ) (addr : SocketAddr)
    (s : AppState)
    → IsLaunched std host build env now now' addr s
    → configured host build now now' (runtime_config std env) ≡ serves addr s
configured-IsLaunched std host build env now now' addr s h =
    ap (configured host build now now') ((runtime_config_iff std env h.config).1 h.accepted)
    ∙ configured_fits host build now now' h.config h.permits h.bound (
        not_false _
          (λ e. h.logged (log_start-InfoFault host build h.config.prove_auth h.config.addr e)))
    ∙ ap₂ serves (sym h.same_addr) (sym h.fresh)

dispatch-configured :
    (std : Std) (host : Host) (build : Build) (env : Env) (args : List (Option Text)) (now now' : ℕ)
    → Serving args
    → dispatch std host build env (second_arg args) now now'
      ≡ configured host build now now' (runtime_config std env)
unfolding dispatch second_arg
dispatch-configured std host build env [] now now' h = refl
dispatch-configured std host build env (none ∷ args) now now' h = absurd h
dispatch-configured std host build env (some name ∷ []) now now' h = refl
dispatch-configured std host build env (some name ∷ none ∷ args) now now' h = absurd h
dispatch-configured std host build env (some name ∷ some a ∷ args) now now' h = rw h refl

launch-configured :
    (std : Std) (host : Host) (build : Build) (env : Env) (args : List (Option Text)) (now now' : ℕ)
    → host.runtime_builds ≡ true
    → Serving args
    → launch std host build env args now now'
      ≡ configured host build now now' (runtime_config std env)
unfolding launch
launch-configured std host build env args now now' b h =
    ap (λ t. if t then dispatch std host build env (second_arg args) now now' else panics) b
    ∙ dispatch-configured std host build env args now now' h

launch-runtime_builds :
    (std : Std) (host : Host) (build : Build) (env : Env) (args : List (Option Text)) (now now' : ℕ)
    (addr : SocketAddr) (s : AppState)
    → launch std host build env args now now' ≡ serves addr s
    → host.runtime_builds ≡ true
unfolding launch
launch-runtime_builds std host build env args now now' addr s h =
    not_false _ (λ e. ground (arith, e, h))

-- With arguments that can be read and do not ask for the image id, the process serves exactly when
-- the runtime can be built, the environment gives a configuration, its number of proofs in flight is
-- a possible number of permits, its address can be bound, and no log line of the start panics; it
-- serves at that address, with a fresh state of that configuration.
pub launch_serves_iff :
    (std : Std) (host : Host) (build : Build) (env : Env) (args : List (Option Text)) (now now' : ℕ)
    (addr : SocketAddr) (s : AppState)
    → Serving args
    → (launch std host build env args now now' ≡ serves addr s)
      ↔ IsLaunched std host build env now now' addr s
launch_serves_iff std host build env args now now' addr s h = (
  λ e.
      (let b = launch-runtime_builds std host build env args now now' addr s e in
        configured-serves std host build env now now' addr s (runtime_config std env) b refl
          (sym (launch-configured std host build env args now now' b h) ∙ e)),
  λ l.
      launch-configured std host build env args now now' l.runtime_builds h
      ∙ configured-IsLaunched std host build env now now' addr s l,
)
