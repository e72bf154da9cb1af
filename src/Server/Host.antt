-- ===== src/Server/Host.antt =====
-- What `main` of server/src/main.rs uses of the machine, of tokio and of tracing, and its log lines.
use agenc_prover.Base.{
  ℕ, ◌≡◌, ◌⊎◌, inl, inr, refl, Bool, true, false, ◌&&◌, Bool-cases, Option, none, some, Text,
  if◌then◌else◌, arith,
}
use agenc_prover.Prover.Generate.{Build, image_id}
use agenc_prover.Server.Auth.{ProveAuth, disabled, api_key}
use agenc_prover.Server.Config.{SocketAddr}

-- The lines that `main` logs with `info!`.
pub data InfoLine : Type 0 where
  listening identity without_auth with_auth execution_limits : InfoLine

-- The runtime of `#[tokio::main]`, whose construction panics where `runtime_builds` is false; the
-- greatest number of permits, above which `Semaphore::new` panics; the `Display` of an address;
-- binding a listener, with its error; whether the listener's `local_addr` succeeds; whether a text
-- can be written to stdout and to stderr, without which `println!` and `eprintln!` panic; whether
-- the filter of the subscriber, which RUST_LOG sets, lets a line through; and whether the subscriber
-- then handles it without a panic.
pub record Host : Type 0 where
  pub runtime_builds : Bool
  pub max_permits : ℕ
  pub display_addr : SocketAddr → Text
  pub bind : SocketAddr → Option Text
  pub local_addr : SocketAddr → Bool
  pub takes_stdout : Text → Bool
  pub takes_stderr : Text → Bool
  pub info_enabled : InfoLine → Bool
  pub info_written : InfoLine → Bool

-- `info!` evaluates its values only where the line is enabled; false is a panic.
unfoldable pub info : Host → InfoLine → (evaluates : Bool) → Bool
info host line evaluates =
    if host.info_enabled line then evaluates && host.info_written line else true

unfoldable pub auth_line : ProveAuth → InfoLine
auth_line disabled = without_auth
auth_line (api_key key) = with_auth

unfoldable pub is_some {ℓ} : {A : Type ℓ} → Option A → Bool
is_some none = false
is_some (some a) = true

-- The lines between the bind and `serve`, with `listener.local_addr().unwrap()` and `image_id()`.
unfoldable pub log_start : Host → Build → ProveAuth → SocketAddr → Bool
log_start host build auth addr =
    info host listening (host.local_addr addr)
    && (info host identity (is_some (image_id build))
        && (info host (auth_line auth) true && info host execution_limits true))

pub data IsStartLine (auth : ProveAuth) : InfoLine → Type 0 where
  first_line : IsStartLine auth listening
  second_line : IsStartLine auth identity
  third_line : IsStartLine auth (auth_line auth)
  fourth_line : IsStartLine auth execution_limits

-- What can make the log lines panic.
pub data InfoFault (host : Host) (build : Build) (auth : ProveAuth) (addr : SocketAddr)
    : Type 0 where
  unnamed_listener :
      host.info_enabled listening ≡ true
      → host.local_addr addr ≡ false
      → InfoFault host build auth addr
  underivable_image_id :
      host.info_enabled identity ≡ true → image_id build ≡ none → InfoFault host build auth addr
  unwritten_line :
      (line : InfoLine)
      → IsStartLine auth line
      → host.info_enabled line ≡ true
      → host.info_written line ≡ false
      → InfoFault host build auth addr

info-false :
    (host : Host) (line : InfoLine) (b : Bool)
    → info host line b ≡ false
    → (host.info_enabled line ≡ true) × ((b ≡ false) ⊎ (host.info_written line ≡ false))
unfolding info
info-false host line b h = elim (Bool-cases (host.info_enabled line)) [
  | inl e ↦ (e, ground (arith, e, h))
  | inr e ↦ absurd (ground (arith, e, h))
]

info_line-InfoFault :
    (host : Host) (build : Build) (auth : ProveAuth) (addr : SocketAddr) (line : InfoLine)
    (b : Bool)
    → IsStartLine auth line
    → (host.info_enabled line ≡ true → b ≡ false → InfoFault host build auth addr)
    → info host line b ≡ false
    → InfoFault host build auth addr
info_line-InfoFault host build auth addr line b l f h =
    let (enabled, why) = info-false host line b h in
    elim why [ inl e ↦ f enabled e | inr e ↦ unwritten_line line l enabled e ]

is_some-false : {A : Type 0} (o : Option A) → is_some o ≡ false → o ≡ none
unfolding is_some
is_some-false none h = refl
is_some-false (some a) h = absurd (ground (arith, h))

pub log_start-InfoFault :
    (host : Host) (build : Build) (auth : ProveAuth) (addr : SocketAddr)
    → log_start host build auth addr ≡ false
    → InfoFault host build auth addr
unfolding log_start
log_start-InfoFault host build auth addr h =
    let from = info_line-InfoFault host build auth addr in
    elim (Bool-cases (info host listening (host.local_addr addr))) [
      | inr e ↦ from listening _ first_line (λ on b. unnamed_listener on b) e
      | inl a ↦ elim (Bool-cases (info host identity (is_some (image_id build)))) [
        | inr e ↦
            from identity _ second_line
              (λ on b. underivable_image_id on (is_some-false (image_id build) b)) e
        | inl b ↦ elim (Bool-cases (info host (auth_line auth) true)) [
          | inr e ↦ from (auth_line auth) true third_line (λ on b. absurd (ground (arith, b))) e
          | inl c ↦
              from execution_limits true fourth_line (λ on b. absurd (ground (arith, b)))
                (ground (arith, a, b, c, h))
        ]
      ]
    ]

unwritten-log_start :
    (host : Host) (build : Build) (auth : ProveAuth) (addr : SocketAddr) (line : InfoLine)
    → IsStartLine auth line
    → host.info_enabled line ≡ true
    → host.info_written line ≡ false
    → log_start host build auth addr ≡ false
unfolding log_start info
unwritten-log_start host build auth addr _ first_line on w = ground (arith, on, w)
unwritten-log_start host build auth addr _ second_line on w = ground (arith, on, w)
unwritten-log_start host build auth addr _ third_line on w = ground (arith, on, w)
unwritten-log_start host build auth addr _ fourth_line on w = ground (arith, on, w)

pub InfoFault-log_start :
    (host : Host) (build : Build) (auth : ProveAuth) (addr : SocketAddr)
    → InfoFault host build auth addr
    → log_start host build auth addr ≡ false
unfolding log_start info is_some
InfoFault-log_start host build auth addr (unnamed_listener on e) = ground (arith, on, e)
InfoFault-log_start host build auth addr (underivable_image_id on e) = ground (arith, on, e)
InfoFault-log_start host build auth addr (unwritten_line line l on w) =
    unwritten-log_start host build auth addr line l on w
