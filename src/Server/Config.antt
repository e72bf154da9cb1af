-- ===== src/Server/Config.antt =====
-- server/src/main.rs: the configuration that the environment variables give.
pub mod Settings
pub mod Accepted
pub mod Startup
pub mod Total
use agenc_prover.Base.{
  ℕ, ◌-◌, ◌^◌, ◌≤◌, ◌<◌, Bool, true, false, ◌||◌, List, [], ◌∷◌, ◌++◌, map, Option, none, some,
  Text, text, Result, ok, err, map_err, ◌>>=◌, ◌>>◌, list_eq, ◌==◌, if◌then◌else◌, parse_unsigned,
  display_parse_int_error,
}
use agenc_prover.Server.Auth.{
  ProveAuth, IpAddr, resolve_prove_auth, configured_key, trim, to_ascii_lowercase,
}
use agenc_prover.Server.Runtime.{ExecutionPolicy, resolve_execution_policy}

abbrev pub prover_host_env : Text
prover_host_env = text "PROVER_HOST"

abbrev pub prover_port_env : Text
prover_port_env = text "PROVER_PORT"

abbrev pub prover_api_key_env : Text
prover_api_key_env = text "PROVER_API_KEY"

abbrev pub prover_local_dev_mode_env : Text
prover_local_dev_mode_env = text "PROVER_LOCAL_DEV_MODE"

abbrev pub prover_max_in_flight_env : Text
prover_max_in_flight_env = text "PROVER_MAX_IN_FLIGHT"

abbrev pub prover_request_timeout_secs_env : Text
prover_request_timeout_secs_env = text "PROVER_REQUEST_TIMEOUT_SECS"

abbrev pub prover_rate_limit_max_requests_env : Text
prover_rate_limit_max_requests_env = text "PROVER_RATE_LIMIT_MAX_REQUESTS"

abbrev pub prover_rate_limit_window_secs_env : Text
prover_rate_limit_window_secs_env = text "PROVER_RATE_LIMIT_WINDOW_SECS"

abbrev pub default_prover_max_in_flight : ℕ
default_prover_max_in_flight = 1

abbrev pub default_prover_request_timeout_secs : ℕ
default_prover_request_timeout_secs = 900

abbrev pub default_prover_rate_limit_max_requests : ℕ
default_prover_rate_limit_max_requests = 10

abbrev pub default_prover_rate_limit_window_secs : ℕ
default_prover_rate_limit_window_secs = 60

-- The greatest `u16`, and the greatest `u64` and 64-bit `usize`.
abbrev pub u16_max : ℕ
u16_max = 2 ^ 16 - 1

abbrev pub u64_max : ℕ
u64_max = 2 ^ 64 - 1

-- What `env::var` returns for a name.
pub data EnvVar : Type 0 where
  present : Text → EnvVar
  not_present not_unicode : EnvVar

abbrev pub Env : Type 0
Env = Text → EnvVar

-- What the code uses of the standard library's texts beyond integers: `parse::<IpAddr>()` with the
-- `Display` of its error, and the debug form `{:?}` of a text.
pub record Std : Type 0 where
  pub parse_ip_addr : Text → Result IpAddr Text
  pub debug : Text → Text

pub record SocketAddr : Type 0 where
  pub ip : IpAddr
  pub port : ℕ

pub record RuntimeConfig : Type 0 where
  pub addr : SocketAddr
  pub prove_auth : ProveAuth
  pub execution_policy : ExecutionPolicy

-- `unwrap_or_else(|_| default)`: also for a value that is no text.
abbrev pub or_default : EnvVar → Text → Text
or_default (present value) default = value
or_default not_present default = default
or_default not_unicode default = default

-- `.ok()`.
abbrev pub value_of : EnvVar → Option Text
value_of (present value) = some value
value_of not_present = none
value_of not_unicode = none

unfoldable pub one_of : Text → List Text → Bool
one_of value [] = false
one_of value (t ∷ ts) = list_eq value t || one_of value ts

abbrev pub true_words : List Text
true_words = text "1" ∷ text "true" ∷ text "yes" ∷ text "on" ∷ []

abbrev pub false_words : List Text
false_words = text "0" ∷ text "false" ∷ text "no" ∷ text "off" ∷ []

not_utf8 : Text → Text
not_utf8 name = name ++ text " must be valid UTF-8"

module _ (std : Std) where
  open std use {parse_ip_addr, debug}

  unfoldable pub read_bool : Text → Text → Result Bool Text
  unfolding one_of
  read_bool name value =
      if one_of value true_words
      then ok true
      else if one_of value false_words
      then ok false
      else err (
          text "invalid " ++ (name ++ (text " value " ++ (debug value ++ text "; use true/false"))))

  unfoldable pub env_bool : Text → EnvVar → Result Bool Text
  unfolding not_utf8
  env_bool name (present value) = read_bool name (map to_ascii_lowercase (trim value))
  env_bool name not_present = ok false
  env_bool name not_unicode = err (not_utf8 name)

  unfoldable pub read_nonzero : Text → Text → Result ℕ Text
  read_nonzero name value = do
    parsed ← map_err (parse_unsigned u64_max (trim value)) (λ e.
        text "invalid "
        ++ (name ++ (text " value " ++ (debug value ++ (text ": " ++ display_parse_int_error e)))))
    if parsed == 0 then err (name ++ text " must be greater than zero") else ok parsed

  unfoldable pub env_nonzero : Text → EnvVar → ℕ → Result ℕ Text
  unfolding not_utf8
  env_nonzero name (present value) default = read_nonzero name value
  env_nonzero name not_present default = ok default
  env_nonzero name not_unicode default = err (not_utf8 name)

  module _ (env : Env) where
    unfoldable pub bind_addr : Result SocketAddr Text
    bind_addr = do
      let host = or_default (env prover_host_env) (text "127.0.0.1")
      let port = or_default (env prover_port_env) (text "8787")
      ip ←
          map_err (parse_ip_addr host)
            (λ e. text "invalid " ++ (prover_host_env ++ (text " " ++ (host ++ (text ": " ++ e)))))
      number ← map_err (parse_unsigned u16_max port) (λ e.
          text "invalid "
          ++ (prover_port_env ++ (text " " ++ (port ++ (text ": " ++ display_parse_int_error e)))))
      ok (record { ip = ip; port = number })

    unfoldable pub parse_env_bool : Text → Result Bool Text
    parse_env_bool name = env_bool name (env name)

    -- For `usize`, which has 64 bits.
    unfoldable pub parse_nonzero_usize_env : Text → ℕ → Result ℕ Text
    parse_nonzero_usize_env name default = env_nonzero name (env name) default

    unfoldable pub parse_nonzero_u64_env : Text → ℕ → Result ℕ Text
    parse_nonzero_u64_env name default = env_nonzero name (env name) default

    unfoldable pub execution_policy : Result ExecutionPolicy Text
    execution_policy = do
      max_in_flight ← parse_nonzero_usize_env prover_max_in_flight_env default_prover_max_in_flight
      request_timeout_secs ←
          parse_nonzero_u64_env prover_request_timeout_secs_env default_prover_request_timeout_secs
      rate_limit_max_requests ←
          parse_nonzero_usize_env prover_rate_limit_max_requests_env
            default_prover_rate_limit_max_requests
      rate_limit_window_secs ←
          parse_nonzero_u64_env prover_rate_limit_window_secs_env
            default_prover_rate_limit_window_secs
      ok (
          resolve_execution_policy max_in_flight request_timeout_secs rate_limit_max_requests
            rate_limit_window_secs)

    unfoldable pub runtime_config : Result RuntimeConfig Text
    runtime_config = do
      addr ← bind_addr
      local_dev_mode ← parse_env_bool prover_local_dev_mode_env
      let api_key = configured_key (value_of (env prover_api_key_env))
      prove_auth ← resolve_prove_auth addr.ip local_dev_mode api_key
      policy ← execution_policy
      ok (record { addr = addr; prove_auth = prove_auth; execution_policy = policy })
