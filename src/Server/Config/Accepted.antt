-- ===== src/Server/Config/Accepted.antt =====
-- The environments with which server/src/main.rs should start, and the configurations they ask for.

use agenc_prover.Base.{ℕ, ◌≤◌, ◌≡◌, ◌≢◌, ◌⊎◌, true, false, [], Text, text, ok, IsNumeral}
use agenc_prover.Server.Auth.{ProveAuth, disabled, api_key, IpAddr, is_loopback, trim}
use agenc_prover.Server.RateLimit.{from_secs}
use agenc_prover.Server.Runtime.{ExecutionPolicy}
use agenc_prover.Server.Config.{
  EnvVar, present, Env, Std, RuntimeConfig, or_default, u16_max, prover_host_env, prover_port_env,
  prover_api_key_env, prover_local_dev_mode_env, prover_max_in_flight_env,
  prover_request_timeout_secs_env, prover_rate_limit_max_requests_env,
  prover_rate_limit_window_secs_env, default_prover_max_in_flight,
  default_prover_request_timeout_secs, default_prover_rate_limit_max_requests,
  default_prover_rate_limit_window_secs,
}
use agenc_prover.Server.Config.Settings.{IsSwitch, IsSetting}

-- The key is the variable's value without the whitespace around it, and is not empty.
abbrev pub IsKey : EnvVar → Text → Type 0
IsKey var k = (v : Text) × (var ≡ present v) × (k ≡ trim v) × (k ≢ [])

-- No authentication in local development mode on a loopback address, and the key otherwise.
abbrev pub IsAuth : Env → IpAddr → ProveAuth → Type 0
IsAuth env ip auth =
    (IsSwitch (env prover_local_dev_mode_env) true × (is_loopback ip ≡ true) × (auth ≡ disabled))
    ⊎ (IsSwitch (env prover_local_dev_mode_env) false
        × ((k : Text) × IsKey (env prover_api_key_env) k × (auth ≡ api_key k)))

-- The policy holds the four settings.
pub record IsPolicy (env : Env) (p : ExecutionPolicy) : Type 0 where
  pub timeout : ℕ
  pub window : ℕ
  pub max_in_flight :
      IsSetting (env prover_max_in_flight_env) default_prover_max_in_flight p.max_in_flight
  pub request_timeout :
      IsSetting (env prover_request_timeout_secs_env) default_prover_request_timeout_secs timeout
  pub max_requests :
      IsSetting
        (env prover_rate_limit_max_requests_env)
        default_prover_rate_limit_max_requests
        p.rate_limit.max_requests
  pub rate_window :
      IsSetting (env prover_rate_limit_window_secs_env) default_prover_rate_limit_window_secs window
  pub timeout_seconds : p.request_timeout ≡ from_secs timeout
  pub window_seconds : p.rate_limit.window ≡ from_secs window

-- The configuration that an environment asks for: the address, the port, the
-- authentication and the policy.
pub record IsConfig (std : Std) (env : Env) (c : RuntimeConfig) : Type 0 where
  pub host : std.parse_ip_addr (or_default (env prover_host_env) (text "127.0.0.1")) ≡ ok c.addr.ip
  pub port : IsNumeral (or_default (env prover_port_env) (text "8787")) c.addr.port
  pub port_fits : c.addr.port ≤ u16_max
  pub auth : IsAuth env c.addr.ip c.prove_auth
  pub policy : IsPolicy env c.execution_policy
