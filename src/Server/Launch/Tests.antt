-- ===== src/Server/Launch/Tests.antt =====
-- The start of server/src/main.rs in sample environments.
use agenc_prover.Base.{
  Text, ◌≢◌, ◌⊎◌, inr, true, false, List, [], ◌∷◌, Option, some, panic, ℕ, ◌^◌, ◌-◌, ◌≡◌, ◌↔◌, refl,
  ◌++◌, none, text, ok, err, list_eq, if◌then◌else◌, arith, parse_unsigned,
}
use agenc_prover.Prover.Generate.{default_build}
use agenc_prover.Server.Auth.{
  disabled, v4, resolve_prove_auth, is_loopback, configured_key, trim, trim_start, trim_end,
  is_whitespace, is_empty, nonempty, to_ascii_lowercase,
}
use agenc_prover.Server.Runtime.{resolve_execution_policy}
use agenc_prover.Server.Service.{start}
use agenc_prover.Server.Config.{
  Env, present, not_present, Std, RuntimeConfig, prover_local_dev_mode_env,
  prover_max_in_flight_env, runtime_config, bind_addr, parse_env_bool, parse_nonzero_usize_env,
  parse_nonzero_u64_env, execution_policy, env_bool, read_bool, env_nonzero, read_nonzero, one_of,
}
use agenc_prover.Server.Config.Startup.{runtime_config_iff}
use agenc_prover.Server.Config.Accepted.{IsConfig}
use agenc_prover.Server.Launch.Outcomes.{launch_panics_iff}
use agenc_prover.Server.Launch.Faults.{MainFault, serve_fault, too_many_permits}
use agenc_prover.Server.Host.{Host}
use agenc_prover.Server.Launch.{second_arg, panics, serves, launch, IsLaunched, launch_serves_iff}

-- A library that reads one address.
abbrev one_address : Std
one_address = record {
  parse_ip_addr = λ s.
      if list_eq s (text "127.0.0.1")
      then ok (v4 127 0 0 1)
      else err (text "invalid IP address syntax");
  debug = λ s. text "\"" ++ (s ++ text "\"");
}

-- 64-bit tokio, a free port, and output that can be written.
abbrev machine : Host
machine = record {
  runtime_builds = true;
  max_permits = 2 ^ 61 - 1;
  display_addr = λ a. text "127.0.0.1:8787";
  bind = λ a. none;
  local_addr = λ a. true;
  takes_stdout = λ t. true;
  takes_stderr = λ t. true;
  info_enabled = λ line. true;
  info_written = λ line. true;
}

abbrev program : List (Option Text)
program = some (text "agenc-prover-server") ∷ []

abbrev local_env : Env
local_env name =
    if list_eq name prover_local_dev_mode_env then present (text " Yes ") else not_present

abbrev crowded_env : Env
crowded_env name =
    if list_eq name prover_max_in_flight_env
    then present (text "2305843009213693952")
    else local_env name

abbrev config_for : ℕ → RuntimeConfig
config_for n = record {
  addr = record { ip = v4 127 0 0 1; port = 8787 };
  prove_auth = disabled;
  execution_policy = resolve_execution_policy n 900 10 60;
}

runtime_config_iff_example :
    (runtime_config one_address local_env ≡ ok (config_for 1))
    ↔ IsConfig one_address local_env (config_for 1)
runtime_config_iff_example = runtime_config_iff one_address local_env (config_for 1)

launch_serves_iff_example :
    (launch one_address machine default_build local_env program 5 6
      ≡ serves (config_for 1).addr (start disabled (config_for 1).execution_policy 5 6))
    ↔ IsLaunched one_address machine default_build local_env 5 6
        (config_for 1).addr
        (start disabled (config_for 1).execution_policy 5 6)
unfolding second_arg
launch_serves_iff_example =
    launch_serves_iff one_address machine default_build local_env program 5 6 (config_for 1).addr
      (start disabled (config_for 1).execution_policy 5 6) tt

-- The defaults, and local development mode.
local_config : runtime_config one_address local_env ≡ ok (config_for 1)
unfolding runtime_config bind_addr parse_env_bool parse_nonzero_usize_env parse_nonzero_u64_env
    execution_policy env_bool read_bool env_nonzero read_nonzero one_of resolve_prove_auth
    is_loopback configured_key trim trim_start trim_end is_whitespace is_empty nonempty
    to_ascii_lowercase parse_unsigned list_eq text resolve_execution_policy
local_config = refl

crowded_config : runtime_config one_address crowded_env ≡ ok (config_for (2 ^ 61))
unfolding runtime_config bind_addr parse_env_bool parse_nonzero_usize_env parse_nonzero_u64_env
    execution_policy env_bool read_bool env_nonzero read_nonzero one_of resolve_prove_auth
    is_loopback configured_key trim trim_start trim_end is_whitespace is_empty nonempty
    to_ascii_lowercase parse_unsigned list_eq text resolve_execution_policy
crowded_config = refl

one_address-parses : (t : Text) → one_address.parse_ip_addr t ≢ panic
one_address-parses t = λ h. ground (arith, h)

launch_panics_iff_example :
    (launch one_address machine default_build crowded_env program 5 6 ≡ panics) ↔ (
      (machine.runtime_builds ≡ false)
      ⊎ MainFault one_address machine default_build crowded_env program)
launch_panics_iff_example =
    launch_panics_iff one_address machine default_build crowded_env program 5 6 one_address-parses

-- 2^61 proofs in flight are accepted, and are one more than tokio's semaphore takes.
crowded_panics : launch one_address machine default_build crowded_env program 5 6 ≡ panics
unfolding resolve_execution_policy second_arg
crowded_panics =
    (launch_panics_iff one_address machine default_build crowded_env program 5 6
        one_address-parses).1
      (inr (
        serve_fault (config_for (2 ^ 61)) tt
          ((runtime_config_iff one_address crowded_env (config_for (2 ^ 61))).0 crowded_config)
          (too_many_permits (omega arith))))
