-- ===== src/Server/Config/Total.antt =====
-- Where reading the configuration of server/src/main.rs could panic.
use agenc_prover.Base.{
  ℕ, ◌≢◌, Bool, Option, Text, panic, map_err, >>=-no_panic, map_err-no_panic, parse_unsigned,
  parse_unsigned-no_panic, arith,
}
use agenc_prover.Server.Auth.{IpAddr, resolve_prove_auth, trim}
use agenc_prover.Server.Config.{
  EnvVar, present, not_present, not_unicode, Env, Std, u16_max, u64_max, read_bool, env_bool,
  read_nonzero, env_nonzero, bind_addr, parse_env_bool, parse_nonzero_usize_env,
  parse_nonzero_u64_env, execution_policy, runtime_config,
}

resolve_prove_auth-no_panic :
    (ip : IpAddr) (b : Bool) (key : Option Text) → resolve_prove_auth ip b key ≢ panic
unfolding resolve_prove_auth
resolve_prove_auth-no_panic ip b key = λ h. ground (arith, h)

module _ (std : Std) where
  env_bool-no_panic : (name : Text) (var : EnvVar) → env_bool std name var ≢ panic
  unfolding env_bool read_bool
  env_bool-no_panic name var = λ h. ground (arith, h)

  read_nonzero-no_panic : (name value : Text) → read_nonzero std name value ≢ panic
  unfolding read_nonzero
  read_nonzero-no_panic name value =
      >>=-no_panic (map_err (parse_unsigned u64_max (trim value)) _) _
        (map_err-no_panic _ _ (parse_unsigned-no_panic u64_max (trim value)))
        (λ n h. ground (arith, h))

  env_nonzero-no_panic :
      (name : Text) (var : EnvVar) (default : ℕ) → env_nonzero std name var default ≢ panic
  unfolding env_nonzero
  env_nonzero-no_panic name (present value) default = read_nonzero-no_panic name value
  env_nonzero-no_panic name not_present default = λ h. cc h
  env_nonzero-no_panic name not_unicode default = λ h. cc h

  module _ (env : Env) (parses : (t : Text) → std.parse_ip_addr t ≢ panic) where
    bind_addr-no_panic : bind_addr std env ≢ panic
    unfolding bind_addr
    bind_addr-no_panic =
        >>=-no_panic (map_err (std.parse_ip_addr _) _) _ (map_err-no_panic _ _ (parses _)) (λ ip.
          >>=-no_panic (map_err (parse_unsigned u16_max _) _) _
            (map_err-no_panic _ _ (parse_unsigned-no_panic u16_max _)) (λ n h. cc h))

    execution_policy-no_panic : execution_policy std env ≢ panic
    unfolding execution_policy parse_nonzero_usize_env parse_nonzero_u64_env
    execution_policy-no_panic =
        >>=-no_panic (env_nonzero std _ _ _) _ (env_nonzero-no_panic _ _ _) (λ a.
          >>=-no_panic (env_nonzero std _ _ _) _ (env_nonzero-no_panic _ _ _) (λ b.
            >>=-no_panic (env_nonzero std _ _ _) _ (env_nonzero-no_panic _ _ _) (λ c.
              >>=-no_panic (env_nonzero std _ _ _) _ (env_nonzero-no_panic _ _ _) (λ d h. cc h))))

    pub runtime_config-no_panic : runtime_config std env ≢ panic
    unfolding runtime_config parse_env_bool
    runtime_config-no_panic = >>=-no_panic (bind_addr std env) _ bind_addr-no_panic (λ addr.
        >>=-no_panic (env_bool std _ _) _ (env_bool-no_panic _ _) (λ b.
          >>=-no_panic (resolve_prove_auth addr.ip b _) _ (resolve_prove_auth-no_panic addr.ip b _)
            (λ auth.
              >>=-no_panic (execution_policy std env) _ execution_policy-no_panic
                (λ policy h. cc h))))
