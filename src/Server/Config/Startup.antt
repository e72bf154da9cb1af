-- ===== src/Server/Config/Startup.antt =====
-- Which environments `runtime_config` of server/src/main.rs accepts, and what it makes of them.
use mathlib.Core.Path.{subst}
use agenc_prover.Base.{
  ap₂, ℕ, ◌≡◌, ◌≢◌, ◌↔◌, inl, inr, refl, sym, ap, ◌∙◌, Bool, true, false, Option, some, [], ◌∷◌,
  Text, text, ok, map_err, map_err-eq-ok, ok_inj, >>=-eq-ok, parse_unsigned, parse_unsigned_iff,
}
use agenc_prover.Server.Auth.{
  ProveAuth, IpAddr, resolve_prove_auth, configured_key, nonempty, is_empty, trim,
}
use agenc_prover.Server.Auth.Tokens.{resolve_prove_auth_iff}
use agenc_prover.Server.RateLimit.{Duration}
use agenc_prover.Server.Runtime.{ExecutionPolicy, resolve_execution_policy}
use agenc_prover.Server.Config.{
  EnvVar, present, not_present, not_unicode, Env, Std, SocketAddr, RuntimeConfig, or_default,
  value_of, u16_max, prover_host_env, prover_port_env, prover_api_key_env,
  prover_local_dev_mode_env, prover_max_in_flight_env, prover_request_timeout_secs_env,
  prover_rate_limit_max_requests_env, prover_rate_limit_window_secs_env,
  default_prover_max_in_flight, default_prover_request_timeout_secs,
  default_prover_rate_limit_max_requests, default_prover_rate_limit_window_secs, env_bool,
  env_nonzero, bind_addr, parse_env_bool, parse_nonzero_usize_env, parse_nonzero_u64_env,
  execution_policy, runtime_config,
}
use agenc_prover.Server.Config.Settings.{IsSetting, env_bool_iff, env_nonzero_iff}
use agenc_prover.Server.Config.Accepted.{IsKey, IsAuth, IsPolicy, IsConfig}

nonempty_iff : (t k : Text) → (nonempty t ≡ some k) ↔ ((k ≡ t) × (k ≢ []))
unfolding nonempty is_empty
nonempty_iff [] k = (λ h. cc h, λ h. absurd (h.1 h.0))
nonempty_iff (c ∷ t) k = (λ h. (cc h, λ z. cc (h, z)), λ h. cc (h.0))

configured_key_iff :
    (var : EnvVar) (k : Text) → (configured_key (value_of var) ≡ some k) ↔ IsKey var k
unfolding configured_key
configured_key_iff (present v) k = (
  λ h. (let (e, n) = (nonempty_iff (trim v) k).0 h in (v, refl, e, n)),
  λ (w, e, same, n).
      (nonempty_iff (trim v) k).1 (same ∙ ap (λ x. trim (or_default x [])) (sym e), n),
)
configured_key_iff not_present k = (λ h. cc h, λ h. cc (h.1))
configured_key_iff not_unicode k = (λ h. cc h, λ h. cc (h.1))

module _ (std : Std) (env : Env) where
  settings-IsPolicy :
      (a b c d : ℕ)
      → IsSetting (env prover_max_in_flight_env) default_prover_max_in_flight a
      → IsSetting (env prover_request_timeout_secs_env) default_prover_request_timeout_secs b
      → IsSetting (env prover_rate_limit_max_requests_env) default_prover_rate_limit_max_requests c
      → IsSetting (env prover_rate_limit_window_secs_env) default_prover_rate_limit_window_secs d
      → IsPolicy env (resolve_execution_policy a b c d)
  unfolding resolve_execution_policy
  settings-IsPolicy a b c d ha hb hc hd = record {
    timeout = b;
    window = d;
    max_in_flight = ha;
    request_timeout = hb;
    max_requests = hc;
    rate_window = hd;
    timeout_seconds = refl;
    window_seconds = refl;
  }

  execution_policy-IsPolicy :
      (p : ExecutionPolicy) → execution_policy std env ≡ ok p → IsPolicy env p
  unfolding execution_policy parse_nonzero_usize_env parse_nonzero_u64_env
  execution_policy-IsPolicy p h =
      let (a, ea, h1) = >>=-eq-ok (env_nonzero std _ _ _) _ h in
      let (b, eb, h2) = >>=-eq-ok (env_nonzero std _ _ _) _ h1 in
      let (c, ec, h3) = >>=-eq-ok (env_nonzero std _ _ _) _ h2 in
      let (d, ed, h4) = >>=-eq-ok (env_nonzero std _ _ _) _ h3 in
      subst (IsPolicy env) (ok_inj h4) (
        settings-IsPolicy a b c d ((env_nonzero_iff std _ _ _ a).0 ea)
          ((env_nonzero_iff std _ _ _ b).0 eb) ((env_nonzero_iff std _ _ _ c).0 ec)
          ((env_nonzero_iff std _ _ _ d).0 ed))

  policy_complete : (p : ExecutionPolicy) → IsPolicy env p → execution_policy std env ≡ ok p
  unfolding execution_policy parse_nonzero_usize_env parse_nonzero_u64_env resolve_execution_policy
  policy_complete p h =
      rw
        (
          (env_nonzero_iff std prover_max_in_flight_env _ _ _).1 h.max_in_flight,
          (env_nonzero_iff std prover_request_timeout_secs_env _ _ _).1 h.request_timeout,
          (env_nonzero_iff std prover_rate_limit_max_requests_env _ _ _).1 h.max_requests,
          (env_nonzero_iff std prover_rate_limit_window_secs_env _ _ _).1 h.rate_window,
        )
        (ap₂
          (λ (t w : Duration). ok (record {
            max_in_flight = p.max_in_flight;
            request_timeout = t;
            rate_limit = record { max_requests = p.rate_limit.max_requests; window = w };
          }))
          (sym h.timeout_seconds) (sym h.window_seconds))

  abbrev host : Text
  host = or_default (env prover_host_env) (text "127.0.0.1")

  abbrev port : Text
  port = or_default (env prover_port_env) (text "8787")

  bind_addr_sound :
      (a : SocketAddr)
      → bind_addr std env ≡ ok a
      → (std.parse_ip_addr host ≡ ok a.ip) × (parse_unsigned u16_max port ≡ ok a.port)
  unfolding bind_addr
  bind_addr_sound a h =
      let (ip, ei, h1) = >>=-eq-ok (map_err (std.parse_ip_addr host) _) _ h in
      let (n, en, h2) = >>=-eq-ok (map_err (parse_unsigned u16_max port) _) _ h1 in
      (
        map_err-eq-ok _ _ ei ∙ ap (λ x. ok x.ip) (ok_inj h2),
        map_err-eq-ok _ _ en ∙ ap (λ x. ok x.port) (ok_inj h2),
      )

  bind_addr_complete :
      (a : SocketAddr)
      → std.parse_ip_addr host ≡ ok a.ip
      → parse_unsigned u16_max port ≡ ok a.port
      → bind_addr std env ≡ ok a
  unfolding bind_addr
  bind_addr_complete a i p = rw (i, p) refl

  abbrev key : Option Text
  key = configured_key (value_of (env prover_api_key_env))

  resolve_prove_auth-IsAuth :
      (ip : IpAddr) (auth : ProveAuth) (b : Bool)
      → env_bool std prover_local_dev_mode_env (env prover_local_dev_mode_env) ≡ ok b
      → resolve_prove_auth ip b key ≡ ok auth
      → IsAuth env ip auth
  resolve_prove_auth-IsAuth ip auth true p r =
      elim ((resolve_prove_auth_iff ip true key auth).0 r) [
        | inl (_, loopback, open_to_all) ↦
            inl ((env_bool_iff std _ _ true).0 p, loopback, open_to_all)
        | inr (z, _) ↦ cc z
      ]
  resolve_prove_auth-IsAuth ip auth false p r =
      elim ((resolve_prove_auth_iff ip false key auth).0 r) [
        | inl (z, _, _) ↦ cc z
        | inr (_, (k, found, keyed)) ↦
            inr ((env_bool_iff std _ _ false).0 p, (k, (configured_key_iff _ k).0 found, keyed))
      ]

  auth_complete :
      (ip : IpAddr) (auth : ProveAuth)
      → IsAuth env ip auth
      → (b : Bool) × (env_bool std prover_local_dev_mode_env (env prover_local_dev_mode_env) ≡ ok b)
        × (resolve_prove_auth ip b key ≡ ok auth)
  auth_complete ip auth (inl (on, loopback, open_to_all)) = (
    true,
    (env_bool_iff std _ _ true).1 on,
    (resolve_prove_auth_iff ip true key auth).1 (inl (refl, loopback, open_to_all)),
  )
  auth_complete ip auth (inr (off, (k, found, keyed))) = (
    false,
    (env_bool_iff std _ _ false).1 off,
    (resolve_prove_auth_iff ip false key auth).1
        (inr (refl, (k, (configured_key_iff _ k).1 found, keyed))),
  )

  parts-IsConfig :
      (a : SocketAddr) (auth : ProveAuth) (p : ExecutionPolicy)
      → bind_addr std env ≡ ok a
      → IsAuth env a.ip auth
      → IsPolicy env p
      → IsConfig std env (record { addr = a; prove_auth = auth; execution_policy = p })
  parts-IsConfig a auth p ea ha hp =
      let (i, n) = bind_addr_sound a ea in
      let (numeral, fits) = (parse_unsigned_iff u16_max a.port port).0 n in
      record { host = i; port = numeral; port_fits = fits; auth = ha; policy = hp }

  runtime_config_sound : (c : RuntimeConfig) → runtime_config std env ≡ ok c → IsConfig std env c
  unfolding runtime_config parse_env_bool
  runtime_config_sound c h =
      let (a, ea, h1) = >>=-eq-ok (bind_addr std env) _ h in
      let (b, eb, h2) = >>=-eq-ok (env_bool std _ _) _ h1 in
      let (auth, eu, h3) = >>=-eq-ok (resolve_prove_auth a.ip b key) _ h2 in
      let (p, ep, h4) = >>=-eq-ok (execution_policy std env) _ h3 in
      subst (IsConfig std env) (ok_inj h4) (
        parts-IsConfig a auth p ea (resolve_prove_auth-IsAuth a.ip auth b eb eu)
          (execution_policy-IsPolicy p ep))

  runtime_config_complete : (c : RuntimeConfig) → IsConfig std env c → runtime_config std env ≡ ok c
  unfolding runtime_config parse_env_bool
  runtime_config_complete c h =
      let bound =
        bind_addr_complete c.addr h.host
          ((parse_unsigned_iff u16_max c.addr.port port).1 (h.port, h.port_fits)) in
      let (b, switched, resolved) = auth_complete c.addr.ip c.prove_auth h.auth in
      rw (bound, switched, resolved, policy_complete c.execution_policy h.policy) refl

-- `runtime_config` gives the configuration `c` exactly when the environment asks for it: the host
-- (127.0.0.1 when the variable is unset or not Unicode) is read as the address of `c`, the port (8787
-- likewise) is a numeral up to 65535, there is no authentication in local development mode on a
-- loopback address and a trimmed key that is not empty outside that mode, and the four numbers are
-- positive 64-bit numerals, or the defaults where their variables are unset.
pub runtime_config_iff :
    (std : Std) (env : Env) (c : RuntimeConfig)
    → (runtime_config std env ≡ ok c) ↔ IsConfig std env c
runtime_config_iff std env c = (runtime_config_sound std env c, runtime_config_complete std env c)
