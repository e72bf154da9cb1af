-- ===== src/Server/Auth/Tokens.antt =====
-- Which requests `authorize` of server/src/main.rs lets through, and which configurations start.
use mathlib.Core.Path.{subst}
use agenc_prover.Base.{
  ◌≡◌, ◌≢◌, refl, sym, ap, ap₂, ◌∙◌, ◌↔◌, ◌⊎◌, inl, inr, Bool-cases, Option-cases, Bool, true,
  false, not, [], ◌∷◌, ◌++◌, Option, none, some, Text, text, ok, list_eq, list_eq_iff, ◌==◌, arith,
  map, All, if◌then◌else◌, ok_inj, ==_iff, length, ◌≤◌,
}
use agenc_prover.Server.RateLimit.{RateLimitBucket, local_dev_bucket, protected_bucket}
use agenc_prover.Server.Auth.{
  ProveAuth, disabled, api_key, is_whitespace, trim_start, trim_end, is_empty, trim,
  eq_ignore_ascii_case, split_once_space, extract_bearer_token, check_token, authorize, IpAddr,
  is_loopback, resolve_prove_auth, configured_key, to_ascii_lowercase,
}

trim_start_idem : (s : Text) → trim_start (trim_start s) ≡ trim_start s
unfolding trim_start
trim_start_idem [] = refl
trim_start_idem (c ∷ s) = ground (arith, trim_start_idem s)

trim_end_idem : (s : Text) → trim_end (trim_end s) ≡ trim_end s
unfolding trim_end is_empty
trim_end_idem [] = refl
trim_end_idem (c ∷ s) = ground (arith, trim_end_idem s)

length-trim_start : (s : Text) → length (trim_start s) ≤ length s
unfolding trim_start
length-trim_start [] = omega arith
length-trim_start (c ∷ s) = ground (arith, length-trim_start s)

-- A text that begins with no whitespace keeps its start when its end is trimmed.
trim_start-trim_end : (s : Text) → trim_start s ≡ s → trim_start (trim_end s) ≡ trim_end s
unfolding trim_start trim_end is_empty
trim_start-trim_end [] h = refl
trim_start-trim_end (c ∷ s) h = elim (Bool-cases (is_whitespace c)) [
  | inl w ↦ absurd (omega (arith, ap length (rw w at h), length-trim_start s))
  | inr n ↦ rw (n, n)
]

pub trim_idem : (s : Text) → trim (trim s) ≡ trim s
unfolding trim
trim_idem s =
    ap trim_end (trim_start-trim_end (trim_start s) (trim_start_idem s))
    ∙ trim_end_idem (trim_start s)

check_token_iff :
    (key : Text) (token : Option Text) (bucket : RateLimitBucket)
    → (check_token key token ≡ ok bucket) ↔ ((token ≡ some key) × (bucket ≡ protected_bucket))
unfolding check_token
check_token_iff key none bucket = (λ h. cc, λ h. cc h.0)
check_token_iff key (some t) bucket =
    (λ h. ground (arith, list_eq_iff t key), λ h. ground (arith, list_eq_iff t key))

-- `authorize` with a key accepts exactly the headers whose bearer token is that key, and counts
-- them in the protected bucket; with authentication disabled it accepts every request.
pub authorize_iff :
    (key : Text) (header : Option Text) (bucket : RateLimitBucket)
    → ((authorize (api_key key) header ≡ ok bucket)
        ↔ ((extract_bearer_token header ≡ some key) × (bucket ≡ protected_bucket)))
      × (authorize disabled header ≡ ok local_dev_bucket)
unfolding authorize
authorize_iff key header bucket = (check_token_iff key (extract_bearer_token header) bucket, refl)

-- A header value is a scheme with no space, a space, and a rest; the scheme is "bearer" in any
-- case, and the token is the trimmed rest, which is not empty.
pub record IsBearer (value token : Text) : Type 0 where
  pub scheme : Text
  pub rest : Text
  pub parts : value ≡ scheme ++ 0x20 ∷ rest
  pub no_space : All (λ c. c ≢ 0x20) scheme
  pub bearer : map to_ascii_lowercase scheme ≡ map to_ascii_lowercase (text "bearer")
  pub trimmed : token ≡ trim rest
  pub nonempty_token : token ≢ []

split_once_space_sound :
    (s scheme rest : Text)
    → split_once_space s ≡ some (scheme, rest)
    → (s ≡ scheme ++ 0x20 ∷ rest) × All (λ c. c ≢ 0x20) scheme
unfolding split_once_space
split_once_space_sound [] scheme rest h = cc
split_once_space_sound (c ∷ s) scheme rest h = elim (Bool-cases (c == 0x20)) [
  | inl e ↦
      let found : some ([], s) ≡ some (scheme, rest) = rw e at h in
      let same : [] ≡ scheme = cc found in
      (ground (arith, found, e), subst (All (λ c. c ≢ 0x20)) same tt)
  | inr e ↦ elim (Option-cases (split_once_space s)) [
    | inl n ↦ absurd (ground (arith, n, e, h))
    | inr ((before, behind), f) ↦
        let (parts, free) = split_once_space_sound s before behind f in
        let same : c ∷ before ≡ scheme = ground (arith, f, e, h) in
        let same' : behind ≡ rest = ground (arith, f, e, h) in
        (
          ap (◌∷◌ c) parts ∙ ap₂ (λ u v. u ++ 0x20 ∷ v) same same',
          subst (All (λ c. c ≢ 0x20)) same (λ q. cc (e, (==_iff c 0x20).1 q), free),
        )
  ]
]

split_once_space_complete :
    (scheme rest : Text)
    → All (λ c. c ≢ 0x20) scheme
    → split_once_space (scheme ++ 0x20 ∷ rest) ≡ some (scheme, rest)
unfolding split_once_space
split_once_space_complete [] rest h = refl
split_once_space_complete (c ∷ scheme) rest h =
    ground (arith, split_once_space_complete scheme rest h.1)

-- What stands behind the split.
abbrev token_of : Text → Text → Option Text
token_of scheme rest =
    if not (eq_ignore_ascii_case scheme (text "bearer"))
    then none
    else (let token = trim rest in if is_empty token then none else some token)

is_empty_iff : (s : Text) → (is_empty s ≡ true) ↔ (s ≡ [])
unfolding is_empty
is_empty_iff [] = (λ _. refl, λ _. refl)
is_empty_iff (c ∷ s) = (λ h. cc, λ h. cc)

token_facts :
    (scheme rest token : Text)
    → token_of scheme rest ≡ some token
    → (map to_ascii_lowercase scheme ≡ map to_ascii_lowercase (text "bearer"))
      × (token ≡ trim rest)
      × (token ≢ [])
unfolding eq_ignore_ascii_case
token_facts scheme rest token h = ground (
  arith,
  list_eq_iff (map to_ascii_lowercase scheme) (map to_ascii_lowercase (text "bearer")),
  is_empty_iff (trim rest),
)

token_found :
    (scheme rest token : Text)
    → map to_ascii_lowercase scheme ≡ map to_ascii_lowercase (text "bearer")
    → token ≡ trim rest
    → token ≢ []
    → token_of scheme rest ≡ some token
unfolding eq_ignore_ascii_case
token_found scheme rest token b t n = ground (
  arith,
  list_eq_iff (map to_ascii_lowercase scheme) (map to_ascii_lowercase (text "bearer")),
  is_empty_iff (trim rest),
)

-- A header value carries a bearer token exactly when it is a scheme without a space, a space and a
-- rest, the scheme is "bearer" in any case, and the token is the trimmed rest and is not empty.
pub extract_bearer_token_iff :
    (value token : Text) → (extract_bearer_token (some value) ≡ some token) ↔ IsBearer value token
unfolding extract_bearer_token
extract_bearer_token_iff value token = (there, back)
  where
    there : extract_bearer_token (some value) ≡ some token → IsBearer value token
    there h = elim (Option-cases (split_once_space value)) [
      | inl n ↦ absurd (ground (arith, n, h))
      | inr ((scheme, rest), e) ↦
          let (parts, free) = split_once_space_sound value scheme rest e in
          let (cased, same, full) = token_facts scheme rest token (rw e at h) in
          record {
            scheme = scheme;
            rest = rest;
            parts = parts;
            no_space = free;
            bearer = cased;
            trimmed = same;
            nonempty_token = full;
          }
    ]

    back : IsBearer value token → extract_bearer_token (some value) ≡ some token
    back b =
        rw (b.parts, split_once_space_complete b.scheme b.rest b.no_space)
          (token_found b.scheme b.rest token b.bearer b.trimmed b.nonempty_token)

bearer_header :
    (key : Text)
    → trim key ≡ key
    → key ≢ []
    → extract_bearer_token (some (text "Bearer " ++ key)) ≡ some key
unfolding extract_bearer_token split_once_space text eq_ignore_ascii_case to_ascii_lowercase list_eq
    is_empty
bearer_header [] t n = absurd (n refl)
bearer_header (c ∷ key) t n = rw t

configured_key_trimmed :
    (env : Option Text) {key : Text} → configured_key env ≡ some key → (trim key ≡ key) × (key ≢ [])
unfolding configured_key
configured_key_trimmed none h = cc
configured_key_trimmed (some value) {key} h =
    let same : trim value ≡ key = ground (arith, is_empty_iff (trim value)) in
    (ap trim (sym same) ∙ trim_idem value ∙ same, ground (arith, is_empty_iff (trim value)))

-- A client that sends "Bearer " and the configured key is let in, however the variable was padded.
pub configured_key_authorizes :
    (env : Option Text) (key : Text)
    → configured_key env ≡ some key
    → authorize (api_key key) (some (text "Bearer " ++ key)) ≡ ok protected_bucket
configured_key_authorizes env key h =
    let (t, n) = configured_key_trimmed env h in
    (authorize_iff key (some (text "Bearer " ++ key)) protected_bucket).0.1
      (bearer_header key t n, refl)

-- The service starts without authentication only in local development mode on a loopback address,
-- and outside that mode only with a key.
pub resolve_prove_auth_iff :
    (ip : IpAddr) (local_dev : Bool) (key : Option Text) (auth : ProveAuth)
    → (resolve_prove_auth ip local_dev key ≡ ok auth) ↔ (
        ((local_dev ≡ true) × (is_loopback ip ≡ true) × (auth ≡ disabled))
        ⊎ ((local_dev ≡ false) × ((k : Text) × (key ≡ some k) × (auth ≡ api_key k))))
unfolding resolve_prove_auth
resolve_prove_auth_iff ip true key auth = (λ h. ground arith, λ h. ground arith)
resolve_prove_auth_iff ip false none auth = (λ h. cc, λ h. ground arith)
resolve_prove_auth_iff ip false (some k) auth =
    (λ h. inr (refl, (k, refl, sym (ok_inj h))), λ h. ground arith)
