-- ===== src/Server/Auth.antt =====
-- server/src/main.rs: who may call `/prove`.
pub mod Tokens
use agenc_prover.Base.Panics.{◌>>=◌}
use agenc_prover.Base.{
  ℕ, ◌+◌, Bool, true, false, not, ◌&&◌, ◌||◌, List, [], ◌∷◌, map, Option, none, some, Text, text,
  Result, ok, err, list_eq, ◌==◌, leb, if◌then◌else◌,
}
use agenc_prover.Server.Errors.{AppError, unauthorized}
use agenc_prover.Server.RateLimit.{RateLimitBucket, local_dev_bucket, protected_bucket}

pub data ProveAuth : Type 0 where
  disabled : ProveAuth
  api_key : Text → ProveAuth

-- `char::is_whitespace`: the property White_Space of Unicode.
unfoldable pub is_whitespace : ℕ → Bool
is_whitespace c =
    (leb 9 c && leb c 13)
    || c == 0x20
    || c == 0x85
    || c == 0xa0
    || c == 0x1680
    || (leb 0x2000 c && leb c 0x200a)
    || c == 0x2028
    || c == 0x2029
    || c == 0x202f
    || c == 0x205f
    || c == 0x3000

unfoldable pub trim_start : Text → Text
trim_start [] = []
trim_start (c ∷ s) = if is_whitespace c then trim_start s else c ∷ s

unfoldable pub is_empty : Text → Bool
is_empty [] = true
is_empty (c ∷ s) = false

unfoldable pub trim_end : Text → Text
trim_end [] = []
trim_end (c ∷ s) =
    let rest = trim_end s in if is_whitespace c && is_empty rest then [] else c ∷ rest

-- `str::trim`.
unfoldable pub trim : Text → Text
unfolding trim_start trim_end
trim s = trim_end (trim_start s)

unfoldable pub to_ascii_lowercase : ℕ → ℕ
to_ascii_lowercase c = if leb b'A' c && leb c b'Z' then c + 32 else c

unfoldable pub eq_ignore_ascii_case : Text → Text → Bool
eq_ignore_ascii_case s t = list_eq (map to_ascii_lowercase s) (map to_ascii_lowercase t)

-- `str::split_once(' ')`: what stands before and after the first space.
unfoldable pub split_once_space : Text → Option (Text × Text)
split_once_space [] = none
split_once_space (c ∷ s) =
    if c == 0x20
    then some ([], s)
    else (do (before, behind) ← split_once_space s; some (c ∷ before, behind))

-- `header` is `headers.get(AUTHORIZATION)?.to_str().ok()?`, `none` for a missing header or one
-- whose bytes are no text.
unfoldable pub extract_bearer_token : Option Text → Option Text
extract_bearer_token header = do
  value ← header
  (scheme, rest) ← split_once_space value
  if not (eq_ignore_ascii_case scheme (text "bearer"))
      then none
      else (let token = trim rest in if is_empty token then none else some token)

check_token : Text → Option Text → Result RateLimitBucket AppError
check_token expected none = err (unauthorized (text "missing bearer token for /prove"))
check_token expected (some candidate) =
    if list_eq candidate expected
    then ok protected_bucket
    else err (unauthorized (text "invalid API key"))

unfoldable pub authorize : ProveAuth → Option Text → Result RateLimitBucket AppError
unfolding check_token
authorize disabled header = ok local_dev_bucket
authorize (api_key expected) header = check_token expected (extract_bearer_token header)

-- `IpAddr`: the four bytes of an IPv4 address, or the eight segments of an IPv6 address.
pub data IpAddr : Type 0 where
  v4 : (a b c d : ℕ) → IpAddr
  v6 : (segments : List ℕ) → IpAddr

-- 127.0.0.0/8, and ::1.
unfoldable pub is_loopback : IpAddr → Bool
is_loopback (v4 a b c d) = a == 127
is_loopback (v6 segments) = list_eq segments (0 ∷ 0 ∷ 0 ∷ 0 ∷ 0 ∷ 0 ∷ 0 ∷ 1 ∷ [])

unfoldable pub resolve_prove_auth : IpAddr → Bool → Option Text → Result ProveAuth Text
resolve_prove_auth bind_ip true key =
    if not (is_loopback bind_ip)
    then err (text "PROVER_LOCAL_DEV_MODE=true is only allowed when PROVER_HOST is loopback")
    else ok disabled
resolve_prove_auth bind_ip false none =
    err (text "PROVER_API_KEY is required unless PROVER_LOCAL_DEV_MODE=true on loopback")
resolve_prove_auth bind_ip false (some key) = ok (api_key key)

unfoldable pub nonempty : Text → Option Text
nonempty value = if is_empty value then none else some value

-- The key that `runtime_config` reads from PROVER_API_KEY: trimmed, and absent when empty.
unfoldable pub configured_key : Option Text → Option Text
unfolding nonempty
configured_key env = do value ← env; nonempty (trim value)
