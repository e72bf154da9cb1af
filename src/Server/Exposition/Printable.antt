-- ===== src/Server/Exposition/Printable.antt =====
-- The lines of the metrics text of server/src/main.rs, family by family.
use agenc_prover.Base.{
  ℕ, ◌≡◌, refl, true, ◌⊎◌, List, [], ◌∷◌, ◌++◌, map, All, Text, text, decimal, IsDigit,
  decimal_digits, ◌<◌, arith,
}
use agenc_prover.Prover.Seal.{ImageId, render_image_id, join}
use agenc_prover.Server.Runtime.{ProveRuntime}
use agenc_prover.Server.Metrics.{Observability}
use agenc_prover.Server.Exposition.{
  Floats, single, build_info, policy_families, request_families, job_families,
}
use agenc_prover.Server.Exposition.Scrape.{without, append-without, begins, IsSample, IsPrintable}

abbrev pub IsFloatChar : ℕ → Type 0
IsFloatChar c = IsDigit c ⊎ (c ≡ b'.')

-- The texts that a value can be.
IsValue : Text → Type 0
IsValue v = (without 10 v ≡ true) × (without 0x20 v ≡ true)

float-IsValue : (s : Text) → All IsFloatChar s → IsValue s
unfolding IsValue
float-IsValue [] h = (refl, refl)
float-IsValue (c ∷ s) (h, hs) =
    let (a, b) = float-IsValue s hs in (ground (arith, h, a), ground (arith, h, b))

digits-without : (d : ℕ) (s : Text) → (d < b'0') → All IsDigit s → without d s ≡ true
digits-without d [] l h = refl
digits-without d (c ∷ s) l (h, hs) = ground (arith, digits-without d s l hs, h, l)

decimal-IsValue : (n : ℕ) → IsValue (decimal n)
unfolding IsValue
decimal-IsValue n = (
  digits-without 10 (decimal n) (omega arith) (decimal_digits n),
  digits-without 0x20 (decimal n) (omega arith) (decimal_digits n),
)

join-without :
    (ts : List Text) → All (λ t. without 10 t ≡ true) ts → without 10 (join (text ", ") ts) ≡ true
unfolding join text
join-without [] h = refl
join-without (t ∷ []) h = h.0
join-without (t ∷ u ∷ us) (h, hs) =
    append-without 10 (t ++ text ", ") (join (text ", ") (u ∷ us))
      (append-without 10 t (text ", ") h refl) (join-without (u ∷ us) hs)

decimals-without : (id : List ℕ) → All (λ t. without 10 t ≡ true) (map decimal id)
unfolding IsValue
decimals-without [] = tt
decimals-without (n ∷ id) = ((decimal-IsValue n).0, decimals-without id)

around-without :
    (before x y z after : Text)
    → without 10 before ≡ true
    → without 10 x ≡ true
    → without 10 y ≡ true
    → without 10 z ≡ true
    → without 10 after ≡ true
    → without 10 (before ++ (x ++ (y ++ (z ++ after)))) ≡ true
around-without before x y z after hb hx hy hz ha =
    append-without 10 before (x ++ (y ++ (z ++ after))) hb (
      append-without 10 x (y ++ (z ++ after)) hx
        (append-without 10 y (z ++ after) hy (append-without 10 z after hz ha)))

build_info-IsSample :
    (version : Text) (id : ImageId)
    → without 10 version ≡ true
    → IsSample (build_info version (render_image_id id), text "1")
unfolding build_info render_image_id text
build_info-IsSample version id h = (
  refl,
  around-without (text "agenc_prover_build_info{version=\"") version (text "\",image_id=\"")
      (render_image_id id) (text "\"}") refl h refl
      (join-without (map decimal id) (decimals-without id)) refl,
  refl,
  refl,
)

-- One sample that carries the family's name, with a number.
counted :
    (name help kind : Text) (n : ℕ)
    → begins name ≡ true
    → without 10 name ≡ true
    → without 10 help ≡ true
    → without 10 kind ≡ true
    → IsPrintable (single name help kind (decimal n))
unfolding IsValue
counted name help kind n b w h k =
    let v = decimal-IsValue n in
    record { name_line = w; help_line = h; kind_line = k; each_sample = ((b, w, v.0, v.1), tt) }

pub policy_families-IsPrintable :
    (version : Text) (id : ImageId) (r : ProveRuntime)
    → without 10 version ≡ true
    → All IsPrintable (
        policy_families version
          (render_image_id id)
          r.available
          r.max_in_flight
          r.request_timeout
          r.rate_limiter.policy)
unfolding policy_families text
policy_families-IsPrintable version id r h = (
  record {
    name_line = refl;
    help_line = refl;
    kind_line = refl;
    each_sample = (build_info-IsSample version id h, tt);
  },
  (
    counted _ _ _ _ refl refl refl refl,
    (
      counted _ _ _ _ refl refl refl refl,
      (
        counted _ _ _ _ refl refl refl refl,
        (
          counted _ _ _ _ refl refl refl refl,
          (counted _ _ _ _ refl refl refl refl, (counted _ _ _ _ refl refl refl refl, tt)),
        ),
      ),
    ),
  ),
)

pub request_families-IsPrintable : (m : Observability) → All IsPrintable (request_families m)
unfolding request_families text
request_families-IsPrintable m = (
  counted _ _ _ _ refl refl refl refl,
  (
    counted _ _ _ _ refl refl refl refl,
    (
      counted _ _ _ _ refl refl refl refl,
      (
        counted _ _ _ _ refl refl refl refl,
        (counted _ _ _ _ refl refl refl refl, (counted _ _ _ _ refl refl refl refl, tt)),
      ),
    ),
  ),
)

pub job_families-IsPrintable :
    (f : Floats) (m : Observability)
    → ((n : ℕ) → All IsFloatChar (f.seconds n))
    → All IsPrintable (job_families f m)
unfolding job_families text IsValue
job_families-IsPrintable f m h =
    let total =
      float-IsValue (f.seconds m.proof_duration_millis_total) (h m.proof_duration_millis_total) in
    let count = decimal-IsValue m.proof_duration_millis_count in
    (
      counted _ _ _ _ refl refl refl refl,
      (
        counted _ _ _ _ refl refl refl refl,
        (
          counted _ _ _ _ refl refl refl refl,
          (
            counted _ _ _ _ refl refl refl refl,
            (
              counted _ _ _ _ refl refl refl refl,
              (
                counted _ _ _ _ refl refl refl refl,
                (
                  record {
                    name_line = refl;
                    help_line = refl;
                    kind_line = refl;
                    each_sample =
                        ((refl, refl, total.0, total.1), ((refl, refl, count.0, count.1), tt));
                  },
                  tt,
                ),
              ),
            ),
          ),
        ),
      ),
    )
