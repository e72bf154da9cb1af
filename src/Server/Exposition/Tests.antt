-- ===== src/Server/Exposition/Tests.antt =====
-- The probes and the metrics page of server/src/main.rs for a sample service.
use agenc_prover.Base.{
  ℕ, ◌+◌, ◌*◌, ◌/◌, ◌%◌, ◌≡◌, inl, inr, refl, [], ◌∷◌, ◌++◌, some, Text, text, decimal, IsDigit,
  decimal_digits, All, All-append, arith,
}
use agenc_prover.Prover.Generate.{image_id, default_build}
use agenc_prover.Prover.Seal.{trusted_risc0_image_id}
use agenc_prover.Server.Auth.{disabled}
use agenc_prover.Server.RateLimit.{nanos_per_sec}
use agenc_prover.Server.Runtime.{ExecutionPolicy, AppState}
use agenc_prover.Server.Service.{start}
use agenc_prover.Server.Exposition.{Floats, metrics_page}
use agenc_prover.Server.Exposition.Scrape.{scrape}
use agenc_prover.Server.Exposition.Printable.{IsFloatChar}
use agenc_prover.Server.Exposition.Page.{page_samples, scrape-metrics_page}

-- Three decimal places.
abbrev places : Floats
places = record {
  seconds = λ n.
      decimal (n / 1000)
      ++ b'.' ∷ (b'0' + n / 100 % 10) ∷ (b'0' + n / 10 % 10) ∷ (b'0' + n % 10) ∷ [];
}

digits-IsFloatChar : (s : Text) → All IsDigit s → All IsFloatChar s
digits-IsFloatChar [] h = tt
digits-IsFloatChar (c ∷ s) (h, hs) = (inl h, digits-IsFloatChar s hs)

places-IsFloatChar : (n : ℕ) → All IsFloatChar (places.seconds n)
places-IsFloatChar n =
    All-append IsFloatChar (decimal (n / 1000)) _
      (digits-IsFloatChar (decimal (n / 1000)) (decimal_digits (n / 1000)))
      (inr refl, (inl (omega arith), (inl (omega arith), (inl (omega arith), tt))))

-- Two slots, a minute, and ten requests a minute.
abbrev two_slots : ExecutionPolicy
two_slots = record {
  max_in_flight = 2;
  request_timeout = 60 * nanos_per_sec;
  rate_limit = record { max_requests = 10; window = 60 * nanos_per_sec };
}

abbrev idle : AppState
idle = start disabled two_slots 0 0

default_build_image : image_id default_build ≡ some trusted_risc0_image_id
unfolding image_id
default_build_image = refl

scrape-metrics_page_example :
    (body : Text) × (metrics_page places (text "0.1.0") default_build idle
      ≡ some (record {
        status = 200;
        content_type = text "text/plain; version=0.0.4; charset=utf-8";
        body = body;
      }))
    × (scrape body ≡ page_samples places (text "0.1.0") trusted_risc0_image_id idle.prove_runtime)
unfolding text
scrape-metrics_page_example =
    scrape-metrics_page places (text "0.1.0") default_build idle trusted_risc0_image_id refl
      places-IsFloatChar default_build_image
