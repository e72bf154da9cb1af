-- ===== src/Server/App/Tests.antt =====
-- A request to `/prove` of server/src/main.rs that is served by itself, at a sample.
use agenc_prover.Base.{none, false, refl, [], err}
use agenc_prover.Prover.Generate
use agenc_prover.Server.App.{World, prove_alone}
use agenc_prover.Server.App.Alone.{IsReleased, prove_alone-IsReleased}
use agenc_prover.Server.Auth.{disabled}
use agenc_prover.Server.Runtime.{AppState}
use agenc_prover.Server.Service.{start}
use agenc_prover.Server.Tests.{one_slot, full_salt}
use agenc_prover.Server.Threads.{returns}

abbrev idle : AppState
idle = start disabled one_slot 0 0

abbrev fails_in_time : World
fails_in_time = record {
  now = 10;
  later = 10;
  prove_fn = λ r. returns (err (Generate.prover_failed [])) 5;
  late = false;
}

prove_alone-IsReleased_example : IsReleased idle (prove_alone fails_in_time none full_salt idle)
prove_alone-IsReleased_example = prove_alone-IsReleased fails_in_time none full_salt idle refl
