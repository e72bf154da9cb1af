-- ===== src/Lib.antt =====
-- agenc-prover: a proof service for private task completion. A client sends public journal fields
-- and a private witness to the server; the server validates them, has a zkVM run the guest program on
-- them, and answers with the encoded Groth16 seal, the journal and the image id.
--
-- The parts, the files of the repository that they stand in, and the modules:
--
-- guest/src/lib.rs (used by the host and by the guest)
--   Guest/Field: the constants, copy_field, require_non_zero, the reduction of bytes to the scalar
--     field (normalize_field_bytes, digest_to_field_bytes, biguint_to_bytes32).
--   Guest/Hash: the domain tags and compute_constraint_hash, compute_output_commitment,
--     compute_binding, compute_nullifier_from_agent_secret.
--   Guest/Journal: JournalFields, PrivateWitness, try_from_slices, validate_against_witness,
--     to_bytes, serialize_journal.
--   Guest/Crates: what the code uses of num-bigint and sha2, as a parameter with its laws.
--   Guest/Reduce, Guest/Spec, Guest/Hashes: the reference functions, and that the code computes them.
--   Guest/Residues: residues and collisions. Guest/Validate, Guest/Layout, Guest/Inputs, Guest/Binding,
--     Guest/Separation, Guest/Salt: theorems.
-- methods/guest/src/main.rs
--   GuestProgram: the guest's main. GuestProgram/Receipts and GuestProgram/Complete put it together
--     with the host of server/src/prover.rs.
-- server/src/prover.rs
--   Prover/Seal: encode_seal, negate_pi_a, negate_g1, subtract_be_bytes, guest_id_to_image_id.
--   Prover/Zkvm: what the code uses of risc0-zkvm, as a parameter with its laws.
--   Prover/Generate: ProveRequest, ProveError and generate_proof with its checks, for both builds.
--   Prover/Subtract, Prover/Negate, Prover/ImageId, Prover/Sound: theorems.
-- server/src/main.rs
--   Server/Errors: AppError and its response. Server/Request: ProveRequest::try_into_fixed.
--   Server/Auth: bearer tokens, ProveAuth::authorize, resolve_prove_auth.
--   Server/RateLimit: RateLimiter::check on clock readings. Server/Metrics: the counters.
--   Server/Runtime: the state, and the handler of /prove up to spawn_blocking.
--   Server/Config: the environment variables (bind_addr, parse_env_bool, parse_nonzero_usize_env,
--     execution_policy, runtime_config), on the parameters Std and Env.
--   Server/Service: the ends of a job and of the wait for it, as events; `step` and `run`.
--   Server/Threads: the same handler and its blocking task, one atomic operation at a time.
--     Server/Threads/System interleaves all requests; Load, Counters, Kept and Sound are about permits
--     and counters, Tally and Refused about refusals, Rank, Rest and Drain about the end, and Whole
--     and Effects about runs without interruption.
--   Server/Launch: main up to serve. Server/Host: its log lines, and the parameter Host.
--   Server/Exposition: healthz, readyz, and the text of metrics (render_prometheus), on the parameter
--     Floats. Server/Exposition/Scrape is a reader of that text.
--   Server/App: the routes of app, and a request served to its end by itself. Server/App/Fixture is
--     the request of scripts/prove-benchmark-request.json, which the unit tests send.
--   Server/Service/Proofs: the handler put together with the prover of server/src/prover.rs.
--   Below them: theorems on each.
--
-- UnitTests hold the repository's unit tests, and UnitChecks what settles them. Those whose
-- outcome rests on the values of SHA-256 or on a zkVM are stated, and left open.
--
-- Samples and Tests hold concrete parameters and requests, and each theorem applied to them. Base
-- holds what the modules share.
--
-- Conventions. A byte array is a list of numbers, and that it has its length and holds bytes is a
-- hypothesis (IsBytes). A panic is `none` of an Option or `panic` of a Result, so an equation with
-- `ok` also says that there is none. A 32-bit or 64-bit word is a number with its wrap-around
-- written out. Durations and instants are in nanoseconds. The mutable state of the service is one
-- record. In Server/Service one event is one uninterrupted piece of the code; in Server/Threads
-- one turn is one access to shared state (a counter, the limiter under its lock, the semaphore)
-- with the private computation before it, and atomic operations are taken one after the other, as
-- they are for each counter by itself under relaxed ordering. The order of events and of turns,
-- the clock and what the prover returns are arbitrary. Fuel: that of `decimal` is one more than
-- the number itself, which exceeds the count of its digits; `uninterrupted` takes at most fifteen
-- turns, the greatest rank of a request; `drain` takes the sum of the ranks.
--
-- The configuration, the state and the handlers interact in this order: `launch` reads the
-- environment with `runtime_config` and starts the service with `start`; `run` takes the events
-- one after the other, each through `step`; `arrive` asks `authorize`, then `check` of the bucket
-- that it names, then `try_into_fixed`, then takes a permit; `readyz` and `render_metrics` read
-- the same state.
--
-- Not modelled: the text of log lines and the logging of the handlers, what axum answers by itself
-- and the JSON of serde, the end of serve, the admin tools and the scripts; in Server/Threads the
-- answers are values, and nothing is read between two counters at once (/metrics is read from one
-- state). Library code is a parameter: a number's bytes, a hash with 32-byte digests, a zkVM whose
-- receipts exist only for runs of the guest that ended without a panic, the parser of IP addresses
-- and the debug form of a text (Std), what main uses of tokio, tracing and the machine (Host), the
-- decimals of a floating-point number (Floats), and the crate's version, a text.
pub mod Base
pub mod Guest
pub mod Prover
pub mod GuestProgram
pub mod Server
