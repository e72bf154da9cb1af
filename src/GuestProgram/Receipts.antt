-- ===== src/GuestProgram/Receipts.antt =====
-- What a receipt of methods/guest/src/main.rs proves of the inputs that server/src/prover.rs wrote.
use mathlib.Core.List.{append_assoc, append-nil}
use agenc_prover.Base.{
  ℕ, ◌≡◌, sym, ap, ◌∙◌, List, [], ◌∷◌, ◌++◌, map, some, Text, Result, ok, lift, map_err, ◌>>◌,
  length, list_eq_refl, >>=-eq-ok, map_err-eq-ok, lift-eq-ok, ok_inj,
}
use agenc_prover.Guest.Crates
use agenc_prover.Guest.Crates.{Crates}
use agenc_prover.Guest.Field.{JournalField}
use agenc_prover.Guest.Journal.{
  JournalFields, PrivateWitness, validate_against_witness, display_validation_error,
  serialize_journal,
}
use agenc_prover.Guest.Spec.{IsDerived}
use agenc_prover.Guest.Validate.{validate_iff}
use agenc_prover.Guest.Layout.{serialize_journal_roundtrip}
use agenc_prover.Prover.Zkvm
use agenc_prover.Prover.Zkvm.{Zkvm}
use agenc_prover.Prover.Generate.{
  ProveRequest, journal_fields, private_witness, public_fields, witness_fields, write_fields,
  executor_env, checked_journal,
}
use agenc_prover.Prover.Sound.{IsRequest}
use agenc_prover.GuestProgram.{guest_main}

-- What the guest makes of the fields it has read.
unfoldable pub checked : Crates → JournalFields → PrivateWitness → Result (List ℕ) Text
checked c f w =
    map_err (validate_against_witness c f w) display_validation_error >> lift (serialize_journal f)

-- The inputs of a request in the order of the host's writes.
abbrev pub inputs : ProveRequest → List JournalField
inputs r =
    r.task_pda ∷ r.agent_authority ∷ r.constraint_hash ∷ r.output_commitment ∷ r.binding
    ∷ r.nullifier ∷ r.output.output_0 ∷ r.output.output_1 ∷ r.output.output_2 ∷ r.output.output_3
    ∷ r.salt ∷ r.agent_secret ∷ []

-- Successive reads return the listed fields.
data Reads (z : Zkvm) : z.Env → List JournalField → Type 0 where
  done : {e : z.Env} → Reads z e []
  more :
      {e e' : z.Env} {x : JournalField} {xs : List JournalField}
      → z.read e ≡ some (x, e')
      → Reads z e' xs
      → Reads z e (x ∷ xs)

guest_main-Reads :
    (c : Crates) (z : Zkvm) {e : z.Env} {t a h o b n x0 x1 x2 x3 s k : JournalField}
    → Reads z e (t ∷ a ∷ h ∷ o ∷ b ∷ n ∷ x0 ∷ x1 ∷ x2 ∷ x3 ∷ s ∷ k ∷ [])
    → guest_main c z e
      ≡ checked c
          (record {
            task_pda = t;
            agent_authority = a;
            constraint_hash = h;
            output_commitment = o;
            binding = b;
            nullifier = n;
          })
          (record {
            output = record { output_0 = x0; output_1 = x1; output_2 = x2; output_3 = x3 };
            salt = s;
            agent_secret = k;
          })
unfolding guest_main checked
guest_main-Reads c z
      (more r0 (
        more r1 (
          more r2 (
            more r3 (
              more r4
                (more r5 (more r6 (more r7 (more r8 (more r9 (more r10 (more r11 done)))))))))))) =
    rw (r0, r1, r2, r3, r4, r5, r6, r7, r8, r9, r10, r11)

checked-eq-ok :
    (c : Crates) (f : JournalFields) (w : PrivateWitness) {bytes : List ℕ}
    → checked c f w ≡ ok bytes
    → (validate_against_witness c f w ≡ ok tt) × (serialize_journal f ≡ some bytes)
unfolding checked
checked-eq-ok c f w h =
    let (u, e, h') =
      >>=-eq-ok (map_err (validate_against_witness c f w) display_validation_error) _ h in
    (map_err-eq-ok _ _ e, lift-eq-ok _ h')

module _ (c : Crates) (z : Zkvm) (zkvm : Zkvm.IsLawful z (guest_main c z)) where
  open zkvm use {
    pending, contents, pending-builder, pending-write, contents-build, read-contents,
    journal_committed,
  }

  contents-Reads : (e : z.Env) (xs : List JournalField) → contents e ≡ xs → Reads z e xs
  contents-Reads e [] h = done
  contents-Reads e (x ∷ xs) h =
      let (e', r, h') = read-contents e x xs h in more r (contents-Reads e' xs h')

  write_fields-pending :
      (b : z.Builder) (fs : List (Text × JournalField)) {b' : z.Builder}
      → write_fields z b fs ≡ ok b'
      → pending b' ≡ pending b ++ map (λ p. p.1) fs
  unfolding write_fields
  write_fields-pending b [] h = ap pending (sym (ok_inj h)) ∙ sym (append-nil (pending b))
  write_fields-pending b ((name, f) ∷ fs) h =
      let (b₁, e, h') = >>=-eq-ok (map_err (z.write b f) _) _ h in
      write_fields-pending b₁ fs h'
      ∙ ap (λ xs. xs ++ map (λ (p : Text × JournalField). p.1) fs)
          (pending-write b b₁ f (map_err-eq-ok _ _ e))
      ∙ append_assoc (pending b) (f ∷ []) _

  -- The host writes what the guest reads, in the same order.
  executor_env-contents :
      (r : ProveRequest) {env : z.Env} → executor_env z r ≡ ok env → contents env ≡ inputs r
  unfolding executor_env
  executor_env-contents r {env} h =
      let (b₁, e₁, h₁) = >>=-eq-ok (write_fields z z.builder (public_fields r)) _ h in
      let (b₂, e₂, h₂) = >>=-eq-ok (write_fields z b₁ (witness_fields r)) _ h₁ in
      contents-build b₂ env (map_err-eq-ok _ _ h₂)
      ∙ write_fields-pending b₁ (witness_fields r) e₂
      ∙ ap (λ xs. xs ++ map (λ (p : Text × JournalField). p.1) (witness_fields r))
          (write_fields-pending z.builder (public_fields r) e₁
            ∙ ap (λ xs. xs ++ map (λ (p : Text × JournalField). p.1) (public_fields r))
                pending-builder)

  pub executor_env-checked :
      (r : ProveRequest) {env : z.Env}
      → executor_env z r ≡ ok env
      → guest_main c z env ≡ checked c (journal_fields r) (private_witness r)
  executor_env-checked r h =
      guest_main-Reads c z (contents-Reads _ (inputs r) (executor_env-contents r h))

-- A receipt for the inputs of a well-formed request exists only if its public fields are derived
-- from its witness, and its journal is the request's, whether or not the host has validated it.
pub receipt_proves_derived :
    (c : Crates) (laws : Crates.IsLawful c) (z : Zkvm) (zkvm : Zkvm.IsLawful z (guest_main c z))
    (r : ProveRequest) (env : z.Env) (receipt : z.Receipt)
    → IsRequest r
    → executor_env z r ≡ ok env
    → z.prove_with_opts env z.agenc_guest_elf ≡ ok receipt
    → IsDerived laws.digest (journal_fields r) (private_witness r)
      × (serialize_journal (journal_fields r) ≡ some (z.journal_bytes receipt))
receipt_proves_derived c laws z zkvm r env receipt h written proved =
    let committed =
      sym (executor_env-checked c z zkvm r written) ∙ zkvm.journal_committed env receipt proved in
    let (valid, bytes) = checked-eq-ok c (journal_fields r) (private_witness r) committed in
    (
      (validate_iff c laws (journal_fields r) (private_witness r) h.journal_ok h.witness_ok).0
          valid,
      bytes,
    )

-- A receipt of a lawful zkVM for the inputs of a well-formed request passes the checks of its
-- journal.
pub checked_journal-ok :
    (c : Crates) (z : Zkvm) (zkvm : Zkvm.IsLawful z (guest_main c z)) (r : ProveRequest)
    (env : z.Env) (receipt : z.Receipt)
    → IsRequest r
    → executor_env z r ≡ ok env
    → z.prove_with_opts env z.agenc_guest_elf ≡ ok receipt
    → checked_journal z r receipt ≡ ok (z.journal_bytes receipt)
unfolding checked_journal
checked_journal-ok c z zkvm r env receipt h written proved =
    let committed =
      sym (executor_env-checked c z zkvm r written) ∙ zkvm.journal_committed env receipt proved in
    let bytes = (checked-eq-ok c (journal_fields r) (private_witness r) committed).1 in
    let (out, e, (l, _), _) = serialize_journal_roundtrip (journal_fields r) h.journal_ok in
    let same : z.journal_bytes receipt ≡ out = cc in
    let long : length (z.journal_bytes receipt) ≡ 192 = ap length same ∙ l in
    rw (bytes, long, list_eq_refl (z.journal_bytes receipt))
