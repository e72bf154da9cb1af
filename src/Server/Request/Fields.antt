-- ===== src/Server/Request/Fields.antt =====
-- The widths of the fields in a converted request of server/src/main.rs.
use mathlib.Core.Path.{subst}
use agenc_prover.Base.{
  ℕ, ◌≡◌, refl, List, [], ◌∷◌, Text, text, length, Bool-cases, inl, inr, ok, ok_inj, >>=-eq-ok,
  ◌==◌, All, IsByte, IsBytes, arith,
}
use agenc_prover.Guest.Field.{JournalField}
use agenc_prover.Guest.Hash.{OutputFields}
use agenc_prover.Guest.Spec.{IsOutput}
use agenc_prover.Prover.Generate
use agenc_prover.Prover.Generate.{journal_fields, private_witness}
use agenc_prover.Prover.Sound.{IsRequest}
use agenc_prover.Server.Request.{ProveRequest, vec_to_field, try_into_fixed_output, try_into_fixed}

-- Every element is a `u8`.
pub record IsRaw (r : ProveRequest) : Type 0 where
  pub raw_task_pda : All IsByte r.task_pda
  pub raw_agent_authority : All IsByte r.agent_authority
  pub raw_constraint_hash : All IsByte r.constraint_hash
  pub raw_output_commitment : All IsByte r.output_commitment
  pub raw_binding : All IsByte r.binding
  pub raw_nullifier : All IsByte r.nullifier
  pub raw_output : All (All IsByte) r.output
  pub raw_salt : All IsByte r.salt
  pub raw_agent_secret : All IsByte r.agent_secret

vec_to_field-IsBytes :
    (name : Text) (v : List ℕ) {f : JournalField}
    → All IsByte v
    → vec_to_field name v ≡ ok f
    → IsBytes 32 f
unfolding vec_to_field
vec_to_field-IsBytes name v {f} b h = elim (Bool-cases (length v == 32)) [
  | inl e ↦ subst (IsBytes 32) (ground (arith, e, h)) (ground (arith, e), b)
  | inr e ↦ absurd (ground (arith, e, h))
]

try_into_fixed_output-IsOutput :
    (os : List (List ℕ)) {o : OutputFields}
    → All (All IsByte) os
    → try_into_fixed_output os ≡ ok o
    → IsOutput o
unfolding try_into_fixed_output
try_into_fixed_output-IsOutput [] b h = cc h
try_into_fixed_output-IsOutput (x ∷ []) b h = cc h
try_into_fixed_output-IsOutput (x ∷ y ∷ []) b h = cc h
try_into_fixed_output-IsOutput (x ∷ y ∷ z ∷ []) b h = cc h
try_into_fixed_output-IsOutput (x ∷ y ∷ z ∷ w ∷ v ∷ os) b h = cc h
try_into_fixed_output-IsOutput (x ∷ y ∷ z ∷ w ∷ []) (bx, (by, (bz, (bw, _)))) h =
    let (a, ea, h₁) = >>=-eq-ok (vec_to_field _ x) _ h in
    let (b, eb, h₂) = >>=-eq-ok (vec_to_field _ y) _ h₁ in
    let (c, ec, h₃) = >>=-eq-ok (vec_to_field _ z) _ h₂ in
    let (d, ed, h₄) = >>=-eq-ok (vec_to_field _ w) _ h₃ in
    subst IsOutput (ok_inj h₄) (record {
      field_0 = vec_to_field-IsBytes _ x bx ea;
      field_1 = vec_to_field-IsBytes _ y by eb;
      field_2 = vec_to_field-IsBytes _ z bz ec;
      field_3 = vec_to_field-IsBytes _ w bw ed;
    })

pub try_into_fixed-IsRequest :
    (r : ProveRequest) (fixed : Generate.ProveRequest)
    → IsRaw r
    → try_into_fixed r ≡ ok fixed
    → IsRequest fixed
unfolding try_into_fixed
try_into_fixed-IsRequest r fixed raw h =
    let (o, eo, h₀) = >>=-eq-ok (try_into_fixed_output r.output) _ h in
    let (t, et, h₁) = >>=-eq-ok (vec_to_field _ r.task_pda) _ h₀ in
    let (a, ea, h₂) = >>=-eq-ok (vec_to_field _ r.agent_authority) _ h₁ in
    let (c, ec, h₃) = >>=-eq-ok (vec_to_field _ r.constraint_hash) _ h₂ in
    let (m, em, h₄) = >>=-eq-ok (vec_to_field _ r.output_commitment) _ h₃ in
    let (b, eb, h₅) = >>=-eq-ok (vec_to_field _ r.binding) _ h₄ in
    let (n, en, h₆) = >>=-eq-ok (vec_to_field _ r.nullifier) _ h₅ in
    let (s, es, h₇) = >>=-eq-ok (vec_to_field _ r.salt) _ h₆ in
    let (k, ek, h₈) = >>=-eq-ok (vec_to_field _ r.agent_secret) _ h₇ in
    subst IsRequest (ok_inj h₈) (record {
      journal_ok = record {
        task_pda_field = vec_to_field-IsBytes _ _ raw.raw_task_pda et;
        agent_authority_field = vec_to_field-IsBytes _ _ raw.raw_agent_authority ea;
        constraint_hash_field = vec_to_field-IsBytes _ _ raw.raw_constraint_hash ec;
        output_commitment_field = vec_to_field-IsBytes _ _ raw.raw_output_commitment em;
        binding_field = vec_to_field-IsBytes _ _ raw.raw_binding eb;
        nullifier_field = vec_to_field-IsBytes _ _ raw.raw_nullifier en;
      };
      witness_ok = record {
        output_fields = try_into_fixed_output-IsOutput r.output raw.raw_output eo;
        salt_field = vec_to_field-IsBytes _ _ raw.raw_salt es;
        agent_secret_field = vec_to_field-IsBytes _ _ raw.raw_agent_secret ek;
      };
    })

-- The request whose conversion is `r`.
abbrev pub raw_of : Generate.ProveRequest → ProveRequest
raw_of r = record {
  task_pda = r.task_pda;
  agent_authority = r.agent_authority;
  constraint_hash = r.constraint_hash;
  output_commitment = r.output_commitment;
  binding = r.binding;
  nullifier = r.nullifier;
  output = r.output.output_0 ∷ r.output.output_1 ∷ r.output.output_2 ∷ r.output.output_3 ∷ [];
  salt = r.salt;
  agent_secret = r.agent_secret;
}

vec_to_field-fits : (name : Text) (v : List ℕ) → IsBytes 32 v → vec_to_field name v ≡ ok v
unfolding vec_to_field
vec_to_field-fits name v (h, b) = ground (arith, h)

pub try_into_fixed-raw_of :
    (r : Generate.ProveRequest) → IsRequest r → try_into_fixed (raw_of r) ≡ ok r
unfolding try_into_fixed try_into_fixed_output
try_into_fixed-raw_of r h =
    let j = h.journal_ok in
    let w = h.witness_ok in
    let o = w.output_fields in
    rw
      (
        vec_to_field-fits (text "output[0]") _ o.field_0,
        vec_to_field-fits (text "output[1]") _ o.field_1,
        vec_to_field-fits (text "output[2]") _ o.field_2,
        vec_to_field-fits (text "output[3]") _ o.field_3,
        vec_to_field-fits (text "task_pda") _ j.task_pda_field,
        vec_to_field-fits (text "agent_authority") _ j.agent_authority_field,
        vec_to_field-fits (text "constraint_hash") _ j.constraint_hash_field,
        vec_to_field-fits (text "output_commitment") _ j.output_commitment_field,
        vec_to_field-fits (text "binding") _ j.binding_field,
        vec_to_field-fits (text "nullifier") _ j.nullifier_field,
        vec_to_field-fits (text "salt") _ w.salt_field,
        vec_to_field-fits (text "agent_secret") _ w.agent_secret_field,
      )
      refl

pub raw_of-IsRaw : (r : Generate.ProveRequest) → IsRequest r → IsRaw (raw_of r)
raw_of-IsRaw r h =
    let j = h.journal_ok in
    let w = h.witness_ok in
    let o = w.output_fields in
    record {
      raw_task_pda = j.task_pda_field.1;
      raw_agent_authority = j.agent_authority_field.1;
      raw_constraint_hash = j.constraint_hash_field.1;
      raw_output_commitment = j.output_commitment_field.1;
      raw_binding = j.binding_field.1;
      raw_nullifier = j.nullifier_field.1;
      raw_output = (o.field_0.1, (o.field_1.1, (o.field_2.1, (o.field_3.1, tt))));
      raw_salt = w.salt_field.1;
      raw_agent_secret = w.agent_secret_field.1;
    }
