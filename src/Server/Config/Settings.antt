-- ===== src/Server/Config/Settings.antt =====
-- What the parsers of single environment variables in server/src/main.rs accept.
use agenc_prover.Base.{
  ℕ, ◌≤◌, ◌<◌, ◌≡◌, ◌↔◌, ◌⊎◌, inl, inr, refl, sym, ap, ◌∙◌, Bool, true, false, Bool-cases, List, [],
  ◌∷◌, ◌++◌, map, Text, text, Result, ok, err, map_err, map_err-eq-ok, ok_inj, >>=-eq-ok, list_eq,
  list_eq_iff, ◌==◌, if◌then◌else◌, IsNumeral, parse_unsigned, parse_unsigned_iff, arith,
}
use agenc_prover.Server.Auth.{trim, to_ascii_lowercase}
use agenc_prover.Server.Config.{
  EnvVar, present, not_present, not_unicode, Std, one_of, true_words, false_words, u64_max,
  read_bool, env_bool, read_nonzero, env_nonzero,
}

abbrev OneOf : Text → List Text → Type 0
OneOf value [] = ⊥
OneOf value (t ∷ ts) = (value ≡ t) ⊎ OneOf value ts

-- The text of a switch: without its surrounding whitespace, in small ASCII letters.
abbrev pub word_of : Text → Text
word_of value = map to_ascii_lowercase (trim value)

-- The switch is on for one of the words 1, true, yes and on, and off for one of 0, false, no and
-- off, or when it is not set.
abbrev pub IsSwitch : EnvVar → Bool → Type 0
IsSwitch var true = (v : Text) × (var ≡ present v) × OneOf (word_of v) true_words
IsSwitch var false =
    (var ≡ not_present) ⊎ ((v : Text) × (var ≡ present v) × OneOf (word_of v) false_words)

-- A positive 64-bit numeral, whitespace around it aside.
pub record IsCount (v : Text) (n : ℕ) : Type 0 where
  pub numeral : IsNumeral (trim v) n
  pub positive : 0 < n
  pub fits : n ≤ u64_max

-- The number is the default of a variable that is not set, or the count of one that is.
abbrev pub IsSetting : EnvVar → ℕ → ℕ → Type 0
IsSetting var default n =
    ((var ≡ not_present) × (n ≡ default)) ⊎ ((v : Text) × (var ≡ present v) × IsCount v n)

one_of_iff : (v : Text) (ts : List Text) → (one_of v ts ≡ true) ↔ OneOf v ts
unfolding one_of
one_of_iff v [] = (λ h. cc h, λ h. absurd h)
one_of_iff v (t ∷ ts) = (
  λ h. elim (Bool-cases (list_eq v t)) [
    | inl e ↦ inl ((list_eq_iff v t).0 e)
    | inr e ↦ inr ((one_of_iff v ts).0 (ground (arith, e, h)))
  ],
  λ h. elim h [
    | inl e ↦ rw ((list_eq_iff v t).1 e) refl
    | inr m ↦ ground (arith, (one_of_iff v ts).1 m)
  ],
)

-- No word is both.
false_word_not_true : (v : Text) → OneOf v false_words → one_of v true_words ≡ false
unfolding one_of list_eq text
false_word_not_true v h = elim h [
  | inl e ↦ rw e refl
  | inr (inl e) ↦ rw e refl
  | inr (inr (inl e)) ↦ rw e refl
  | inr (inr (inr (inl e))) ↦ rw e refl
  | inr (inr (inr (inr z))) ↦ absurd z
]

present_inj : {v w : Text} → present v ≡ present w → v ≡ w
present_inj e = cc e

read_bool_iff :
    (std : Std) (name v : Text) (b : Bool)
    → (read_bool std name v ≡ ok b)
      ↔ (elim b [ true ↦ OneOf v true_words | false ↦ OneOf v false_words ])
unfolding read_bool
read_bool_iff std name v true = (
  λ h. elim (Bool-cases (one_of v true_words)) [
    | inl e ↦ (one_of_iff v true_words).0 e
    | inr e ↦ absurd (ground (arith, e, h))
  ],
  λ h. rw ((one_of_iff v true_words).1 h) refl,
)
read_bool_iff std name v false = (
  λ h. elim (Bool-cases (one_of v false_words)) [
    | inl e ↦ (one_of_iff v false_words).0 e
    | inr e ↦ absurd (ground (arith, e, h))
  ],
  λ h. rw (false_word_not_true v h, (one_of_iff v false_words).1 h) refl,
)

-- A switch is read exactly as the words say.
pub env_bool_iff :
    (std : Std) (name : Text) (var : EnvVar) (b : Bool)
    → (env_bool std name var ≡ ok b) ↔ IsSwitch var b
unfolding env_bool
env_bool_iff std name (present v) true = (
  λ h. (v, refl, (read_bool_iff std name (word_of v) true).0 h),
  λ (w, e, h). (read_bool_iff std name (word_of v) true).1 (rw (present_inj (sym e)) at h),
)
env_bool_iff std name (present v) false = (
  λ h. inr (v, refl, (read_bool_iff std name (word_of v) false).0 h),
  λ h. elim h [
    | inl z ↦ cc z
    | inr (w, e, m) ↦ (read_bool_iff std name (word_of v) false).1 (rw (present_inj (sym e)) at m)
  ],
)
env_bool_iff std name not_present true = (λ h. cc h, λ h. cc (h.1))
env_bool_iff std name not_present false = (λ h. inl refl, λ h. refl)
env_bool_iff std name not_unicode true = (λ h. cc h, λ h. cc (h.1))
env_bool_iff std name not_unicode false =
    (λ h. cc h, λ h. elim h [ inl z ↦ cc z | inr m ↦ cc (m.1) ])

nonzero_of :
    (name : Text) (p n : ℕ)
    → (if◌then◌else◌ {A = Result ℕ Text}
          (p == 0)
          (err (name ++ text " must be greater than zero"))
          (ok p)
        ≡ ok n)
    → (p ≡ n) × (0 < n)
nonzero_of name p n e = ground arith

read_nonzero_iff :
    (std : Std) (name v : Text) (n : ℕ) → (read_nonzero std name v ≡ ok n) ↔ IsCount v n
unfolding read_nonzero
read_nonzero_iff std name v n = (there, back)
  where
    there : read_nonzero std name v ≡ ok n → IsCount v n
    there h =
        let (p, e, h') = >>=-eq-ok (map_err (parse_unsigned u64_max (trim v)) _) _ h in
        let (same, positive) = nonzero_of name p n h' in
        let (num, fits) =
          (parse_unsigned_iff u64_max n (trim v)).0 (map_err-eq-ok _ _ e ∙ ap ok same) in
        record { numeral = num; positive = positive; fits = fits }

    back : IsCount v n → read_nonzero std name v ≡ ok n
    back c =
        let positive = c.positive in
        rw ((parse_unsigned_iff u64_max n (trim v)).1 (c.numeral, c.fits)) (ground arith)

-- A number is read exactly as the setting says.
pub env_nonzero_iff :
    (std : Std) (name : Text) (var : EnvVar) (default n : ℕ)
    → (env_nonzero std name var default ≡ ok n) ↔ IsSetting var default n
unfolding env_nonzero
env_nonzero_iff std name (present v) default n = (
  λ h. inr (v, refl, (read_nonzero_iff std name v n).0 h),
  λ h. elim h [
    | inl (z, _) ↦ cc z
    | inr (w, e, m) ↦ (read_nonzero_iff std name v n).1 (rw (present_inj (sym e)) at m)
  ],
)
env_nonzero_iff std name not_present default n =
    (λ h. inl (refl, sym (ok_inj h)), λ h. elim h [ inl (_, e) ↦ ap ok (sym e) | inr m ↦ cc (m.1) ])
env_nonzero_iff std name not_unicode default n =
    (λ h. cc h, λ h. elim h [ inl (z, _) ↦ cc z | inr m ↦ cc (m.1) ])
