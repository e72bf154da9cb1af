-- ===== src/Base/Unsigned.antt =====
-- `str::parse` of the standard library for unsigned integers, and its round trip with `Display`.
use mathlib.Core.Path.{◌≡◌, refl, ◌∙◌}
use mathlib.Core.Logic.{◌≢◌, ◌↔◌, ◌⊎◌, inl, inr}
use mathlib.Core.Bool.{Bool, ◌&&◌}
use mathlib.Core.List.{[], ◌∷◌, ◌++◌, append-eq-nil_iff}
use Prim.Native.Nat.{ℕ, zero, suc, ◌+◌, ◌-◌, ◌*◌, ◌/◌, ◌%◌, ◌≤◌, ◌<◌}
use native.Mathlib.Omega.{arith}
use agenc_prover.Base.Lists.{All, All-append}
use agenc_prover.Base.Results.{Result, ok, err, panic}
use agenc_prover.Base.Tests.{ltb, leb, ◌==◌, if◌then◌else◌, Bool-cases}
use agenc_prover.Base.Texts.{Text, text, decimal, decimal_fuel}

-- `ParseIntError` by its kind.
pub data ParseIntError : Type 0 where
  empty_text invalid_digit pos_overflow : ParseIntError

-- Its `Display`.
unfoldable pub display_parse_int_error : ParseIntError → Text
display_parse_int_error empty_text = text "cannot parse integer from empty string"
display_parse_int_error invalid_digit = text "invalid digit found in string"
display_parse_int_error pos_overflow = text "number too large to fit in target type"

is_digit : ℕ → Bool
is_digit c = leb b'0' c && leb c b'9'

-- The digits one after the other; each is tested, then added with a check of the bound.
scan : (max acc : ℕ) → Text → Result ℕ ParseIntError
scan max acc [] = ok acc
scan max acc (c ∷ s) =
    let next = acc * 10 + (c - b'0') in
    let rest = scan max next s in
    if is_digit c then (if leb next max then rest else err pos_overflow) else err invalid_digit

-- Behind a leading plus sign; a lone sign has no digit.
digits_of : (max : ℕ) → Text → Result ℕ ParseIntError
unfolding scan
digits_of max [] = err invalid_digit
digits_of max (c ∷ s) = scan max 0 (c ∷ s)

-- `parse::<T>()` for an unsigned `T` with the greatest value `max`.
unfoldable pub parse_unsigned : (max : ℕ) → Text → Result ℕ ParseIntError
unfolding scan digits_of is_digit
parse_unsigned max [] = err empty_text
parse_unsigned max (c ∷ s) = if c == b'+' then digits_of max s else scan max 0 (c ∷ s)

abbrev pub IsDigit : ℕ → Type 0
IsDigit c = (b'0' ≤ c) × (c ≤ b'9')

-- The number that digits spell behind `acc`.
abbrev pub spelled : ℕ → Text → ℕ
spelled acc [] = acc
spelled acc (c ∷ s) = spelled (acc * 10 + (c - b'0')) s

-- One or more digits that spell `n`, with a plus sign or without.
pub record IsNumeral (s : Text) (n : ℕ) : Type 0 where
  pub digits : Text
  pub signed : (s ≡ digits) ⊎ (s ≡ b'+' ∷ digits)
  pub nonempty_digits : digits ≢ []
  pub all_digits : All IsDigit digits
  pub spells : spelled 0 digits ≡ n

le-spelled : (acc : ℕ) (s : Text) → acc ≤ spelled acc s
le-spelled acc [] = omega arith
le-spelled acc (c ∷ s) = omega (arith, le-spelled (acc * 10 + (c - b'0')) s)

scan_sound :
    (max acc n : ℕ) (s : Text)
    → acc ≤ max
    → scan max acc s ≡ ok n
    → All IsDigit s × (spelled acc s ≡ n) × (n ≤ max)
unfolding scan is_digit
scan_sound max acc n [] h e = ground arith
scan_sound max acc n (c ∷ s) h e = ground (arith, scan_sound max (acc * 10 + (c - b'0')) n s)

scan_complete :
    (max acc n : ℕ) (s : Text) → All IsDigit s → spelled acc s ≡ n → n ≤ max → scan max acc s ≡ ok n
unfolding scan is_digit
scan_complete max acc n [] d e h = ground arith
scan_complete max acc n (c ∷ s) (dc, ds) e h =
    let m = acc * 10 + (c - b'0') in ground (arith, scan_complete max m n s ds e h, le-spelled m s)

starts_with_digit :
    (c : ℕ) (s : Text) (max : ℕ) → IsDigit c → parse_unsigned max (c ∷ s) ≡ scan max 0 (c ∷ s)
unfolding parse_unsigned
starts_with_digit c s max h = ground arith

digits_of-scan : (max : ℕ) (s : Text) → s ≢ [] → digits_of max s ≡ scan max 0 s
unfolding digits_of
digits_of-scan max [] h = absurd (h refl)
digits_of-scan max (c ∷ s) h = refl

signed-digits_of : (max : ℕ) (s : Text) → parse_unsigned max (b'+' ∷ s) ≡ digits_of max s
unfolding parse_unsigned
signed-digits_of max s = refl

parse_unsigned-scan :
    (max : ℕ) (s : Text) → s ≢ [] → All IsDigit s → parse_unsigned max s ≡ scan max 0 s
parse_unsigned-scan max [] h d = absurd (h refl)
parse_unsigned-scan max (c ∷ s) h d = starts_with_digit c s max d.0

scan-IsNumeral :
    (max n : ℕ) (s : Text) (c : ℕ) (ds : Text)
    → (s ≡ c ∷ ds) ⊎ (s ≡ b'+' ∷ c ∷ ds)
    → scan max 0 (c ∷ ds) ≡ ok n
    → IsNumeral s n × (n ≤ max)
scan-IsNumeral max n s c ds sign e =
    let (all, spells, fits) = scan_sound max 0 n (c ∷ ds) (omega arith) e in
    (
      record {
        digits = c ∷ ds;
        signed = sign;
        nonempty_digits = λ z. cc z;
        all_digits = all;
        spells = spells;
      },
      fits,
    )

parse_unsigned_sound :
    (max n : ℕ) (s : Text) → parse_unsigned max s ≡ ok n → IsNumeral s n × (n ≤ max)
unfolding parse_unsigned digits_of
parse_unsigned_sound max n [] e = cc e
parse_unsigned_sound max n (c ∷ []) e = elim (Bool-cases (c == b'+')) [
  | inl p ↦ absurd (ground (arith, p, e))
  | inr q ↦ scan-IsNumeral max n (c ∷ []) c [] (inl refl) (rw q at e)
]
parse_unsigned_sound max n (c ∷ d ∷ s) e = elim (Bool-cases (c == b'+')) [
  | inl p ↦ scan-IsNumeral max n (c ∷ d ∷ s) d s (inr (ground (arith, p))) (rw p at e)
  | inr q ↦ scan-IsNumeral max n (c ∷ d ∷ s) c (d ∷ s) (inl refl) (rw q at e)
]

parse_unsigned_complete :
    (max n : ℕ) (s : Text) → IsNumeral s n → n ≤ max → parse_unsigned max s ≡ ok n
parse_unsigned_complete max n s h fits =
    let scanned = scan_complete max 0 n h.digits h.all_digits h.spells fits in
    elim h.signed [
      | inl e ↦ rw e (parse_unsigned-scan max h.digits h.nonempty_digits h.all_digits ∙ scanned)
      | inr e ↦
          rw e (
            signed-digits_of max h.digits ∙ digits_of-scan max h.digits h.nonempty_digits ∙ scanned)
    ]

-- The parser accepts exactly the numerals that fit, with their value.
pub parse_unsigned_iff :
    (max n : ℕ) (s : Text) → (parse_unsigned max s ≡ ok n) ↔ (IsNumeral s n × (n ≤ max))
parse_unsigned_iff max n s =
    (parse_unsigned_sound max n s, λ h. parse_unsigned_complete max n s h.0 h.1)

spelled-append : (acc : ℕ) (s t : Text) → spelled acc (s ++ t) ≡ spelled (spelled acc s) t
spelled-append acc [] t = refl
spelled-append acc (c ∷ s) t = spelled-append (acc * 10 + (c - b'0')) s t

decimal_fuel-numeral :
    (f n : ℕ)
    → n < f
    → (spelled 0 (decimal_fuel f n) ≡ n) × All IsDigit (decimal_fuel f n) × (decimal_fuel f n ≢ [])
unfolding decimal_fuel
decimal_fuel-numeral zero n h = absurd (omega arith)
decimal_fuel-numeral (suc f) n h = elim (Bool-cases (ltb n 10)) [
  | inl e ↦ rw e (ground (arith, e), ground (arith, e), λ z. cc z)
  | inr e ↦
      (let front = decimal_fuel f (n / 10) in
        let last = (b'0' + n % 10) ∷ [] in
        let (value, all, more) = decimal_fuel-numeral f (n / 10) (ground (arith, e)) in
        rw e (
          omega (arith, spelled-append 0 front last, value),
          All-append IsDigit front last all (omega arith),
          λ z. more ((append-eq-nil_iff.0 z).0),
        ))
]

-- The digits that `Display` prints are a numeral of the number.
pub decimal-IsNumeral : (n : ℕ) → IsNumeral (decimal n) n
unfolding decimal
decimal-IsNumeral n =
    let (value, all, more) = decimal_fuel-numeral (suc n) n (omega arith) in
    record {
      digits = decimal n;
      signed = inl refl;
      nonempty_digits = more;
      all_digits = all;
      spells = value;
    }

-- `Display` prints digits only.
pub decimal_digits : (n : ℕ) → All IsDigit (decimal n)
unfolding decimal
decimal_digits n = (decimal_fuel-numeral (suc n) n (omega arith)).1

scan-no_panic : (max acc : ℕ) (s : Text) → scan max acc s ≢ panic
unfolding scan
scan-no_panic max acc [] = λ h. cc h
scan-no_panic max acc (c ∷ s) = λ h. ground (arith, scan-no_panic max (acc * 10 + (c - b'0')) s, h)

pub parse_unsigned-no_panic : (max : ℕ) (s : Text) → parse_unsigned max s ≢ panic
unfolding parse_unsigned digits_of
parse_unsigned-no_panic max [] = λ h. cc h
parse_unsigned-no_panic max (c ∷ []) = λ h. ground (arith, scan-no_panic max 0 (c ∷ []), h)
parse_unsigned-no_panic max (c ∷ d ∷ s) =
    λ h. ground (arith, scan-no_panic max 0 (c ∷ d ∷ s), scan-no_panic max 0 (d ∷ s), h)
