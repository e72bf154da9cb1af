-- ===== src/Server/Exposition/Scrape.antt =====
-- A scraper of the metrics text of server/src/main.rs.
use mathlib.Core.List.{append_assoc}
use agenc_prover.Base.{
  ℕ, ◌≡◌, refl, ap, ◌∙◌, Bool, true, false, ◌&&◌, not, Bool-cases, inl, inr, List, [], ◌∷◌, ◌++◌,
  concat, map, All, Option, none, some, Text, text, ◌==◌, if◌then◌else◌, arith,
}
use agenc_prover.Server.Exposition.{Family, writeln, write_metric_help, write_sample, write_family}

put : ℕ → List Text → List Text
put c [] = (c ∷ []) ∷ []
put c (l ∷ ls) = (c ∷ l) ∷ ls

-- The lines of a text.
unfoldable pub lines : Text → List Text
unfolding put
lines [] = []
lines (c ∷ s) = if c == 10 then [] ∷ lines s else put c (lines s)

-- A line at its last space.
unfoldable pub last_space : Text → Option (Text × Text)
last_space [] = none
last_space (c ∷ s) = elim (last_space s) [
  | some (a, b) ↦ some (c ∷ a, b)
  | none ↦ if c == 0x20 then some ([], s) else none
]

-- The sample in a line: none in a comment, else the series and the value behind the last space.
unfoldable pub sample_of : Text → List (Text × Text)
unfolding last_space
sample_of [] = []
sample_of (c ∷ s) =
    if c == b'#' then [] else (elim (last_space (c ∷ s)) [ none ↦ [] | some sample ↦ sample ∷ [] ])

-- All samples of a text.
unfoldable pub scrape : Text → List (Text × Text)
unfolding lines sample_of
scrape s = concat (map sample_of (lines s))

-- That a text has no code point `c`.
abbrev pub without : ℕ → Text → Bool
without c [] = true
without c (d ∷ s) = not (d == c) && without c s

-- That a text begins, and not as a comment does.
abbrev pub begins : Text → Bool
begins [] = false
begins (c ∷ s) = not (c == b'#')

-- A series and a value that a line can hold.
abbrev pub IsSample : Text × Text → Type 0
IsSample (series, value) =
    (begins series ≡ true)
    × (without 10 series ≡ true)
    × (without 10 value ≡ true)
    × (without 0x20 value ≡ true)

pub record IsPrintable (m : Family) : Type 0 where
  pub name_line : without 10 m.name ≡ true
  pub help_line : without 10 m.help ≡ true
  pub kind_line : without 10 m.kind ≡ true
  pub each_sample : All IsSample m.samples

pub without-append : (c : ℕ) (s t : Text) → without c (s ++ t) ≡ without c s && without c t
without-append c [] t = refl
without-append c (d ∷ s) t = ground (arith, without-append c s t)

pub append-without :
    (c : ℕ) (s t : Text) → without c s ≡ true → without c t ≡ true → without c (s ++ t) ≡ true
append-without c s t hs ht = without-append c s t ∙ rw hs ht

lines-line : (l rest : Text) → without 10 l ≡ true → lines (l ++ 10 ∷ rest) ≡ l ∷ lines rest
unfolding lines put
lines-line [] rest h = refl
lines-line (c ∷ l) rest h = ground (arith, lines-line l rest, h)

last_space-none : (s : Text) → without 0x20 s ≡ true → last_space s ≡ none
unfolding last_space
last_space-none [] h = refl
last_space-none (c ∷ s) h = ground (arith, last_space-none s, h)

last_space-value :
    (series value : Text)
    → without 0x20 value ≡ true
    → last_space (series ++ 0x20 ∷ value) ≡ some (series, value)
unfolding last_space
last_space-value [] value h = rw (last_space-none value h) refl
last_space-value (c ∷ s) value h = rw (last_space-value s value h) refl

sample_of-value :
    (series value : Text)
    → begins series ≡ true
    → without 0x20 value ≡ true
    → sample_of (series ++ 0x20 ∷ value) ≡ (series, value) ∷ []
unfolding sample_of
sample_of-value [] value b h = cc b
sample_of-value (c ∷ s) value b h = elim (Bool-cases (c == b'#')) [
  | inl e ↦ absurd (ground (arith, e, b))
  | inr e ↦ rw e (rw (last_space-value (c ∷ s) value h) refl)
]

scrape-line :
    (l rest : Text) → without 10 l ≡ true → scrape (writeln l ++ rest) ≡ sample_of l ++ scrape rest
unfolding scrape
scrape-line l rest h =
    ap scrape (append_assoc l (10 ∷ []) rest)
    ∙ ap (λ ls. concat (map sample_of ls)) (lines-line l rest h)

scrape-sample :
    (series value rest : Text)
    → IsSample (series, value)
    → scrape (write_sample (series, value) ++ rest) ≡ (series, value) ∷ scrape rest
unfolding write_sample
scrape-sample series value rest (b, s, v, n) =
    scrape-line (series ++ 0x20 ∷ value) rest (append-without 10 series (0x20 ∷ value) s v)
    ∙ ap (λ x. x ++ scrape rest) (sample_of-value series value b n)

scrape-samples :
    (xs : List (Text × Text)) (rest : Text)
    → All IsSample xs
    → scrape (concat (map write_sample xs) ++ rest) ≡ xs ++ scrape rest
scrape-samples [] rest h = refl
scrape-samples ((s, v) ∷ xs) rest (h, hs) =
    ap scrape (append_assoc (write_sample (s, v)) (concat (map write_sample xs)) rest)
    ∙ scrape-sample s v (concat (map write_sample xs) ++ rest) h
    ∙ ap (λ x. (s, v) ∷ x) (scrape-samples xs rest hs)

-- A comment line has no sample.
scrape-comment :
    (l rest : Text) → without 10 l ≡ true → scrape (writeln (b'#' ∷ l) ++ rest) ≡ scrape rest
unfolding sample_of
scrape-comment l rest h = scrape-line (b'#' ∷ l) rest h

scrape-comments :
    (l k rest : Text)
    → without 10 l ≡ true
    → without 10 k ≡ true
    → scrape ((writeln (b'#' ∷ l) ++ writeln (b'#' ∷ k)) ++ rest) ≡ scrape rest
scrape-comments l k rest hl hk =
    ap scrape (append_assoc (writeln (b'#' ∷ l)) (writeln (b'#' ∷ k)) rest)
    ∙ scrape-comment l (writeln (b'#' ∷ k) ++ rest) hl
    ∙ scrape-comment k rest hk

without-pair :
    (before x y : Text)
    → without 10 before ≡ true
    → without 10 x ≡ true
    → without 10 y ≡ true
    → without 10 (before ++ (x ++ 0x20 ∷ y)) ≡ true
without-pair before x y hb hx hy =
    append-without 10 before (x ++ 0x20 ∷ y) hb (append-without 10 x (0x20 ∷ y) hx hy)

scrape-help :
    (name help kind rest : Text)
    → without 10 name ≡ true
    → without 10 help ≡ true
    → without 10 kind ≡ true
    → scrape (write_metric_help name help kind ++ rest) ≡ scrape rest
unfolding write_metric_help text
scrape-help name help kind rest hn hh hk =
    scrape-comments (text " HELP " ++ (name ++ 0x20 ∷ help))
      (text " TYPE " ++ (name ++ 0x20 ∷ kind)) rest
      (without-pair (text " HELP ") name help refl hn hh)
      (without-pair (text " TYPE ") name kind refl hn hk)

scrape-family :
    (m : Family) (rest : Text)
    → IsPrintable m
    → scrape (write_family m ++ rest) ≡ m.samples ++ scrape rest
unfolding write_family
scrape-family m rest h =
    let helped = write_metric_help m.name m.help m.kind in
    let samples = concat (map write_sample m.samples) in
    ap scrape (append_assoc helped samples rest)
    ∙ scrape-help m.name m.help m.kind (samples ++ rest) h.name_line h.help_line h.kind_line
    ∙ scrape-samples m.samples rest h.each_sample

-- From the text of families that lines can hold, a scraper reads their samples in their order.
pub scrape-families :
    (ms : List Family)
    → All IsPrintable ms
    → scrape (concat (map write_family ms)) ≡ concat (map (λ m. m.samples) ms)
unfolding scrape lines sample_of
scrape-families [] h = refl
scrape-families (m ∷ ms) (h, hs) =
    scrape-family m (concat (map write_family ms)) h
    ∙ ap (λ x. m.samples ++ x) (scrape-families ms hs)
