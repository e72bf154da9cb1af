-- ===== src/Base/Results.antt =====
-- `Result` of Rust, with a third case for a panic.
use mathlib.Core.Path.{◌≡◌, refl}
use mathlib.Core.Logic.{◌≢◌}
use mathlib.Core.Option.{Option, none, some}

pub data Result {ℓ κ} (A : Type ℓ) (E : Type κ) : Type (ℓ ⊔ κ) where
  ok : A → Result A E
  err : E → Result A E
  panic : Result A E

infixl 5 ◌>>=◌ ◌>>◌
-- `?`, and what follows it.
abbrev pub ◌>>=◌ {ℓ κ μ} :
    {A : Type ℓ} {B : Type κ} {E : Type μ} → Result A E → (A → Result B E) → Result B E
ok a >>= f = f a
err e >>= f = err e
panic >>= f = panic

abbrev pub ◌>>◌ {ℓ κ μ} :
    {A : Type ℓ} {B : Type κ} {E : Type μ} → Result A E → Result B E → Result B E
m >> k = m >>= λ _. k

-- A computation that returns or panics (`none`), inside a fallible one.
abbrev pub lift {ℓ κ} : {A : Type ℓ} {E : Type κ} → Option A → Result A E
lift none = panic
lift (some a) = ok a

abbrev pub map_err {ℓ κ μ} :
    {A : Type ℓ} {E : Type κ} {F : Type μ} → Result A E → (E → F) → Result A F
map_err (ok a) f = ok a
map_err (err e) f = err (f e)
map_err panic f = panic

pub >>=-eq-ok {ℓ κ μ} :
    {A : Type ℓ} {B : Type κ} {E : Type μ} (m : Result A E) (f : A → Result B E) {b : B}
    → (m >>= f) ≡ ok b
    → (result : A) × (m ≡ ok result) × (f result ≡ ok b)
>>=-eq-ok (ok result) f h = (result, refl, h)
>>=-eq-ok (err e) f h = cc
>>=-eq-ok panic f h = cc

pub ok_inj {ℓ κ} : {A : Type ℓ} {E : Type κ} {a b : A} → ◌≡◌ {A = Result A E} (ok a) (ok b) → a ≡ b
ok_inj h = cc

pub err_inj {ℓ κ} :
    {A : Type ℓ} {E : Type κ} {a b : E} → ◌≡◌ {A = Result A E} (err a) (err b) → a ≡ b
err_inj h = cc

pub map_err-eq-ok {ℓ κ μ} :
    {A : Type ℓ} {E : Type κ} {F : Type μ} (m : Result A E) (f : E → F) {a : A}
    → map_err m f ≡ ok a
    → m ≡ ok a
map_err-eq-ok (ok a) f h = cc
map_err-eq-ok (err e) f h = cc
map_err-eq-ok panic f h = cc

pub lift-eq-ok {ℓ κ} :
    {A : Type ℓ} {E : Type κ} (m : Option A) {a : A} → lift {E = E} m ≡ ok a → m ≡ some a
lift-eq-ok none h = cc
lift-eq-ok (some a) h = cc

-- A chain panics only where one of its parts does.
pub >>=-no_panic {ℓ κ μ} :
    {A : Type ℓ} {B : Type κ} {E : Type μ} (m : Result A E) (f : A → Result B E)
    → m ≢ panic
    → ((a : A) → f a ≢ panic)
    → (m >>= f) ≢ panic
>>=-no_panic (ok a) f hm hf = hf a
>>=-no_panic (err e) f hm hf = λ h. cc h
>>=-no_panic panic f hm hf = λ h. hm refl

pub map_err-no_panic {ℓ κ μ} :
    {A : Type ℓ} {E : Type κ} {F : Type μ} (m : Result A E) (f : E → F)
    → m ≢ panic
    → map_err m f ≢ panic
map_err-no_panic (ok a) f hm = λ h. cc h
map_err-no_panic (err e) f hm = λ h. cc h
map_err-no_panic panic f hm = λ h. hm refl
