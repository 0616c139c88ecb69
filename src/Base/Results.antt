-- ===== src/Base/Results.antt =====
-- Results with errors as values.
use mathlib.Core.Path.{◌≡◌, refl}
use mathlib.Core.Bool.{Bool, true, false}
use mathlib.Core.Option.{Option, none, some}

pub data Result {ℓ κ} (E : Type ℓ) (A : Type κ) : Type (ℓ ⊔ κ) where
  ok : A → Result E A
  err : E → Result E A

infixl 5 ◌>>=◌ ◌>>◌
abbrev pub ◌>>=◌ {ℓ κ μ} :
    {E : Type ℓ} {A : Type κ} {B : Type μ} → Result E A → (A → Result E B) → Result E B
err stop >>= rest = err stop
ok result >>= rest = rest result

abbrev pub ◌>>◌ {ℓ μ} : {E : Type ℓ} {B : Type μ} → Result E (Unit {0}) → Result E B → Result E B
check >> rest = check >>= λ _. rest

-- An early return where `bad` holds.
abbrev pub fail_if {ℓ} : {E : Type ℓ} → Bool → E → Result E (Unit {0})
fail_if true e = err e
fail_if false e = ok tt

abbrev pub or_fail {ℓ κ} : {E : Type ℓ} {A : Type κ} → Option A → E → Result E A
or_fail none e = err e
or_fail (some a) e = ok a

-- A chain that ends in `ok` has gone through each of its steps.
module _ {ℓ κ μ} {E : Type ℓ} {A : Type κ} {B : Type μ} {end : B} where
  pub >>=-eq-ok :
      (step : Result E A) (rest : A → Result E B)
      → (step >>= rest) ≡ ok end
      → (result : A) × (step ≡ ok result) × (rest result ≡ ok end)
  >>=-eq-ok (err stop) rest h = cc
  >>=-eq-ok (ok result) rest h = (result, refl, h)

  pub or_fail->>=-eq-ok :
      (found : Option A) (stop : E) (rest : A → Result E B)
      → (or_fail found stop >>= rest) ≡ ok end
      → (result : A) × (found ≡ some result) × (rest result ≡ ok end)
  or_fail->>=-eq-ok none stop rest h = cc
  or_fail->>=-eq-ok (some result) stop rest h = (result, refl, h)

pub or_fail-eq-ok {ℓ κ} :
    {E : Type ℓ} {A : Type κ} (o : Option A) (e : E) {a : A} → or_fail o e ≡ ok a → o ≡ some a
or_fail-eq-ok none e h = cc
or_fail-eq-ok (some a) e h = cc

pub fail_if->>-eq-ok {ℓ μ} :
    {E : Type ℓ} {B : Type μ} (bad : Bool) (e : E) (rest : Result E B) {b : B}
    → (fail_if bad e >> rest) ≡ ok b
    → (bad ≡ false) × (rest ≡ ok b)
fail_if->>-eq-ok true e rest h = cc
fail_if->>-eq-ok false e rest h = (refl, h)

pub ok-eq {ℓ κ} : {E : Type ℓ} {A : Type κ} {a b : A} → ◌≡◌ {A = Result E A} (ok a) (ok b) → a ≡ b
ok-eq h = cc

-- An error that is passed on under another name.
abbrev pub failing {ℓ κ} : {E : Type ℓ} {A : Type κ} → E → Result E A → Result E A
failing e (err stop) = err e
failing e (ok result) = ok result

pub failing->>=-eq-ok {ℓ κ μ} :
    {E : Type ℓ} {A : Type κ} {B : Type μ} (e : E) (step : Result E A) (rest : A → Result E B)
    {end : B}
    → (failing e step >>= rest) ≡ ok end
    → (result : A) × (step ≡ ok result) × (rest result ≡ ok end)
failing->>=-eq-ok e (err stop) rest h = cc
failing->>=-eq-ok e (ok result) rest h = (result, refl, h)

pub failing-eq-ok {ℓ κ} :
    {E : Type ℓ} {A : Type κ} (e : E) (step : Result E A) {result : A}
    → failing e step ≡ ok result
    → step ≡ ok result
failing-eq-ok e (err stop) h = cc
failing-eq-ok e (ok result) h = h
