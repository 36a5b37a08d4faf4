-- ===== src/Prelude/Results.antt =====
-- `Result`: an error or a value, with `?` as the bind of a `do` block.
use mathlib.Core.Path.{◌≡◌, refl}
use mathlib.Core.Logic.{◌⊎◌, inl, inr}
use mathlib.Core.Option.{Option, none, some}

pub data Result {ℓ κ} (E : Type ℓ) (A : Type κ) : Type (ℓ ⊔ κ) where
  ok : A → Result E A
  err : E → Result E A

infixl 5 ◌>>=◌ ◌>>◌
abbrev pub ◌>>=◌ {ℓ κ μ} :
    {E : Type ℓ} {A : Type κ} {B : Type μ} → Result E A → (A → Result E B) → Result E B
ok a >>= f = f a
err e >>= f = err e

abbrev pub ◌>>◌ {ℓ κ μ} :
    {E : Type ℓ} {A : Type κ} {B : Type μ} → Result E A → Result E B → Result E B
m >> k = m >>= λ _. k

-- `ok_or_else`, `map_err` and `ok`.
abbrev pub ok_or {ℓ κ} : {E : Type ℓ} {A : Type κ} → Option A → E → Result E A
ok_or none e = err e
ok_or (some a) e = ok a

abbrev pub map_err {ℓ κ μ} :
    {E : Type ℓ} {F : Type μ} {A : Type κ} → (E → F) → Result E A → Result F A
map_err f (ok a) = ok a
map_err f (err e) = err (f e)

abbrev pub to_option {ℓ κ} : {E : Type ℓ} {A : Type κ} → Result E A → Option A
to_option (ok a) = some a
to_option (err e) = none

module _ {ℓ κ} {E : Type ℓ} {A : Type κ} where
  pub Result-cases : (r : Result E A) → ((a : A) × (r ≡ ok a)) ⊎ ((e : E) × (r ≡ err e))
  Result-cases (ok a) = inl (a, refl)
  Result-cases (err e) = inr (e, refl)

  pub ok-injective : {a b : A} → ◌≡◌ {A = Result E A} (ok a) (ok b) → a ≡ b
  ok-injective h = cc

  pub to_option-eq-some : (r : Result E A) {a : A} → to_option r ≡ some a → r ≡ ok a
  to_option-eq-some (ok a) h = cc
  to_option-eq-some (err e) h = cc

  pub bind-eq-ok {μ} :
      {B : Type μ} (m : Result E A) (f : A → Result E B) {b : B}
      → (m >>= f) ≡ ok b
      → (a : A) × (m ≡ ok a) × (f a ≡ ok b)
  bind-eq-ok (ok a) f h = (a, refl, h)
  bind-eq-ok (err e) f h = cc

  pub bind-eq-err {μ} :
      {B : Type μ} (m : Result E A) (f : A → Result E B) {e : E}
      → (m >>= f) ≡ err e
      → (m ≡ err e) ⊎ ((a : A) × (m ≡ ok a) × (f a ≡ err e))
  bind-eq-err (ok a) f h = inr (a, refl, h)
  bind-eq-err (err d) f h = inl cc

module _ {ℓ κ μ} {E : Type ℓ} {F : Type μ} {A : Type κ} (f : E → F) where
  pub map_err-eq-ok : (r : Result E A) {a : A} → map_err f r ≡ ok a → r ≡ ok a
  map_err-eq-ok (ok a) h = cc
  map_err-eq-ok (err e) h = cc

  pub map_err-eq-err :
      (r : Result E A) {e : F} → map_err f r ≡ err e → (d : E) × (r ≡ err d) × (f d ≡ e)
  map_err-eq-err (ok a) h = cc
  map_err-eq-err (err d) h = (d, refl, cc)

pub ok_or-eq-err {ℓ κ} :
    {E : Type ℓ} {A : Type κ} (o : Option A) (d : E) {e : E} → ok_or o d ≡ err e → d ≡ e
ok_or-eq-err none d h = cc
ok_or-eq-err (some a) d h = cc

pub ok_or-eq-ok {ℓ κ} :
    {E : Type ℓ} {A : Type κ} (o : Option A) (d : E) {a : A} → ok_or o d ≡ ok a → o ≡ some a
ok_or-eq-ok none d h = cc
ok_or-eq-ok (some a) d h = cc
