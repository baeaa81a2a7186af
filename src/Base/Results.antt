-- ===== src/Base/Results.antt =====
-- Results of code that raises: a value, or the error that was raised.
use alpha_desk.Base.{if◌then◌else◌, Bool, true, false, ◌≡◌, ◌⊎◌, inl, inr, refl}

pub data Result {ℓ κ} (E : Type ℓ) (A : Type κ) : Type (ℓ ⊔ κ) where
  ok : A → Result E A
  err : E → Result E A

infixl 5 ◌>>=◌ ◌>>◌
abbrev pub ◌>>=◌ {ℓ κ ι} :
    {E : Type ℓ} {A : Type κ} {B : Type ι} → Result E A → (A → Result E B) → Result E B
ok a >>= f = f a
err e >>= _ = err e

abbrev pub ◌>>◌ {ℓ ι} : {E : Type ℓ} {B : Type ι} → Result E (Unit {0}) → Result E B → Result E B
m >> k = m >>= λ _. k

-- `if not condition: raise error`
abbrev pub require {ℓ} : {E : Type ℓ} → Bool → E → Result E (Unit {0})
require true _ = ok tt
require false e = err e

-- Inversion of a successful bind and of a test that has passed.
pub bind-ok {ℓ κ ι} :
    {E : Type ℓ} {A : Type κ} {B : Type ι} (m : Result E A) (f : A → Result E B) {b : B}
    → (m >>= f) ≡ ok b
    → (a : A) × (m ≡ ok a) × (f a ≡ ok b)
bind-ok (ok a) f h = (a, refl, h)
bind-ok (err e) f h = cc

pub require-ok {ℓ κ} :
    {E : Type ℓ} {B : Type κ} (c : Bool) (e : E) (m : Result E B) {b : B}
    → (require c e >> m) ≡ ok b
    → (c ≡ true) × (m ≡ ok b)
require-ok true e m h = (refl, h)
require-ok false e m h = cc

pub ok-injective {ℓ κ} :
    {E : Type ℓ} {A : Type κ} (a b : A) → ◌≡◌ {A = Result E A} (ok a) (ok b) → a ≡ b
ok-injective a b h = cc

-- Inversion of a result under a test.
pub if-ok {ℓ κ} :
    {E : Type ℓ} {A : Type κ} (c : Bool) (a b : A) (e : E)
    → ◌≡◌ {A = Result E A} (if c then ok a else err e) (ok b)
    → (c ≡ true) × (a ≡ b)
if-ok true a b e h = (refl, ok-injective a b h)
if-ok false a b e h = cc

pub else-ok {ℓ κ} :
    {E : Type ℓ} {A : Type κ} (c : Bool) (a b : A) (e : E)
    → ◌≡◌ {A = Result E A} (if c then err e else ok a) (ok b)
    → (c ≡ false) × (a ≡ b)
else-ok true a b e h = cc
else-ok false a b e h = (refl, ok-injective a b h)

pub Result-cases {ℓ κ} :
    {E : Type ℓ} {A : Type κ} (r : Result E A) → ((a : A) × (r ≡ ok a)) ⊎ ((e : E) × (r ≡ err e))
Result-cases (ok a) = inl (a, refl)
Result-cases (err e) = inr (e, refl)

pub require-pass {ℓ κ} :
    {E : Type ℓ} {A : Type κ} {c : Bool} (e : E) (m : Result E A)
    → c ≡ true
    → (require c e >> m) ≡ m
require-pass e m h = rw h refl

-- A result behind three tests that all pass.
pub require-three {ℓ κ} :
    {E : Type ℓ} {A : Type κ} {c₁ c₂ c₃ : Bool} (e₁ e₂ e₃ : E) (a : A)
    → c₁ ≡ true
    → c₂ ≡ true
    → c₃ ≡ true
    → (b : A) × ((require c₁ e₁ >> (require c₂ e₂ >> (require c₃ e₃ >> ok a))) ≡ ok b)
require-three e₁ e₂ e₃ a h₁ h₂ h₃ = (a, simp (h₁, h₂, h₃) refl)

pub err≢ok {ℓ κ} : {E : Type ℓ} {A : Type κ} {e : E} {a : A} → ¬ ◌≡◌ {A = Result E A} (err e) (ok a)
err≢ok h = cc
