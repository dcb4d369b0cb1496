-- ===== src/Base/Results.antt =====
-- A Go function that returns `(value, error)`, over a type of errors.
use mathlib.Core.Path.{◌≡◌, refl, subst}
use mathlib.Core.Bool.{Bool, true, false}
use mathlib.Core.Logic.{◌⊎◌, inl, inr}
use mathlib.Core.Option.{Option, none, some}

pub data Result {ℓ κ} (E : Type ℓ) (A : Type κ) : Type (ℓ ⊔ κ) where
  ok : A → Result E A
  err : E → Result E A

infixl 5 ◌>>=◌ ◌>>◌
abbrev pub ◌>>=◌ {ℓ κ ν} :
    {E : Type ℓ} {A : Type κ} {B : Type ν} → Result E A → (A → Result E B) → Result E B
err e >>= next = err e
ok a >>= next = next a

abbrev pub ◌>>◌ {ℓ κ} : {E : Type ℓ} {B : Type κ} → Result E (Unit {0}) → Result E B → Result E B
first >> then_do = first >>= λ _. then_do

-- `if !test { return e }`
abbrev pub guard {ℓ} : {E : Type ℓ} → Bool → E → Result E (Unit {0})
guard true e = ok tt
guard false e = err e

-- `if test { return e }`
abbrev pub refuse {ℓ} : {E : Type ℓ} → Bool → E → Result E (Unit {0})
refuse true e = err e
refuse false e = ok tt

-- `value, found := m[k]; if !found { return e }`
abbrev pub expect {ℓ κ} : {E : Type ℓ} {A : Type κ} → Option A → E → Result E A
expect none e = err e
expect (some a) e = ok a

-- `_, found := m[k]`
abbrev pub is_found {ℓ} : {A : Type ℓ} → Option A → Bool
is_found none = false
is_found (some a) = true

-- `fmt.Errorf("…: %w", err)`
abbrev pub wrap {ℓ κ ν} : {E : Type ℓ} {F : Type κ} {A : Type ν} → (E → F) → Result E A → Result F A
wrap f (ok a) = ok a
wrap f (err e) = err (f e)

-- Inversion of steps that succeeded.
module _ {ℓ κ} {E : Type ℓ} where
  pub >>=-eq-ok {ν} :
      {A : Type κ} {B : Type ν} (first : Result E A) (next : A → Result E B) {out : B}
      → (first >>= next) ≡ ok out
      → (value : A) × (first ≡ ok value) × (next value ≡ ok out)
  >>=-eq-ok (err e) next h = cc
  >>=-eq-ok (ok value) next h = (value, refl, h)

  pub guard-eq-ok :
      {B : Type κ} (t : Bool) (e : E) (k : Result E B) {b : B}
      → (guard t e >> k) ≡ ok b
      → (t ≡ true) × (k ≡ ok b)
  guard-eq-ok true e k h = (refl, h)
  guard-eq-ok false e k h = cc

  pub refuse-eq-ok :
      {B : Type κ} (t : Bool) (e : E) (k : Result E B) {b : B}
      → (refuse t e >> k) ≡ ok b
      → (t ≡ false) × (k ≡ ok b)
  refuse-eq-ok false e k h = (refl, h)
  refuse-eq-ok true e k h = cc

  pub wrap-eq-ok {ν} :
      {F : Type ν} {A : Type κ} (f : E → F) (m : Result E A) {a : A} → wrap f m ≡ ok a → m ≡ ok a
  wrap-eq-ok f (ok a) h = cc
  wrap-eq-ok f (err e) h = cc

pub expect-eq-ok {ℓ κ} :
    {E : Type ℓ} {A : Type κ} (o : Option A) (e : E) {a : A} → expect o e ≡ ok a → o ≡ some a
expect-eq-ok none e h = cc
expect-eq-ok (some a) e h = cc

pub Option-cases {ℓ} : {A : Type ℓ} (o : Option A) → (o ≡ none) ⊎ ((a : A) × (o ≡ some a))
Option-cases none = inl refl
Option-cases (some a) = inr (a, refl)

pub Result-cases {ℓ κ} :
    {E : Type ℓ} {A : Type κ} (r : Result E A) → ((a : A) × (r ≡ ok a)) ⊎ ((e : E) × (r ≡ err e))
Result-cases (ok a) = inl (a, refl)
Result-cases (err e) = inr (e, refl)

pub ok_unique {ℓ κ} :
    {E : Type ℓ} {A : Type κ} {a b : A} (r : Result E A) → r ≡ ok a → r ≡ ok b → a ≡ b
ok_unique r h k = cc

-- What holds of the error, if the result is one.
abbrev pub Refused {ℓ κ ν} : {E : Type ℓ} {A : Type κ} → (E → Type ν) → Result E A → Type ν
Refused P (ok a) = Unit
Refused P (err e) = P e

module _ {ℓ ν} {E : Type ℓ} (P : E → Type ν) where
  pub Refused-bind {κ μ} :
      {A : Type κ} {B : Type μ} (m : Result E A) (f : A → Result E B)
      → Refused P m
      → ((a : A) → Refused P (f a))
      → Refused P (m >>= f)
  Refused-bind (ok a) f h k = k a
  Refused-bind (err e) f h k = h

  pub Refused-guard : (t : Bool) (e : E) → P e → Refused P (guard t e)
  Refused-guard true e h = tt
  Refused-guard false e h = h

  pub Refused-refuse : (t : Bool) (e : E) → P e → Refused P (refuse t e)
  Refused-refuse true e h = h
  Refused-refuse false e h = tt

  pub Refused-expect {κ} : {A : Type κ} (o : Option A) (e : E) → P e → Refused P (expect o e)
  Refused-expect none e h = h
  Refused-expect (some a) e h = tt

  pub Refused-wrap {κ μ} :
      {F : Type κ} {A : Type μ} (f : F → E) (r : Result F A)
      → ((e : F) → P (f e))
      → Refused P (wrap f r)
  Refused-wrap f (ok a) h = tt
  Refused-wrap f (err e) h = h e

  pub Refused-err {κ} : {A : Type κ} (r : Result E A) (e : E) → Refused P r → r ≡ err e → P e
  Refused-err (ok a) e h k = cc
  Refused-err (err d) e h k = let same : d ≡ e = cc in subst P same h
