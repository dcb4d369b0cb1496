-- ===== src/Base/Lists.antt =====
-- Lists measured by native numbers, membership tests, and predicates by recursion.
use Prim.Native.Nat.{ℕ, zero, suc, ◌+◌}
use mathlib.Core.Path.{◌≡◌, refl, sym, ap, subst}
use mathlib.Core.Logic.{inl, inr, ◌≢◌, ◌↔◌}
use mathlib.Core.Bool.{Bool, true, false, ◌&&◌, ◌||◌}
use mathlib.Core.List.{List, [], ◌∷◌, ◌++◌, Memᴰ}
use native.Mathlib.Omega.{arith}
use fluent_task_runtime.Base.Equality.{Eq, ◌==◌, ==_iff, Bool-cases}

module _ {ℓ} {A : Type ℓ} where
  abbrev pub length : List A → ℕ
  length [] = 0
  length (x ∷ xs) = suc (length xs)

  abbrev pub is_empty : List A → Bool
  is_empty [] = true
  is_empty (x ∷ xs) = false

  abbrev pub all : (A → Bool) → List A → Bool
  all p [] = true
  all p (x ∷ xs) = p x && all p xs

  pub length-append : (xs ys : List A) → length (xs ++ ys) ≡ length xs + length ys
  length-append [] ys = omega arith
  length-append (x ∷ xs) ys = omega (arith, length-append xs ys)

module _ {ℓ κ} {A : Type ℓ} (P : A → Type κ) where
  abbrev pub All : List A → Type κ
  All [] = Unit
  All (x ∷ xs) = P x × All xs

  pub All-append : (xs ys : List A) → All xs → All ys → All (xs ++ ys)
  All-append [] ys _ hy = hy
  All-append (x ∷ xs) ys (px, hx) hy = (px, All-append xs ys hx hy)

  pub All-mem : {a : A} {xs : List A} → All xs → Memᴰ a xs → P a
  All-mem h (Memᴰ.head e) = subst P (sym e) h.0
  All-mem h (Memᴰ.tail m) = All-mem h.1 m

pub All-map {ℓ κ ν} :
    {A : Type ℓ} {P : A → Type κ} {Q : A → Type ν} (xs : List A)
    → ((a : A) → P a → Q a)
    → All P xs
    → All Q xs
All-map [] f h = tt
All-map (x ∷ xs) f (p, h) = (f x p, All-map xs f h)

pub All-zip {ℓ κ ν ο} :
    {A : Type ℓ} {P : A → Type κ} {Q : A → Type ν} {R : A → Type ο} (xs : List A)
    → ((a : A) → P a → Q a → R a)
    → All P xs
    → All Q xs
    → All R xs
All-zip [] f h k = tt
All-zip (x ∷ xs) f (p, h) (q, k) = (f x p q, All-zip xs f h k)

-- No element stands in the list twice.
abbrev pub Distinct {ℓ} : {A : Type ℓ} → List A → Type ℓ
Distinct [] = Unit
Distinct (x ∷ xs) = All (λ y. x ≢ y) xs × Distinct xs

module _ {ℓ} {A : Type ℓ} ⦃e : Eq A⦄ where
  -- `containsString`, and the key test of a Go map that serves as a set.
  unfoldable pub contains : List A → A → Bool
  contains [] a = false
  contains (x ∷ xs) a = x == a || contains xs a

  pub contains-mem : {a : A} {xs : List A} → Memᴰ a xs → contains xs a ≡ true
  unfolding contains
  contains-mem (Memᴰ.head p) = ground (arith, p)
  contains-mem (Memᴰ.tail m) = ground (arith, contains-mem m)

  pub mem_of_contains : (a : A) (xs : List A) → contains xs a ≡ true → Memᴰ a xs
  unfolding contains
  mem_of_contains a [] h = cc
  mem_of_contains a (x ∷ xs) h = elim (Bool-cases (x == a)) [
    | inl same ↦ Memᴰ.head (sym ((==_iff x a).0 same))
    | inr other ↦ Memᴰ.tail (mem_of_contains a xs (ground arith))
  ]

  contains-cons-eq-false :
      (x a : A) (xs : List A) → (contains (x ∷ xs) a ≡ false) ↔ ((x ≢ a) × (contains xs a ≡ false))
  unfolding contains
  contains-cons-eq-false x a xs = (λ h. (λ p. ground arith, ground arith), λ h. ground arith)

  pub contains-eq-false_iff : (a : A) (xs : List A) → (contains xs a ≡ false) ↔ All (λ x. x ≢ a) xs
  contains-eq-false_iff a [] = (λ h. tt, λ h. unfold contains in refl)
  contains-eq-false_iff a (x ∷ xs) =
      let (split, join) = contains-cons-eq-false x a xs in
      let (to, from) = contains-eq-false_iff a xs in
      (λ h. ((split h).0, to (split h).1), λ (p, h). join (p, from h))

  pub contains-append :
      (xs ys : List A) (a : A) → contains (xs ++ ys) a ≡ (contains xs a || contains ys a)
  unfolding contains
  contains-append [] ys a = refl
  contains-append (x ∷ xs) ys a = ground (arith, contains-append xs ys a)

  -- No element stands in the list twice, and none of them in `seen`: what a loop that refuses
  -- repeated keys has checked.
  abbrev pub Fresh : List A → List A → Type ℓ
  Fresh seen xs = All (λ x. contains seen x ≡ false) xs × Distinct xs

  pub Fresh-nil : (xs : List A) → Fresh [] xs ↔ Distinct xs
  Fresh-nil xs = (λ h. h.1, λ h. (unseen xs, h))
    where
      unseen : (xs : List A) → All (λ x. contains [] x ≡ false) xs
      unseen [] = tt
      unseen (x ∷ xs) = (unfold contains in refl, unseen xs)

  -- The loop's step: the head is new, and the rest is new beside it.
  pub Fresh-cons :
      (x : A) (seen xs : List A)
      → Fresh seen (x ∷ xs) ↔ ((contains seen x ≡ false) × Fresh (x ∷ seen) xs)
  Fresh-cons x seen xs = (
    λ ((new, unseen), (differ, distinct)). (
      new,
      (All-zip xs (λ y p q. (contains-cons-eq-false x y seen).1 (p, q)) differ unseen, distinct),
    ),
    λ (new, (unseen, distinct)). (
      (new, All-map xs (λ y h. ((contains-cons-eq-false x y seen).0 h).1) unseen),
      (All-map xs (λ y h. ((contains-cons-eq-false x y seen).0 h).0) unseen, distinct),
    ),
  )

  -- The same where the loop appends to what it has seen.
  pub Fresh-snoc : (x : A) (seen xs : List A) → Fresh (x ∷ seen) xs ↔ Fresh (seen ++ x ∷ []) xs
  Fresh-snoc x seen xs = (
    λ (unseen, distinct). (All-map xs (λ y h. (moved y).0 h) unseen, distinct),
    λ (unseen, distinct). (All-map xs (λ y h. (moved y).1 h) unseen, distinct),
  )
    where
      moved : (y : A) → (contains (x ∷ seen) y ≡ false) ↔ (contains (seen ++ x ∷ []) y ≡ false)
      moved y = unfold contains in ground (arith, contains-append seen (x ∷ []) y)

unfoldable pub take {ℓ} : {A : Type ℓ} → ℕ → List A → List A
take zero xs = []
take (suc n) [] = []
take (suc n) (x ∷ xs) = x ∷ take n xs

unfoldable pub drop {ℓ} : {A : Type ℓ} → ℕ → List A → List A
drop zero xs = xs
drop (suc n) [] = []
drop (suc n) (x ∷ xs) = drop n xs

pub split_at-length {ℓ} :
    {A : Type ℓ} (n : ℕ) (xs ys : List A)
    → length xs ≡ n
    → (take n (xs ++ ys) ≡ xs) × (drop n (xs ++ ys) ≡ ys)
unfolding take drop
split_at-length zero [] ys h = (refl, refl)
split_at-length zero (x ∷ xs) ys h = absurd (omega (arith, h))
split_at-length (suc n) [] ys h = absurd (omega (arith, h))
split_at-length (suc n) (x ∷ xs) ys h =
    let (kept, left) = split_at-length n xs ys (omega (arith, h)) in (ap (λ zs. x ∷ zs) kept, left)
