-- ===== src/Base/Dict.antt =====
-- A Go map as an association list with at most one entry for each key that `insert` has written.
use fluent_task_runtime.Base.Equality.{Eq, ◌==◌, ==_iff, if◌then◌else◌, Bool-cases}
use fluent_task_runtime.Base.Lists.{All}
use mathlib.Core.Logic.{inl, inr}
use mathlib.Core.Path.{◌≡◌, refl, subst}
use mathlib.Core.Option.{Option, none, some, some-injective}
use mathlib.Core.List.{List, [], ◌∷◌}
use native.Mathlib.Omega.{arith}

abbrev pub Dict : Type 0 → Type 0 → Type 0
Dict K V = List (K × V)

module _ {K V : Type 0} ⦃e : Eq K⦄ where
  -- `m[k]`
  unfoldable pub lookup : K → Dict K V → Option V
  lookup k [] = none
  lookup k ((j, v) ∷ m) = if j == k then some v else lookup k m

  -- `m[k] = v`
  unfoldable pub insert : K → V → Dict K V → Dict K V
  insert k v [] = (k, v) ∷ []
  insert k v ((j, w) ∷ m) = if j == k then (k, v) ∷ m else (j, w) ∷ insert k v m

  -- What holds of the entries holds of them after an entry of which it holds.
  pub insert-All {κ} :
      (P : K × V → Type κ) (k : K) (v : V) (m : Dict K V)
      → P (k, v)
      → All P m
      → All P (insert k v m)
  unfolding insert
  insert-All P k v [] p h = (p, tt)
  insert-All P k v ((j, w) ∷ m) p (q, h) = elim (Bool-cases (j == k)) [
    | inl e ↦ rw e (p, h)
    | inr e ↦ rw e (q, insert-All P k v m p h)
  ]

  pub lookup-insert :
      (j k : K) (v : V) (m : Dict K V)
      → lookup j (insert k v m) ≡ (if k == j then some v else lookup j m)
  unfolding lookup insert
  lookup-insert j k v [] = refl
  lookup-insert j k v (_ ∷ m) = ground (arith, lookup-insert j k v m)

  -- What holds of every entry holds after a write of an entry of which it holds, and of what is
  -- found.
  module _ (P : K × V → Type 0) where
    pub All-insert : (k : K) (v : V) (m : Dict K V) → All P m → P (k, v) → All P (insert k v m)
    unfolding insert
    All-insert k v [] h p = (p, tt)
    All-insert k v ((j, w) ∷ m) (q, h) p = elim (Bool-cases (j == k)) [
      | inl same ↦ rw same (p, h)
      | inr other ↦ rw other (q, All-insert k v m h p)
    ]

    pub All-lookup : (k : K) (v : V) (m : Dict K V) → All P m → lookup k m ≡ some v → P (k, v)
    unfolding lookup
    All-lookup k v [] h e = cc
    All-lookup k v ((j, w) ∷ m) (q, h) e = elim (Bool-cases (j == k)) [
      | inl same ↦
          let found : some w ≡ some v = rw same at e in
          let pair : (j, w) ≡ (k, v) = λ i. ((==_iff j k).0 same i, some-injective w v found i) in
          subst P pair q
      | inr other ↦ All-lookup k v m h (rw other at e)
    ]
