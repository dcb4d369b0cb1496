-- ===== src/Base/Perms.antt =====
-- Lists without repetition, and permutations.
use mathlib.Core.List.{Memᴰ, Perm, perm_middle}
use mathlib.Core.List.Perm
use mathlib.Core.Path.{◌≡◌, sym, ap, subst}
use mathlib.Core.Logic.{◌≢◌}
use mathlib.Core.List.{List, [], ◌∷◌, ◌++◌, map}
use native.Mathlib.Omega.{arith}
use fluent_task_runtime.Base.Lists.{length, length-append, All, All-zip, Distinct}

module _ {ℓ} {A : Type ℓ} where
  split_of_mem : {x : A} {ys : List A} → Memᴰ x ys → (a b : List A) × (ys ≡ a ++ x ∷ b)
  split_of_mem (Memᴰ.head {xs} e) = ([], xs, ap (λ z. z ∷ xs) (sym e))
  split_of_mem (Memᴰ.tail {x = y} m) =
      let (a, b, e) = split_of_mem m in (y ∷ a, b, ap (λ zs. y ∷ zs) e)

  mem_of_removed : (a b : List A) {x y : A} → x ≢ y → Memᴰ y (a ++ x ∷ b) → Memᴰ y (a ++ b)
  mem_of_removed [] b h (Memᴰ.head e) = absurd (h (sym e))
  mem_of_removed [] b h (Memᴰ.tail m) = m
  mem_of_removed (z ∷ a) b h (Memᴰ.head e) = Memᴰ.head e
  mem_of_removed (z ∷ a) b h (Memᴰ.tail m) = Memᴰ.tail (mem_of_removed a b h m)

  -- A list without repetition, all of whose elements stand in one that is no longer, is that list
  -- in another order.
  pub perm_of_Distinct :
      (xs ys : List A) → Distinct xs → All (λ x. Memᴰ x ys) xs → length xs ≡ length ys → Perm xs ys
  perm_of_Distinct [] [] d h e = Perm.refl []
  perm_of_Distinct [] (y ∷ ys) d h e = absurd (omega arith)
  perm_of_Distinct (x ∷ xs) ys (differ, d) (m, h) e =
      let (a, b, cut) = split_of_mem m in
      let within : All (λ y. Memᴰ y (a ++ b)) xs =
        All-zip xs (λ y p q. mem_of_removed a b p (subst (λ zs. Memᴰ y zs) cut q)) differ h in
      let size : length xs ≡ length (a ++ b) =
        omega (arith, e, ap length cut, length-append {ℓ} a (x ∷ b), length-append {ℓ} a b) in
      subst (λ zs. Perm (x ∷ xs) zs) (sym cut)
        (Perm.trans (Perm.cons x (perm_of_Distinct xs (a ++ b) d within size))
          (Perm.symm (perm_middle a b)))

  pub Distinct-of_map {κ} :
      {B : Type κ} (f : A → B) (xs : List A) → Distinct (map f xs) → Distinct xs
  Distinct-of_map f [] d = tt
  Distinct-of_map f (x ∷ xs) (differ, d) = (unmapped xs differ, Distinct-of_map f xs d)
    where
      unmapped : (ys : List A) → All (λ z. f x ≢ z) (map f ys) → All (λ y. x ≢ y) ys
      unmapped [] h = tt
      unmapped (y ∷ ys) (p, h) = ((λ e. p (ap f e)), unmapped ys h)
