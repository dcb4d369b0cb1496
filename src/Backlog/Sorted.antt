-- ===== src/Backlog/Sorted.antt =====
-- The sort of the backlog of internal/engine/portfolio_backlog.go.
use mathlib.Core.List.Perm
use fluent_task_runtime.Base.{
  ℕ, suc, code, String, ◌≡◌, refl, sym, ap, ◌∙◌, inl, inr, Bool, true, false, not, List, [], ◌∷◌,
  map, arith, if◌then◌else◌, ltb, ◌==◌, ==_iff, string_eq, nat_eq, Bool-cases, length, Perm,
}
use fluent_task_runtime.Portfolio.{PortfolioGroup}
use fluent_task_runtime.Backlog.{BacklogItem, count_kind}
use fluent_task_runtime.Backlog.Order.{before, group_order, less, insert_item, sort_items}

pub before-asymmetric : (s t : String) → before s t ≡ true → before t s ≡ false
unfolding before
before-asymmetric String.[] String.[] h = refl
before-asymmetric String.[] (String.◌∷◌ d t) h = refl
before-asymmetric (String.◌∷◌ c s) String.[] h = cc
before-asymmetric (String.◌∷◌ c s) (String.◌∷◌ d t) h = elim (Bool-cases (code c == code d)) [
  | inl e ↦
      let later : before s t ≡ true = rw e at h in
      let rest = before-asymmetric s t later in
      let back : (code d == code c) ≡ true = ground (arith, e) in rw back rest
  | inr e ↦
      let lower : ltb (code c) (code d) ≡ true = rw e at h in
      let back : (code d == code c) ≡ false = ground (arith, e) in rw back (ground (arith, lower))
]

-- A comparison by one key, and by what follows where it is the same.
by_number :
    (p q : ℕ) (a b : Bool)
    → (a ≡ true → b ≡ false)
    → (if not (p == q) then ltb p q else a) ≡ true
    → (if not (q == p) then ltb q p else b) ≡ false
by_number p q a b next h = elim (Bool-cases (p == q)) [
  | inl e ↦
      let later : a ≡ true = rw e at h in
      let back : (q == p) ≡ true = ground (arith, e) in rw back (next later)
  | inr e ↦
      let lower : ltb p q ≡ true = rw e at h in
      let back : (q == p) ≡ false = ground (arith, e) in rw back (ground (arith, lower))
]

by_text :
    (s t : String) (a b : Bool)
    → (a ≡ true → b ≡ false)
    → (if not (s == t) then before s t else a) ≡ true
    → (if not (t == s) then before t s else b) ≡ false
by_text s t a b next h = elim (Bool-cases (s == t)) [
  | inl e ↦
      let later : a ≡ true = rw e at h in
      let back : (t == s) ≡ true = (==_iff t s).1 (sym ((==_iff s t).0 e)) in rw back (next later)
  | inr e ↦
      let first : before s t ≡ true = rw e at h in
      let back : (t == s) ≡ false = ground (arith, e) in rw back (before-asymmetric s t first)
]

-- An item that comes before another does not come behind it.
less-asymmetric :
    (groups : List PortfolioGroup) (i j : BacklogItem)
    → less groups i j ≡ true
    → less groups j i ≡ false
unfolding less
less-asymmetric groups i j = by_number i.priority j.priority _ _ (
    by_number (group_order 0 groups i.group_id) (group_order 0 groups j.group_id) _ _
      (by_text i.family_key j.family_key _ _ (by_text i.kind j.kind _ _ (λ h. ground (arith, h)))))

-- No item comes before the one in front of it.
abbrev pub IsOrdered : List PortfolioGroup → List BacklogItem → Type 0
IsOrdered groups [] = Unit
IsOrdered groups (i ∷ []) = Unit
IsOrdered groups (i ∷ j ∷ items) = (less groups j i ≡ false) × IsOrdered groups (j ∷ items)

-- The first item, or what would stand in front of nothing.
insert_item-IsOrdered :
    (groups : List PortfolioGroup) (i : BacklogItem) (items : List BacklogItem)
    → IsOrdered groups items
    → IsOrdered groups (insert_item groups i items)
unfolding insert_item
insert_item-IsOrdered groups i [] h = tt
insert_item-IsOrdered groups i (j ∷ []) h = elim (Bool-cases (less groups j i)) [
  | inl e ↦ rw e (less-asymmetric groups j i e, tt)
  | inr e ↦ rw e (e, tt)
]
insert_item-IsOrdered groups i (j ∷ k ∷ items) (first, h) = elim (Bool-cases (less groups j i)) [
  | inr e ↦ rw e (e, (first, h))
  | inl e ↦
      let later = insert_item-IsOrdered groups i (k ∷ items) h in
      elim (Bool-cases (less groups k i)) [
        | inl f ↦ rw (e, f) (first, (rw f at later))
        | inr f ↦ rw (e, f) (less-asymmetric groups j i e, (rw f at later))
      ]
]

pub sort_items-IsOrdered :
    (groups : List PortfolioGroup) (items : List BacklogItem)
    → IsOrdered groups (sort_items groups items)
unfolding sort_items
sort_items-IsOrdered groups [] = tt
sort_items-IsOrdered groups (i ∷ items) =
    insert_item-IsOrdered groups i (sort_items groups items) (sort_items-IsOrdered groups items)

insert_item-perm :
    {A : Type 0} (f : BacklogItem → A) (groups : List PortfolioGroup) (i : BacklogItem)
    (items : List BacklogItem)
    → Perm (map f (insert_item groups i items)) (f i ∷ map f items)
unfolding insert_item
insert_item-perm f groups i [] = Perm.refl (f i ∷ [])
insert_item-perm f groups i (j ∷ items) = elim (Bool-cases (less groups j i)) [
  | inr e ↦ rw e (Perm.refl (f i ∷ f j ∷ map f items))
  | inl e ↦ rw e (
      Perm.trans (Perm.cons (f j) (insert_item-perm f groups i items))
        (Perm.swap (f i) (f j) (map f items)))
]

-- The sort rearranges the items.
pub sort_items-perm :
    {A : Type 0} (f : BacklogItem → A) (groups : List PortfolioGroup) (items : List BacklogItem)
    → Perm (map f (sort_items groups items)) (map f items)
unfolding sort_items
sort_items-perm f groups [] = Perm.refl []
sort_items-perm f groups (i ∷ items) =
    Perm.trans (insert_item-perm f groups i (sort_items groups items))
      (Perm.cons (f i) (sort_items-perm f groups items))

insert_item-count :
    (kind : String) (groups : List PortfolioGroup) (i : BacklogItem) (items : List BacklogItem)
    → count_kind kind (insert_item groups i items) ≡ count_kind kind (i ∷ items)
unfolding insert_item count_kind
insert_item-count kind groups i [] = refl
insert_item-count kind groups i (j ∷ items) =
    let later = insert_item-count kind groups i items in ground (arith, later)

pub sort_items-count :
    (kind : String) (groups : List PortfolioGroup) (items : List BacklogItem)
    → count_kind kind (sort_items groups items) ≡ count_kind kind items
unfolding sort_items count_kind
sort_items-count kind groups [] = refl
sort_items-count kind groups (i ∷ items) =
    let later = sort_items-count kind groups items in
    insert_item-count kind groups i (sort_items groups items) ∙ ground (arith, later)

insert_item-length :
    (groups : List PortfolioGroup) (i : BacklogItem) (items : List BacklogItem)
    → length (insert_item groups i items) ≡ suc (length items)
unfolding insert_item
insert_item-length groups i [] = refl
insert_item-length groups i (j ∷ items) =
    let later = insert_item-length groups i items in ground (arith, later)

pub sort_items-length :
    (groups : List PortfolioGroup) (items : List BacklogItem)
    → length (sort_items groups items) ≡ length items
unfolding sort_items
sort_items-length groups [] = refl
sort_items-length groups (i ∷ items) =
    insert_item-length groups i (sort_items groups items)
    ∙ ap (λ n. suc n) (sort_items-length groups items)
