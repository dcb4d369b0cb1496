-- ===== src/Backlog/Precedence.antt =====
-- What the order of the backlog of internal/engine/portfolio_backlog.go is: which of two items comes
-- before the other, by the keys that the code compares one after another.
use mathlib.Core.Bool.{false≢true}
use fluent_task_runtime.Base.{
  ℕ, suc, ◌+◌, ◌<◌, Char, code, String, ◌≡◌, refl, sym, ◌∙◌, subst, ◌≢◌, inl, inr, true, false,
  List, [], ◌∷◌, arith, ◌==◌, ==_iff, string_eq, nat_eq, Bool-cases,
}
use fluent_task_runtime.Portfolio.{PortfolioGroup}
use fluent_task_runtime.Backlog.{BacklogItem}
use fluent_task_runtime.Backlog.Order.{before, group_order, less}
use fluent_task_runtime.Backlog.Sorted.{before-asymmetric, IsOrdered}

-- A text comes before another: it is a proper prefix of it, or has the lower character at the first
-- place where they differ.
pub data IsBefore : String → String → Type 0 where
  shorter : (d : Char) (t : String) → IsBefore String.[] (String.◌∷◌ d t)
  lower : (c d : Char) (s t : String) → code c < code d → IsBefore (String.◌∷◌ c s) (String.◌∷◌ d t)
  further :
      (c d : Char) (s t : String)
      → code c ≡ code d
      → IsBefore s t
      → IsBefore (String.◌∷◌ c s) (String.◌∷◌ d t)

-- The index of the first group of that id, or the number of the groups.
pub data IsRank : List PortfolioGroup → String → ℕ → Type 0 where
  nowhere : (id : String) → IsRank [] id 0
  first :
      (g : PortfolioGroup) (groups : List PortfolioGroup) (id : String)
      → g.id ≡ id
      → IsRank (g ∷ groups) id 0
  behind :
      (g : PortfolioGroup) (groups : List PortfolioGroup) (id : String) (n : ℕ)
      → g.id ≢ id
      → IsRank groups id n
      → IsRank (g ∷ groups) id (suc n)

-- An item comes before another: by its priority, else by its group's rank, else by its family's key,
-- else by its kind, else by its sequence.
pub data Precedes (groups : List PortfolioGroup) (i j : BacklogItem) : Type 0 where
  by_priority : i.priority < j.priority → Precedes groups i j
  by_group :
      (m n : ℕ)
      → i.priority ≡ j.priority
      → IsRank groups i.group_id m
      → IsRank groups j.group_id n
      → m < n
      → Precedes groups i j
  by_family :
      (n : ℕ)
      → i.priority ≡ j.priority
      → IsRank groups i.group_id n
      → IsRank groups j.group_id n
      → IsBefore i.family_key j.family_key
      → Precedes groups i j
  by_kind :
      (n : ℕ)
      → i.priority ≡ j.priority
      → IsRank groups i.group_id n
      → IsRank groups j.group_id n
      → i.family_key ≡ j.family_key
      → IsBefore i.kind j.kind
      → Precedes groups i j
  by_sequence :
      (n : ℕ)
      → i.priority ≡ j.priority
      → IsRank groups i.group_id n
      → IsRank groups j.group_id n
      → i.family_key ≡ j.family_key
      → i.kind ≡ j.kind
      → i.sequence < j.sequence
      → Precedes groups i j

-- No item precedes the one in front of it.
abbrev pub IsArranged : List PortfolioGroup → List BacklogItem → Type 0
IsArranged groups [] = Unit
IsArranged groups (i ∷ []) = Unit
IsArranged groups (i ∷ j ∷ items) = (¬ Precedes groups j i) × IsArranged groups (j ∷ items)

before-IsBefore : (s t : String) → IsBefore s t → before s t ≡ true
unfolding before
before-IsBefore _ _ (shorter d t) = refl
before-IsBefore _ _ (lower c d s t h) = ground (arith, h)
before-IsBefore _ _ (further c d s t e h) =
    let rest = before-IsBefore s t h in ground (arith, e, rest)

before-differ : (s t : String) → before s t ≡ true → (s == t) ≡ false
before-differ s t h = elim (Bool-cases (s == t)) [
  | inr e ↦ e
  | inl e ↦
      let same = (==_iff s t).0 e in
      let back : before t s ≡ true =
        subst (λ x. before x s ≡ true) same (subst (λ x. before s x ≡ true) (sym same) h) in
      absurd (false≢true (sym (before-asymmetric s t h) ∙ back))
]

group_order-IsRank :
    (start : ℕ) (groups : List PortfolioGroup) (id : String) (n : ℕ)
    → IsRank groups id n
    → group_order start groups id ≡ start + n
unfolding group_order
group_order-IsRank start _ _ _ (nowhere id) = omega arith
group_order-IsRank start _ _ _ (first g groups id e) =
    let here = (==_iff g.id id).1 e in rw here (omega arith)
group_order-IsRank start _ _ _ (behind g groups id n differs h) =
    let later = group_order-IsRank (start + 1) groups id n h in
    elim (Bool-cases (g.id == id)) [
      | inl e ↦ absurd (differs ((==_iff g.id id).0 e))
      | inr e ↦ rw e (omega (arith, later))
    ]

rank_of :
    (groups : List PortfolioGroup) (id : String) (n : ℕ)
    → IsRank groups id n
    → group_order 0 groups id ≡ n
rank_of groups id n h = let e = group_order-IsRank 0 groups id n h in omega (arith, e)

less-Precedes :
    (groups : List PortfolioGroup) (i j : BacklogItem)
    → Precedes groups i j
    → less groups i j ≡ true
unfolding less
less-Precedes groups i j (by_priority h) = ground (arith, h)
less-Precedes groups i j (by_group m n p hm hn h) =
    let own = rank_of groups i.group_id m hm in
    let other = rank_of groups j.group_id n hn in ground (arith, p, own, other, h)
less-Precedes groups i j (by_family n p hm hn h) =
    let own = rank_of groups i.group_id n hm in
    let other = rank_of groups j.group_id n hn in
    let first = before-IsBefore i.family_key j.family_key h in
    let differ = before-differ i.family_key j.family_key first in
    ground (arith, p, own, other, first, differ)
less-Precedes groups i j (by_kind n p hm hn f h) =
    let own = rank_of groups i.group_id n hm in
    let other = rank_of groups j.group_id n hn in
    let family = (==_iff i.family_key j.family_key).1 f in
    let first = before-IsBefore i.kind j.kind h in
    let differ = before-differ i.kind j.kind first in
    ground (arith, p, own, other, family, first, differ)
less-Precedes groups i j (by_sequence n p hm hn f k h) =
    let own = rank_of groups i.group_id n hm in
    let other = rank_of groups j.group_id n hn in
    let family = (==_iff i.family_key j.family_key).1 f in
    let kind = (==_iff i.kind j.kind).1 k in ground (arith, p, own, other, family, kind, h)

pub IsOrdered-IsArranged :
    (groups : List PortfolioGroup) (items : List BacklogItem)
    → IsOrdered groups items
    → IsArranged groups items
IsOrdered-IsArranged groups [] h = tt
IsOrdered-IsArranged groups (i ∷ []) h = tt
IsOrdered-IsArranged groups (i ∷ j ∷ items) (ordered, h) = (
  λ p. false≢true (sym ordered ∙ less-Precedes groups j i p),
  IsOrdered-IsArranged groups (j ∷ items) h,
)
