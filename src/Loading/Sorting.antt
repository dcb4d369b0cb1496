-- ===== src/Loading/Sorting.antt =====
-- sort.Strings: the texts in the order of their bytes. The result does not depend on the method, so
-- insertion serves.
use Prim.Native.String.{compare}
use text.Mathlib.Text.{is_le}
use mathlib.Core.List.{Perm, List, [], ◌∷◌}
use mathlib.Core.List.Perm
use fluent_task_runtime.Base.{String, sym, ◌≢◌, inl, inr, if◌then◌else◌, Bool-cases, All, Distinct}

insert_string : String → List String → List String
insert_string s [] = s ∷ []
insert_string s (t ∷ ts) =
    let later = insert_string s ts in if is_le (compare s t) then s ∷ t ∷ ts else t ∷ later

unfoldable pub sort_strings : List String → List String
unfolding insert_string
sort_strings [] = []
sort_strings (s ∷ ss) = insert_string s (sort_strings ss)

insert_string-perm : (s : String) (ts : List String) → Perm (insert_string s ts) (s ∷ ts)
unfolding insert_string
insert_string-perm s [] = Perm.refl (s ∷ [])
insert_string-perm s (t ∷ ts) = elim (Bool-cases (is_le (compare s t))) [
  | inl before ↦ rw before (Perm.refl (s ∷ t ∷ ts))
  | inr behind ↦ rw behind (Perm.trans (Perm.cons t (insert_string-perm s ts)) (Perm.swap s t ts))
]

pub sort_strings-perm : (ss : List String) → Perm (sort_strings ss) ss
unfolding sort_strings
sort_strings-perm [] = Perm.refl []
sort_strings-perm (s ∷ ss) =
    Perm.trans (insert_string-perm s (sort_strings ss)) (Perm.cons s (sort_strings-perm ss))

insert_string-All :
    (P : String → Type 0) (s : String) (ts : List String)
    → P s
    → All P ts
    → All P (insert_string s ts)
unfolding insert_string
insert_string-All P s [] p h = (p, tt)
insert_string-All P s (t ∷ ts) p (q, h) = elim (Bool-cases (is_le (compare s t))) [
  | inl before ↦ rw before (p, (q, h))
  | inr behind ↦ rw behind (q, insert_string-All P s ts p h)
]

insert_string-Distinct :
    (s : String) (ts : List String)
    → All (λ t. s ≢ t) ts
    → Distinct ts
    → Distinct (insert_string s ts)
unfolding insert_string
insert_string-Distinct s [] new d = (tt, tt)
insert_string-Distinct s (t ∷ ts) (differ, new) (apart, d) =
    elim (Bool-cases (is_le (compare s t))) [
      | inl before ↦ rw before ((differ, new), (apart, d))
      | inr behind ↦ rw behind (
        insert_string-All (λ u. t ≢ u) s ts (λ e. differ (sym e)) apart,
        insert_string-Distinct s ts new d,
      )
    ]

sort_strings-All : (P : String → Type 0) (ss : List String) → All P ss → All P (sort_strings ss)
unfolding sort_strings
sort_strings-All P [] h = tt
sort_strings-All P (s ∷ ss) (p, h) =
    insert_string-All P s (sort_strings ss) p (sort_strings-All P ss h)

pub sort_strings-Distinct : (ss : List String) → Distinct ss → Distinct (sort_strings ss)
unfolding sort_strings
sort_strings-Distinct [] d = tt
sort_strings-Distinct (s ∷ ss) (new, d) =
    insert_string-Distinct s (sort_strings ss) (sort_strings-All (λ t. s ≢ t) ss new)
      (sort_strings-Distinct ss d)
