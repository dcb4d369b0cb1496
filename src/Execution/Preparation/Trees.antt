-- ===== src/Execution/Preparation/Trees.antt =====
-- The directories that prepareTask of internal/engine/docker_executor.go writes, as maps: no path is held
-- twice.
use fluent_task_runtime.Base.{
  String, ◌≡◌, refl, subst, ◌≢◌, inl, inr, Bool, false, none, some, List, [], ◌∷◌, map, arith, ◌==◌,
  ==_iff, string_eq, nat_eq, Bool-cases, ok, >>=-eq-ok, guard-eq-ok, All, Distinct,
}
use fluent_task_runtime.Base.Dict.{lookup, insert}
use fluent_task_runtime.Execution.Preparation.{
  PackEntry, Tree, write_file, copy_entries, write_files, file, directory, symlink,
}
use fluent_task_runtime.Execution.Preparation.Writes.{written}

-- No path is held twice.
abbrev pub IsTree : Tree → Type 0
IsTree tree = Distinct (map (λ f. f.0) tree)

insert-All :
    (j k content : String) (tree : Tree)
    → j ≢ k
    → All (λ p. j ≢ p) (map (λ f. f.0) tree)
    → All (λ p. j ≢ p) (map (λ f. f.0) (insert k content tree))
unfolding insert
insert-All j k content [] differ h = (differ, tt)
insert-All j k content ((p, c) ∷ tree) differ (apart, h) = elim (Bool-cases (p == k)) [
  | inl same ↦ rw same (differ, h)
  | inr other ↦ rw other (apart, insert-All j k content tree differ h)
]

insert-IsTree : (k content : String) (tree : Tree) → IsTree tree → IsTree (insert k content tree)
unfolding insert
insert-IsTree k content [] h = (tt, tt)
insert-IsTree k content ((p, c) ∷ tree) (apart, h) = elim (Bool-cases (p == k)) [
  | inl same ↦
      let e : p ≡ k = (==_iff p k).0 same in
      rw same (subst (λ q. All (λ x. q ≢ x) (map (λ f. f.0) tree)) e apart, h)
  | inr other ↦
      let differ : p ≢ k = λ e. ground (arith, other, e) in
      rw other (insert-All p k content tree differ apart, insert-IsTree k content tree h)
]

written_absent :
    (k : String) (tree : Tree) → All (λ p. k ≢ p) (map (λ f. f.0) tree) → written k tree ≡ none
unfolding written
written_absent k [] h = refl
written_absent k ((p, c) ∷ tree) (apart, h) =
    let later = written_absent k tree h in
    let other : (p == k) ≡ false = ground (arith, apart) in rw (later, other) refl

pub written-lookup : (k : String) (tree : Tree) → IsTree tree → written k tree ≡ lookup k tree
unfolding written lookup
written-lookup k [] h = refl
written-lookup k ((p, c) ∷ tree) (apart, h) = elim (Bool-cases (p == k)) [
  | inl same ↦
      let e : p ≡ k = (==_iff p k).0 same in
      let later =
        written_absent k tree (subst (λ q. All (λ x. q ≢ x) (map (λ f. f.0) tree)) e apart) in
      rw (later, same) refl
  | inr other ↦ let later = written-lookup k tree h in ground (arith, later, other)
]

write_file-IsTree :
    (writable : String → Bool) (path content : String) (tree out : Tree)
    → write_file writable path content tree ≡ ok out
    → IsTree tree
    → IsTree out
unfolding write_file
write_file-IsTree writable path content tree out h d =
    let (_, h₁) = guard-eq-ok (writable path) _ _ h in
    let same : insert path content tree ≡ out = cc in
    subst (λ t. IsTree t) same (insert-IsTree path content tree d)

pub copy_entries-IsTree :
    (writable : String → Bool) (at : String → String) (entries : List PackEntry) (tree out : Tree)
    → copy_entries writable at entries tree ≡ ok out
    → IsTree tree
    → IsTree out
unfolding copy_entries
copy_entries-IsTree writable at [] tree out h d =
    let same : tree ≡ out = cc in subst (λ t. IsTree t) same d
copy_entries-IsTree writable at (directory ∷ entries) tree out h d =
    copy_entries-IsTree writable at entries tree out h d
copy_entries-IsTree writable at (symlink ∷ entries) tree out h d = cc
copy_entries-IsTree writable at (file path none ∷ entries) tree out h d = cc
copy_entries-IsTree writable at (file path (some content) ∷ entries) tree out h d =
    let (next, hw, later) = >>=-eq-ok (write_file writable (at path) content tree) _ h in
    copy_entries-IsTree writable at entries next out later
      (write_file-IsTree writable (at path) content tree next hw d)

pub write_files-IsTree :
    (writable : String → Bool) (files : List (String × String)) (tree out : Tree)
    → write_files writable files tree ≡ ok out
    → IsTree tree
    → IsTree out
unfolding write_files
write_files-IsTree writable [] tree out h d =
    let same : tree ≡ out = cc in subst (λ t. IsTree t) same d
write_files-IsTree writable ((name, content) ∷ files) tree out h d =
    let (next, hw, later) = >>=-eq-ok (write_file writable name content tree) _ h in
    write_files-IsTree writable files next out later
      (write_file-IsTree writable name content tree next hw d)
