-- ===== src/Execution/Preparation/Writes.antt =====
-- What the writes of prepareTask of internal/engine/docker_executor.go leave in a directory.
use fluent_task_runtime.Base.{
  String, ◌≡◌, sym, ap, ◌∙◌, Bool, Option, none, some, List, [], ◌∷◌, arith, if◌then◌else◌, ◌==◌,
  string_eq, nat_eq, ok, >>=-eq-ok, guard-eq-ok,
}
use fluent_task_runtime.Base.Dict.{lookup, insert, lookup-insert}
use fluent_task_runtime.Execution.Preparation.{
  Tree, write_file, copy_entries, write_files, entries_of_tree,
}

-- What the last write to a path has left, if there is any.
unfoldable pub written : String → List (String × String) → Option String
written k [] = none
written k ((name, content) ∷ files) = elim (written k files) [
  | some later ↦ some later
  | none ↦ if name == k then some content else none
]

abbrev pub over : Option String → Option String → Option String
over none base = base
over (some content) base = some content

pub written-cons :
    (k name content : String) (files : List (String × String)) (base : Option String)
    → over (written k ((name, content) ∷ files)) base
      ≡ over (written k files) (if name == k then some content else base)
unfolding written
written-cons k name content files base = ground arith

pub write_file_sound :
    (writable : String → Bool) (path content : String) (tree out : Tree) (k : String)
    → write_file writable path content tree ≡ ok out
    → lookup k out ≡ (if path == k then some content else lookup k tree)
unfolding write_file
write_file_sound writable path content tree out k h =
    let (_, h₁) = guard-eq-ok (writable path) _ _ h in
    let same : insert path content tree ≡ out = cc in
    ap (λ t. lookup k t) (sym same) ∙ lookup-insert k path content tree

pub write_files_sound :
    (writable : String → Bool) (files : List (String × String)) (tree out : Tree) (k : String)
    → write_files writable files tree ≡ ok out
    → lookup k out ≡ over (written k files) (lookup k tree)
unfolding write_files
write_files_sound writable [] tree out k h =
    let same : tree ≡ out = cc in unfold written in ap (λ t. lookup k t) (sym same)
write_files_sound writable ((name, content) ∷ files) tree out k h =
    let (next, hw, later) = >>=-eq-ok (write_file writable name content tree) _ h in
    write_files_sound writable files next out k later
    ∙ ap (over (written k files)) (write_file_sound writable name content tree next k hw)
    ∙ sym (written-cons k name content files (lookup k tree))

-- A tree is written to a directory as its files are.
pub copy_tree_sound :
    (writable : String → Bool) (copied tree out : Tree) (k : String)
    → copy_entries writable (λ path. path) (entries_of_tree copied) tree ≡ ok out
    → lookup k out ≡ over (written k copied) (lookup k tree)
unfolding copy_entries
copy_tree_sound writable [] tree out k h =
    let same : tree ≡ out = cc in unfold written in ap (λ t. lookup k t) (sym same)
copy_tree_sound writable ((name, content) ∷ copied) tree out k h =
    let (next, hw, later) = >>=-eq-ok (write_file writable name content tree) _ h in
    copy_tree_sound writable copied next out k later
    ∙ ap (over (written k copied)) (write_file_sound writable name content tree next k hw)
    ∙ sym (written-cons k name content copied (lookup k tree))
