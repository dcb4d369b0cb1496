-- ===== src/Execution/Preparation/Laws.antt =====
-- What prepareTask of internal/engine/docker_executor.go has written.
use fluent_task_runtime.Base.{
  String, ◌<>◌, ◌≡◌, refl, sym, ap, ◌∙◌, subst, Bool, Option, none, some, List, [], ◌∷◌, string_eq,
  nat_eq, ok, >>=-eq-ok, All,
}
use fluent_task_runtime.Base.Dict.{lookup}
use fluent_task_runtime.Execution.Preparation.{
  PackEntry, Tree, write_file, copy_entries, copy_directory, write_files, entries_of_tree,
  below_tests, prepare_task, file, directory, symlink,
}
use fluent_task_runtime.Execution.Preparation.Writes.{
  written, over, written-cons, write_file_sound, write_files_sound, copy_tree_sound,
}
use fluent_task_runtime.Execution.Preparation.Trees.{
  IsTree, written-lookup, copy_entries-IsTree, write_files-IsTree,
}

-- The files of a pack, each at its place.
unfoldable pub placed : (String → String) → List PackEntry → List (String × String)
placed at [] = []
placed at (directory ∷ entries) = placed at entries
placed at (symlink ∷ entries) = placed at entries
placed at (file path none ∷ entries) = placed at entries
placed at (file path (some content) ∷ entries) = (at path, content) ∷ placed at entries

-- A directory, or a file that can be read.
abbrev pub IsCopyable : PackEntry → Type 0
IsCopyable directory = Unit
IsCopyable symlink = ⊥
IsCopyable (file path none) = ⊥
IsCopyable (file path (some content)) = Unit

copy_entries_sound :
    (writable : String → Bool) (at : String → String) (entries : List PackEntry) (tree out : Tree)
    → copy_entries writable at entries tree ≡ ok out
    → All IsCopyable entries
      × ((k : String) → lookup k out ≡ over (written k (placed at entries)) (lookup k tree))
unfolding copy_entries placed
copy_entries_sound writable at [] tree out h =
    let same : tree ≡ out = cc in (tt, λ k. unfold written in ap (λ t. lookup k t) (sym same))
copy_entries_sound writable at (directory ∷ entries) tree out h =
    let (copyable, holds) = copy_entries_sound writable at entries tree out h in
    ((tt, copyable), holds)
copy_entries_sound writable at (symlink ∷ entries) tree out h = cc
copy_entries_sound writable at (file path none ∷ entries) tree out h = cc
copy_entries_sound writable at (file path (some content) ∷ entries) tree out h =
    let (next, hw, later) = >>=-eq-ok (write_file writable (at path) content tree) _ h in
    let (copyable, holds) = copy_entries_sound writable at entries next out later in
    (
      (tt, copyable),
      λ k.
          holds k
          ∙ ap (over (written k (placed at entries)))
              (write_file_sound writable (at path) content tree next k hw)
          ∙ sym (written-cons k (at path) content (placed at entries) (lookup k tree)),
    )

over-none : (o : Option String) → over o none ≡ o
over-none none = refl
over-none (some content) = refl

-- A pack that has been copied could be walked, had no symlinks, and its files are at their places.
record IsCopied (at : String → String) (walk : Option (List PackEntry)) (tree : Tree) : Type 0 where
  entries : List PackEntry
  walked : walk ≡ some entries
  copyable : All IsCopyable entries
  holds : (k : String) → lookup k tree ≡ written k (placed at entries)
  is_tree : IsTree tree

copy_directory-IsCopied :
    (writable : String → Bool) (at : String → String) (walk : Option (List PackEntry)) (tree : Tree)
    → copy_directory writable at walk [] ≡ ok tree
    → IsCopied at walk tree
unfolding copy_directory
copy_directory-IsCopied writable at none tree h = cc
copy_directory-IsCopied writable at (some entries) tree h =
    let (copyable, holds) = copy_entries_sound writable at entries [] tree h in
    record {
      entries = entries;
      walked = refl;
      copyable = copyable;
      holds = λ k. holds k ∙ (unfold lookup in over-none (written k (placed at entries)));
      is_tree = copy_entries-IsTree writable at entries [] tree h tt;
    }

-- What prepareTask leaves: the submission over the starter, and the same over the hidden tests.
pub record IsPrepared (starter tests : Option (List PackEntry)) (files : List (String × String))
    (input hidden : Tree) : Type 0 where
  pub pack : List PackEntry
  pub started : starter ≡ some pack
  pub pack_copyable : All IsCopyable pack
  pub suite : List PackEntry
  pub tested : tests ≡ some suite
  pub suite_copyable : All IsCopyable suite
  pub submitted :
      (k : String) → lookup k input ≡ over (written k files) (written k (placed (λ p. p) pack))
  pub mirrored :
      (k : String)
      → lookup k hidden ≡ over (lookup k input) (written k (placed (λ p. "tests/" <> p) suite))

-- When a task has been prepared, its starter and its tests could be walked and have no symlinks, and
-- their files could be read; each path of the input directory holds what was last submitted for it,
-- or else what the starter has, or nothing; and each path of the hidden directory holds what the
-- input directory has, or else what the authored tests have when they are put below "tests/".
pub prepare_task-IsPrepared :
    (writable : String → Bool) (starter tests : Option (List PackEntry))
    (files : List (String × String)) (input hidden : Tree)
    → prepare_task writable starter tests files ≡ ok (input, hidden)
    → IsPrepared starter tests files input hidden
unfolding prepare_task copy_directory
prepare_task-IsPrepared writable starter tests files input hidden h =
    let (copied, hs, h₁) = >>=-eq-ok (copy_directory writable (λ path. path) starter []) _ h in
    let (input', hw, h₂) = >>=-eq-ok (write_files writable files copied) _ h₁ in
    let (authored, ht, h₃) = >>=-eq-ok (copy_directory writable below_tests tests []) _ h₂ in
    let (hidden', hm, h₄) =
      >>=-eq-ok (copy_entries writable (λ path. path) (entries_of_tree input') authored) _ h₃ in
    let same_input : input' ≡ input = cc in
    let same_hidden : hidden' ≡ hidden = cc in
    let own = copy_directory-IsCopied writable (λ path. path) starter copied hs in
    let authors = copy_directory-IsCopied writable below_tests tests authored ht in
    let tree : IsTree input' = write_files-IsTree writable files copied input' hw own.is_tree in
    subst (λ x. IsPrepared starter tests files x hidden) same_input
      (subst (λ x. IsPrepared starter tests files input' x) same_hidden
        (record {
          pack = own.entries;
          started = own.walked;
          pack_copyable = own.copyable;
          suite = authors.entries;
          tested = authors.walked;
          suite_copyable = authors.copyable;
          submitted = λ k.
              write_files_sound writable files copied input' k hw
              ∙ ap (over (written k files)) (own.holds k);
          mirrored = λ k.
              copy_tree_sound writable input' authored hidden' k hm
              ∙ ap (λ o. over o (lookup k authored)) (written-lookup k input' tree)
              ∙ ap (over (lookup k input')) (authors.holds k);
        }))
