-- ===== src/Execution/Preparation.antt =====
-- prepareTask and copyDirectory of internal/engine/docker_executor.go: the disposable directories as
-- maps from relative paths to contents. A directory that is copied is what filepath.WalkDir delivers;
-- whether a file can be written is a parameter.
pub mod Writes
pub mod Trees
pub mod Laws
use fluent_task_runtime.Base.{
  ℕ, zero, suc, ◌+◌, ◌-◌, ◌*◌, ◌/◌, ◌%◌, ◌≤◌, ◌<◌, Char, code, String, ◌<>◌, ◌≡◌, refl, sym, ap,
  ap₂, ◌∙◌, subst, ◌≢◌, ◌↔◌, ◌⊎◌, inl, inr, Bool, true, false, not, ◌&&◌, ◌||◌, Option, none, some,
  List, [], ◌∷◌, ◌++◌, map, arith, if◌then◌else◌, ltb, leb, Eq, ◌==◌, ==_iff, string_eq, nat_eq,
  Bool-cases, and-eq-true, ne_of_test, Result, ok, ok_unique, err, ◌>>=◌, ◌>>◌, guard, refuse,
  expect, is_found, wrap, >>=-eq-ok, guard-eq-ok, refuse-eq-ok, wrap-eq-ok, expect-eq-ok,
  Option-cases, Result-cases, length, is_empty, all, length-append, All, All-append, All-mem,
  All-map, All-zip, Distinct, contains, contains-mem, mem_of_contains, Memᴰ, Perm, perm_of_Distinct,
  Distinct-of_map, contains-eq-false_iff, Fresh, Fresh-nil, Fresh-cons, Fresh-snoc,
}
use fluent_task_runtime.Base.Dict.{Dict, insert}

-- An entry of a walk; a file that cannot be read has no content.
pub data PackEntry : Type 0 where
  directory symlink : PackEntry
  file : String → Option String → PackEntry

pub data PrepareError : Type 0 where
  unwalkable symlink_found : PrepareError
  unreadable_file unwritable_file : String → PrepareError

abbrev pub Tree : Type 0
Tree = Dict String String

unfoldable pub write_file : (String → Bool) → String → String → Tree → Result PrepareError Tree
write_file writable path content tree = do
  guard (writable path) (unwritable_file path)
  ok (insert path content tree)

-- The walk's function at one entry; `at` is the entry's path in the destination.
abbrev copy_entry :
    (String → Bool) → (String → String) → PackEntry → Tree → Result PrepareError Tree
copy_entry writable at directory tree = ok tree
copy_entry writable at symlink tree = err symlink_found
copy_entry writable at (file path none) tree = err (unreadable_file path)
copy_entry writable at (file path (some content)) tree = write_file writable (at path) content tree

unfoldable pub copy_entries :
    (String → Bool) → (String → String) → List PackEntry → Tree → Result PrepareError Tree
copy_entries writable at [] tree = ok tree
copy_entries writable at (e ∷ entries) tree = do
  next ← copy_entry writable at e tree
  copy_entries writable at entries next

unfoldable pub copy_directory :
    (String → Bool) → (String → String) → Option (List PackEntry) → Tree → Result PrepareError Tree
copy_directory writable at none tree = err unwalkable
copy_directory writable at (some entries) tree = copy_entries writable at entries tree

-- The loop over the submitted files.
unfoldable pub write_files :
    (String → Bool) → List (String × String) → Tree → Result PrepareError Tree
write_files writable [] tree = ok tree
write_files writable ((name, content) ∷ files) tree = do
  next ← write_file writable name content tree
  write_files writable files next

-- A walk over a directory that has just been written: all of its files, which can be read.
abbrev pub entries_of_tree : Tree → List PackEntry
entries_of_tree tree = map (λ f. file (f.0) (some (f.1))) tree

abbrev pub below_tests : String → String
below_tests path = "tests/" <> path

-- prepareTask: the input directory and the hidden one.
unfoldable pub prepare_task :
    (String → Bool)
    → Option (List PackEntry)
    → Option (List PackEntry)
    → List (String × String)
    → Result PrepareError (Tree × Tree)
prepare_task writable starter tests files = do
  copied ← copy_directory writable (λ path. path) starter []
  input ← write_files writable files copied
  authored ← copy_directory writable below_tests tests []
  hidden ← copy_directory writable (λ path. path) (some (entries_of_tree input)) authored
  ok (input, hidden)
