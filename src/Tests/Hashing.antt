-- ===== src/Tests/Hashing.antt =====
-- What a task's directory contributes to its hash.
use mathlib.Core.Option
use mathlib.Core.Option.{some-injective}
use Prim.Native.Nat.{◌^◌}
use fluent_task_runtime.Base.{
  ℕ, ◌<◌, String, ◌≡◌, refl, subst, Option, none, some, List, [], ◌∷◌, map, arith, string_eq,
  nat_eq, length,
}
use fluent_task_runtime.Loading.Sorting.{sort_strings}
use fluent_task_runtime.Families.Hashing.{
  symlink, directory, file, collect_paths, put_uint64, frame, frames, hex_digit, encode_hex,
  hash_task_revision,
}
use fluent_task_runtime.Families.Framing.{file_of, frames-injective}

hashing : Unit {0}
unfolding collect_paths put_uint64 frame frames hex_digit encode_hex hash_task_revision sort_strings
    Option.bind
hashing = tt

abbrev paths : List String
paths = "brief.md" ∷ "task.json" ∷ []

abbrev read : String → Option (List ℕ)
read path = some (1 ∷ 2 ∷ [])

abbrev framed : List ℕ
framed =
    0 ∷ 0 ∷ 0 ∷ 0 ∷ 0 ∷ 0 ∷ 0 ∷ 1 ∷ 7 ∷ 0 ∷ 0 ∷ 0 ∷ 0 ∷ 0 ∷ 0 ∷ 0 ∷ 2 ∷ 1 ∷ 2 ∷ 0 ∷ 0 ∷ 0 ∷ 0 ∷ 0
    ∷ 0 ∷ 0 ∷ 1 ∷ 7 ∷ 0 ∷ 0 ∷ 0 ∷ 0 ∷ 0 ∷ 0 ∷ 0 ∷ 2 ∷ 1 ∷ 2 ∷ []

written : frames (λ _. 7 ∷ []) read paths ≡ some framed
unfolding hashing
written = refl

hashed :
    (hash_task_revision
        (λ bytes. length bytes ∷ 255 ∷ [])
        (λ _. 7 ∷ [])
        (some (directory ∷ file "task.json" ∷ file "brief.md" ∷ []))
        read
      ≡ some "26ff")
    × (hash_task_revision (λ bytes. bytes) (λ _. 7 ∷ []) (some (file "a" ∷ symlink ∷ [])) read
        ≡ none)
unfolding hashing
hashed = (refl, refl)

read_small : (path : String) (body : List ℕ) → read path ≡ some body → length body < 2 ^ 64
read_small path body h = subst (λ bytes. length bytes < 2 ^ 64) (some-injective _ _ h) (omega arith)

frames-injective_example :
    map (file_of (λ _. 7 ∷ []) read) paths ≡ map (file_of (λ _. 7 ∷ []) read) paths
frames-injective_example =
    frames-injective (λ _. 7 ∷ []) read read paths paths framed (λ _. omega arith) read_small
      read_small written written
