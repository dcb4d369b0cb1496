-- ===== src/Families/Hashing.antt =====
-- hashTaskRevision of internal/engine/families.go: the hash of a task's directory. SHA-256 and the
-- bytes of a name are parameters; the directory is what filepath.WalkDir delivers, if it does.
use Prim.Native.Nat.{◌^◌}
use Prim.Native.String.{char_at}
use mathlib.Core.Option
use fluent_task_runtime.Base.{
  ℕ, ◌/◌, ◌%◌, Char, String, Option, none, some, List, [], ◌∷◌, ◌++◌, string_eq, nat_eq, length,
}
use fluent_task_runtime.Loading.Sorting.{sort_strings}

pub data WalkEntry : Type 0 where
  directory symlink : WalkEntry
  file : String → WalkEntry

-- The files' paths, unless there is a symlink.
unfoldable pub collect_paths : List WalkEntry → Option (List String)
collect_paths [] = some []
collect_paths (directory ∷ entries) = collect_paths entries
collect_paths (symlink ∷ entries) = none
collect_paths (file path ∷ entries) = Option.map (λ paths. path ∷ paths) (collect_paths entries)

-- binary.BigEndian.PutUint64
unfoldable pub put_uint64 : ℕ → List ℕ
put_uint64 n =
    n / 2 ^ 56 % 256
    ∷ n / 2 ^ 48 % 256
    ∷ n / 2 ^ 40 % 256
    ∷ n / 2 ^ 32 % 256
    ∷ n / 2 ^ 24 % 256
    ∷ n / 2 ^ 16 % 256
    ∷ n / 2 ^ 8 % 256
    ∷ n % 256
    ∷ []

-- A text of bytes after its length.
unfoldable pub frame : List ℕ → List ℕ
frame bytes = put_uint64 (length bytes) ++ bytes

-- What is written into the hash: each file's name and its content.
unfoldable pub frames :
    (String → List ℕ) → (String → Option (List ℕ)) → List String → Option (List ℕ)
frames bytes_of read [] = some []
frames bytes_of read (path ∷ paths) = Option.bind (read path) (λ body.
    Option.map (λ rest. frame (bytes_of path) ++ frame body ++ rest) (frames bytes_of read paths))

unfoldable pub hex_digit : ℕ → Char
hex_digit n = char_at "0123456789abcdef" n

-- hex.EncodeToString
unfoldable pub encode_hex : List ℕ → String
encode_hex [] = ""
encode_hex (b ∷ bytes) =
    String.◌∷◌ (hex_digit (b / 16)) (String.◌∷◌ (hex_digit (b % 16)) (encode_hex bytes))

unfoldable pub hash_task_revision :
    (List ℕ → List ℕ)
    → (String → List ℕ)
    → Option (List WalkEntry)
    → (String → Option (List ℕ))
    → Option String
hash_task_revision sha256 bytes_of walk read = Option.bind walk (λ entries.
    Option.bind (collect_paths entries) (λ paths.
      Option.map (λ content. encode_hex (sha256 content))
        (frames bytes_of read (sort_strings paths))))
