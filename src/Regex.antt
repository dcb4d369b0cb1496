-- ===== src/Regex.antt =====
-- The part of package regexp that the sources use: anchored patterns `^…$`, as data, matched by
-- derivatives over code points.
pub mod Laws
pub mod Shapes
use fluent_task_runtime.Base.{
  ℕ, zero, suc, String, Bool, true, false, ◌&&◌, ◌||◌, List, [], ◌∷◌, if◌then◌else◌,
}
use fluent_task_runtime.Text.{codes, between}

pub data Regex : Type 0 where
  nothing empty : Regex
  chars : List (ℕ × ℕ) → Regex
  seq alt : Regex → Regex → Regex
  star : Regex → Regex

-- A character class: its ranges, both ends included.
unfoldable pub in_ranges : List (ℕ × ℕ) → ℕ → Bool
in_ranges [] n = false
in_ranges ((lo, hi) ∷ rs) n = between lo hi n || in_ranges rs n

unfoldable pub nullable : Regex → Bool
nullable nothing = false
nullable empty = true
nullable (chars rs) = false
nullable (seq r q) = nullable r && nullable q
nullable (alt r q) = nullable r || nullable q
nullable (star r) = true

abbrev mk_seq : Regex → Regex → Regex
mk_seq nothing q = nothing
mk_seq empty q = q
mk_seq r q = seq r q

abbrev mk_alt : Regex → Regex → Regex
mk_alt nothing q = q
mk_alt r q = alt r q

-- What has to follow the code point `n`.
unfoldable pub derive : ℕ → Regex → Regex
unfolding nullable in_ranges
derive n nothing = nothing
derive n empty = nothing
derive n (chars rs) = if in_ranges rs n then empty else nothing
derive n (seq r q) =
    let first = mk_seq (derive n r) q in
    let later = derive n q in if nullable r then mk_alt first later else first
derive n (alt r q) = mk_alt (derive n r) (derive n q)
derive n (star r) = mk_seq (derive n r) (star r)

unfoldable pub matches : Regex → List ℕ → Bool
unfolding derive
matches r [] = nullable r
matches r (n ∷ ns) = matches (derive n r) ns

-- `pattern.MatchString(value)`
unfoldable pub match_string : Regex → String → Bool
unfolding matches
match_string r s = matches r (codes s)

-- Any character.
abbrev pub any : Regex
any = chars ((0, 0x10ffff) ∷ [])

abbrev pub one : ℕ → Regex
one n = chars ((n, n) ∷ [])

-- `r{n}`
unfoldable pub times : ℕ → Regex → Regex
times zero r = empty
times (suc n) r = seq r (times n r)

-- `r?`
abbrev pub opt : Regex → Regex
opt r = alt r empty

-- `r{0,n}`
unfoldable pub up_to : ℕ → Regex → Regex
up_to zero r = empty
up_to (suc n) r = opt (seq r (up_to n r))

literal_codes : List ℕ → Regex
literal_codes [] = empty
literal_codes (n ∷ ns) = seq (one n) (literal_codes ns)

-- A text that stands for itself.
unfoldable pub literal : String → Regex
unfolding literal_codes
literal s = literal_codes (codes s)
