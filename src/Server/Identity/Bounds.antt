-- ===== src/Server/Identity/Bounds.antt =====
-- The bounds of boundedIdentity of internal/httpapi/server.go.
use Prim.Native.String.{char_at}
use fluent_task_runtime.Base.{
  ℕ, ◌+◌, ◌-◌, ◌≤◌, ◌<◌, Char, code, String, ◌≡◌, refl, sym, ap, ◌≢◌, inl, inr, true, arith,
  if◌then◌else◌, leb, ◌==◌, string_eq, nat_eq, Bool-cases, length, contains, All, All-map, ◌↔◌,
}
use fluent_task_runtime.Text.{between, codes}
use fluent_task_runtime.Server.Identity.{is_identity_char, bounded_from, bounded_identity}

-- A letter or a digit of ASCII, or one of "._:/+-".
pub data IsAllowed (n : ℕ) : Type 0 where
  small : b'a' ≤ n → n ≤ b'z' → IsAllowed n
  capital : b'A' ≤ n → n ≤ b'Z' → IsAllowed n
  digit : b'0' ≤ n → n ≤ b'9' → IsAllowed n
  mark : contains (codes "._:/+-") n ≡ true → IsAllowed n

-- A text that may stand in a response as it is.
pub record IsIdentity (s : String) : Type 0 where
  pub some_text : s ≢ ""
  pub short : length (codes s) ≤ 79
  pub allowed : All IsAllowed (codes s)

is_identity_char_iff : (n : ℕ) → (is_identity_char n ≡ true) ↔ IsAllowed n
unfolding is_identity_char between codes contains
is_identity_char_iff n = (
  λ h. elim (Bool-cases (between b'a' b'z' n)) [
    | inl e ↦ small (ground (arith, e)) (ground (arith, e))
    | inr not_small ↦ elim (Bool-cases (between b'A' b'Z' n)) [
      | inl e ↦ capital (ground (arith, e)) (ground (arith, e))
      | inr not_capital ↦ elim (Bool-cases (between b'0' b'9' n)) [
        | inl e ↦ digit (ground (arith, e)) (ground (arith, e))
        | inr not_digit ↦ mark (ground (arith, h, not_small, not_capital, not_digit))
      ]
    ]
  ],
  λ h. elim h [
    | small a z ↦ ground (arith, a, z)
    | capital a z ↦ ground (arith, a, z)
    | digit a z ↦ ground (arith, a, z)
    | mark e ↦ ground (arith, e)
  ],
)

abbrev replaced : Char → Char
replaced c = if is_identity_char (code c) then c else char_at "-" 0

dash-allowed : is_identity_char (code (char_at "-" 0)) ≡ true
unfolding is_identity_char
dash-allowed = refl

replaced-allowed : (c : Char) → is_identity_char (code (replaced c)) ≡ true
replaced-allowed c = elim (Bool-cases (is_identity_char (code c))) [
  | inl e ↦ rw e e
  | inr e ↦ rw e dash-allowed
]

bounded_from-bounded :
    (written : ℕ) (s : String)
    → written < 79
    → (length (codes (bounded_from written s)) ≤ 79 - written)
      × All (λ n. is_identity_char n ≡ true) (codes (bounded_from written s))
unfolding bounded_from
bounded_from-bounded written String.[] h = (omega arith, tt)
bounded_from-bounded written (String.◌∷◌ c s) h = elim (Bool-cases (leb 79 (written + 1))) [
  | inl full ↦ rw full (omega (arith, h), (replaced-allowed c, tt))
  | inr more ↦
      let (size, allowed) = bounded_from-bounded (written + 1) s (ground arith) in
      rw more (omega (arith, h, size), (replaced-allowed c, allowed))
]

nothing_left : (s : String) → length (codes s) ≤ 0 → s ≡ ""
nothing_left String.[] h = refl
nothing_left (String.◌∷◌ c s) h = absurd (omega (arith, h))

bounded_from-fixed :
    (written : ℕ) (s : String)
    → written + length (codes s) ≤ 79
    → All (λ n. is_identity_char n ≡ true) (codes s)
    → bounded_from written s ≡ s
unfolding bounded_from
bounded_from-fixed written String.[] h allowed = refl
bounded_from-fixed written (String.◌∷◌ c s) h (here, allowed) =
    elim (Bool-cases (leb 79 (written + 1))) [
      | inl full ↦
          let whole = nothing_left s (ground (arith, full, h)) in
          rw (here, full) (ap (λ t. String.◌∷◌ c t) (sym whole))
      | inr more ↦
          let later = bounded_from-fixed (written + 1) s (omega (arith, h)) allowed in
          rw (here, more) (ap (λ t. String.◌∷◌ c t) later)
    ]

unknown-IsIdentity : IsIdentity "unknown"
unfolding is_identity_char
unknown-IsIdentity = record {
  some_text = λ e. cc;
  short = omega arith;
  allowed =
      All-map (codes "unknown") (λ n. (is_identity_char_iff n).0)
        (refl, (refl, (refl, (refl, (refl, (refl, (refl, tt)))))));
}

IsIdentity-within : (value : String) → IsIdentity (bounded_identity value)
unfolding bounded_identity
IsIdentity-within value = elim (Bool-cases (bounded_from 0 value == "")) [
  | inl nothing ↦ rw nothing unknown-IsIdentity
  | inr something ↦
      let (size, allowed) = bounded_from-bounded 0 value (omega arith) in
      rw something (record {
        some_text = λ e. ground (arith, something, e);
        short = omega (arith, size);
        allowed = All-map _ (λ n. (is_identity_char_iff n).0) allowed;
      })
]

-- Whatever it is given, boundedIdentity returns a text of 1 to 79 letters and digits of ASCII and
-- characters of "._:/+-", and such a text it returns unchanged.
pub bounded_identity-IsIdentity :
    (value : String)
    → IsIdentity (bounded_identity value) × (IsIdentity value → bounded_identity value ≡ value)
unfolding bounded_identity
bounded_identity-IsIdentity value = (
  IsIdentity-within value,
  λ h.
      let same =
        bounded_from-fixed 0 value (omega (arith, h.short))
          (All-map (codes value) (λ n. (is_identity_char_iff n).1) h.allowed) in
      let something = h.some_text in rw same (ground (arith, something)),
)
