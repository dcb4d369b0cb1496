-- ===== src/Text/Atoi.antt =====
-- strconv.Atoi of decimal notation.
use Prim.Native.Nat.{◌^◌}
use fluent_task_runtime.Base.{
  ℕ, zero, suc, ◌/◌, ◌%◌, ◌<◌, code, String, ◌≡◌, refl, sym, ap, ◌∙◌, inl, inr, true, false, some,
  arith, ltb, ◌==◌, string_eq, nat_eq, Bool-cases,
}
use fluent_task_runtime.Numbers.{pos}
use fluent_task_runtime.Text.Decimal.{
  digit, digits_onto, decimal, digit_code, read_digits, read_unsigned, within_positive, atoi,
  read_digits-digits_onto,
}

-- A text that a digit begins.
record IsNumeral (s : String) : Type 0 where
  first : ℕ
  rest : String
  small : first < 10
  shape : s ≡ String.◌∷◌ (digit first) rest

digits_onto-IsNumeral : (fuel n : ℕ) (s : String) → IsNumeral (digits_onto (suc fuel) n s)
unfolding digits_onto
digits_onto-IsNumeral zero n s = elim (Bool-cases (ltb n 10)) [
  | inl small ↦ record { first = n % 10; rest = s; small = omega arith; shape = rw small refl }
  | inr large ↦ record { first = n % 10; rest = s; small = omega arith; shape = rw large refl }
]
digits_onto-IsNumeral (suc fuel) n s = elim (Bool-cases (ltb n 10)) [
  | inl small ↦ record { first = n % 10; rest = s; small = omega arith; shape = rw small refl }
  | inr large ↦
      let h = digits_onto-IsNumeral fuel (n / 10) (String.◌∷◌ (digit (n % 10)) s) in
      record { first = h.first; rest = h.rest; small = h.small; shape = rw large h.shape }
]

atoi-digits :
    (d : ℕ) (s : String)
    → d < 10
    → atoi (String.◌∷◌ (digit d) s) ≡ within_positive (read_digits 0 (String.◌∷◌ (digit d) s))
unfolding atoi read_unsigned
atoi-digits d s h =
    let e = digit_code d h in
    let unsigned : (code (digit d) == b'-') ≡ false = ground (arith, e) in
    let plain : (code (digit d) == b'+') ≡ false = ground (arith, e) in rw (unsigned, plain) refl

-- What `%d` prints of a number that an int holds, Atoi reads back.
pub atoi-decimal : (n : ℕ) → n < 2 ^ 63 → atoi (decimal n) ≡ some (pos n)
unfolding decimal read_digits
atoi-decimal n h =
    let s = digits_onto-IsNumeral 19 n "" in
    let enough : n < 10 ^ 20 = omega (arith, h) in
    let read : read_digits 0 (digits_onto 20 n "") ≡ some n =
      read_digits-digits_onto 20 n "" enough in
    let fits : ltb n (2 ^ 63) ≡ true = ground (arith, h) in
    ap atoi s.shape
    ∙ atoi-digits s.first s.rest s.small
    ∙ ap (λ t. within_positive (read_digits 0 t)) (sym s.shape)
    ∙ ap within_positive read
    ∙ rw fits refl
