-- ===== src/Text/Decimal.antt =====
-- Decimal notation: what fmt.Sprintf prints for %d and %03d, and what strconv.Atoi reads. The fuel of
-- `digits_onto` is the number of digits at most; a 64-bit integer has no more than 20.
use Prim.Native.Nat.{◌^◌}
use Prim.Native.String.{char_at, len}
use fluent_task_runtime.Base.{
  ℕ, zero, suc, ◌+◌, ◌-◌, ◌*◌, ◌/◌, ◌%◌, ◌<◌, Char, code, String, ◌<>◌, ◌≡◌, refl, ap, ◌∙◌, inl,
  inr, true, Option, none, some, arith, if◌then◌else◌, ltb, ◌==◌, string_eq, nat_eq, Bool-cases,
}
use fluent_task_runtime.Text.{between}
use fluent_task_runtime.Numbers.{ℤ, pos, negsuc}

unfoldable pub digit : ℕ → Char
digit d = char_at "0123456789" d

-- The digits of `n`, in front of a text.
unfoldable pub digits_onto : ℕ → ℕ → String → String
unfolding digit
digits_onto zero n text = text
digits_onto (suc fuel) n text =
    let longer = digits_onto fuel (n / 10) (String.◌∷◌ (digit (n % 10)) text) in
    if ltb n 10 then String.◌∷◌ (digit (n % 10)) text else longer

unfoldable pub decimal : ℕ → String
decimal n = digits_onto 20 n ""

-- Zeros in front, up to a width of three.
abbrev pad_three : String → String
pad_three s = if len s == 1 then "00" <> s else if len s == 2 then "0" <> s else s

abbrev pad_two : String → String
pad_two s = if len s == 1 then "0" <> s else s

-- fmt.Sprintf("%03d", n); the sign counts for the width.
unfoldable pub decimal_03 : ℤ → String
decimal_03 (pos n) = pad_three (decimal n)
decimal_03 (negsuc n) = "-" <> pad_two (decimal (n + 1))

-- fmt.Sprintf("%d", n)
unfoldable pub decimal_int : ℤ → String
decimal_int (pos n) = decimal n
decimal_int (negsuc n) = "-" <> decimal (n + 1)

-- The digits of a text, behind the number that has been read.
unfoldable pub read_digits : ℕ → String → Option ℕ
read_digits n String.[] = some n
read_digits n (String.◌∷◌ c s) =
    let rest = read_digits (n * 10 + (code c - b'0')) s in
    if between b'0' b'9' (code c) then rest else none

unfoldable pub read_unsigned : String → Option ℕ
read_unsigned String.[] = none
read_unsigned (String.◌∷◌ c s) = read_digits 0 (String.◌∷◌ c s)

abbrev pub within_positive : Option ℕ → Option ℤ
within_positive none = none
within_positive (some n) = if ltb n (2 ^ 63) then some (pos n) else none

abbrev within_negative : Option ℕ → Option ℤ
within_negative none = none
within_negative (some zero) = some (pos 0)
within_negative (some (suc n)) = if ltb n (2 ^ 63) then some (negsuc n) else none

-- strconv.Atoi, where int has 64 bits.
unfoldable pub atoi : String → Option ℤ
unfolding read_digits
atoi String.[] = none
atoi (String.◌∷◌ c s) =
    if code c == b'-'
    then within_negative (read_unsigned s)
    else if code c == b'+'
    then within_positive (read_unsigned s)
    else within_positive (read_unsigned (String.◌∷◌ c s))

pub digit_code : (d : ℕ) → d < 10 → code (digit d) ≡ b'0' + d
unfolding digit
digit_code zero h = refl
digit_code (suc zero) h = refl
digit_code (suc (suc zero)) h = refl
digit_code (suc (suc (suc zero))) h = refl
digit_code (suc (suc (suc (suc zero)))) h = refl
digit_code (suc (suc (suc (suc (suc zero))))) h = refl
digit_code (suc (suc (suc (suc (suc (suc zero)))))) h = refl
digit_code (suc (suc (suc (suc (suc (suc (suc zero))))))) h = refl
digit_code (suc (suc (suc (suc (suc (suc (suc (suc zero)))))))) h = refl
digit_code (suc (suc (suc (suc (suc (suc (suc (suc (suc zero))))))))) h = refl
digit_code (suc (suc (suc (suc (suc (suc (suc (suc (suc (suc d)))))))))) h =
    absurd (omega (arith, h))

read_digits-digit :
    (n d : ℕ) (s : String)
    → d < 10
    → read_digits n (String.◌∷◌ (digit d) s) ≡ read_digits (n * 10 + d) s
unfolding read_digits
read_digits-digit n d s h =
    let e = digit_code d h in
    let value : code (digit d) - b'0' ≡ d = omega (arith, e) in
    let inside : between b'0' b'9' (code (digit d)) ≡ true = ground (arith, e) in
    rw (inside, value) refl

-- Reading digits that have been printed gives the number back.
pub read_digits-digits_onto :
    (fuel n : ℕ) (s : String)
    → n < 10 ^ fuel
    → read_digits 0 (digits_onto fuel n s) ≡ read_digits n s
unfolding digits_onto
read_digits-digits_onto zero n s h = let none_left : n ≡ 0 = omega (arith, h) in rw none_left refl
read_digits-digits_onto (suc fuel) n s h = elim (Bool-cases (ltb n 10)) [
  | inl small ↦
      let whole : 0 * 10 + n % 10 ≡ n = ground (arith, small) in
      rw small (read_digits-digit 0 (n % 10) s (omega arith) ∙ ap (λ k. read_digits k s) whole)
  | inr large ↦
      let power : 10 ^ suc fuel ≡ 10 * 10 ^ fuel = pow_step fuel in
      let shorter : n / 10 < 10 ^ fuel = omega (arith, h, power) in
      let whole : n / 10 * 10 + n % 10 ≡ n = omega arith in
      rw large (
        read_digits-digits_onto fuel (n / 10) (String.◌∷◌ (digit (n % 10)) s) shorter
        ∙ read_digits-digit (n / 10) (n % 10) s (omega arith)
        ∙ ap (λ k. read_digits k s) whole)
]
  where
    pow_step : (k : ℕ) → 10 ^ suc k ≡ 10 * 10 ^ k
    pow_step k = omega arith
