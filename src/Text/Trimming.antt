-- ===== src/Text/Trimming.antt =====
-- strings.TrimSpace of texts without a space, and of decimal notation.
use Prim.Native.Nat.{◌^◌}
use fluent_task_runtime.Base.{
  ℕ, zero, suc, ◌/◌, ◌%◌, ◌<◌, code, String, ◌≡◌, refl, sym, ap, ◌∙◌, ◌≢◌, Bool, true, false, not,
  ◌&&◌, none, arith, string_eq, nat_eq,
}
use fluent_task_runtime.Text.{trim_space, trim_left, trim_right, is_space}
use fluent_task_runtime.Text.Decimal.{digit, digits_onto, decimal, atoi, digit_code}
use fluent_task_runtime.Text.Atoi.{atoi-decimal}

-- Whether no character is a space.
unfoldable lacks_space : String → Bool
lacks_space String.[] = true
lacks_space (String.◌∷◌ c s) = not (is_space (code c)) && lacks_space s

trim_left-none : (s : String) → lacks_space s ≡ true → trim_left s ≡ s
unfolding trim_left lacks_space
trim_left-none String.[] h = refl
trim_left-none (String.◌∷◌ c s) h =
    let here : is_space (code c) ≡ false = ground (arith, h) in rw here refl

trim_right-none : (s : String) → lacks_space s ≡ true → trim_right s ≡ s
unfolding trim_right lacks_space
trim_right-none String.[] h = refl
trim_right-none (String.◌∷◌ c s) h =
    let here : is_space (code c) ≡ false = ground (arith, h) in
    let later = trim_right-none s (ground (arith, h)) in ground (arith, here, later)

trim_space-none : (s : String) → lacks_space s ≡ true → trim_space s ≡ s
unfolding trim_space
trim_space-none s h = ap trim_right (trim_left-none s h) ∙ trim_right-none s h

digit-visible : (d : ℕ) → d < 10 → is_space (code (digit d)) ≡ false
unfolding is_space
digit-visible d h = let e = digit_code d h in ground (arith, e)

digits_onto-lacks_space :
    (fuel n : ℕ) (s : String) → lacks_space s ≡ true → lacks_space (digits_onto fuel n s) ≡ true
unfolding digits_onto lacks_space
digits_onto-lacks_space zero n s h = h
digits_onto-lacks_space (suc fuel) n s h =
    let here = digit-visible (n % 10) (omega arith) in
    let longer =
      digits_onto-lacks_space fuel (n / 10) (String.◌∷◌ (digit (n % 10)) s)
        (ground (arith, here, h)) in
    ground (arith, here, longer, h)

pub trim_space-decimal : (n : ℕ) → trim_space (decimal n) ≡ decimal n
unfolding decimal lacks_space
trim_space-decimal n = trim_space-none (decimal n) (digits_onto-lacks_space 20 n "" refl)

pub decimal_some : (n : ℕ) → n < 2 ^ 63 → decimal n ≢ ""
unfolding atoi
decimal_some n h e =
    let nothing : atoi "" ≡ none = refl in
    let some_number = sym (ap atoi e) ∙ atoi-decimal n h in cc
