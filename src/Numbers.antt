-- ===== src/Numbers.antt =====
-- Go's `int` and `float64`, as the catalogue reads them from JSON.
use fluent_task_runtime.Base.{
  ℕ, ◌≤◌, ◌*◌, ◌+◌, ◌≡◌, ◌↔◌, Bool, true, false, not, ◌&&◌, Eq, nat_eq, ltb, arith,
}
use Prim.Native.Nat.{◌^◌}
use native.Mathlib.Decide.{ℕ_discrete}

-- Go's `int`, within the range of the machine. `negsuc n` is -(n + 1).
pub data ℤ : Type 0 where
  pos : ℕ → ℤ
  negsuc : ℕ → ℤ

unfoldable pub ℤ-discrete : Discrete ℤ
unfolding ℕ_discrete
ℤ-discrete = hlevel ℕ_discrete

instance unfoldable pub int_eq : Eq ℤ
unfolding ℤ-discrete ℕ_discrete
int_eq = record { dec = ℤ-discrete }

-- `a < b`
unfoldable pub lt_int : ℤ → ℤ → Bool
lt_int (pos m) (pos n) = ltb m n
lt_int (pos m) (negsuc n) = false
lt_int (negsuc m) (pos n) = true
lt_int (negsuc m) (negsuc n) = ltb n m

-- `a <= b`
unfoldable pub le_int : ℤ → ℤ → Bool
unfolding lt_int
le_int a b = not (lt_int b a)

infix 50 ◌≤ℤ◌
abbrev pub ◌≤ℤ◌ : ℤ → ℤ → Type 0
pos m ≤ℤ pos n = m ≤ n
pos m ≤ℤ negsuc n = ⊥
negsuc m ≤ℤ pos n = Unit
negsuc m ≤ℤ negsuc n = n ≤ m

pub le_int_iff : (a b : ℤ) → (le_int a b ≡ true) ↔ (a ≤ℤ b)
unfolding le_int
le_int_iff (pos m) (pos n) = ground arith
le_int_iff (pos m) (negsuc n) = ground arith
le_int_iff (negsuc m) (pos n) = ground arith
le_int_iff (negsuc m) (negsuc n) = ground arith

pub le_int_total : (a b : ℤ) → le_int a b ≡ false → b ≤ℤ a
unfolding le_int
le_int_total (pos m) (pos n) h = ground arith
le_int_total (pos m) (negsuc n) h = ground arith
le_int_total (negsuc m) (pos n) h = ground arith
le_int_total (negsuc m) (negsuc n) h = ground arith

pub ≤ℤ_refl : (a : ℤ) → a ≤ℤ a
≤ℤ_refl (pos m) = omega arith
≤ℤ_refl (negsuc m) = omega arith

pub ≤ℤ_trans : (a b c : ℤ) → a ≤ℤ b → b ≤ℤ c → a ≤ℤ c
≤ℤ_trans (pos m) (pos n) (pos k) h i = omega arith
≤ℤ_trans (pos m) (pos n) (negsuc k) h i = i
≤ℤ_trans (pos m) (negsuc n) (pos k) h i = absurd h
≤ℤ_trans (pos m) (negsuc n) (negsuc k) h i = absurd h
≤ℤ_trans (negsuc m) (pos n) (pos k) h i = tt
≤ℤ_trans (negsuc m) (pos n) (negsuc k) h i = absurd i
≤ℤ_trans (negsuc m) (negsuc n) (pos k) h i = tt
≤ℤ_trans (negsuc m) (negsuc n) (negsuc k) h i = omega arith

-- A `float64` that JSON can write: a sign, and mantissa * 2 ^ exponent.
pub record Float64 : Type 0 where
  pub negative : Bool
  pub mantissa : ℕ
  pub exponent : ℤ

-- `f > 0`
unfoldable pub is_positive : Float64 → Bool
is_positive f = not f.negative && ltb 0 f.mantissa

-- `f < 0`
unfoldable pub is_below_zero : Float64 → Bool
is_below_zero f = f.negative && ltb 0 f.mantissa

-- `mantissa * 2 ^ exponent > 1`
abbrev exceeds_one : ℕ → ℤ → Bool
exceeds_one mantissa (pos e) = ltb 1 (mantissa * 2 ^ e)
exceeds_one mantissa (negsuc e) = ltb (2 ^ (e + 1)) mantissa

-- `f > 1`
unfoldable pub above_one : Float64 → Bool
above_one f = not f.negative && exceeds_one f.mantissa f.exponent

pub one_le_of_lt_int : (n : ℤ) → lt_int n (pos 1) ≡ false → pos 1 ≤ℤ n
one_le_of_lt_int n h = (le_int_iff (pos 1) n).0 (unfold le_int in rw h)
