-- ===== src/Regex/Shapes.antt =====
-- The languages of the patterns that repeat one character class.
use fluent_task_runtime.Base.{
  ℕ, zero, suc, ◌≡◌, refl, ap, ◌↔◌, true, List, [], ◌∷◌, arith, length, All,
}
use fluent_task_runtime.Regex.{chars, times, in_ranges}
use fluent_task_runtime.Regex.Laws.{Lang}

-- `[…]{n}` is the texts of `n` characters of the class.
times-chars_sound :
    (n : ℕ) (rs : List (ℕ × ℕ)) (u : List ℕ)
    → Lang (times n (chars rs)) u
    → (length u ≡ n) × All (λ c. in_ranges rs c ≡ true) u
unfolding times
times-chars_sound zero rs u h = rw h (refl, tt)
times-chars_sound (suc n) rs u (v, w, (c, hit, one), rest, e) =
    let (size, every) = times-chars_sound n rs w rest in
    let cut : u ≡ c ∷ w = rw one at e in rw cut (ap suc size, (hit, every))

times-chars_complete :
    (n : ℕ) (rs : List (ℕ × ℕ)) (u : List ℕ)
    → length u ≡ n
    → All (λ c. in_ranges rs c ≡ true) u
    → Lang (times n (chars rs)) u
unfolding times
times-chars_complete zero rs [] size every = refl
times-chars_complete zero rs (c ∷ u) size every = cc
times-chars_complete (suc n) rs [] size every = cc
times-chars_complete (suc n) rs (c ∷ u) size (hit, every) =
    (c ∷ [], u, (c, hit, refl), times-chars_complete n rs u (omega arith) every, refl)

pub times-chars_iff :
    (n : ℕ) (rs : List (ℕ × ℕ)) (u : List ℕ)
    → Lang (times n (chars rs)) u ↔ ((length u ≡ n) × All (λ c. in_ranges rs c ≡ true) u)
times-chars_iff n rs u = (times-chars_sound n rs u, λ h. times-chars_complete n rs u h.0 h.1)
