-- ===== src/Text/Laws.antt =====
-- Trimming.
use fluent_task_runtime.Base.{code, String, ◌≡◌, refl, false, arith}
use fluent_task_runtime.Text.{is_space, trim_left, trim_right, trim_space}

-- The text does not begin with a space.
abbrev StartsPlain : String → Type 0
StartsPlain String.[] = Unit
StartsPlain (String.◌∷◌ c s) = is_space (code c) ≡ false

trim_left-StartsPlain : (s : String) → StartsPlain (trim_left s)
unfolding trim_left
trim_left-StartsPlain String.[] = tt
trim_left-StartsPlain (String.◌∷◌ c s) = ground (arith, trim_left-StartsPlain s)

trim_right-StartsPlain : (s : String) → StartsPlain s → StartsPlain (trim_right s)
unfolding trim_right
trim_right-StartsPlain String.[] h = tt
trim_right-StartsPlain (String.◌∷◌ c s) h = ground arith

trim_left_of_StartsPlain : (s : String) → StartsPlain s → trim_left s ≡ s
unfolding trim_left
trim_left_of_StartsPlain String.[] h = refl
trim_left_of_StartsPlain (String.◌∷◌ c s) h = rw h

trim_right_idem : (s : String) → trim_right (trim_right s) ≡ trim_right s
unfolding trim_right
trim_right_idem String.[] = refl
trim_right_idem (String.◌∷◌ c s) = ground (arith, trim_right_idem s)

-- Trimming a text a second time changes nothing.
pub trim_space_idem : (s : String) → trim_space (trim_space s) ≡ trim_space s
unfolding trim_space
trim_space_idem s =
    rw (trim_left_of_StartsPlain _ (trim_right-StartsPlain _ (trim_left-StartsPlain s)))
      (trim_right_idem (trim_left s))
