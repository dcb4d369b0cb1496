-- ===== src/Text/Splitting.antt =====
-- strings.SplitN with two parts.
use text.Mathlib.TextEquality.{Char-path}
use text.Mathlib.TextLemmas.{nil-append, cons-append}
use fluent_task_runtime.Base.{
  ℕ, Char, code, String, ◌<>◌, ◌≡◌, sym, ap, subst, ◌≢◌, inl, inr, List, [], ◌∷◌, arith, Bool-cases,
  ==_iff, ◌==◌, nat_eq,
}
use fluent_task_runtime.Text.{split_two, cons_first}

-- The separator does not stand in the text.
abbrev pub Lacks : ℕ → String → Type 0
Lacks sep String.[] = Unit
Lacks sep (String.◌∷◌ c s) = (code c ≢ sep) × Lacks sep s

cons_first_lem :
    (c : Char) (ps : List String) (head part : String)
    → cons_first c ps ≡ head ∷ part ∷ []
    → (h : String) × (ps ≡ h ∷ part ∷ []) × (head ≡ String.◌∷◌ c h)
cons_first_lem c [] head part e = cc
cons_first_lem c (p ∷ ps) head part e = (p, cc, cc)

-- Two parts are what stands before and behind the first separator.
pub split_two_sound :
    (sep : Char) (s head part : String)
    → split_two (code sep) s ≡ head ∷ part ∷ []
    → (s ≡ head <> String.◌∷◌ sep part) × Lacks (code sep) head
unfolding split_two
split_two_sound sep String.[] head part e = cc
split_two_sound sep (String.◌∷◌ c s) head part e = elim (Bool-cases (code c == code sep)) [
  | inl same ↦
      let cut : "" ∷ s ∷ [] ≡ head ∷ part ∷ [] = rw same at e in
      let front : head ≡ "" = cc in
      let here : c ≡ sep = Char-path c sep ((==_iff (code c) (code sep)).0 same) in
      rw (front, nil-append) (cc, tt)
  | inr other ↦
      let (h, later, front) = cons_first_lem c (split_two (code sep) s) head part (rw other at e) in
      let (cut, lacks) = split_two_sound sep s h part later in
      let differs : code c ≢ code sep = λ p. ground arith in
      subst (λ t. (String.◌∷◌ c s ≡ t <> String.◌∷◌ sep part) × Lacks (code sep) t) (sym front)
        (rw cons-append (ap (λ t. String.◌∷◌ c t) cut), (differs, lacks))
]

pub split_two_complete :
    (sep : Char) (head part : String)
    → Lacks (code sep) head
    → split_two (code sep) (head <> String.◌∷◌ sep part) ≡ head ∷ part ∷ []
unfolding split_two
split_two_complete sep String.[] part h = rw nil-append (ground arith)
split_two_complete sep (String.◌∷◌ c head) part (differs, h) =
    rw cons-append (ground (arith, split_two_complete sep head part h))
