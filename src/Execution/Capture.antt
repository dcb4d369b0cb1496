-- ===== src/Execution/Capture.antt =====
-- What limitedBuffer and readBounded of internal/engine/docker_executor.go keep and deliver.
use mathlib.Core.List.{append-nil, append_assoc}
use fluent_task_runtime.Base.{
  take, ℕ, zero, suc, ◌+◌, ◌-◌, ◌≤◌, ◌<◌, ◌≡◌, refl, sym, ap, ap₂, ◌∙◌, ◌⊎◌, inl, inr, true, false,
  Option, none, some, subst, List, [], ◌∷◌, ◌++◌, arith, ltb, leb, string_eq, nat_eq, Bool-cases,
  length,
}
use fluent_task_runtime.Execution.{LimitedBuffer, write, read_bounded}

abbrev pub fresh : ℕ → LimitedBuffer
fresh limit = record { content = []; limit = limit; truncated = false }

abbrev pub write_all : LimitedBuffer → List (List ℕ) → LimitedBuffer
write_all b [] = b
write_all b (p ∷ ps) = write_all ((write b p).0) ps

abbrev pub concat : List (List ℕ) → List ℕ
concat [] = []
concat (p ∷ ps) = p ++ concat ps

take-all : (n : ℕ) (xs : List ℕ) → length xs ≤ n → take n xs ≡ xs
unfolding take
take-all zero [] h = refl
take-all zero (x ∷ xs) h = absurd (omega (arith, h))
take-all (suc n) [] h = refl
take-all (suc n) (x ∷ xs) h = ap (λ ys. x ∷ ys) (take-all n xs (omega (arith, h)))

take-nil : (n : ℕ) → take {A = ℕ} n [] ≡ []
unfolding take
take-nil zero = refl
take-nil (suc n) = refl

take_zero : (n : ℕ) (xs : List ℕ) → n ≡ 0 → take n xs ≡ []
unfolding take
take_zero zero xs h = refl
take_zero (suc n) xs h = absurd (omega (arith, h))

write-take :
    (b : LimitedBuffer) (p : List ℕ)
    → ((write b p).0.content ≡ b.content ++ take (b.limit - length b.content) p)
      × ((write b p).0.limit ≡ b.limit)
unfolding write
write-take b p = elim (Bool-cases (leb b.limit (length b.content))) [
  | inl full ↦
      let none_left : b.limit - length b.content ≡ 0 = ground arith in
      rw full (
        sym (
            ap (λ ys. b.content ++ ys) (take_zero (b.limit - length b.content) p none_left)
            ∙ append-nil b.content),
        refl,
      )
  | inr room ↦ elim (Bool-cases (ltb (b.limit - length b.content) (length p))) [
    | inl over ↦ rw (room, over) (refl, refl)
    | inr fits ↦
        let enough : length p ≤ b.limit - length b.content = ground arith in
        rw (room, fits)
          (ap (λ ys. b.content ++ ys) (sym (take-all (b.limit - length b.content) p enough)), refl)
  ]
]

take-append :
    (n : ℕ) (xs p : List ℕ) → take n xs ++ take (n - length (take n xs)) p ≡ take n (xs ++ p)
unfolding take
take-append zero xs p = refl
take-append (suc n) [] p =
    let all_left : suc n - 0 ≡ suc n = omega arith in ap (λ k. take k p) all_left
take-append (suc n) (x ∷ xs) p =
    let less : suc n - length (x ∷ take n xs) ≡ n - length (take n xs) = omega arith in
    ap (λ ys. x ∷ ys) (ap (λ k. take n xs ++ take k p) less ∙ take-append n xs p)

write_all_from :
    (b : LimitedBuffer) (limit : ℕ) (xs : List ℕ) (ps : List (List ℕ))
    → b.limit ≡ limit
    → b.content ≡ take limit xs
    → (write_all b ps).content ≡ take limit (xs ++ concat ps)
write_all_from b limit xs [] same kept = kept ∙ ap (take limit) (sym (append-nil xs))
write_all_from b limit xs (p ∷ ps) same kept =
    let (next, kept_limit) = write-take b p in
    let step : (write b p).0.content ≡ take limit (xs ++ p) =
      next ∙ ap₂ (λ c l. c ++ take (l - length c) p) kept same ∙ take-append limit xs p in
    write_all_from ((write b p).0) limit (xs ++ p) ps (kept_limit ∙ same) step
    ∙ ap (take limit) (append_assoc xs p (concat ps))

-- Whatever chunks are written one after the other, a buffer that starts empty holds as many of
-- their first bytes as its limit allows.
pub write_all-take :
    (limit : ℕ) (ps : List (List ℕ)) → (write_all (fresh limit) ps).content ≡ take limit (concat ps)
write_all-take limit ps = write_all_from (fresh limit) limit [] ps refl (sym (take-nil limit))

length-take : (n : ℕ) (xs : List ℕ) → n ≤ length xs → length (take n xs) ≡ n
unfolding take
length-take zero xs h = refl
length-take (suc n) [] h = absurd (omega (arith, h))
length-take (suc n) (x ∷ xs) h =
    let rest = length-take n xs (omega (arith, h)) in omega (arith, rest)

-- A bounded read delivers a content that is within the limit whole, and refuses every other.
pub read_bounded_lem :
    (bytes : List ℕ) (limit : ℕ)
    → ((length bytes ≤ limit) × (read_bounded (some bytes) limit ≡ some bytes))
      ⊎ ((limit < length bytes) × (read_bounded (some bytes) limit ≡ none))
unfolding read_bounded
read_bounded_lem bytes limit = elim (Bool-cases (ltb limit (length bytes))) [
  | inl over ↦
      let beyond : limit < length bytes = ground arith in
      let size = length-take (limit + 1) bytes (omega (arith, beyond)) in
      let refused : ltb limit (length (take (limit + 1) bytes)) ≡ true = ground (arith, size) in
      inr (beyond, rw refused refl)
  | inr fits ↦
      let within : length bytes ≤ limit = ground arith in
      let whole = take-all (limit + 1) bytes (omega (arith, within)) in
      inl (within, rw (whole, fits) refl)
]

-- What a bounded read has delivered is the whole content, which is within the limit.
pub read_bounded_sound :
    (content : Option (List ℕ)) (limit : ℕ) (bytes : List ℕ)
    → read_bounded content limit ≡ some bytes
    → (content ≡ some bytes) × (length bytes ≤ limit)
unfolding read_bounded
read_bounded_sound none limit bytes h = cc
read_bounded_sound (some whole) limit bytes h = elim (read_bounded_lem whole limit) [
  | inl (within, read) ↦
      let same : whole ≡ bytes = cc in (ap some same, subst (λ xs. length xs ≤ limit) same within)
  | inr (_, refused) ↦ let clash = sym refused ∙ h in cc
]
