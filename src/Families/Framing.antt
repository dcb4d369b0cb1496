-- ===== src/Families/Framing.antt =====
-- What hashTaskRevision of internal/engine/families.go writes into the hash, read back.
use Prim.Native.Nat.{◌^◌}
use mathlib.Core.Option
use mathlib.Core.Option.{some-injective}
use mathlib.Core.List.{append_assoc}
use fluent_task_runtime.Base.{
  take, drop, split_at-length, ℕ, ◌+◌, ◌*◌, ◌<◌, String, ◌≡◌, refl, sym, ap, ap₂, ◌∙◌, ◌≢◌, inl,
  inr, Option, some, List, [], ◌∷◌, ◌++◌, map, arith, string_eq, nat_eq, Option-cases, length,
}
use fluent_task_runtime.Families.Hashing.{put_uint64, frame, frames}

-- binary.BigEndian.Uint64
abbrev value_from : ℕ → List ℕ → ℕ
value_from n [] = n
value_from n (b ∷ bytes) = value_from (n * 256 + b) bytes

value_put_uint64 : (n : ℕ) → n < 2 ^ 64 → value_from 0 (put_uint64 n) ≡ n
unfolding put_uint64
value_put_uint64 n h = omega arith

-- The first frame of a text, and what is behind it.
abbrev unframe : List ℕ → List ℕ × List ℕ
unframe (a ∷ b ∷ c ∷ d ∷ e ∷ f ∷ g ∷ h ∷ rest) =
    let n = value_from 0 (a ∷ b ∷ c ∷ d ∷ e ∷ f ∷ g ∷ h ∷ []) in (take n rest, drop n rest)
unframe _ = ([], [])

unframe-frame :
    (bytes rest : List ℕ) → length bytes < 2 ^ 64 → (unframe (frame bytes ++ rest) ≡ (bytes, rest))
unfolding frame put_uint64
unframe-frame bytes rest h =
    let n = value_from 0 (put_uint64 (length bytes)) in
    let (kept, left) = split_at-length n bytes rest (sym (value_put_uint64 (length bytes) h)) in
    λ i. (kept i, left i)

frame-injective :
    (xs ys r s : List ℕ)
    → length xs < 2 ^ 64
    → length ys < 2 ^ 64
    → frame xs ++ r ≡ frame ys ++ s
    → (xs ≡ ys) × (r ≡ s)
frame-injective xs ys r s h k e =
    let same = sym (unframe-frame xs r h) ∙ ap unframe e ∙ unframe-frame ys s k in
    (ap (λ p. p.0) same, ap (λ p. p.1) same)

abbrev IsFramed :
    (String → List ℕ) → (String → Option (List ℕ)) → String → List String → List ℕ → Type 0
IsFramed bytes_of read p ps c =
    (body : List ℕ) × (rest : List ℕ) × (read p ≡ some body)
    × (frames bytes_of read ps ≡ some rest)
    × (frame (bytes_of p) ++ (frame body ++ rest) ≡ c)

frames-cons :
    (bytes_of : String → List ℕ) (read : String → Option (List ℕ)) (p : String) (ps : List String)
    (c : List ℕ)
    → frames bytes_of read (p ∷ ps) ≡ some c
    → IsFramed bytes_of read p ps c
unfolding frames Option.bind
frames-cons bytes_of read p ps c h = elim (Option-cases (read p)) [
  | inl none_read ↦ absurd (cc)
  | inr (body, hb) ↦ elim (Option-cases (frames bytes_of read ps)) [
    | inl none_later ↦ let stuck = rw (hb, none_later) at h in cc
    | inr (rest, hr) ↦ (
      body,
      rest,
      hb,
      hr,
      sym (append_assoc (frame (bytes_of p)) (frame body) rest)
          ∙ some-injective _ _ (rw (hb, hr) at h),
    )
  ]
]

frame_not_nil : (xs r : List ℕ) → frame xs ++ r ≢ []
unfolding frame put_uint64
frame_not_nil xs r e = cc

-- What a file contributes to the hash.
abbrev pub file_of :
    (String → List ℕ) → (String → Option (List ℕ)) → String → List ℕ × Option (List ℕ)
file_of bytes_of read p = (bytes_of p, read p)

-- Where names and contents have fewer than 2 ^ 64 bytes, two directories that write the same into
-- the hash have the same files: as many, with the same names in the same order, and with the same
-- contents.
pub frames-injective :
    (bytes_of : String → List ℕ) (read other : String → Option (List ℕ)) (ps qs : List String)
    (c : List ℕ)
    → ((p : String) → length (bytes_of p) < 2 ^ 64)
    → ((p : String) (body : List ℕ) → read p ≡ some body → length body < 2 ^ 64)
    → ((p : String) (body : List ℕ) → other p ≡ some body → length body < 2 ^ 64)
    → frames bytes_of read ps ≡ some c
    → frames bytes_of other qs ≡ some c
    → map (file_of bytes_of read) ps ≡ map (file_of bytes_of other) qs
unfolding frames
frames-injective bytes_of read other [] [] c named small small' h k = refl
frames-injective bytes_of read other [] (q ∷ qs) c named small small' h k =
    let (body, rest, hb, hr, e) = frames-cons bytes_of other q qs c k in
    absurd (frame_not_nil (bytes_of q) (frame body ++ rest) (e ∙ sym (some-injective _ _ h)))
frames-injective bytes_of read other (p ∷ ps) [] c named small small' h k =
    let (body, rest, hb, hr, e) = frames-cons bytes_of read p ps c h in
    absurd (frame_not_nil (bytes_of p) (frame body ++ rest) (e ∙ sym (some-injective _ _ k)))
frames-injective bytes_of read other (p ∷ ps) (q ∷ qs) c named small small' h k =
    let (body, rest, hb, hr, e) = frames-cons bytes_of read p ps c h in
    let (body', rest', hb', hr', e') = frames-cons bytes_of other q qs c k in
    let (same_name, later) =
      frame-injective (bytes_of p) (bytes_of q) (frame body ++ rest) (frame body' ++ rest')
        (named p) (named q) (e ∙ sym e') in
    let (same_body, same_rest) =
      frame-injective body body' rest rest' (small p body hb) (small' q body' hb') later in
    let rest_same : frames bytes_of other qs ≡ some rest = hr' ∙ ap some (sym same_rest) in
    ap₂ (λ x xs. x ∷ xs) (ap₂ (λ a b. (a, b)) same_name (hb ∙ ap some same_body ∙ sym hb'))
      (frames-injective bytes_of read other ps qs rest named small small' hr rest_same)
