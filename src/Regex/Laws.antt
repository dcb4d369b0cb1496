-- ===== src/Regex/Laws.antt =====
-- The matcher of package regexp's patterns, and their language.
use fluent_task_runtime.Base.{
  ℕ, String, ◌≡◌, refl, sym, ap, ◌↔◌, ◌⊎◌, inl, inr, true, List, [], ◌∷◌, ◌++◌, arith, Bool-cases,
  and-eq-true, ◌∙◌,
}
use fluent_task_runtime.Text.{codes}
use fluent_task_runtime.Regex.{
  Regex, nothing, empty, chars, seq, alt, star, in_ranges, nullable, derive, matches, match_string,
  mk_seq, mk_alt,
}

-- A text cut into non-empty pieces, each of which satisfies the predicate.
pub data Pieces (P : List ℕ → Type 0) : List ℕ → Type 0 where
  stop : Pieces P []
  more : {n : ℕ} {u v w : List ℕ} → P (n ∷ u) → Pieces P v → w ≡ n ∷ (u ++ v) → Pieces P w

-- The language of a pattern.
abbrev pub Lang : Regex → List ℕ → Type 0
Lang nothing u = ⊥
Lang empty u = u ≡ []
Lang (chars rs) u = (n : ℕ) × (in_ranges rs n ≡ true) × (u ≡ n ∷ [])
Lang (seq r q) u = (v w : List ℕ) × Lang r v × Lang q w × (u ≡ v ++ w)
Lang (alt r q) u = Lang r u ⊎ Lang q u
Lang (star r) u = Pieces (Lang r) u

Lang-nil : (r : Regex) → nullable r ≡ true → Lang r []
unfolding nullable
Lang-nil nothing h = cc
Lang-nil empty h = refl
Lang-nil (chars rs) h = cc
Lang-nil (seq r q) h = let (a, b) = and-eq-true h in ([], [], Lang-nil r a, Lang-nil q b, refl)
Lang-nil (alt r q) h = elim (Bool-cases (nullable r)) [
  | inl a ↦ inl (Lang-nil r a)
  | inr a ↦ inr (Lang-nil q (ground arith))
]
Lang-nil (star r) h = stop

nil_of_append : (v w : List ℕ) → [] ≡ v ++ w → (v ≡ []) × (w ≡ [])
nil_of_append [] w e = (refl, sym e)
nil_of_append (n ∷ v) w e = cc

nullable_of_Lang : (r : Regex) (u : List ℕ) → u ≡ [] → Lang r u → nullable r ≡ true
unfolding nullable
nullable_of_Lang nothing u e h = elim h [ ]
nullable_of_Lang empty u e h = refl
nullable_of_Lang (chars rs) u e (n, _, e') = cc
nullable_of_Lang (seq r q) u e (v, w, hv, hw, e') =
    let (ev, ew) = nil_of_append v w (cc) in
    rw (nullable_of_Lang r v ev hv) (nullable_of_Lang q w ew hw)
nullable_of_Lang (alt r q) u e (inl h) = rw (nullable_of_Lang r u e h)
nullable_of_Lang (alt r q) u e (inr h) = ground (arith, nullable_of_Lang q u e h)
nullable_of_Lang (star r) u e h = refl

mk_seq_iff : (r q : Regex) (u : List ℕ) → Lang (mk_seq r q) u ↔ Lang (seq r q) u
mk_seq_iff nothing q u = (λ h. elim h [ ], λ h. h.2)
mk_seq_iff empty q u =
    (λ h. ([], u, refl, h, refl), λ (v, w, hv, hw, e). let e' : u ≡ w = rw hv at e in rw e' hw)
mk_seq_iff (chars _) q u = (λ h. h, λ h. h)
mk_seq_iff (seq _ _) q u = (λ h. h, λ h. h)
mk_seq_iff (alt _ _) q u = (λ h. h, λ h. h)
mk_seq_iff (star _) q u = (λ h. h, λ h. h)

mk_alt_iff : (r q : Regex) (u : List ℕ) → Lang (mk_alt r q) u ↔ (Lang r u ⊎ Lang q u)
mk_alt_iff nothing q u = (λ h. inr h, elim [ inl h ↦ absurd h | inr h ↦ h ])
mk_alt_iff empty q u = (λ h. h, λ h. h)
mk_alt_iff (chars _) q u = (λ h. h, λ h. h)
mk_alt_iff (seq _ _) q u = (λ h. h, λ h. h)
mk_alt_iff (alt _ _) q u = (λ h. h, λ h. h)
mk_alt_iff (star _) q u = (λ h. h, λ h. h)

derive_sound : (n : ℕ) (r : Regex) (u : List ℕ) → Lang (derive n r) u → Lang r (n ∷ u)
unfolding derive
derive_sound n nothing u h = h
derive_sound n empty u h = elim h [ ]
derive_sound n (chars rs) u h = elim (Bool-cases (in_ranges rs n)) [
  | inl hit ↦ (n, hit, ap (λ w. n ∷ w) (rw hit at h))
  | inr miss ↦ absurd (rw miss at h)
]
derive_sound n (seq r q) u h = elim (Bool-cases (nullable r)) [
  | inl skip ↦ elim ((mk_alt_iff _ _ u).0 (rw skip at h)) [
    | inl a ↦ seq-cons (derive_sound n r) ((mk_seq_iff _ _ u).0 a)
    | inr a ↦ ([], n ∷ u, Lang-nil r skip, derive_sound n q u a, refl)
  ]
  | inr stay ↦ seq-cons (derive_sound n r) ((mk_seq_iff _ _ u).0 (rw stay at h))
]
  where
    seq-cons :
        ((v : List ℕ) → Lang (derive n r) v → Lang r (n ∷ v))
        → Lang (seq (derive n r) q) u
        → Lang (seq r q) (n ∷ u)
    seq-cons ih (v, w, hv, hw, e) = (n ∷ v, w, ih v hv, hw, ap (λ t. n ∷ t) e)
derive_sound n (alt r q) u h = elim ((mk_alt_iff _ _ u).0 h) [
  | inl a ↦ inl (derive_sound n r u a)
  | inr a ↦ inr (derive_sound n q u a)
]
derive_sound n (star r) u h =
    let (v, w, hv, hw, e) = (mk_seq_iff (derive n r) (star r) u).0 h in
    more (derive_sound n r v hv) hw (ap (λ t. n ∷ t) e)

-- A cut of `n ∷ u` begins with `n`, or its first piece is empty.
cons_of_append :
    (n : ℕ) (u v w : List ℕ)
    → n ∷ u ≡ v ++ w
    → ((v ≡ []) × (w ≡ n ∷ u)) ⊎ ((v' : List ℕ) × (v ≡ n ∷ v') × (u ≡ v' ++ w))
cons_of_append n u [] w e = inl (refl, sym e)
cons_of_append n u (m ∷ v) w e = inr (v, cc, cc)

derive_complete : (n : ℕ) (r : Regex) (u t : List ℕ) → t ≡ n ∷ u → Lang r t → Lang (derive n r) u
unfolding derive
derive_complete n nothing u t e h = h
derive_complete n empty u t e h = cc
derive_complete n (chars rs) u t e (m, hit, e') =
    let same : m ≡ n = cc in let hit' = rw same at hit in rw hit' (cc)
derive_complete n (seq r q) u t e (v, w, hv, hw, e') = elim (cons_of_append n u v w (sym e ∙ e')) [
  | inl (v_nil, w_cons) ↦
      rw (nullable_of_Lang r v v_nil hv)
        ((mk_alt_iff _ _ u).1 (inr (derive_complete n q u w w_cons hw)))
  | inr (v', v_cons, cut) ↦
      let here : Lang (mk_seq (derive n r) q) u =
        (mk_seq_iff _ _ u).1 (v', w, derive_complete n r v' v v_cons hv, hw, cut) in
      elim (Bool-cases (nullable r)) [
        | inl skip ↦ rw skip ((mk_alt_iff _ _ u).1 (inl here))
        | inr stay ↦ rw stay here
      ]
]
derive_complete n (alt r q) u t e (inl h) = (mk_alt_iff _ _ u).1 (inl (derive_complete n r u t e h))
derive_complete n (alt r q) u t e (inr h) = (mk_alt_iff _ _ u).1 (inr (derive_complete n q u t e h))
derive_complete n (star r) u t e stop = cc
derive_complete n (star r) u t e (more {n = m} {u = v} {v = w} hv hw e') =
    let same : m ≡ n = cc in
    (mk_seq_iff _ _ u).1 (v, w, derive_complete n r v (m ∷ v) (rw same) hv, hw, cc)

matches_sound : (r : Regex) (u : List ℕ) → matches r u ≡ true → Lang r u
unfolding matches
matches_sound r [] h = Lang-nil r h
matches_sound r (n ∷ u) h = derive_sound n r u (matches_sound (derive n r) u h)

matches_complete : (r : Regex) (u : List ℕ) → Lang r u → matches r u ≡ true
unfolding matches
matches_complete r [] h = nullable_of_Lang r [] refl h
matches_complete r (n ∷ u) h =
    matches_complete (derive n r) u (derive_complete n r u (n ∷ u) refl h)

-- A text matches an anchored pattern exactly when it is in the language of the pattern.
pub match_string_iff : (r : Regex) (s : String) → (match_string r s ≡ true) ↔ Lang r (codes s)
unfolding match_string
match_string_iff r s = (matches_sound r (codes s), matches_complete r (codes s))
