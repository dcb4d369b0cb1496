-- ===== src/Catalogue/Readiness.antt =====
-- The profiles that a catalogue hands out.
use fluent_task_runtime.Base.{
  String, ◌≡◌, refl, sym, ap, ◌∙◌, subst, ◌≢◌, ◌↔◌, ◌⊎◌, inl, inr, true, ◌&&◌, List, [], ◌∷◌, ◌++◌,
  map, arith, ◌==◌, ==_iff, string_eq, nat_eq, Bool-cases, ne_of_test, ok, All, contains, Memᴰ,
}
use fluent_task_runtime.Contracts.{Task, Profile}
use fluent_task_runtime.Catalogue.{
  Environment, Catalogue, declared_profiles, supported_tasks, has_released, join_profile,
  new_catalogue,
}
use fluent_task_runtime.Catalogue.Building.{new_catalogue-IsBuild}

-- Some task of the profile is released.
abbrev pub IsServed : String → List Task → Type 0
IsServed profile tasks = (t : Task) × Memᴰ t tasks × (t.profile ≡ profile) × (t.status ≡ "released")

has_released_sound :
    (profile : String) (tasks : List Task)
    → has_released profile tasks ≡ true
    → IsServed profile tasks
unfolding has_released
has_released_sound profile [] h = cc
has_released_sound profile (t ∷ tasks) h =
    elim (Bool-cases (t.profile == profile && t.status == "released")) [
      | inl here ↦ (t, Memᴰ.head refl, ground arith, ground arith)
      | inr other ↦
          let (u, mem, own, released) = has_released_sound profile tasks (ground arith) in
          (u, Memᴰ.tail mem, own, released)
    ]

has_released_complete :
    (profile : String) {t : Task} (tasks : List Task)
    → Memᴰ t tasks
    → t.profile ≡ profile
    → t.status ≡ "released"
    → has_released profile tasks ≡ true
unfolding has_released
has_released_complete profile [] m own released = elim m [ ]
has_released_complete profile (u ∷ tasks) (Memᴰ.head e) own released =
    let own_u : u.profile ≡ profile = ap (λ x. x.profile) (sym e) ∙ own in
    let released_u : u.status ≡ "released" = ap (λ x. x.status) (sym e) ∙ released in ground arith
has_released_complete profile (u ∷ tasks) (Memᴰ.tail m) own released =
    ground (arith, has_released_complete profile tasks m own released)

-- A profile is ready exactly when some task of it is released.
abbrev pub IsReadyIff : List Task → Profile → Type 0
IsReadyIff tasks p = (p.status ≡ "ready") ↔ IsServed p.id tasks

ready_iff :
    (tasks : List Task) (p : Profile)
    → p.status ≡ "declared"
    → IsReadyIff tasks (join_profile tasks p)
ready_iff tasks p declared = (
  λ h. elim (Bool-cases (has_released p.id tasks)) [
    | inl served ↦ has_released_sound p.id tasks served
    | inr idle ↦
        let still : p.status ≡ "ready" = rw idle at h in
        absurd (ne_of_test "declared" "ready" refl (sym declared ∙ still))
  ],
  λ (t, mem, own, released).
      let served : has_released p.id tasks ≡ true =
        has_released_complete p.id tasks mem own released in
      rw served refl,
)

-- Every task whose profile is this one is named among those that it supports.
abbrev pub IsSupporting : List Task → Profile → Type 0
IsSupporting tasks p =
    All (λ t. (t.profile ≢ p.id) ⊎ (contains p.supported_tasks t.id ≡ true)) tasks

contains_supported :
    (profile : String) {t : Task} (tasks : List Task)
    → Memᴰ t tasks
    → t.profile ≡ profile
    → contains (supported_tasks profile tasks) t.id ≡ true
unfolding supported_tasks contains
contains_supported profile [] m own = elim m [ ]
contains_supported profile (u ∷ tasks) (Memᴰ.head e) own =
    let own_u : u.profile ≡ profile = ap (λ x. x.profile) (sym e) ∙ own in
    let same : u.id ≡ _ = ap (λ x. x.id) (sym e) in ground arith
contains_supported profile (u ∷ tasks) (Memᴰ.tail m) own =
    ground (arith, contains_supported profile tasks m own)

supporting :
    (tasks : List Task) (p : Profile)
    → p.supported_tasks ≡ []
    → IsSupporting tasks (join_profile tasks p)
supporting tasks p none_yet = from tasks (λ t m. m)
  where
    from :
        (ts : List Task)
        → ((t : Task) → Memᴰ t ts → Memᴰ t tasks)
        → All
            (λ t.
              (t.profile ≢ p.id)
              ⊎ (contains (p.supported_tasks ++ supported_tasks p.id tasks) t.id ≡ true))
            ts
    from [] within = tt
    from (t ∷ ts) within = (
      elim (Bool-cases (t.profile == p.id)) [
        | inr foreign ↦ inl (λ q. ground arith)
        | inl own ↦
            let listed =
              contains_supported p.id tasks (within t (Memᴰ.head refl))
                ((==_iff t.profile p.id).0 own) in
            inr (rw none_yet listed)
      ],
      from ts (λ u m. within u (Memᴰ.tail m)),
    )

-- In a catalogue that has been built, each profile is ready exactly when some task of it is
-- released, and names every task of it.
pub new_catalogue-profiles :
    (env : Environment) (c : Catalogue)
    → new_catalogue env ≡ ok c
    → All (IsReadyIff c.tasks.tasks) c.profiles.profiles
      × All (IsSupporting c.tasks.tasks) c.profiles.profiles
new_catalogue-profiles env c h =
    let same = (new_catalogue-IsBuild env c h).profiles in
    (
      subst (λ ps. All (IsReadyIff c.tasks.tasks) ps) (sym same)
          (each (IsReadyIff c.tasks.tasks) (λ p declared _. ready_iff c.tasks.tasks p declared)),
      subst (λ ps. All (IsSupporting c.tasks.tasks) ps) (sym same)
          (each (IsSupporting c.tasks.tasks) (λ p _ none_yet. supporting c.tasks.tasks p none_yet)),
    )
  where
    each :
        (P : Profile → Type 0)
        → ((p : Profile)
            → p.status ≡ "declared"
            → p.supported_tasks ≡ []
            → P (join_profile c.tasks.tasks p))
        → All P (map (join_profile c.tasks.tasks) declared_profiles)
    each P f =
        (f _ refl refl, (f _ refl refl, (f _ refl refl, (f _ refl refl, (f _ refl refl, tt)))))
