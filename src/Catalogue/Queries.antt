-- ===== src/Catalogue/Queries.antt =====
-- What Task and LatestTask of internal/engine/catalogue.go find.
use fluent_task_runtime.Base.{
  String, ◌≡◌, refl, sym, ap, ◌∙◌, subst, ◌≢◌, ◌↔◌, ◌⊎◌, inl, inr, ◌&&◌, none, some, List, [], ◌∷◌,
  map, arith, ◌==◌, string_eq, nat_eq, Bool-cases, All, All-mem, Distinct, Memᴰ,
}
use fluent_task_runtime.Numbers.{
  ℤ, int_eq, le_int, ◌≤ℤ◌, le_int_iff, le_int_total, ≤ℤ_refl, ≤ℤ_trans,
}
use fluent_task_runtime.Contracts.{Task}
use fluent_task_runtime.Release.{TaskRevisionKey, key_eq}
use fluent_task_runtime.Loading.{key_of_task}
use fluent_task_runtime.Catalogue.{find_task, latest_from}

abbrev keys : List Task → List TaskRevisionKey
keys tasks = map key_of_task tasks

pub find_task_sound :
    (tasks : List Task) (id : String) (revision : ℤ) (t : Task)
    → find_task tasks id revision ≡ some t
    → Memᴰ t tasks × (t.id ≡ id) × (t.revision ≡ revision)
unfolding find_task
find_task_sound [] id revision t h = cc
find_task_sound (u ∷ tasks) id revision t h =
    elim (Bool-cases (u.id == id && u.revision == revision)) [
      | inl here ↦
          let same : u ≡ t = ground arith in
          (Memᴰ.head (sym same), rw (← same) (ground arith), rw (← same) (ground arith))
      | inr other ↦
          let (mem, same_id, same_revision) = find_task_sound tasks id revision t (rw other at h) in
          (Memᴰ.tail mem, same_id, same_revision)
    ]

key_of_mem : {t : Task} (tasks : List Task) → Memᴰ t tasks → Memᴰ (key_of_task t) (keys tasks)
key_of_mem tasks (Memᴰ.head e) = Memᴰ.head (ap key_of_task e)
key_of_mem tasks (Memᴰ.tail {xs} m) = Memᴰ.tail (key_of_mem xs m)

find_task_complete :
    (tasks : List Task) (t : Task)
    → Distinct (keys tasks)
    → Memᴰ t tasks
    → find_task tasks t.id t.revision ≡ some t
unfolding find_task
find_task_complete [] t _ m = elim m [ ]
find_task_complete (u ∷ tasks) t (differ, distinct) (Memᴰ.head e) = rw e (ground arith)
find_task_complete (u ∷ tasks) t (differ, distinct) (Memᴰ.tail m) =
    let other : key_of_task u ≢ key_of_task t =
      All-mem (λ k. key_of_task u ≢ k) differ (key_of_mem tasks m) in
    let later = find_task_complete tasks t distinct m in
    elim (Bool-cases (u.id == t.id && u.revision == t.revision)) [
      | inr passed ↦ rw passed later
      | inl here ↦
          let same_id : u.id ≡ t.id = ground arith in
          let same_revision : u.revision ≡ t.revision = ground arith in
          absurd (other (λ i. record { id = same_id i; revision = same_revision i }))
    ]

-- In a catalogue whose tasks have distinct keys, a task is found under an identity and a revision
-- exactly when it is one of the tasks and these are its own.
pub find_task_iff :
    (tasks : List Task) (id : String) (revision : ℤ) (t : Task)
    → Distinct (keys tasks)
    → (find_task tasks id revision ≡ some t)
      ↔ (Memᴰ t tasks × (t.id ≡ id) × (t.revision ≡ revision))
find_task_iff tasks id revision t distinct = (
  find_task_sound tasks id revision t,
  λ (mem, same_id, same_revision).
      subst (λ i. find_task tasks i revision ≡ some t) same_id
        (subst (λ r. find_task tasks t.id r ≡ some t) same_revision
          (find_task_complete tasks t distinct mem)),
)

-- No task of this identity has a later revision.
abbrev pub IsBoundedBy : String → ℤ → Task → Type 0
IsBoundedBy id revision u = (u.id ≢ id) ⊎ (u.revision ≤ℤ revision)

abbrev pub IsLatest : String → List Task → Task → Type 0
IsLatest id tasks t = Memᴰ t tasks × (t.id ≡ id) × All (IsBoundedBy id t.revision) tasks

-- Where the loop ends that has `a` as the latest so far.
abbrev IsLatestFrom : String → Task → List Task → Task → Type 0
IsLatestFrom id a tasks t =
    ((t ≡ a) ⊎ (Memᴰ t tasks × (t.id ≡ id)))
    × (a.revision ≤ℤ t.revision)
    × All (IsBoundedBy id t.revision) tasks

IsLatestFrom-tail :
    (id : String) (a b : Task) (tasks : List Task) (t : Task)
    → (b ≡ a) ⊎ (b.id ≡ id)
    → a.revision ≤ℤ b.revision
    → IsLatestFrom id b tasks t
    → ((t ≡ a) ⊎ (Memᴰ t (b ∷ tasks) × (t.id ≡ id))) × (a.revision ≤ℤ t.revision)
IsLatestFrom-tail id a b tasks t own below (inl same, above, bounded) = (
  elim own [ inl e ↦ inl (same ∙ e) | inr e ↦ inr (Memᴰ.head same, ap (λ x. x.id) same ∙ e) ],
  ≤ℤ_trans a.revision b.revision t.revision below above,
)
IsLatestFrom-tail id a b tasks t own below (inr (mem, e), above, bounded) =
    (inr (Memᴰ.tail mem, e), ≤ℤ_trans a.revision b.revision t.revision below above)

skip_task :
    (id : String) (a u : Task) (tasks : List Task) (t : Task)
    → (u.id ≢ id) ⊎ (u.revision ≤ℤ a.revision)
    → IsLatestFrom id a tasks t
    → IsLatestFrom id a (u ∷ tasks) t
skip_task id a u tasks t passed (origin, above, bounded) = (
  elim origin [ inl same ↦ inl same | inr (mem, e) ↦ inr (Memᴰ.tail mem, e) ],
  above,
  (
    elim passed [
      | inl foreign ↦ inl foreign
      | inr old ↦ inr (≤ℤ_trans u.revision a.revision t.revision old above)
    ],
    bounded,
  ),
)

latest_from-some :
    (id : String) (a : Task) (tasks : List Task)
    → (t : Task) × (latest_from id (some a) tasks ≡ some t) × IsLatestFrom id a tasks t
unfolding latest_from
latest_from-some id a [] = (a, refl, (inl refl, ≤ℤ_refl a.revision, tt))
latest_from-some id a (u ∷ tasks) =
    let (t, run, latest) = latest_from-some id a tasks in
    let (v, run_u, latest_u) = latest_from-some id u tasks in
    elim (Bool-cases (u.id == id)) [
      | inr foreign ↦ (t, rw foreign run, skip_task id a u tasks t (inl (λ q. ground arith)) latest)
      | inl own ↦ elim (Bool-cases (le_int u.revision a.revision)) [
        | inl old ↦ (
          t,
          rw (own, old) run,
          skip_task id a u tasks t (inr ((le_int_iff u.revision a.revision).0 old)) latest,
        )
        | inr newer ↦
            let same_id : u.id ≡ id = ground arith in
            let (origin, above) =
              IsLatestFrom-tail id a u tasks v (inr same_id)
                (le_int_total u.revision a.revision newer) latest_u in
            let (_, above_u, bounded) = latest_u in
            (v, rw (own, newer) run_u, (origin, above, (inr above_u, bounded)))
      ]
    ]

-- LatestTask returns none exactly where no task has the identity, and else a task of that identity
-- whose revision no other's exceeds.
pub latest_from_lem :
    (id : String) (tasks : List Task)
    → ((latest_from id none tasks ≡ none) × All (λ u. u.id ≢ id) tasks)
      ⊎ ((t : Task) × (latest_from id none tasks ≡ some t) × IsLatest id tasks t)
unfolding latest_from
latest_from_lem id [] = inl (refl, tt)
latest_from_lem id (u ∷ tasks) = elim (Bool-cases (u.id == id)) [
  | inl own ↦
      let (t, run, (origin, above, bounded)) = latest_from-some id u tasks in
      let same_id : u.id ≡ id = ground arith in
      inr (
        t,
        rw own run,
        (
          elim origin [ inl e ↦ Memᴰ.head e | inr (mem, _) ↦ Memᴰ.tail mem ],
          elim origin [ inl e ↦ ap (λ x. x.id) e ∙ same_id | inr (_, e) ↦ e ],
          (inr above, bounded),
        ),
      )
  | inr foreign ↦
      let differs : u.id ≢ id = λ q. ground arith in
      elim (latest_from_lem id tasks) [
        | inl (run, all_foreign) ↦ inl (rw foreign run, (differs, all_foreign))
        | inr (t, run, (mem, same_id, bounded)) ↦
            inr (t, rw foreign run, (Memᴰ.tail mem, same_id, (inl differs, bounded)))
      ]
]
