-- ===== src/Families/Binding/Tasks.antt =====
-- What a round of bindTaskFamilies, internal/engine/families.go, does to the tasks.
use fluent_task_runtime.Base.{
  String, ◌≡◌, refl, sym, ap, ◌∙◌, subst, ◌≢◌, ◌⊎◌, inl, inr, false, not, ◌&&◌, Option, some, List,
  [], ◌∷◌, ◌++◌, map, arith, ◌==◌, ==_iff, string_eq, nat_eq, Bool-cases, ok, expect, >>=-eq-ok,
  guard-eq-ok, refuse-eq-ok, expect-eq-ok, Option-cases, All, Distinct, contains, Memᴰ,
}
use fluent_task_runtime.Contracts.{Task}
use fluent_task_runtime.Release.{TaskRevisionKey, key_eq}
use fluent_task_runtime.Loading.{key_of_task}
use fluent_task_runtime.Families.{TaskFamilyRevisionEntry, TaskFamilyEntry}
use fluent_task_runtime.Families.Binding.{
  missing_task, unhashable, place, listed_key, check_assignment, bound_task, Progress, assign,
  bind_revision,
}

abbrev pub keys_of : List Task → List TaskRevisionKey
keys_of tasks = map key_of_task tasks

abbrev IsPlace : TaskRevisionKey → List Task → List Task × Task × List Task → Type 0
IsPlace key tasks (before, t, after) = (tasks ≡ before ++ t ∷ after) × (key_of_task t ≡ key)

place_sound :
    (key : TaskRevisionKey) (tasks : List Task) (found : List Task × Task × List Task)
    → place key tasks ≡ some found
    → IsPlace key tasks found
unfolding place
place_sound key [] found h = cc
place_sound key (t ∷ tasks) found h = elim (Option-cases (place key tasks)) [
  | inr ((b, u, a), later) ↦
      let (cut, same) = place_sound key tasks (b, u, a) later in
      let out : (t ∷ b, u, a) ≡ found = cc in
      subst (λ x. IsPlace key (t ∷ tasks) x) out (ap (λ xs. t ∷ xs) cut, same)
  | inl none_later ↦ elim (Bool-cases (key_of_task t == key)) [
    | inl here ↦
        let out : ([], t, tasks) ≡ found = cc in
        subst (λ x. IsPlace key (t ∷ tasks) x) out (refl, (==_iff (key_of_task t) key).0 here)
    | inr other ↦ absurd (cc)
  ]
]

-- The task but for what binding writes.
abbrev pub unbound : Task → Task
unbound t = record t {
  task_family_key = "";
  immutable_hash = "";
  availability = "";
  runnable = false;
}

pub keys_of-unbound :
    (xs ys : List Task) → map unbound xs ≡ map unbound ys → keys_of xs ≡ keys_of ys
keys_of-unbound xs ys h = sym (forget xs) ∙ ap keys_of h ∙ forget ys
  where
    forget : (xs : List Task) → keys_of (map unbound xs) ≡ keys_of xs
    forget [] = refl
    forget (x ∷ xs) = ap (λ ks. key_of_task x ∷ ks) (forget xs)

unbound_replaced :
    (before after : List Task) (t u : Task)
    → unbound u ≡ unbound t
    → map unbound (before ++ u ∷ after) ≡ map unbound (before ++ t ∷ after)
unbound_replaced [] after t u h = ap (λ x. x ∷ map unbound after) h
unbound_replaced (x ∷ before) after t u h =
    ap (λ xs. unbound x ∷ xs) (unbound_replaced before after t u h)

module _ (P Q : Task → Type 0) (t u : Task)
    (others : (x : Task) → key_of_task t ≢ key_of_task x → P x → Q x) (here : Q u) where
  all_after :
      (after : List Task) → All (λ k. key_of_task t ≢ k) (keys_of after) → All P after → All Q after
  all_after [] d h = tt
  all_after (x ∷ after) (differ, d) (p, h) = (others x differ p, all_after after d h)

  differs :
      (x : Task) (before after : List Task)
      → All (λ k. key_of_task x ≢ k) (keys_of (before ++ t ∷ after))
      → key_of_task t ≢ key_of_task x
  differs x [] after (d, _) = λ q. d (sym q)
  differs x (y ∷ before) after (_, d) = differs x before after d

  -- Where keys are distinct, a property of all tasks survives the exchange of one.
  All-replaced :
      (before after : List Task)
      → Distinct (keys_of (before ++ t ∷ after))
      → All P (before ++ t ∷ after)
      → All Q (before ++ u ∷ after)
  All-replaced [] after (differ, d) (_, h) = (here, all_after after differ h)
  All-replaced (x ∷ before) after (differ, d) (p, h) =
      (others x (differs x before after differ) p, All-replaced before after d h)

-- A task that agrees with the revision that lists it, and with its directory's hash.
pub record IsBound (hash : String → Option String) (f : TaskFamilyEntry)
    (r : TaskFamilyRevisionEntry) (t : Task) : Type 0 where
  pub key : key_of_task t ≡ listed_key r
  pub family : t.task_family_key ≡ f.key
  pub language : t.language ≡ r.language
  pub profile : t.profile ≡ r.profile
  pub hashed : t.immutable_hash ≡ r.immutable_hash
  pub measured : hash t.id ≡ some r.immutable_hash
  pub availability : t.availability ≡ r.availability
  pub runnable : (t.runnable ≡ false) ⊎ (r.availability ≡ "runnable")

check_assignment_sound :
    (hash : String → Option String) (f : TaskFamilyEntry) (r : TaskFamilyRevisionEntry) (t : Task)
    {u : Unit {0}}
    → check_assignment hash f r t ≡ ok u
    → ((t.task_family_key ≡ "") ⊎ (t.task_family_key ≡ f.key))
      × (t.language ≡ r.language)
      × (t.profile ≡ r.profile)
      × (hash t.id ≡ some r.immutable_hash)
unfolding check_assignment
check_assignment_sound hash f r t h =
    let (own, h₁) =
      refuse-eq-ok (not (t.task_family_key == "") && not (t.task_family_key == f.key)) _ _ h in
    let (agrees, h₂) = guard-eq-ok (t.language == r.language && t.profile == r.profile) _ _ h₁ in
    let (actual, ha, h₃) = >>=-eq-ok (expect (hash t.id) (unhashable (listed_key r))) _ h₂ in
    let found = expect-eq-ok (hash t.id) (unhashable (listed_key r)) ha in
    let same : actual ≡ r.immutable_hash = ground arith in
    (ground arith, ground arith, ground arith, found ∙ ap some same)

IsBound-of_checked :
    (hash : String → Option String) (f : TaskFamilyEntry) (r : TaskFamilyRevisionEntry) (t : Task)
    → key_of_task t ≡ listed_key r
    → (t.language ≡ r.language) × (t.profile ≡ r.profile) × (hash t.id ≡ some r.immutable_hash)
    → IsBound hash f r (bound_task f r t)
IsBound-of_checked hash f r t key (language, profile, measured) = record {
  key = key;
  family = refl;
  language = language;
  profile = profile;
  hashed = refl;
  measured = measured;
  availability = refl;
  runnable = ground arith;
}

-- A round that succeeds: the task was found, was not bound before, and has been bound in place.
pub record IsRound (hash : String → Option String) (f : TaskFamilyEntry)
    (r : TaskFamilyRevisionEntry) (p next : Progress) : Type 0 where
  pub before : List Task
  pub task : Task
  pub after : List Task
  pub placed : p.tasks ≡ before ++ task ∷ after
  pub key : key_of_task task ≡ listed_key r
  pub new : contains p.seen (listed_key r) ≡ false
  pub free : (task.task_family_key ≡ "") ⊎ (task.task_family_key ≡ f.key)
  pub bound : IsBound hash f r (bound_task f r task)
  pub assigned : assign f r p before task after ≡ next

pub bind_revision-IsRound :
    (hash : String → Option String) (f : TaskFamilyEntry) (p next : Progress)
    (r : TaskFamilyRevisionEntry)
    → bind_revision hash f p r ≡ ok next
    → IsRound hash f r p next
unfolding bind_revision
bind_revision-IsRound hash f p next r h =
    let ((b, t, a), hp, h₁) =
      >>=-eq-ok (expect (place (listed_key r) p.tasks) (missing_task f.key (listed_key r))) _ h in
    let (new, h₂) = refuse-eq-ok (contains p.seen (listed_key r)) _ _ h₁ in
    let (_, hc, h₃) = >>=-eq-ok (check_assignment hash f r t) _ h₂ in
    let (cut, key) =
      place_sound (listed_key r) p.tasks (b, t, a)
        (expect-eq-ok (place (listed_key r) p.tasks) (missing_task f.key (listed_key r)) hp) in
    let (free, language, profile, measured) = check_assignment_sound hash f r t hc in
    record {
      before = b;
      task = t;
      after = a;
      placed = cut;
      key = key;
      new = new;
      free = free;
      bound = IsBound-of_checked hash f r t key (language, profile, measured);
      assigned = cc;
    }

-- Some family of the list has a revision that the task has been bound to.
abbrev pub IsAssigned : (String → Option String) → List TaskFamilyEntry → Task → Type 0
IsAssigned hash families t =
    (f : TaskFamilyEntry) × Memᴰ f families
    × (r : TaskFamilyRevisionEntry) × Memᴰ r f.revisions
    × IsBound hash f r t

-- A task that has been seen has been bound.
abbrev pub IsTracked :
    (String → Option String) → List TaskFamilyEntry → List TaskRevisionKey → Task → Type 0
IsTracked hash families seen t =
    (contains seen (key_of_task t) ≡ false) ⊎ IsAssigned hash families t

IsTracked-cons :
    (hash : String → Option String) (families : List TaskFamilyEntry) (seen : List TaskRevisionKey)
    (k : TaskRevisionKey) (t : Task)
    → k ≢ key_of_task t
    → IsTracked hash families seen t
    → IsTracked hash families (k ∷ seen) t
unfolding contains
IsTracked-cons hash families seen k t differ (inl unseen) = inl (ground (arith, differ))
IsTracked-cons hash families seen k t differ (inr assigned) = inr assigned

-- What holds of the tasks all along the loops.
abbrev pub AreTracked :
    (String → Option String) → List TaskFamilyEntry → List Task → List TaskRevisionKey → Type 0
AreTracked hash families tasks seen =
    Distinct (keys_of tasks) × All (IsTracked hash families seen) tasks

pub bind_revision-AreTracked :
    (hash : String → Option String) (families : List TaskFamilyEntry) (f : TaskFamilyEntry)
    (p next : Progress) (r : TaskFamilyRevisionEntry)
    → IsRound hash f r p next
    → Memᴰ f families
    → Memᴰ r f.revisions
    → AreTracked hash families p.tasks p.seen
    → (map unbound next.tasks ≡ map unbound p.tasks) × AreTracked hash families next.tasks next.seen
bind_revision-AreTracked hash families f p next r round in_families in_family (distinct, tracked) =
    subst
      (λ q. (map unbound q.tasks ≡ map unbound p.tasks) × AreTracked hash families q.tasks q.seen)
      round.assigned
      (
        same ∙ ap (map unbound) (sym round.placed),
        (
          subst (λ ks. Distinct ks) (sym (keys_of-unbound _ _ same)) was_distinct,
          All-replaced (IsTracked hash families p.seen)
              (IsTracked hash families (listed_key r ∷ p.seen)) round.task
              (bound_task f r round.task)
              (λ x differ was.
                IsTracked-cons hash families p.seen (listed_key r) x (λ q. differ (round.key ∙ q))
                  was)
              (inr (f, in_families, r, in_family, round.bound)) round.before round.after
              was_distinct
              (subst (λ ts. All (IsTracked hash families p.seen) ts) round.placed tracked),
        ),
      )
  where
    same :
        map unbound (round.before ++ bound_task f r round.task ∷ round.after)
        ≡ map unbound (round.before ++ round.task ∷ round.after)
    same = unbound_replaced round.before round.after round.task (bound_task f r round.task) refl

    was_distinct : Distinct (keys_of (round.before ++ round.task ∷ round.after))
    was_distinct = subst (λ ts. Distinct (keys_of ts)) round.placed distinct
