-- ===== src/Bindings/Merging.antt =====
-- mergeReleaseEntry of internal/engine/catalogue.go: a descriptor joined with its release entry.
use fluent_task_runtime.Base.{
  String, ◌≡◌, refl, subst, ◌⊎◌, inl, inr, true, List, [], ◌∷◌, arith, string_eq, nat_eq,
  and-eq-true, ok, length, all, All, Distinct, contains, mem_of_contains, Memᴰ, Perm,
  perm_of_Distinct,
}
use mathlib.Core.List.Perm
use fluent_task_runtime.Contracts.{QuestionBinding, binding_eq}
use fluent_task_runtime.Bindings.{same_question_bindings, merge_release_entry}

all-contains-mem :
    (right left : List QuestionBinding)
    → all (contains right) left ≡ true
    → All (λ b. Memᴰ b right) left
all-contains-mem right [] h = tt
all-contains-mem right (b ∷ left) h =
    let (here, later) = and-eq-true h in
    (mem_of_contains b right here, all-contains-mem right left later)

-- Two lists of bindings that the code takes for the same are so up to order, if the first holds no
-- binding twice.
pub same_question_bindings-perm :
    (left right : List QuestionBinding)
    → Distinct left
    → same_question_bindings left right ≡ true
    → Perm left right
unfolding same_question_bindings
same_question_bindings-perm left right distinct h =
    let size : length left ≡ length right = ground arith in
    let within : all (contains right) left ≡ true = ground arith in
    perm_of_Distinct left right distinct (all-contains-mem right left within) size

-- A merge that succeeds pins the manifest's question release and the entry's capability keys, and
-- its bindings are those of the entry, up to order; a descriptor with bindings of its own pinned
-- that release or none. The descriptor holds no binding twice.
pub merge_release_entry_sound :
    (release_id manifest_release_id out_id : String)
    (bindings entry_bindings out : List QuestionBinding)
    (entry_capabilities capabilities : List String)
    → Distinct bindings
    → merge_release_entry release_id bindings manifest_release_id entry_bindings entry_capabilities
      ≡ ok (out_id, out, capabilities)
    → (out_id ≡ manifest_release_id)
      × (capabilities ≡ entry_capabilities)
      × Perm out entry_bindings
      × ((bindings ≡ []) ⊎ (release_id ≡ "") ⊎ (release_id ≡ manifest_release_id))
unfolding merge_release_entry
merge_release_entry_sound r m o [] entry out ec c d h =
    let same : entry ≡ out = cc in
    (cc, cc, subst (λ bs. Perm bs entry) same (Perm.refl entry), inl refl)
merge_release_entry_sound r m o (b ∷ bs) entry out ec c d h =
    let agree : same_question_bindings (b ∷ bs) entry ≡ true = ground arith in
    let same : b ∷ bs ≡ out = ground arith in
    (
      ground arith,
      ground arith,
      subst (λ xs. Perm xs entry) same (same_question_bindings-perm (b ∷ bs) entry d agree),
      ground arith,
    )

-- The bindings of a merge are the descriptor's own, if it has any.
pub merge_release_entry-own :
    (release_id manifest_release_id out_id : String)
    (bindings entry_bindings out : List QuestionBinding)
    (entry_capabilities capabilities : List String)
    → merge_release_entry release_id bindings manifest_release_id entry_bindings entry_capabilities
      ≡ ok (out_id, out, capabilities)
    → (bindings ≡ []) ⊎ (bindings ≡ out)
unfolding merge_release_entry
merge_release_entry-own r m o [] entry out ec c h = inl refl
merge_release_entry-own r m o (b ∷ bs) entry out ec c h = inr (ground arith)
