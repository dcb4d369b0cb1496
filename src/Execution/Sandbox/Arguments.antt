-- ===== src/Execution/Sandbox/Arguments.antt =====
-- What dockerArgs of internal/engine/docker_executor.go hands to Docker.
use mathlib.Core.Bool.{false≢true}
use fluent_task_runtime.Base.{
  String, ◌<>◌, ◌≡◌, ◌≢◌, Memᴰ, All-map, All-append, refl, sym, ◌∙◌, subst, inl, inr, true, some,
  List, [], ◌∷◌, ◌++◌, arith, ◌==◌, ==_iff, string_eq, nat_eq, Bool-cases, All,
}
use fluent_task_runtime.Numbers.{ℤ, pos, negsuc, lt_int, ◌≤ℤ◌, Float64, is_positive}
use fluent_task_runtime.Contracts.{Task}
use fluent_task_runtime.Loading.Descriptors.{HasLimits}
use fluent_task_runtime.Text.Decimal.{decimal_int}
use fluent_task_runtime.Execution.Sandbox.{
  Directories, docker_container_name, docker_args, docker_options, with_user,
}

-- An option of `docker run`, with its value if it has one, that keeps the container apart: nothing else
-- may stand before the image.
pub data IsSetting (format_float : Float64 → String) (t : Task) (dirs : Directories) (name : String)
    : List String → Type 0 where
  removed : IsSetting format_float t dirs name ("--rm" ∷ [])
  named : IsSetting format_float t dirs name ("--name" ∷ name ∷ [])
  local_image : IsSetting format_float t dirs name ("--pull" ∷ "never" ∷ [])
  unlogged : IsSetting format_float t dirs name ("--log-driver" ∷ "none" ∷ [])
  offline : IsSetting format_float t dirs name ("--network" ∷ "none" ∷ [])
  memory : IsSetting format_float t dirs name ("--memory" ∷ (decimal_int t.memory_mb <> "m") ∷ [])
  no_swap :
      IsSetting format_float t dirs name ("--memory-swap" ∷ (decimal_int t.memory_mb <> "m") ∷ [])
  cpus : IsSetting format_float t dirs name ("--cpus" ∷ format_float t.cpus ∷ [])
  processes : IsSetting format_float t dirs name ("--pids-limit" ∷ "256" ∷ [])
  no_capabilities : IsSetting format_float t dirs name ("--cap-drop" ∷ "ALL" ∷ [])
  no_privileges : IsSetting format_float t dirs name ("--security-opt" ∷ "no-new-privileges" ∷ [])
  read_only : IsSetting format_float t dirs name ("--read-only" ∷ [])
  scratch : IsSetting format_float t dirs name ("--tmpfs" ∷ "/tmp:rw,noexec,nosuid,size=128m" ∷ [])
  solution : IsSetting format_float t dirs name ("-v" ∷ (dirs.input <> ":/solution:ro") ∷ [])
  hidden : IsSetting format_float t dirs name ("-v" ∷ (dirs.hidden <> ":/hidden-tests:ro") ∷ [])
  writable : IsSetting format_float t dirs name ("-v" ∷ (dirs.output <> ":/output") ∷ [])
  user : t.user ≢ "" → IsSetting format_float t dirs name ("--user" ∷ t.user ∷ [])

-- The settings that every container has.
abbrev pub common_settings : (Float64 → String) → Task → Directories → String → List (List String)
common_settings format_float t dirs name =
    ("--rm" ∷ [])
    ∷ ("--name" ∷ name ∷ [])
    ∷ ("--pull" ∷ "never" ∷ [])
    ∷ ("--log-driver" ∷ "none" ∷ [])
    ∷ ("--network" ∷ "none" ∷ [])
    ∷ ("--memory" ∷ (decimal_int t.memory_mb <> "m") ∷ [])
    ∷ ("--memory-swap" ∷ (decimal_int t.memory_mb <> "m") ∷ [])
    ∷ ("--cpus" ∷ format_float t.cpus ∷ [])
    ∷ ("--pids-limit" ∷ "256" ∷ [])
    ∷ ("--cap-drop" ∷ "ALL" ∷ [])
    ∷ ("--security-opt" ∷ "no-new-privileges" ∷ [])
    ∷ ("--read-only" ∷ [])
    ∷ ("--tmpfs" ∷ "/tmp:rw,noexec,nosuid,size=128m" ∷ [])
    ∷ ("-v" ∷ (dirs.input <> ":/solution:ro") ∷ [])
    ∷ ("-v" ∷ (dirs.hidden <> ":/hidden-tests:ro") ∷ [])
    ∷ ("-v" ∷ (dirs.output <> ":/output") ∷ [])
    ∷ []

unfoldable pub flatten : List (List String) → List String
flatten [] = []
flatten (xs ∷ xss) = xs ++ flatten xss

-- A command line of `docker run`: only settings before the image, every common one among them and the
-- task's user if it has one, and behind the image the task's check command.
pub record IsIsolated (format_float : Float64 → String) (t : Task) (dirs : Directories)
    (name : String) (args : List String) : Type 0 where
  pub settings : List (List String)
  pub shape : args ≡ "run" ∷ (flatten settings ++ t.image ∷ t.check_command)
  pub permitted : All (IsSetting format_float t dirs name) settings
  pub required : All (λ x. Memᴰ x settings) (common_settings format_float t dirs name)
  pub as_user : t.user ≢ "" → Memᴰ ("--user" ∷ t.user ∷ []) settings

lt_int_of_pos : (n : ℤ) → pos 1 ≤ℤ n → lt_int (pos 0) n ≡ true
unfolding lt_int
lt_int_of_pos (pos n) h = ground arith
lt_int_of_pos (negsuc n) h = absurd h

All-members : (xs ys : List (List String)) → All (λ x. Memᴰ x (xs ++ ys)) xs
All-members [] ys = tt
All-members (x ∷ xs) ys = (Memᴰ.head refl, All-map xs (λ y h. Memᴰ.tail h) (All-members xs ys))

Memᴰ-last : (xs : List (List String)) (x : List String) → Memᴰ x (xs ++ x ∷ [])
Memᴰ-last [] x = Memᴰ.head refl
Memᴰ-last (y ∷ xs) x = Memᴰ.tail (Memᴰ-last xs x)

module _ (format_float : Float64 → String) (t : Task) (dirs : Directories) (name : String) where
  common_settings-IsSetting :
      All (IsSetting format_float t dirs name) (common_settings format_float t dirs name)
  common_settings-IsSetting = (
    removed,
    (
      named,
      (
        local_image,
        (
          unlogged,
          (
            offline,
            (
              memory,
              (
                no_swap,
                (
                  cpus,
                  (
                    processes,
                    (
                      no_capabilities,
                      (no_privileges, (read_only, (scratch, (solution, (hidden, (writable, tt)))))),
                    ),
                  ),
                ),
              ),
            ),
          ),
        ),
      ),
    ),
  )

  IsIsolated-of_options :
      IsIsolated format_float t dirs name
        (docker_options format_float t dirs name ++ (with_user t.user t.image ++ t.check_command))
  unfolding flatten
  IsIsolated-of_options = elim (Bool-cases (t.user == "")) [
    | inl nobody ↦
        let e = (==_iff t.user "").0 nobody in
        record {
          settings = common_settings format_float t dirs name ++ [];
          shape = rw nobody refl;
          permitted = common_settings-IsSetting;
          required = All-members (common_settings format_float t dirs name) [];
          as_user = λ differs. absurd (differs e);
        }
    | inr somebody ↦
        let differs : t.user ≢ "" = λ e. false≢true (sym somebody ∙ (==_iff t.user "").1 e) in
        record {
          settings = common_settings format_float t dirs name ++ ("--user" ∷ t.user ∷ []) ∷ [];
          shape = rw somebody refl;
          permitted =
              All-append (IsSetting format_float t dirs name)
                (common_settings format_float t dirs name) (("--user" ∷ t.user ∷ []) ∷ [])
                common_settings-IsSetting (user differs, tt);
          required =
              All-members (common_settings format_float t dirs name)
                (("--user" ∷ t.user ∷ []) ∷ []);
          as_user =
              λ _. Memᴰ-last (common_settings format_float t dirs name) ("--user" ∷ t.user ∷ []);
        }
  ]

-- For a task with limits dockerArgs does not panic. Its arguments run the task's check command in its
-- image. Before the image they have nothing but these options, all of them: of the container's name
-- and its removal; without network, capabilities or new privileges, read-only with a scratch /tmp,
-- without pulls and logs; with the task's memory, without swap, with its processors and at most 256
-- processes; with the submission and the hidden tests mounted read-only and the output writable; and
-- with the task's user if it has one.
pub docker_args-IsIsolated :
    (format_float : Float64 → String) (t : Task) (dirs : Directories) (correlation_id : String)
    → HasLimits t.timeout_ms t.memory_mb t.cpus
    → (args : List String) × (docker_args format_float t dirs correlation_id ≡ some args)
      × IsIsolated format_float t dirs (docker_container_name t.id correlation_id) args
unfolding docker_args
docker_args-IsIsolated format_float t dirs correlation_id h =
    let memory : lt_int (pos 0) t.memory_mb ≡ true = lt_int_of_pos t.memory_mb h.memory in
    let cpu : is_positive t.cpus ≡ true = h.cpu in
    (
      docker_options format_float t dirs (docker_container_name t.id correlation_id)
          ++ (with_user t.user t.image ++ t.check_command),
      rw (memory, cpu) refl,
      IsIsolated-of_options format_float t dirs (docker_container_name t.id correlation_id),
    )

-- Whatever dockerArgs returns is isolated.
pub docker_args-eq-some :
    (format_float : Float64 → String) (t : Task) (dirs : Directories) (correlation_id : String)
    (args : List String)
    → docker_args format_float t dirs correlation_id ≡ some args
    → IsIsolated format_float t dirs (docker_container_name t.id correlation_id) args
unfolding docker_args
docker_args-eq-some format_float t dirs correlation_id args h =
    let same : docker_options format_float t dirs (docker_container_name t.id correlation_id)
          ++ (with_user t.user t.image ++ t.check_command)
        ≡ args =
      ground arith in
    subst (λ xs. IsIsolated format_float t dirs (docker_container_name t.id correlation_id) xs) same
      (IsIsolated-of_options format_float t dirs (docker_container_name t.id correlation_id))
