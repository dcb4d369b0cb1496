-- ===== src/Lib.antt =====
-- The Fluent task runtime: a service that hands out programming tasks and runs
-- solutions in sandboxes. At its start it reads a tree of task descriptors, a release manifest that
-- binds tasks to the questions and capabilities of the Question Brain, and a manifest of task
-- families; it joins the three, or refuses to start.
--
-- The parts, by the files that model them:
--   Contracts     contracts/runtime.go and the families of contracts/question_capability_task.go:
--                 the records that are exchanged; Contracts/QuestionCapabilityTask is the rest of
--                 that file, with its Validate
--   Keys          the identities' patterns and predicates (isStableQuestionKey, isRevisionID,
--                 isQuestionReleaseID, ...) of internal/engine/catalogue.go and families.go
--   Bindings      validateQuestionBinding, validateCapabilityKeys, sameQuestionBindings and
--                 mergeReleaseEntry of internal/engine/catalogue.go
--   Release       loadReleaseManifest of internal/engine/catalogue.go
--   Loading       loadTasks of internal/engine/catalogue.go
--   Families      internal/engine/families.go: loadTaskFamilyManifest and its validation;
--                 Families/Binding is bindTaskFamilies, Families/Hashing is hashTaskRevision
--   Catalogue     NewCatalogue and the queries of a Catalogue, internal/engine/catalogue.go;
--                 Catalogue/Workspace is TaskWorkspace
--   Execution     internal/engine/docker_executor.go: validateFiles, validateResults,
--                 safeRelativePath, readBounded and limitedBuffer; below it Sanitize is
--                 sanitizeError and safeToken, Sandbox verifyImageDigest and dockerArgs,
--                 Preparation prepareTask and copyDirectory, and Running is DockerExecutor.Run
--   Server        internal/httpapi/server.go: Handlers has the handlers, Identity buildIdentity and
--                 boundedIdentity, Writer statusWriter and requestLog, and Metrics the counters
--                 under concurrent requests
--   Portfolio     internal/engine/portfolio.go: Validation is validateTaskPortfolioManifest and
--                 loadTaskPortfolioManifest
--   Backlog       internal/engine/portfolio_backlog.go: the items, Opens which of them are
--                 open, Order their sort, Precedence its meaning, Report
--                 BuildTaskPortfolioBacklog
-- NewCatalogue loads the families' manifest and the release, loads the tasks under the release,
-- binds them to the families, and derives the profiles; `new_catalogue` composes the same functions.
-- The server hands out the catalogue, and gives a run of a runnable task to the executor, which checks
-- the task in the catalogue again, writes a disposable workspace, starts one container on it and reads
-- its results. A run is a function of a Sandbox, which says what the world does, to the list of its
-- effects and its result; a handler is one to the list of its calls on the response writer.
--
-- Beneath them stand Base (results, finite maps, lists, equality tests), Text (package strings over
-- code points), Regex (anchored patterns, by derivatives), Numbers (int and float64) and Documents
-- (what a read and a JSON decoder deliver). Tests has runs on concrete inputs.
--
-- A function that returns an error is one into Result, whose errors are constructors with the values
-- that the message prints, but for file paths. A Go map that serves as a set is the list of the keys
-- it has; one with values is an association list. Loops are structural recursions over the list that
-- they range over, and so need no fuel; the digits of a number are produced on a fuel of 20, which is
-- the most that 64 bits have. A task that is written through a pointer into the slice is put back in
-- its place. An int is compared, and computed with only where it counts bytes in memory,
-- or items of a list, which stay far below its range, so that counts are natural numbers; the counters
-- of the server and of a portfolio, and a run's timeout, are words of 64 bits that wrap around.
--
-- Parameters: environment variables, directory listings, directory walks, file contents, JSON
-- documents, SHA-256, the bytes of a name, and the case table of Unicode above ASCII. An Environment
-- holds them all. A Sandbox holds what Docker, the clock and the file system do during a run, a Server
-- the environment, the executor and the files of the workspaces; net/http's ServeMux chooses the route.
--
-- Not modelled: the capability mastery bundle of contracts, the telemetry and the commands; of the
-- executor, the time limits on Docker's own commands, and of the server, JSON's encoding and the
-- tracing. Clones are values here as all are, so that what two callers share cannot be told. A
-- file's mode is not kept, nor is a directory without files.
pub mod Base
pub mod Text
pub mod Regex
pub mod Numbers
pub mod Contracts
pub mod Keys
pub mod Documents
pub mod Bindings
pub mod Release
pub mod Loading
pub mod Families
pub mod Catalogue
pub mod Execution
pub mod Server
pub mod Portfolio
pub mod Backlog
mod Tests
