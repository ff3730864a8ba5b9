-- ===== src/Lib.antt =====
-- Gemaal keeps a test estate tidy: it looks at the Helm releases and artifacts of test namespaces,
-- plans which of them are garbage, and deletes them. This library models the engine that decides
-- and deletes, its configuration, the service in front of it, and the pipeline that releases the
-- charts of a repository.
--
-- The parts, from the repository's root:
--   Config            pkg/config/config.go: the document after decoding, its defaults, its lookups.
--   Config.Validate   `validate` of the same file.
--   Authn             pkg/authn/authn.go: Authenticate and InAny.
--   Aws               pkg/engine/awsclient.go, awss3client.go: deletion in batches; Aws.Batches and
--                     Aws.Prefixes hold its proofs.
--   Engine.Types      the data of pkg/engine: ports.go, plan.go, view.go, apply.go, engine.go.
--   Engine.Rules      pkg/engine/plan.go: age, claims, holds, ring order, sorts, tenant paths.
--   Engine.View       pkg/engine/view.go: View, namespaceTenants, mergeLedger.
--   Engine.Artifacts  pkg/engine/sweep.go: the groups that listed names fall into.
--   Engine.Sweep      pkg/engine/sweep.go: Plan, planFromView, both classifiers, both artifact passes.
--   Engine.Apply      pkg/engine/apply.go: Apply, authorize, execute.
--   Engine.Stamp      pkg/engine/view.go: StampKeepUntil.
--   Engine.Decommission, Engine.History   the files of the same names.
--   Service           pkg/service/authz.go, and the reading handlers of pkg/service/service.go;
--                     Service.Hold has Checkout and Extend, Service.Sweeps has Sweep and Decommission.
--                     The MapResolver of pkg/identity/resolver.go is `resolve_email` here.
--   Pipeline          pkg/pipeline/config.go: the project's document, charts, defaults, the match.
--   Pipeline.Paths, Pipeline.Validate   paths and `Parse` of the same file; Pipeline.Match and
--                     Pipeline.Validate.Sound hold proofs.
--   Pipeline.Select   pkg/pipeline/select.go: the selection of a coherent set of tarballs.
--   Pipeline.Flow     the runs of the flows: calls, answers, the chart lock of pkg/pipeline/lock.go.
--   Pipeline.Steps, Pipeline.Argv   pkg/pipeline/pipeline.go: shared steps, command lines.
--   Pipeline.Stable, Pipeline.Stable.Report   pkg/pipeline/stable.go: ReleaseStable, its report.
--   Pipeline.Preview  pkg/pipeline/pushpreview.go and snapshot.go: PushPreview and Snapshot.
--   Identity          pkg/identity: identity.go, env.go, kubectl.go, aws.go and chain.go; a driver's
--                     answer is a value, whatever else was asked before.
--   Project           pkg/gemaalcfg/gemaalcfg.go: the document of a project's repository.
--   Base              texts, signed integers, lists and the stable sort that these share.
--   Tests             the theorems at concrete estates, documents and releases.
-- The other modules hold proofs, and are named for what they prove.
--
-- How they interact. The service's handlers drive a Housekeeper, a record of five operations that
-- the Engine fills (`engine_keeper`). The Engine reads the estate through four clients into a view,
-- makes a plan from the view, and applies the plan; `apply` takes what the outside world has been
-- asked so far (a trace of calls) and gives back the trace with its own calls. What the world
-- answers to a call is an arbitrary function of the trace before it.
--   The flows of the pipeline are steps over a run, which holds the calls made so far with their
-- answers, whether the chart lock is held, and the flow's own state; an answer is again an arbitrary
-- function of the calls before it. ReleaseStable and PushPreview select their charts from what they
-- have staged, by `select_ring_charts`; Snapshot pushes what it has packaged.
--
-- Conventions. A method is a function with its receiver's fields as arguments; a nil client is
-- `none`; a returned error is a value. The state that an operation changes (the trace, the history,
-- a plan that is filled in) is passed along. A map is the list of its entries, in the order that the
-- program happens to range over them. Go's sort.Slice is modelled by a stable sort, which it need
-- not be where two elements compare equal. Texts are lists of bytes; times are nanoseconds since
-- the zero Time, without bound, and durations nanoseconds: the difference of two times is cut to the
-- range of an int64, as package time does, and a lease's duration wraps at 64 bits. No definition
-- recurses on fuel but `blank_within`, `trim_left_within`, `words_within` and `chunks_within`, which
-- are given the length of their text or list and take at least one element a round.
--
-- Parameters. What the clients answer, the token reviewer and the issuer, package time's parsing
-- and printing of stamps and durations, and strings.EqualFold, whose tables Unicode defines; for the
-- pipeline the answers of git, goreleaser, helm, helmctl and aws, the files staged, the tar reader and
-- the YAML decoder; for a project's document the files and both of its decoders; for
-- the evidence of identity the environment, kubectl, the aws tool and the JSON decoders.
--
-- Not modelled. The client of kubectl and helm (pkg/engine/execclient.go) runs tools, and the
-- paginated listings of SSM and S3 speak to services; of these two clients, the deletions are
-- modelled by themselves, while the engine's model has one call for each. Logging, contexts (but
-- for the test whether the caller has gone) and the encoding of messages do not affect what is
-- decided. The image steps of the pipeline (images.go, koimages.go, goreleaser.go) are one call
-- each, and the report's prose is left out. The test harness (pkg/harness), groups.go,
-- resolveclient.go and runner.go of pkg/identity, the commands (cmd), the console's conversions
-- (pkg/service/console.go), generated code (gen) and the deployment code (deploy) are not
-- modelled.

pub mod Base
pub mod Authn
pub mod Aws
pub mod Config
pub mod Engine
pub mod Identity
pub mod Pipeline
pub mod Project
pub mod Service
pub mod Tests
