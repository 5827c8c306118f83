-- ===== src/Lib.antt =====
-- The core of the Protostar factory: what its stages decide, in the order of a run.
--
-- Authority. The tiers of a run (confirmed intent, policy, repository policy, operator settings) are
-- intersected to one envelope of capabilities.
--   Authority/Envelope.antt: packages/intent/src/capability-envelope.ts and
--     packages/authority/src/precedence/tiers.ts. The network level "none" is `deny`.
--   Authority/Tiers.antt, Authority/Sameness.antt, Authority/Precedence.antt: intersectEnvelopes of
--     packages/authority/src/precedence/intersect.ts, with what it reads of a tier and how it
--     compares a tier with the result. The proofs on grants, the network, the budget and the status
--     are below Precedence. The name of a function is the code's in lower case; `resolve` and
--     `blocked_by_of` are the two values that intersectEnvelopes builds. Freezing and copying
--     (mintPrecedenceDecision) change no value.
--   Authority/Operations.antt: packages/authority/src/authorized-ops (the grant checks and the four
--     authorizations) and packages/authority/src/workspace-trust/predicate.ts. The URL constructor is
--     a parameter. The proofs below it follow an operation from the resolved envelope to each tier.
--
-- Planning. A plan is a list of tasks with dependencies.
--   Planning/Types.antt, Planning/Graph.antt: constructPlanTaskDependencyGraph of
--     packages/planning/src/index.ts, which gives the nodes, the edges and the violations.
--   Planning/Cycles.antt: hasDependencyCycle of the same file. The recursion has fuel: one more than
--     there are nodes, which is enough, since a node is opened once at a time.
--   Planning/Order.antt, Planning/Handoff.antt: topoSortPlanTasks and what follows it up to the run
--     (createAdmittedPlanExecutionArtifact, and prepareExecutionRun of
--     packages/execution/src/index.ts). The fuel is one more than there are ids.
--   Planning/Verification.antt: collectReleaseGrantTaskViolations and
--     collectPreHandoffVerificationTaskViolations. Their search has a unit of fuel for each id on
--     the stack at first and each dependency of the graph: no id is pushed more often.
--   Planning/Coverage.antt: validateAcCoverage and checkAcceptanceTestRefsCoverage.
--   Planning/Capabilities.antt: the checks of required capabilities against an envelope
--     (collectRequiredRepoScopeEnvelopeViolations and the three like it) with what they call.
--   Planning/Slicing.antt: packages/planning/src/admit-work-slicing.ts, with admitCandidatePlan as a
--     parameter.
--
-- Execution. A plan's tasks run in order, and a journal records what happened to each.
--   Execution/Tasks.antt, Execution/DryRun.antt: runExecutionDryRun of
--     packages/execution/src/index.ts. Its `taskStatus`, `events` and `evidence` are the record
--     RunState, and the clock is a function of the number of the call.
--   Execution/Journal.antt: packages/execution/src/journal-types.ts, snapshot.ts, orphan-replay.ts.
--   Execution/Journal/Lines.antt: packages/execution/src/journal.ts, with JSON.stringify and JSON.parse
--     as parameters.
--
-- Repair. What a failed review leads to.
--   Repair/Subgraph.antt: packages/repair/src/compute-repair-subgraph.ts. The worklist has fuel: one
--     unit for each id to be repaired and for each edge of the dependents map. That is enough, since
--     an id's dependents join the worklist only once.
--   Repair/Synthesis.antt: packages/repair/src/synthesize-repair-plan.ts.
--   Repair/Proposal.antt: packages/repair/src/admit-repair-plan-proposal.ts.
--
-- Review. The loop that checks, reviews, repairs and ends, which calls the two routines above.
--   Review/Types.antt, Review/Effects.antt, Review/Loop.antt: runReviewRepairLoop of
--     packages/review/src/run-review-repair-loop.ts. What the code awaits (persistence, mechanical
--     checks, the model reviewer, the refiner, the executor) is the record World, a parameter: it
--     answers by the history of all effects so far, or rejects. An action takes the history and
--     returns it extended, or throws. The rounds have fuel maxRepairLoops + 2: rounds 0 to
--     maxRepairLoops and the loop's last test.
--   Review/Mechanical.antt, Review/Mechanical/Loop.antt: createMechanicalReviewGate and
--     runMechanicalReviewExecutionLoop of packages/review/src/index.ts, over the dry run above. The
--     bound maxRepairLoops is any JavaScript number, as far as its comparisons with whole numbers read
--     it; NaN and fractions reach the loop's last error. The fuel counts the tests of the condition:
--     two are enough for a plan that is prepared, and n + 1 for a whole bound n. What the check of the
--     untyped artifact says is a parameter.
--
-- Repo. The files of a workspace.
--   Repo/Host.antt: Node.js and the package diff, as functions over a state of the files, with the
--     laws that the proofs use. That a write leaves other files alone is assumed of resolved paths.
--   Repo/Files.antt: packages/repo/src/fs-adapter.ts.
--   Repo/ChangeSet.antt: packages/repo/src/apply-change-set.ts, and canonicalizeRelativePath of
--     packages/paths/src/canonicalize-relative-path.ts. An awaited call is a step from one state to
--     the next; other processes that write meanwhile are not modelled.
--
-- RealExecution. The executor of the command line, which ties the journal, the authorization and the
-- change sets above together: runRealExecution of apps/factory-cli/src/run-real-execution.ts.
--   RealExecution/Types.antt: the adapter's results (packages/execution/src/adapter-contract.ts), the
--     effects, the state of the run, and actions, which keep what they changed when they throw. What
--     the code awaits is the record Services, which answers by the history of effects, as do the two
--     signals; a group of writes of one helper is one effect.
--   RealExecution/Emission.antt: emit, with the snapshots. RealExecution/Patches.antt: the files and
--     the patches. RealExecution/Tasks.antt: the body of the loop. RealExecution/Run.antt: the whole.
--   RealExecution/Logic.antt and RealExecution/Actions.antt: a logic for these actions.
--   Left out: the texts of the evidence files, the token log, the adapter's context. The journal that
--   is read at the start is an input.
--
-- Around the runs.
--   CiVerdict.antt: packages/delivery-runtime/src/compute-ci-verdict.ts.
--   Stress/Caps.antt: apps/factory-cli/src/stress/stress-caps.ts; Date.parse is a parameter.
--
-- Base.antt and its children hold what these share: lists, association lists for maps and sets of
-- texts, JavaScript numbers (Base/Number.antt) and white space (Base/Whitespace.antt). The tests
-- on small inputs are the Examples modules.
--
-- Not modelled: the parsing of untyped JSON (envelopes, admitted plans, pile results),
-- the other validators of planning, intent promotion, evaluation, delivery and its authorization,
-- workspaces and subprocesses, the model adapters, and the rest of the command line, most of which is I/O around
-- these decisions.
pub mod Base
pub mod Authority
pub mod Planning
pub mod Execution
pub mod Repair
pub mod Review
pub mod Repo
pub mod RealExecution
pub mod CiVerdict
pub mod Stress
