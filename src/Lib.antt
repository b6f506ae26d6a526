-- ===== src/Lib.antt =====
-- Verification of the Fineract reporting assistant: the parts of crates/chat that decide what a
-- user may see and which steps of an approved workflow run.
--
-- A question is answered by an execution workflow, a graph of nodes that run approved queries. The
-- runner starts the nodes that are ready, within the user's permissions and the shared budgets; it
-- may pause for an answer of the user and is resumed by a request; what the nodes returned is
-- stored without sensitive inputs and is composed without the fields that the user may not see;
-- the reply is streamed in pieces.
--
-- The files:
--   Prelude and its children: lists, options, results, signed numbers, text.
--   Json: serde_json values by the constructors that the program matches on.
--   Knowledge: the catalog's records, of crates/chat/src/knowledge/model.rs, dataset/model.rs and
--   catalog/parameter_policy.rs, with the fields that the modelled code reads.
--   Parameters: crates/chat/src/knowledge/catalog/parameter_policy.rs, the policies of parameters and
--   their validation; its proof is in Parameters/Valid.
--   Policy: crates/chat/src/policy/authorization.rs. Policy/Scope proves its office scopes.
--   Progress: crates/chat/src/job/progress/chunk.rs, with its proofs in Progress/Lossless, Packing,
--   Prose, Blocks and Whole.
--   Dataset/Grammar: crates/chat/src/knowledge/dataset/grammar.rs; its proofs are in Grammar/Words,
--   Safe, Exact and Accepted. Dataset/Plan: plan.rs beside it, with its proof in Plan/Declared.
--   Dataset/Compose: compose.rs, with proofs in Compose/Branches, Texts, Authored and
--   Numbered. A statement is the list of the pieces that are joined.
--   Dataset/Resolve: resolve.rs, with proofs in Resolve/Selected and Bound.
--   Facts, Facts/Ordered and Facts/Merged: contracts.rs and merge.rs of
--   crates/chat/src/assistant/context/canonical_state; proofs in Facts/Ordered, Filtered, Advisory
--   and Accepted.
--   Workflow/Contract: crates/chat/src/assistant/workflow/contract.rs.
--   Workflow/Redaction, Workflow/State, State/Jobs and State/Consumed: workflow/state.rs, with proofs
--   in Redaction/Laws and State/Updates, Resuming and Pausing. A database is a record of
--   tables, each a list of rows; a statement is a function on it, and a transaction that fails
--   returns the database that it was given. New ids and the time are arguments. The CHECK on the types
--   of events is modelled where the code writes a type that it refuses, in `record_sensitivity_drop`.
--   Workflow/Ledger, Budget, Schedule: workflow/run.rs and run/node/branch.rs.
--   Workflow/Compose: run/node/compose.rs.
--   Workflow/Outputs: `contains_sql` of workflow/contract.rs, run/node/execute_query.rs and
--   run/node/resolve_entity.rs; proofs in Outputs/Bounded.
--   Workflow/Runner and Runner/Node: `check_node_policy`, `bindings_for`, `resolve_execution` and
--   `execute_node` of workflow/run.rs; Runner/Loop: `run`. Proofs in Runner/Reports, Rounds, Ends,
--   Once, Spent, Outcomes, Rows, Guarded and Authorized. What comes from outside, the
--   executor's result, new ids, the time and whether a sibling's failure cancelled the node first, is an `Answer` per node
--   and round. The nodes of a batch run concurrently; here the statements of each are taken
--   together, in the order of the nodes. The loop takes as fuel one round more than the workflow
--   has nodes, which Runner/Ends shows to be enough.
--   Workflow/Verify, Verify/Nodes and Verify/Whole: workflow/verify.rs, whose proofs are in
--   Verify/Accepts, Sound and Spends. The graph is an argument, by the answers that the verifier asks of it.
--   Workflow/Graph: workflow/graph.rs, which gives these answers over a graph library that is a
--   parameter; proofs in Graph/Unseen, Ends, Reaches, Ids, Once, Exact, Covers and Width. Both of its
--   loops take one round more than the workflow has nodes, which Ends and Width show to be enough.
--   Workflow/Compile: workflow/compile.rs. Compile/Proposal, Iteration, Probe, Acquisition, Comparison,
--   Ambiguity and Whole are its parts; proofs in Images, Exact, Expanded, Refused, Agreed,
--   Plain, Checked, Approved, Justified and Resolved.
--   Management: the audit events of crates/chat/src/management/model.rs and the outbox of repository.rs.
--   Job: the rows of crates/chat/src/job/repository/mod.rs and of the chats. Job/Sessions:
--   conversation/repository/session.rs. Job/Repository, Respond, Terminal and Audit: the job
--   repository; Job/Lifecycle is a step for each of their calls. Proofs in Job/Tables, Answered,
--   Late, Consistent, Kept, Invariant, Visible, Trail and Audited.
--   Samples: the theorems at concrete inputs.
--
-- Machine integers are numbers with their wrap written out where the code can wrap (`u64` totals,
-- the `i16` attempt); a UUID is a number. The loops are structural on the list that they walk.
-- Not modelled: the database driver and its isolation, serde, HTTP, the language models, vector
-- search, and the rendering of replies.
pub mod Prelude
pub mod Knowledge
pub mod Parameters
pub mod Json
pub mod Policy
pub mod Progress
pub mod Dataset
pub mod Facts
pub mod Workflow
pub mod Management
pub mod Job
mod Samples
