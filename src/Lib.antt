-- ===== src/Lib.antt =====
-- Shiroe (the Python package shiroe/) keeps work graphs, decides by policy and human approval
-- which of their nodes may run, runs them, and records every change in an event log from which the
-- state is rebuilt.
--
-- The parts and how they interact: a spec of a plan is compiled to a work graph (shiroe/work).
-- Before a node runs, the policy service asks the engine, which resolves the layers of the policy
-- and the autonomy mode; where a human is to decide, the service looks for an earlier answer or
-- asks for one (shiroe/policy). Each change is appended to the event log and folded into the
-- tables (shiroe/storage). The supervisor (shiroe/execution) runs the ready nodes of a graph
-- within a budget, with retries, evidence and review; a node placed on another machine runs under
-- a lease (shiroe/nodes). Which model a task may call is the gateway's answer to the signals of
-- the task (shiroe/routing).
--
-- Prelude (Tests, Equality, Text, Lists, Sets, Sort, Json, Int, Months): what the parts share.
-- Python's `==` is an instance of `Equatable`; a dict with text keys is `Fields`; an integer that
-- may be negative is ℤ; texts are compared by code points.
--
-- Storage: shiroe/storage/events.py. Storage/Envelope.antt has the envelopes, `validate_envelope`
-- and the scrubbing walk. Storage/Log.antt has `EventLog`: the files of the months as sorted
-- lines, the head marker, the flag of the one-time recovery and the mirrored rows are one state
-- that each operation takes and returns, and an error is a value of `Reply`. The writes of
-- `append` are functions of their own, so that `interrupted` can stop after each of them, and
-- within the line where the part that is written is not JSON: `torn` has that part behind the
-- events. A cut that loses only the newline of the line is not modelled, nor a log without the
-- mirror in SQLite. The files are in the order of their paths, for time stamps without a slash.
-- Proofs are in Log/Chain, Log/Sound, Log/Appends, Log/Tampered and Log/Backdated. The hash of a
-- body and the scrubbing of a text are parameters (SHA-256, the canonical JSON and Python's `re`
-- are not part of the repository).
--
-- Work: shiroe/work/schema.py in Work/Schema.antt; shiroe/work/compiler.py in Work/Compiler.antt;
-- its search for cycles, an explicit stack of frames, in Work/Cycle.antt; shiroe/work/readiness.py
-- and `ready_node_ids` of shiroe/work/store.py in Work/Readiness.antt. The loop of the search runs
-- on fuel; Cycle/Bound shows that the fuel that the search gives is enough for every graph.
-- Work/Tables.antt has the work tables and the fold of their events in
-- shiroe/storage/projections.py, Work/Store.antt the operations of shiroe/work/store.py over them;
-- what the log makes of the texts of an event is a parameter, and an operation that raises gives a
-- value of `Outcome`. An event that inserts rows is logged first, and a foreign key may refuse it
-- then (`emit_checked`): the call raises, and the connection keeps the rows before the refused
-- one, which a process that ends there would lose. What a spec leaves out is `none`; a spec whose
-- values have other types is not modelled, and `backoff_s` is a whole number.
--
-- Policy: shiroe/policy/schema.py, precedence.py, autonomy.py and engine.py in the files of their
-- names. Policy/Approvals.antt is shiroe/policy/approvals.py with the approval rows of
-- shiroe/storage/projections.py; Policy/ApprovalService.antt is approval_service.py, and
-- Policy/Service.antt is `authorize` of service.py. A state there is the table, the approval
-- events of the log, and the ids of the graphs and nodes to which the foreign keys of a request
-- refer. The digest of a scope, the scrubbing and the row that the database puts first are
-- parameters; the approval of a capability that follows a decision is the value that
-- `decide_human` returns beside the request.
--
-- Capabilities: shiroe/capabilities/lifecycle.py in Capabilities/Lifecycle.antt;
-- Lifecycle/Ways.antt follows a capability from its discovery.
--
-- Execution: shiroe/execution. Execution/Budget.antt is budget.py; Execution/Attempts, Results,
-- Attempt, Handling and Supervisor are supervisor.py from the rows of the attempts to the whole
-- run (Execution/Tried has what comes of an attempt), and Execution/Refresh has
-- `refresh_readiness` of shiroe/work/store.py. What a run asks of the other components is the
-- record `Services` of Execution/Services.antt over a world of theirs. An attempt, a handled node,
-- a pass and a run each have a type of what comes of them, with the state where it leaves one. The
-- loop of a run takes a pass for each pending task and one more as its fuel; Execution/Shrinks,
-- Keeps, Bounded, Rows, Passes, Approvals and Terminates show that it is enough. Recorded,
-- Delivered, Accepted, Limits, UsedUp and Raised are about single nodes and their attempts. The
-- texts of the work events pass the log as they are here, the foreign keys of an attempt hold, an
-- amount that is given as a text counts as 0, and an error of an adapter that the loop does not
-- catch has no counterpart.
--
-- Nodes: the leases of shiroe/nodes/store.py in Nodes/Store.antt, with the unique index of
-- shiroe/migrations/m0100_current.py that the insert of a lease meets; the readings of the clock
-- and the ids of the factory are arguments, and the time to live is not negative.
--
-- Routing: shiroe/core/reasoning.py in Routing/Levels.antt and Routing/Gateway.antt,
-- shiroe/routing/criticality.py in Routing/Signals.antt and Routing/Criticality.antt,
-- shiroe/routing/gateway.py in Routing/Gateway.antt. A word of a closed list is a constructor; a
-- rule of the classifier is an optional floor with its reason. The model of a provider and the
-- digest of a text are parameters.
--
-- Not modelled: the other packages of shiroe/. Adapters, transport, the command line, reports,
-- views and migrations are input, output or SQL text; the lock and the replacement of a file are
-- taken as they are documented; privacy.py is a table of regular expressions. The store of the
-- capabilities, the packages and receipts of the nodes, and the memory are not modelled.
pub mod Prelude
pub mod Policy
pub mod Work
pub mod Storage
pub mod Capabilities
pub mod Execution
pub mod Routing
pub mod Nodes
