-- ===== src/Lib.antt =====
-- The execution core of the trading backend: from a READY, risk-approved signal to a protected
-- position, through one durable queue of commands and one worker.
--
-- The parts. The command service turns a signal, its risk assessment and an account snapshot into
-- an execution command and stores it. The repository holds the commands and their history of
-- transitions. The worker claims one command in a cycle, proves it again against the current facts,
-- has the order backend place it, checks the fill, and moves the command on. Two things stop it:
-- the recovery gate, which is opened after a restart by a completed recovery only, and the leader
-- lease, a database session that holds an advisory lock. The startup coordinator is what recovers:
-- it compares the durable trades with the exchange and the active signals with a new scan. Upstream
-- of the queue stand the signal decision, which makes a candidate READY, the signals service, which
-- keeps the records of signals in step with the scanner, and the risk engine, which approves active
-- signals within the limits of the account.
--
-- The files:
--   Common: tests, lists, results and errors.
--     Dicts is the dictionary of Python, in the order of insertion.
--   Schemas: Command is app/schemas/execution_command.py and the two tables of
--     app/persistence/models.py; Scanner, Signals, Risk and Execution are the schemas of those names,
--     with app/schemas/signal_decision.py in Signals; Decimals is the numbers of Python's `Decimal`.
--   Queue: app/persistence/execution_command_repository.py. Transitions is `_ALLOWED_TRANSITIONS`;
--     Tables, Rows, Repository and Claims are the methods, each a function from the tables to a
--     result and the tables that the transaction commits; an error commits nothing. Invariant is the
--     well-formedness of the tables, and Effects, Lifecycle, Claiming, Exclusion and Idempotency
--     say what the methods do.
--   Recovery: app/services/recovery.py (the gate and the lease) and
--     app/services/execution_leader_safety.py (the validated lease). Reconcile is
--     `_reconcile_exchange_state`, Revalidate `_revalidate_signals` and Coordinator `recover`; Guarded is
--     the two guarded execution services. Reconciled, Recovered, Entries and Cycles say what they ensure.
--   Decisions: app/services/signal_decision.py; Eligible says on what a READY decision stands.
--   Signals: app/services/signals.py. Values and Records are the life of one record, Service the store;
--     Histories and Audit say what a history looks like, Finality that a terminal signal stays so
--     until it is pruned, Blocking what `mark_risk_blocked` does.
--   Market: app/services/exchange_rules.py. Rules parses the filters of the exchange and rounds to
--     them, Filters and Usable say where parsed rules come from and what they keep to, Rounded
--     what a normalized quantity keeps to.
--   Risk: app/services/risk.py. Snapshot reads the account, Policy has the refusals, Assessments is
--     `_build_assessments`; Limits says what an approval keeps to, Total when
--     every signal is assessed.
--   Commands: app/services/execution_command.py. Facts is what it reads of other services; Approval,
--     Command, Enqueue, Revalidate and Status are its methods.
--   Worker: app/services/execution_worker.py. Cycle is `process_one` up to the transition to
--     SUBMITTING, Submission the rest; Trade is `_validate_trade`.
--   Tests: concrete runs.
--
-- Choices. Times are UTC instants counted in microseconds. A row's `payload_json` is the command that
-- it serialises; the JSON form is not modelled. A transaction is one function: `create` takes the
-- tables of its first query and those at its insertion apart, since others may commit in between, and
-- a claim takes the set of rows that other transactions hold. Rows of equal `created_at` are claimed
-- in the order of insertion. No definition uses fuel: every loop runs over a list.
--
-- Parameters. The decimals of Python (`Decimals`) and their rounding (`Rounding`), SHA-256 digests
-- of the payloads (`event_digest`, `token_digest`, `Digests`, `decision_key`, `signal_id`),
-- `str.strip`, the order backend (`activate`, `Backend`), the answers of the exchange
-- (`PrivateClient`, `RiskClient`), the answers of the database to the lease, and the faults of the
-- database are arguments; nothing is assumed of them but `RoundingLaws` in Market/Rounded and, in
-- Risk/Total, that zero is not below itself.
--
-- Not modelled: the order backend, the scanner, the signals service with decisions
-- (app/services/decision_signals.py), the status of the risk engine, the other reconciliations,
-- trade management, reporting, the API and the clients of the exchange. Of the constraints on
-- single fields that the schemas check, those of a command and of a risk assessment are modelled,
-- the lengths of texts excepted; those of signals, decisions and candidates are not. Nor is the
-- error that Python raises when it compares an instant without a time zone.
pub mod Common
pub mod Schemas
pub mod Queue
pub mod Recovery
pub mod Decisions
pub mod Signals
pub mod Market
pub mod Risk
pub mod Commands
pub mod Worker
mod Tests
