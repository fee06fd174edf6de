-- ===== src/Lib.antt =====
-- A model of the revenue-recovery engine: payments that failed become recovery cases, for which plans are
-- proposed, checked against the merchant's policy, queued, and executed by a worker.
--
-- The parts, and the files that model them:
--   libs/contracts/src (Contracts): the data that the parts exchange.
--   libs/domain/src (Domain): the rules. state-machine.ts (StateMachine), money-helpers.ts (Money),
--     utils/time-compliance.ts (Time), qualification.ts (Qualification), diagnosis.ts (Diagnosis),
--     ml/propensity.ts (Propensity), intervention.ts (Intervention), policy.ts (Policy), dunning-graph.ts
--     (Dunning: its state, its nodes and the runner of the graph) and planning.ts (Planning).
--   libs/persistence/src (Persistence): prisma/schema.prisma (Rows), repositories/prisma/execution.ts
--     (Execution, Locking and Settlement), planning.ts (Planning), ingestion.ts (Intake and Ingestion) and outbox.ts (Outbox). Captures is the
--     write of a captured payment. Evolution and Steps say how the tables may change.
--   apps/api/src/modules (Api): events/events.service.ts and ingestion.processor.ts (Events) take events in,
--     events/razorpay.controller.ts (Webhooks) and razorpay-events.processor.ts (Razorpay) take webhooks,
--     planning/planning.service.ts (Planning) makes and enqueues plans, cases/case-orchestrator.service.ts
--     (Orchestrator) calls it for the open cases, and outbox-publisher/outbox-publisher.service.ts (Publisher)
--     puts what is enqueued into the queue.
--   apps/worker/src/processors (Worker): the execution of plans (Recovery), reconciliation and the scan for
--     stale locks (Reconciliation). apps/worker/src/providers (Providers): the adapters that execute.
--   libs/evaluation/src and apps/evaluator/src/commands/evaluate.ts (Evaluation): the data set (Dataset), the
--     strategies that are compared (Strategies, and Simulation for the system itself) and their metrics.
--   libs/llm/src (Llm): the clients of the language model, the prompts and the texts in its place.
--     apps/api/src/modules/ai (Api/Assistance) drafts messages and explains decisions with them, and
--     Persistence/Invocations is the table of its calls. A case's column rootCause stands in a record of its
--     own there, since nothing else reads it.
-- Base holds the shared helpers: lists, integers, results, texts and database tables. Tests runs the model.
--
-- A function of the program has its name here, in snake case. Amounts are integers, as `bigint` is. Dates are
-- milliseconds since the epoch, and the clock is an argument. Scores and confidences are in hundredths. What
-- throws returns a result. Random ids are arguments. The database is a record of tables. A transaction is a
-- function from the database to the next one, or to an error, on which the database stays as it was. Where a
-- transaction has a `_from` part, what it has read of a case before it writes is an argument, so that other
-- transactions may come between; `Step` and `Run` of Persistence/Steps put the transactions together, in any
-- order. Two functions take fuel: the printing of a number, which gets one digit more than it can need, and the
-- loop of the simulation, which gets one unit for each attempt that a case allows and one for its last test.
--
-- Parameters: LangGraph's runner, with the law that it runs the nodes of a chain one after the other and
-- merges their updates; the reply of the model service and of the language model; the answers of Razorpay,
-- Twilio and Resend to a call, and of the queue to a job; hashes,
-- encryption, and the parsing of JSON.
--
-- Not modelled: retries of HTTP calls and the circuit breaker, which belong to libraries; the sanitizer
-- and the schemas of the language model's answers, which nothing calls; transitionWithVersion of
-- prisma/index.ts, which only tests call; the reports and the generator of the evaluation; the frontend, the
-- controllers that only read, the validation of bodies, configuration and logging; the Python pipeline.
pub mod Api
pub mod Base
pub mod Contracts
pub mod Domain
pub mod Evaluation
pub mod Llm
pub mod Persistence
pub mod Worker
pub mod Tests
