-- ===== src/Lib.antt =====
-- XpensGo: the transactional outbox, the processing of Telegram events, the delivery of Telegram
-- replies, and paid model operations.
--
-- A request of the program ends in one PostgreSQL transaction that stores its effect and a row of
-- `outbox_messages`. A dispatcher claims pending rows under a lease and publishes them to a Queue,
-- whose consumers record a receipt. A consumer of an event resolves its sender and stores a reply. A
-- consumer of a reply job claims a delivery attempt, calls the Telegram Bot API once, and stores what
-- it answered; an operator may reopen what the provider rejected. A consumer of a model job claims an
-- attempt, calls a model's provider once, and stores the result.
--
-- Outbox       packages/domain/src/outbox/outbox-delivery.ts (Outbox/Types, Outbox/Dispatch) and
--              packages/adapters/src/postgres/outbox-store.ts (Outbox/Rows, Outbox/ClaimPending,
--              Outbox/Transitions), with the constraints of its migrations (Outbox/Checks).
--              Outbox/History runs sequences of transactions; `insert` is the INSERT of
--              packages/adapters/src/postgres/telegram-ingress-store.ts.
-- Delivery     packages/domain/src/channel/deliver-telegram-reply.ts (Delivery/Reply) and
--              recover-telegram-delivery.ts (Delivery/Recovery), over
--              packages/adapters/src/postgres/telegram-delivery-store.ts (Delivery/Store) and
--              telegram-delivery-recovery-store.ts (Delivery/RecoveryStore). Delivery/System runs
--              schedules of several workers, their crashes, and the operator.
--              Delivery/Checks states the constraints of their migrations. Delivery/BotApi is the
--              provider, packages/adapters/src/telegram/bot-api.ts.
-- Events       packages/domain/src/channel/process-telegram-event.ts (Events/Process) over
--              packages/adapters/src/postgres/telegram-event-processing-store.ts (Events/Windows,
--              Events/Store), with the constraints of its migrations (Events/Checks). Events/Steps
--              is a step relation on the tables, with the conditions of each change that the
--              invariants need, and what holds over sequences of calls (Events/Calls). Events/Postgres puts the two together with the
--              delivery of the reply. Events/Accept is what inserts the events,
--              packages/domain/src/channel/accept-telegram-event.ts over
--              packages/adapters/src/postgres/telegram-ingress-store.ts.
-- Model        packages/domain/src/model/model-gateway.ts (Model/Gateway) and model-operation.ts
--              (Model/Registry, Model/Prepare, Model/Operation), and
--              packages/adapters/src/postgres/model-operation-store.ts (Model/Store), with the
--              constraints of its migration (Model/Checks). Model/Steps is a step relation on the
--              tables, with the conditions that the invariants need, and what holds over sequences
--              of calls.
-- Table        rows with a key: SELECT, UPDATE and unique keys.
-- Effect       the source's Effect programs: functions of a state that return a success or a typed
--              failure, and the state that they leave.
-- Prelude      numbers, tests, options and lists.
--
-- A table is the list of its rows, a SQL statement a function of the tables, and a transaction is
-- one step. The source runs most under a row lock or as one statement; where it does not, the step is
-- an assumption: a report on a publication claim reads the row again after its UPDATE, outside any
-- transaction, to word its answer, and a restart locks its source only, not the lineage that it
-- counts. `locked` in
-- `claim_pending` stands for the rows that SKIP LOCKED skips. Identifiers are numbers of which only
-- equality is asked; times are whole milliseconds and are never assumed to grow, nor do the clocks
-- of a worker and of the database agree. A service that the source takes from its context is a
-- record of operations on a state: the Queue, the Bot API, the model's provider and the telemetry
-- are parameters, as are the identifiers that PostgreSQL draws, its calendar, and JavaScript's
-- `Date`. A unique key or a CHECK that an INSERT or an UPDATE can break makes the transaction fail
-- and undoes it. No definition runs on fuel: every loop of the source is over a list, or over the
-- parts of an output.
--
-- Not modelled: failures of the connection itself, foreign keys, logging, the decoding of rows by
-- schemas, the columns that are only copied (versions, prompts, token counts), the concurrency within
-- a batch of the dispatcher, and the other parts of the repository: identities, HTTP, the web
-- application.
pub mod Prelude
pub mod Effect
pub mod Table
pub mod Outbox
pub mod Delivery
pub mod Events
pub mod Model
