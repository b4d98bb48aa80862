-- ===== src/Lib.antt =====
-- A verification library for the task-manager API, a NestJS service over MongoDB, Redis and BullMQ.
--
-- The parts and their files (paths from the repository's root):
--   Platform      what the source calls and does not hold: a MongoDB collection (Platform/Collection),
--                 the queues of BullMQ (Platform/Queues), Redis (Platform/Redis) and the cache manager
--                 (Platform/Cache), each a record of operations with the documented laws that the
--                 proofs use, and an implementation in memory of each (Memory, RedisMemory, CacheMemory);
--                 keys with parameters (KeyedCache) with the set of written keys that the repositories
--                 keep beside them (Tracked), and Mongoose's save of a versioned document (Versioned)
--   Outbox        src/outbox: the document, `OutboxRepository` and `OutboxService`; the life cycle of
--                 an event is the step relation of Outbox/Lifecycle
--   Outbox/Dispatcher  src/outbox/application/outbox-dispatcher.service.ts: `dispatchPending` and `getQueue`
--   Idempotency   src/common/idempotency: `IdempotencyService`, and `IdempotencyInterceptor` around
--                 any route handler (Idempotency/Interceptor)
--   Users         src/users: the document and `UserRepository` with its two caches
--   Audit         src/audit/application/audit.service.ts
--   Auth          src/auth: `BruteForceService`, `TokenService`, and the handlers of login, logout,
--                 refresh, password reset and email verification, on one world of users, counters
--                 and audit entries (`Auth.World`)
--   Auth/Accounts the handlers of registration and of a forgotten password, with the record of the
--                 email and the outbox event they write (`Auth.Accounts.Services`)
--   Auth/RateLimit  `UserRateLimitService` and its interceptor
--   Mail          src/mail: the record of an email delivery and its repository; Mail/Worker:
--                 src/infrastructure/processors/email.processor.ts and the dead letters
--   Authorization src/common/authorization: the rules of the roles, the policies of the routes and
--                 `PoliciesGuard`
--   Workspaces    src/workspace: the documents, the repositories of memberships, invitations and
--                 workspaces with their caches, FeatureFlagsService (Flags) and
--                 WorkspaceSettingsService (Settings), and the commands: Invite (create, accept and
--                 decline an invitation) and Members (add-member, create-workspace), on one
--                 `WorkspaceWorld`
--   Tasks         src/task: the document, `TaskRepository` (Repository; its findAll in Lists and
--                 Listing), update-task (Update), the other commands and get-tasks (Commands), with
--                 the activities and the messages that they write (World); Steps makes the commands
--                 the steps of a run; Given says field by field what an update gives
--   Examples      the theorems at concrete inputs, on the implementations in memory
--
-- How the code is read. A method is a function from its arguments and the state to its answer and
-- the next state, and each `await` on a store is one step of it. An exception is `err` of the
-- class thrown, without its text. Object ids are numbers and dates are times in milliseconds; `new
-- Date()`, fresh ids, random bytes and salts are arguments (the records `Draw`). Numbers do not
-- overflow: they count attempts and milliseconds. Loops are structural; only a client's walk
-- through the pages (Tasks/Walk) takes fuel: one page more than there are tasks is enough. A
-- transaction that fails gives back the state before it.
--
-- Parameters with hypotheses: `bcrypt.compare` accepts the text that `bcrypt.hash` was given; a
-- JSON web token verifies, within its lifetime, to the claims it was signed for; CASL answers by
-- the last rule that is about the question. SHA-256, `toLowerCase` and `trim` are arbitrary
-- functions. A call of the database answers; a queue takes a job or refuses it. A sort leaves
-- sorted rows as they are and keeps their number. Time passes for the records of idempotent
-- requests, as a step of the store; the counters of failed logins run out in no theorem.
--
-- Not modelled: the controllers, DTO validation, Swagger, WebSocket rooms, health and metrics
-- (input and output); the connections and timeouts of the stores, and the retries of a
-- transaction; the statistics and exports of tasks, categories, reminders and webhooks; the
-- workers of the queues but for email.
pub mod Prelude
pub mod Platform
pub mod Outbox
pub mod Idempotency
pub mod Users
pub mod Audit
pub mod Mail
pub mod Auth
pub mod Authorization
pub mod Workspaces
pub mod Tasks
pub mod Examples
