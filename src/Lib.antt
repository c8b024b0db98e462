-- ===== src/Lib.antt =====
-- NiceAgent runs chat agents: the control plane keeps chats, runs and their events, a runtime claims a
-- run, executes it and reports back, and clients replay and follow the events of a run.
--
-- The parts, with the code they model:
-- - Protocol: the data of packages/common/protocol (run.go, chat.go, workspace.go, event.go,
--   identity.go, quota.go, runtime_policy.go).
--   Records and enumerations have the fields and constants of the Go types. A pointer to a time is an
--   option, a time is a number whose zero is Go's zero time.
-- - Store: the in-memory repository, services/control-plane/internal/repository/store.go. Store is the
--   record of its tables. The functions in Store/Chats, Store/Runs, Store/Events and Store/Artifacts are the
--   methods of the same name (AddUserMessage is add_user_message). The mutex makes a method one step.
--   Users, members and projects are in Store/Members, identities and browser sessions in
--   Store/Identities, policies in Store/Policies, invitations in Store/Invitations, and their e-mails
--   in Store/Outbox, with the reports of mail providers in Store/Outbox/Feedback.
--   Skills and their secrets are in Store/Skills, the records of their calls and the audit events in
--   Store/Invocations, the sums of usage in Store/Usage, the other lists in Store/Listing.
--   Store/Steps is the relation of the writing methods for chats, runs, events, artifacts, accounts and
--   mails; the files below it prove invariants of the stores that it reaches.
-- - Sink: RepositorySink of services/control-plane/internal/app/runs.go, through which the reports of
--   a runtime reach the repository. Its methods are chains of repository calls (Sink/Calls); an error
--   ends the chain and keeps what was written.
-- - Mailer: a worker's pass over the outbox, services/control-plane/internal/mailer/outbox.go. The
--   sender is a function from an invitation to the error that it returns, if any.
-- - Quota: the repository wrapper of services/control-plane/internal/quota/releasing_repository.go, which
--   gives the reservation of a finished run back. There the calls of the limiter are kept as a list.
--   The limiter of quota/redis_limiter.go is Quota/Limiter; Quota/Counters is its CounterStore, a record
--   of calls with what the limiter relies on of Redis while it answers, no key expires and no counter
--   leaves 64 bits; the keys of counters and of markers are told apart. Quota/Marker reads the marker of a run.
-- - ModelProvider: the errors of model providers and the retrying transport of the agent runtime,
--   services/agent-runtime/internal/modelprovider/errors.go and retry_transport.go. What an attempt
--   meets (the answer, the end of the context, the sleep) is an argument, Weather. The local rate
--   limiter is rate_limiter.go beside them.
-- - Fanout: the relay of run events between control planes and the buses,
--   services/control-plane/internal/events/eventbus.go. The goroutine of a subscription is a loop over
--   its inputs; Fanout/Relayed runs it beside the repository.
-- - Dispatch: the queues of runs of services/control-plane/internal/dispatch/queue.go. Stream has the
--   values of a Redis message.
-- - RunQueue: the worker of services/agent-runtime/internal/runqueue/worker.go, which takes runs from the
--   queue (RunQueue/Reading), executes and acknowledges them (RunQueue/Worker). The answers of Redis, of
--   the control plane and of the engine are the argument Outside.
-- - Platform: the redaction of packages/common/platform/redact.go.
-- - SkillManifest: the checks of skills in packages/common/skillmanifest (schema.go, http_config.go,
--   mcp_import.go). encoding/json, net/url and the library of JSON schemas are arguments.
-- - Tools: services/agent-runtime/internal/tools (tool_bridge.go, http_skill.go): which tools a run gets,
--   their risk policy and rate limit (Tools/Policy), the guards against internal addresses (Tools/Ssrf)
--   and the summary of artifacts (Tools/Summary). net/netip, net/url and the resolver are arguments.
-- - ActionPolicy: the roles that an action asks for (action_policy.go and the tests of roles in server.go,
--   in services/control-plane/internal/httpapi).
-- - Server: handlers of services/control-plane/internal/httpapi/server.go over the in-memory repository:
--   the tests on who may read what (Server/Access), the routes of chats (Server/Chats), of runs and
--   artifacts (Server/Runs), and a new message with its quota (Server/Limits), its reservation
--   (Server/Reserving) and its dispatch (Server/Messages, for any dispatcher).
-- - Tests: runs of the model at concrete values.
--
-- The time and the identifiers that a method draws are arguments. A Go map is an association list, and
-- a range over it takes the order of that list. Counters are natural numbers, which do not
-- overflow; the cost of a run, a float in Go, counts whole units. A number that
-- Go compares with zero is an integer of Prelude/Int. The events of a run are delivered to its
-- subscribers in the step that appends them, where the code sends them after it has released the lock.
-- The cut of a long title at a byte is an argument, since a text here consists of whole characters.
--
-- Texts are trimmed by Go's list of spaces (Prelude/Text). The tables by which Go lowers a character are
-- an argument, `lower`. Durations are nanoseconds; a retry delay wraps around as an int64.
--
-- Loops are structural over lists. The loop of the retries takes fuel, as many attempts as the policy
-- allows, which is how often the loop of the code runs at most.
--
-- Not modelled: the PostgreSQL repository (SQL statements), the other HTTP handlers, the OIDC protocol and SMTP
-- (input and output), the invocation of tools, the Redis client, the Eino
-- engine (a framework outside the repository), metrics and traces, configuration, the frontend and the
-- deployment files; nor the sandbox, the OpenAPI import, the dispatchers, the fallback of
-- model providers, the in-memory mail queue and the estimate of tokens.
pub mod ActionPolicy
pub mod Prelude
pub mod Protocol
pub mod Store
pub mod Sink
pub mod Mailer
pub mod Fanout
pub mod Platform
pub mod SkillManifest
pub mod Tools
pub mod Server
pub mod Stream
pub mod Dispatch
pub mod RunQueue
pub mod Quota
pub mod ModelProvider
mod Tests
