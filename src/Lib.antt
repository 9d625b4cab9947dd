-- ===== src/Lib.antt =====
-- The LogFlux Go SDK (github.com/logflux-io/logflux-go-sdk): a client that takes log entries from a
-- program, queues them, encrypts them and sends them to an ingest service.
--
-- The parts and their files:
-- - Models: pkg/models/models.go, the entry types, their quota categories and payload types.
-- - Queue: pkg/queue/queue.go, the bounded queue between the callers and the workers. Go's `append`
--   picks the capacity of a grown slice; it is the parameter `grow` of a queue. Queue.Fifo runs
--   histories of calls; Queue.Invariant says when a queue is valid.
-- - Breadcrumbs: pkg/payload/breadcrumb.go, the ring of recent breadcrumbs; Breadcrumbs.Trail runs
--   histories of calls on it.
-- - Retry: pkg/retry/retry.go, the errors (Retry.Errors) and the retry loop. `fn`, the random
--   source, the timers and the context enter as a script of rounds, one for each call of `fn`: what
--   it returned, the random draw, and whether the context was done before the wait was over. The
--   loop recurses on the script, and `pending` says that the script is used up while the loop goes
--   on. The probe of the server's health before a new attempt takes time and changes nothing, so it
--   has no part in a round; Retry.Readiness is the probe, over what each of its attempts meets.
--   Floats and the text of a duration are the parameter `Runtime`.
-- - Crypto: pkg/crypto/crypto.go, AES-256-GCM over text that may be compressed. The cipher, gzip
--   and base64 are Go's library: `Primitives`, with the round trips that the code relies on in
--   `IsSound`. Crypto.Rsa is pkg/crypto/rsa.go over Go's PEM, X.509, RSA and SHA-256, the parameter
--   `Library`.
-- - Config: pkg/config/config.go, the check of an API key and the configuration from the
--   environment.
-- - Discovery: pkg/discovery/discovery.go with the paths of pkg/api/endpoints.go, and Handshake:
--   pkg/handshake/handshake.go. HTTP is a function that answers requests, and the decoders of JSON
--   are parameters, as is `Rsa`, which Handshake.Exchange makes of the functions of Crypto.Rsa.
-- - Client.Connect: the constructors of both clients, which check the key with Config, find the
--   service with Discovery and exchange a key with Handshake; and the masks of keys.
-- - Client.Sync: the synchronous client of pkg/client/client.go, which validates its entries with
--   Client.Validate and builds its bodies with Client.Multipart; Client.Sync.Sends how it sends,
--   Client.Sync.Methods the methods that make an entry of their arguments. Client.Checks are the
--   requests for the health and the version of the service, which both clients make.
--   Client.Sync.EndToEnd follows a client from its constructor to what a server reads, through
--   Config, Handshake, Crypto and Client.Multipart.
-- - Client.Validate: the validation of an entry, at the end of pkg/client/client.go.
-- - Client.Multipart: pkg/client/multipart.go, the parts of a request body.
-- - Client.Resilient: pkg/client/resilient_client.go. State holds the client, its counters and its
--   statistics; Enqueue the way of an entry into the queue (SendLog..., enqueueEntry); Sending what
--   a response and a failed delivery change (sendMultipart, handleSendError) and both ends of
--   SendLogBatch; Meant what a message asks for, and Verdict the causes of a drop, both without the
--   code; Workers the workers, SendLogBatch, RenewSession and Close as steps of one system, in any
--   order: a worker (worker, and DequeueWithContext of pkg/queue/queue.go) steps from lock to lock,
--   the entries of each SendLogBatch under way are part of the state, and a delivery of either ends
--   in any way in which the retry loop can; Workers.Flow the entries that each step takes over,
--   delivers and drops; Keys the encryptors as objects that deliveries share with RenewSession and
--   Close; Methods the other send methods and Flush. It uses Client.Validate on each entry, Queue
--   for the queue, Client.Multipart with Crypto for the bodies, and Retry's errors for the responses.
-- - Tracing: tracing.go and span.go, trace headers and the start of spans; Tracing.Header follows a
--   context over the wire.
-- - Payload: pkg/payload/context.go and scope.go, what the global context and a scope add to a
--   payload; Payload.Kinds the payload types of payload.go, Payload.Errors error payloads,
--   Payload.Sampler the sampler, and Payload.Json the JSON object that the struct tags describe, of
--   which `Marshal` makes a text. Payload.Merge.Order has Go maps without an order, a quotient of
--   the lists that stand for them.
-- - Logger: pkg/logger/logger.go, the asynchronous logger as a step relation: the callers, the
--   worker and Close in any order; Logger.Methods the methods of `Logger`, on a synchronous client.
-- - Adapters: pkg/adapters, the loggers that turn the calls of another logger into calls on a
--   client: Adapters.Zerolog (Adapters.Zerolog.Chain a chain of its calls), Adapters.Logrus,
--   Adapters.Zap (Adapters.Zap.Sugar its sugared arguments) and Adapters.Stdlib.
-- - Sdk: logflux.go, the package's global state and its send functions; Sdk.Spans the setters and
--   the end of a span (span.go), Sdk.Scopes the send methods of a scope (scope.go), Sdk.Levels the
--   functions by level, Sdk.Calls the calls of a program as data, Sdk.Init Init and its variants,
--   which open a client with Client.Connect, and Sdk.Middleware the middleware of chi, gin, echo,
--   fiber and net/http. Each send function makes a payload with Payload and offers it to the client
--   by Client.Resilient.Enqueue.
--
-- How the source's data stands here: a string is the list of its bytes; an `int` is a whole number,
-- since no operation modelled takes it out of 64 bits; a duration is its nanoseconds and wraps
-- where the code multiplies; an int64 counter is its bits modulo 2 ^ 64; a time is the nanoseconds
-- since Go's zero time; a float64 in a payload is its 64 bits. What a lock guards is one step. A
-- clock, a random id, a random nonce and the draw of the sampler are arguments. The callbacks of
-- the package are pure functions. There is no fuel: each loop recurses on the entries, the labels
-- or the script that it reads, and the probe of the server's health on the number of its attempts.
--
-- Not modelled: timeouts, and the mock server of pkg/testutils.
pub mod Prelude
pub mod Models
pub mod Queue
pub mod Breadcrumbs
pub mod Retry
pub mod Config
pub mod Discovery
pub mod Handshake
pub mod Logger
pub mod Adapters
pub mod Sdk
pub mod Crypto
pub mod Client
pub mod Tracing
pub mod Payload
