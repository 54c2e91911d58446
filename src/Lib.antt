-- ===== src/Lib.antt =====
-- relayd, the relay server of IcyEasySend: a Go program under relay/.
--
-- Two devices that cannot reach each other directly meet on this server. On the signaling plane
-- (relay/internal/signal) each holds a WebSocket, hears which of its peers are online, sends them
-- short messages and asks for streams. On the data plane (relay/internal/stream) the sending device
-- POSTs a file to a stream and the receiving one GETs it; the bytes go through an in-memory pipe.
--
-- Which file models which part:
--   Protocol            relay/internal/protocol/protocol.go: names and messages, HTTPStatus
--   Config              relay/internal/config/config.go: Load and validate
--   Auth                relay/internal/auth/auth.go: bearer token, challenge response, stream proof
--   Limit               relay/internal/limit/limit.go: PairLimiter
--   Limit/Bandwidth     relay/internal/limit/limit.go: BandwidthPool and its readers
--   Stream/Errors, Pipe the errors of the data plane, and io.Pipe as the code uses it
--   Stream/Registry     relay/internal/stream/registry.go: Stream and Registry, method by method
--   Stream/Registry/Ideal  what the registry promises, without its accounts
--   Stream/Registry/Unordered  the same as a collection without an order, a quotient
--   Stream/Handler      relay/internal/stream/handler.go: ServeHTTP, serveSender, serveReceiver
--   Stream/Handler/Pump relay/internal/stream/handler.go: pump
--   Stream/Transfer     relay/internal/stream/handler.go: the two handlers at work on one pipe
--   Signal/Hub          relay/internal/signal/hub.go: Hub and its presence notifications
--   Signal/Session      relay/internal/signal/session.go: the outgoing queue, Send, Close, writeLoop
--   Signal/World        what the server's handlers share: hub, registry, limiter, queues, counters
--   Signal/Server       relay/internal/signal/server.go: dispatch and its handlers, teardown
--   Signal/Handshake    relay/internal/signal/server.go: the token, the handshake, its rejection
--   Signal/Connections  relay/internal/signal/server.go: ServeHTTP and readLoop, of all connections
--   Signal/Visit        relay/internal/signal/server.go: ServeHTTP of one connection, from end to end
--   Signal/History      histories of connections, messages and departures
--   Signal/Transfers    relay/cmd/relayd/main.go: the data plane with the hub's keys
--   Metrics             relay/internal/metrics/metrics.go: the counters behind both planes' observers
--   Main                relay/cmd/relayd/main.go: the state that run makes, its sweeper, its result
--   Relay               relay/cmd/relayd/main.go: connections, requests and sweeper on one state
--   Relay/Together      a transfer and all of the relay beside it
--   Base                Go's maps, lists, texts and results, and what the other files share
-- The children of these modules hold the proofs, and `Tests` the theorems at concrete inputs.
--
-- State and concurrency. A component's state is a record, and a method is a function from state to
-- state. The methods of the registry, the hub and the limiter run under a mutex, so a history of the
-- program is a sequence of such steps (`Reach`, `Steps`). What a goroutine does outside the mutex is
-- cut where others may run: an attachment is a claim and later a wait, a handler is `begin_`, `woken_`
-- and `finish_`. What the fields of a `*Stream` that change hold is kept beside the map, by stream id,
-- since handlers use a stream after it has left the registry. While both handlers of a stream are at
-- work, a state is a `Transfer`; a step is a round of a loop, a read of the pipe, a handler's end, or
-- what the rest of the relay does to the pipe meanwhile (Relay/Together runs the two side by side).
--
-- The whole relay (`Relay.System`) is what `run` makes, with a place for each connection and each
-- request. Its steps are those of a connection, a round of a session's write loop or ping loop, a tick
-- of the sweeper, ServeHTTP of the stream handler up to its switch, and the three parts of a handler; a
-- request's bytes move between them, as a `Transfer`. The handler of one message runs as one step, and
-- so does teardown. A step that draws the id of a stream draws one that was never issued (32 random bytes).
--
-- Numbers. Sizes, counts and times are natural numbers; times are nanoseconds. Sums of them stay far
-- below 2^63 in the program, and int64 is not modelled; the float64 that the metrics count in is a
-- parameter, exact up to 2^53. There is no fuel: each loop is recursion on
-- the list that it runs over. The order in which Go ranges over a map is the order of the list that
-- stands for it, which no theorem fixes (for the registry, see Stream/Registry/Order).
--
-- Parameters. SHA-256, Ed25519 and base64 (`Auth.Crypto`), golang.org/x/time/rate (`Limit.Rate`,
-- `Limit.Bandwidth.Shaper`), encoding/json (`Signal.Server.Codec`), strconv (`Config.Parsers`) and the
-- Prometheus client (`Metrics.Prometheus`) are not in the repository; what they return is an argument.
-- Random bytes, the time and what a network call returns are arguments too.
--
-- Not modelled: timers, HTTP and WebSocket framing, the routing of requests to the handlers,
-- logging, the listening sockets and signals of the main program, and the Dart application.
pub mod Base
pub mod Protocol
pub mod Config
pub mod Auth
pub mod Limit
pub mod Metrics
pub mod Stream
pub mod Signal
pub mod Main
pub mod Relay
