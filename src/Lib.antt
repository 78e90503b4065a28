-- ===== src/Lib.antt =====
-- Relayent lets server-side programs run prompts on a user's own AI command-line tools. A relay (relay/)
-- holds a queue of jobs per user; a bridge on the user's machine polls it, runs the job and posts the
-- result. This library models the relay (its queue, its keys and limits, its store, its visitor statistics,
-- and the handlers that put these together) and the bridge (its poll loop, the adapters that run the
-- command-line tools, its configuration and its log files).
--
-- How the parts interact. A request is authenticated (session cookie, administrator's token, machine
-- credential or pairing key) to a principal with scopes. A handler checks a scope, decides on whose jobs
-- the principal may act, asks the limiter, and then works on the queue and on the store. Administrators
-- issue enrollment tokens and app credentials; a bridge redeems a token for its own credential. The bridge
-- reads its configuration, polls the relay, looks up a job's adapter, writes the job's attachments into
-- its workspace, and lets the adapter run the tool there, once or twice; it posts what the tool answered.
--
-- Base, Strings, Api: the shared helpers; Go's `strings` functions on bytes; internal/api/types.go.
-- Queue.Defs, Queue.Jobs: relay/queue.go. Each definition is one critical section under the mutex:
--   Enqueue, popLocked, SetResult, Cancel, BridgeOnline, Capabilities, PendingCount and the janitor as they
--   are, ClaimNext as claim_start, claim_woken and claim_timeout, Fetch as fetch_start and fetch_finish.
--   Queue.Steps has the histories of sections. A map is a function, a channel is a number.
-- Security.Keys, Security.Limiter, Security.Sanitize: relay/security.go (KeySet, the start-up policy,
--   isLoopbackAddr, the token-bucket limiter, sanitizeCapabilities).
-- Bolt: go.etcd.io/bbolt as an interface of operations and of the laws that its documentation states;
--   Bolt.Rows is an instance that satisfies them.
-- Store: relay/store.go and relay/principal.go, over any such bbolt.
-- Server: relay/main.go, relay/admin.go and the sessions of relay/oidc.go. Server.Defs has the state and
--   the responses, Server.Auth the authentication, Server.Login the end of an OIDC login,
--   Server.Broker, Server.Enroll and Server.Admin the handlers, Server.Serve the routes with their scopes;
--   the other modules are named for what they prove.
-- Store.Hits, Store.Stats, Server.Demo: relay/demostats.go and relay/demoapi.go. Server.Views has the
--   reports: me of relay/me.go, status of relay/main.go, the read-only lists of relay/admin.go.
-- Adapters.Json, Adapters.Defs, Adapters.Run, Adapters.Backends, Adapters.Models: bridge/adapters/. `run`
--   is the same in the four files but for the fields of the record Adapter; Backends has the four records.
-- Bridge.Paths, Bridge.Attachments, Bridge.Messages, Bridge.Process, Bridge.Poll: bridge/main.go.
--   Bridge.Registry: bridge/registry.go. Bridge.Logs: rotateIfLarge of bridge/logrotate.go.
--   Bridge.ConfigFile: LoadFileConfig of bridge/setup.go and writeSetting of bridge/config_cmd.go.
--   Bridge.Settings: the commands of bridge/config_cmd.go, without what they print around the values.
--   Bridge.Config: bridge/config.go and validateRelayURL of bridge/setup.go. A disk is a function from
--   paths to contents; what may fail, and how, is a record of functions. A tool may read the files and
--   write them: its answers, and what it makes of the files, are functions of the files and of the
--   processes before it.
--
-- Conventions. A text is its list of bytes. A time is a number of nanoseconds, 0 is the zero time, and
-- the clock is an argument. Random draws are arguments. SHA-256, HMAC, base64, number formatting and
-- package `net` are functions of the record Server.Defs.Externals, any functions unless a theorem names
-- what it needs of them. Most loops are structural recursions on the lists that the source ranges over.
-- Fuel is used where they are not: a text that is trimmed has its length, of which every round drops a
-- byte at least; a number that is printed has itself, and a digit makes it smaller; `run` of an adapter
-- has two calls, since the second one does not retry; the loop that trims the visitor log has a round
-- more than there are entries, and each round removes one. Numbers are unbounded, but where the
-- source's fixed width shows it is written out: the keys of the audit log have 64 bits, and the wait of
-- a poll and the time to live of an enrollment token are signed products of 64 bits.
--
-- Not modelled: I/O, the HTML pages, the GeoIP database (the country of an address is an argument), the
-- exchange with the OIDC provider (its answer is an argument), adminListAppCreds and adminConfig, timing of
-- comparisons, rounding of the limiter's floats; of the bridge, its other commands, prompts, services and
-- monitor; the demo site (demo/). Errors of read transactions are not modelled; those of writes are.
pub mod Base
pub mod Strings
pub mod Api
pub mod Queue
pub mod Security
pub mod Bolt
pub mod Store
pub mod Server
pub mod Adapters
pub mod Bridge
