-- ===== src/Lib.antt =====
-- The Veritra server: a verification library.
--
-- Veritra is a private messenger; this library is about its Go server (server/). Handlers under
-- server/internal/httpapi answer requests behind a chain of limits and write to the stores under
-- server/internal/storage; server/internal/realtime pushes events to the sockets of an account;
-- server/internal/mlswire checks the MLS objects that clients upload. The modules follow these parts:
--
-- Prelude: names and lemmas that all modules share. Prelude/GoMap is Go's map with string keys, as
-- an association list without an order of its own; where a function ranges over a map, the order
-- of the visits is an argument.
-- Mlswire (server/internal/mlswire/keypackage.go). Reader and KeyPackage hold the definitions: the
-- Go reader changes in place, here each read returns the bytes and the reader. A check that
-- returns false is `none`. The loop over the extensions runs on fuel, one round more than there
-- are bytes; each round takes a byte, so the fuel is enough, and the completeness theorem has it.
-- Format is the grammar that serves as the specification, Checks the lemma of each check.
-- Realtime (server/internal/realtime/hub.go). Client and Hub hold the definitions: a client is its
-- address and the fields that never change, and the hub's heap holds its closed flag and buffer.
-- Each method that holds the lock is a function of the hub, so any interleaving of calls is a
-- sequence of them (Reach). A publication takes its snapshot and sends in one step, and the
-- reader of a socket, which only takes payloads out, is left out.
-- Websocket (server/internal/realtime/websocket.go). Wire has the frames that the server writes and
-- the lengths, Text the checks of UTF-8 over the package unicode/utf8 as a parameter, Frames the
-- reader: a round of `run` is a chain of stages, which stop with a reply or go on. The loop runs on
-- fuel; every round takes two bytes or stops, so one more than the bytes are is enough, as
-- the theorem on its end says. The same holds of the loops in Text, on the length of the text.
-- Limits.Typing (server/internal/httpapi/typing_limiter.go): `allow` in two parts, the rotation of
-- the generations and the admission.
-- Limits.Backoff (server/internal/httpapi/login_backoff.go): `FailedAny`, `RetryAfterAny`,
-- `SucceededAny`, the eviction and the cleanup. The salted hash that keys the table is a parameter.
-- Limits.Rate (server/internal/app/app.go, the rate limiter). Buckets has the tables with their
-- evictions and the overflow bucket; the pointer that `bucketLocked` returns is a place, the entry
-- of the key or the overflow bucket. Limiter has the middleware up to the handler and the charges.
-- Limits.Identity (server/internal/httpapi/client_identity.go): the address that the limits count a
-- request under. The packages net and strings are a parameter.
-- Domain (server/internal/domain/types.go and moderation.go): roles and the rules of moderation.
-- Config (server/internal/config/limits.go): the limits, their defaults and the derived storage.
-- Push (server/internal/app/push_rejections.go): the push targets that a provider refuses.
--
-- Storage (server/internal/storage): the SQLite tables are lists of rows (Storage/Tables,
-- Prelude/Rows), a write is a function from tables to an answer, and an error leaves the tables that
-- the caller has, as the rollback does. Writes run one at a time on the writer connection. Errors of
-- the driver are left out; UNIQUE constraints are checked where a write can run into one. Random
-- ids and the clock are arguments.
-- Storage.Mls (mls_group_store.go, mls_message_store.go, mls_revocation_store.go): Revocations has the
-- queries on a group and the life of a revocation, Messages the checks of a bundle, Commit its
-- writes, Bundle `CreateMLSCommitBundle` and `CreateMLSMessage`. Frames and Accepted say what each
-- write leaves; Reach runs the writes in any order.
-- Storage.Links (device_link_v3_store.go): State has the rows and the query that finds a link, Proof the
-- message that the new device signs, Methods the writes up to the claim and Approval those after it.
-- Removal has the deletions of links, of which those of account_store.go and content_store.go are
-- single statements; Signed is about the signed message. The transitions are a data type (Moves); Reach
-- runs the writes in any order, with the ids that links have had.
-- Storage.Receipts (receipt_store.go): `ApplyDeliveries`, one statement after the other.
--
-- Franking (server/internal/franking/franking.go): `Commit` and `Verify`; a Go string is its bytes, and
-- HMAC-SHA256 is a parameter. Prelude/Fields has the fields behind their lengths, which the messages
-- of Franking and of Storage.Links are made of.
--
-- Times are numbers of nanoseconds. Counters are unbounded numbers: none of them can reach the width
-- of Go's int in the life of a process. Bytes are numbers below 256 where a theorem needs it.
--
-- Not modelled: the other SQL stores (accounts, conversations, content, recovery, read receipts, pushes)
-- and the handlers above them, the lists that devices read of a group, the WebSocket handshake and writer
-- loop, the admission gates, push delivery, uploads, passwords and the environment, which do I/O or
-- call other packages for most of what they do; the Rust core, the mobile app and the deployment
-- files.
pub mod Prelude
pub mod Mlswire
pub mod Realtime
pub mod Websocket
pub mod Limits
pub mod Domain
pub mod Config
pub mod Push
pub mod Franking
pub mod Storage
