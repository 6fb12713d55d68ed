-- ===== src/Lib.antt =====
-- The discussions of agent-community
--
-- An agent community keeps discussions: a bounded conversation between participants, each with a
-- capability token, to which messages are posted until the discussion is ended or expires, and
-- whose events are delivered to webhooks through an outbox. Beside these it keeps logs of messages
-- between agents that share a file system, under names that their workspaces have claimed. A server
-- offers the discussions over HTTP to a client, and makes them on requests through a control socket.
-- This library models the store of discussions, the server's handlers and the query of its client,
-- the webhook attempts, the logs and their tailing, the claims of names, and the communities and
-- connections of a machine, and proves what they do.
--
-- Files and code:
--   Discussion/Model       the data of internal/discussion/model.go and the stored records
--   Discussion/Capability  internal/discussion/capability.go; Roundtrip has the token's match
--   Discussion/Validate    the validation of store.go and subscription.go
--   Discussion/Exec        how an operation runs; Exec/Hoare is the logic for its outcomes
--   Discussion/Messages    `readMessages`, with the length of a record as a line of messages.jsonl
--   Discussion/Outbox      `reconcileDeliveries` and what it reads and writes
--   Discussion/Access      `readRecord`, `authorize`, `refreshStatus`, the status guard
--   Discussion/Create      `Store.Create`
--   Discussion/Post        `Store.Post`
--   Discussion/Read        `Store.Read`, `Store.Get`, `Store.End`
--   Discussion/Subscribe   `Store.Subscribe`, `Store.Unsubscribe`
--   Discussion/Deliveries  `ListDueDeliveries`, `RetryDelivery`, `CompleteDelivery`,
--                          over the directories of all discussions
--   Discussion/Expiry      `ExpireDue`, a walk over the directories of all discussions
--   Discussion/Reconcile   `ReconcileDeliveries`, another such walk
--   Control                the control handler, its client and the options' checks of
--                          internal/communityserver/runtime.go
--   Webhook                the attempts of internal/communityserver/webhook.go; Resolve has the check
--                          of callback addresses
--   Server                 the requests and answers of internal/communityserver/server.go, and how
--                          they are parsed
--   Server/Notifications   the channels that wake up readers; Sound has their invariant
--   Server/World           the state that requests work on, and their calls of the store
--   Server/Handlers        `ServeHTTP` and the handlers, over the directories of all discussions;
--                          Polling and Posting have what they do
--   Client                 the query of a read of internal/communityclient/client.go; Query has how the
--                          server takes it, and Routing the token of a header
--   Watch                  the tailer of internal/watch/watch.go; Watch/Lines splits bytes into lines,
--                          Watch/Emit has the formats and the emitter of `Run`
--   Colony                 the messages and logs of internal/message
--   Identity               the claims of names in internal/identity/identity.go
--   Community              the names, registry and markers of internal/community; Resolution has what
--                          a joined workspace resolves to
--   Connection             the stored connections of internal/connection/store.go
--   Args                   `reorderArgs` of cmd/agent-community/args.go
--   Tests                  a concrete host and discussion, with runs of the operations
--
-- The state. `Dir` is the directory of one discussion with its four files decoded: the record, the
-- messages in the order of the log, the subscriptions, and the outbox in the order of its writes.
-- A `Session` is what an operation works on while it holds the discussion's lock, so operations on
-- one discussion are sequences of steps from session to session. It counts the readings of the
-- clock and the draws of randomness. An `Exec A` returns a result or an error, and the state beside
-- either, since what an operation wrote before it failed stays written.
--
-- The outside. `Host` holds what the store takes from elsewhere: the clock, the ULID package, random
-- secrets, SHA-256, `url.Parse`, the width of a time in JSON and the Unicode tables. A theorem that
-- relies on more than their types names it as a hypothesis (`IsFresh`, `FreshFrom`, `DistinctDraws`,
-- `MintsWell`, `IsClocked`, `IsFaithful`). `Parsing` holds what the webhook attempts take of Go's parsers. Texts
-- are valid UTF-8, and `len` counts bytes.
--
-- The server. A `World` holds the directories of all discussions and the channels of the server. A
-- request is one function on it, but for a read that waits, during which a `Meanwhile` says what other
-- requests do. The query's parsers, the decoding of bodies, the resolver of names and the clock of the process are
-- `Outside`. `Wire` holds the encodings of the control requests, whose bodies are limited to 32 KiB.
--
-- Bounds. A time is a natural number of nanoseconds since Go's zero time. Sequence numbers and
-- limits are `int`s in the source; a log holds at most 1,000 messages and a limit is at most 100, so
-- they do not overflow. `decimal_length` runs on fuel 20, and a sequence number has fewer digits. The
-- loop over the lines of the pending bytes runs on fuel, one more than there are bytes; the loop of
-- a waiting read takes two turns at most, and its fuel is 2. Durations of the control handler and of
-- the webhook attempts keep the wrap-around of 64 bits.
--
-- Not modelled. Failures of the file system and of JSON decoding: a directory is there and its files
-- decode, and atomic writes succeed or leave what was there. The lifetime of the server's process,
-- the calls to callbacks, HTTP headers, how the client makes its requests and what the client makes of answers, `Init` of a community, and
-- the commands.
pub mod Args
pub mod Client
pub mod Colony
pub mod Common
pub mod Community
pub mod Connection
pub mod Control
pub mod Discussion
pub mod Identity
pub mod Server
pub mod Tests
pub mod Watch
pub mod Webhook
