-- ===== src/Lib.antt =====
-- A model of the server of an end-to-end encrypted messenger, with the theorems that its parts are
-- correct.
--
-- The server relays opaque ciphertexts and MLS objects between clients. Its state has two halves: the
-- session manager in memory (src/session/session.go), which knows who is online and holds a bounded
-- queue of envelopes for each connection, and the SQLite store (src/store/store.go for accounts and
-- src/store/group.go for groups). Handlers authenticate a request, call the store, and push
-- notifications through the session manager; a message to a user who is offline goes to the store's
-- offline queue, and is fetched and cleared when they return.
--
-- Base: shared names; Base.Table models the SQL statements on a table, which is the list of its rows
-- in insertion order, and Base.Map a Go map. Base.Int has the signed integers of epochs.
-- Errors: the errors that the store's methods return.
--
-- Session (src/session/session.go). A channel is an address into a heap of channels, since the writer
-- of a connection keeps its channel after a reconnect has replaced it. Closing a closed channel and
-- sending on a closed one are the panics of Go. Every method holds the lock throughout, so a call is
-- one step, and an interleaving of goroutines is a list of calls (Session.Delivery). The generation
-- counter is a uint64 and wraps; theorems on histories assume fewer than 2^64 calls.
--   Session.Steps: SetOnline, SetOffline, IsOnline, OnlineIDs, OnlineSet, EnqueueMessage.
--   Session.Invariant, Session.Connecting, Session.Queueing: what holds between calls.
--   Session.Delivery: histories of calls, and what a call does for its caller.
--
-- Accounts (src/store/store.go).
--   Accounts.Users: users and one-way contacts; Accounts.Offline: the queue of 1000 messages per user;
--   Accounts.Logins: challenges, tokens and file metadata.
--   Accounts.Mutual, Accounts.Adding, Accounts.Queue, Accounts.Challenges: their theorems.
--
-- Groups (src/store/group.go).
--   Groups.Roster: CreateGroup to RemoveGroupMember; Groups.Ownership: LeaveGroup and the owner
--   transfers; Groups.Joining: key packages and join requests; Groups.Log: the MLS log, commits and
--   Welcomes; Groups.Messages: the queue, the cursors and ReclaimGroupMessages.
--   Groups.Epochs, Groups.Welcomes, Groups.Sequence, Groups.Restart, Groups.Cursors, Groups.Passes,
--   Groups.Retention, Groups.Transfers, Groups.Leaving, Groups.Departure,
--   Groups.Requests: their theorems.
--
-- Auth (src/auth/signed_request.go, src/auth/message_sign.go, src/handler/signed.go).
--   Auth.Nonces: CheckNonce, and isReplay of src/handler/ws.go; Auth.Signed: the checks
--   of a signed request, with SHA-256 and the verification of a signature as a parameter (Crypto) and
--   the key that Go's iteration over a map yields first as another (Pick, with FindsKey for what is
--   relied on). The monotonic clock is in nanoseconds and the wall clock in milliseconds; an int64 is
--   its bit pattern.
--   Auth.Replay, Auth.Bounds, Auth.Window, Auth.Expiry: their theorems.
--
-- Handlers (src/handler/http_groups.go with src/types/group.go): the endpoints under /groups.
--   Handlers.Server: an Action runs on the stores, the nonces and the session manager, and answers, is
--   refused by a code of writeError, or stops in a panic; what it wrote stays written. Env holds the
--   clocks and the functions of Go's packages.
--   Handlers.Wire: the requests and answers; Handlers.Texts: ids, decimal numbers, hashes;
--   Handlers.Access: verifySignedRequestFields, loadActiveGroup, loadActiveGroupMember, hasGroupRole,
--   notifyUser, notifyGroup, notifyGroupRoles; Handlers.Creating, Handlers.KeyPackages,
--   Handlers.Joining, Handlers.Log, Handlers.Messages, Handlers.Members, Handlers.Transfers: the
--   handlers; Handlers.Routing: the endpoint of a method and a path; Handlers.Serving: serve.
--   Handlers.Safe, Handlers.Guards, Handlers.Frozen, Handlers.Keeping, Handlers.Done, Handlers.Ends,
--   Handlers.Pushing: what the steps of a handler keep, need and show; Handlers.Signing: what a request
--   to each endpoint is signed over; Handlers.Statements: the same of the store's statements;
--   Handlers.Safety, Handlers.Authorised, Handlers.Dissolved, Handlers.Consistency, Handlers.History,
--   Handlers.Effects, Handlers.Removals, Handlers.Acks, Handlers.Reading, Handlers.Paths,
--   Handlers.Numbers, Handlers.Timely: the theorems.
-- Sockets (src/handler/ws.go): the frames of a connection, on the same Action.
--   Sockets.Frames with Handlers.Wire.Pushes: the payloads, a float64 as its bit pattern;
--   Sockets.Sending: handleSendMessage and the offline fallback, with the clock in the format of a
--   message, the random id and strconv as parameters (SocketEnv); Sockets.Presence: handleConnect,
--   handleHeartbeat, the end of a connection, broadcastPresence, pushPresenceSnapshots;
--   Sockets.Grouping: handleGroupMessage.
--   Sockets.Pushing: what the pushes keep; Sockets.Delivered, Sockets.Once, Sockets.Admitted,
--   Sockets.Steady: the theorems.
-- A handler is served as one step: requests that the database or the locks interleave between their
-- statements are not modelled. FormatInt writes with fuel for 20 digits, and an int64 has at most 19.
--
-- A method of the store is a function from the tables to a result: the new tables with the returned
-- values, or the error that it returns. A transaction that fails returns no tables, as its rollback
-- leaves them unchanged. The clock is an argument, in seconds. Sequence numbers and times are natural
-- numbers: the code starts them at 0 or 1, only adds to them, and refuses a negative position, and
-- 2^63 of them are out of reach. Epochs come from clients and are signed. Loops are recursion over the
-- rows of a table.
--
-- Not modelled: failures of the SQLite driver and cancelled contexts; decodeGroupParams, which decodes
-- JSON and query strings by reflection; the upgrade, writer loop, pings and dispatch of a WebSocket
-- (ServeWS); the account and file handlers (src/handler) but for the check of signed requests; key
-- formats and login signatures (src/auth/challenge.go); configuration, start-up, logging and the
-- cleanup timers.
pub mod Base
pub mod Errors
pub mod Session
pub mod Accounts
pub mod Groups
pub mod Auth
pub mod Handlers
pub mod Sockets
