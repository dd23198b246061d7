-- ===== src/Session.antt =====
-- session/session.go: the online users, their generations and their buffered channels.
-- A channel is an address into the heap `channels`, since the writer goroutine of a connection
-- keeps its channel after the manager has replaced it. Closing or sending on a closed channel is
-- the panic of the Go runtime. Each call holds the lock throughout, so it is one step.
pub mod Steps
pub mod Invariant
pub mod Connecting
pub mod Queueing
pub mod Delivery
mod Tests
