-- ===== src/Sockets.antt =====
-- handler/ws.go: the frames of a WebSocket connection.
pub mod Frames
pub mod Sending
pub mod Presence
pub mod Grouping
pub mod Delivered
pub mod Once
pub mod Pushing
pub mod Admitted
pub mod Steady
mod Tests
