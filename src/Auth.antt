-- ===== src/Auth.antt =====
-- auth/signed_request.go, auth/message_sign.go and handler/signed.go: signed requests, their time
-- window, and the table of nonces that have been used.
pub mod Nonces
pub mod Signed
pub mod Replay
pub mod Bounds
pub mod Window
pub mod Expiry
mod Tests
