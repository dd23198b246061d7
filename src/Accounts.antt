-- ===== src/Accounts.antt =====
-- store/store.go: accounts, contacts, offline messages, logins and file metadata.
pub mod State
pub mod Users
pub mod Offline
pub mod Logins
pub mod Mutual
pub mod Adding
pub mod Queue
pub mod Challenges
mod Tests
