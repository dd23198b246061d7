-- ===== src/Groups.antt =====
-- store/group.go: groups, members, ownership, joining, the MLS log and the message queues.
pub mod State
pub mod Roster
pub mod Searching
pub mod Ownership
pub mod Joining
pub mod Log
pub mod Messages
pub mod Epochs
pub mod Sequence
pub mod Passes
pub mod Retention
pub mod Restart
mod Numbers
pub mod Cursors
pub mod Welcomes
mod Tests
pub mod Transfers
pub mod Leaving
pub mod Departure
pub mod Requests
