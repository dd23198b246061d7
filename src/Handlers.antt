-- ===== src/Handlers.antt =====
-- handler/http_groups.go: the endpoints under /groups, over the stores, the nonces and the sessions.
pub mod Wire
pub mod Server
pub mod Texts
pub mod Access
pub mod Creating
pub mod KeyPackages
pub mod Joining
pub mod Log
pub mod Messages
pub mod Members
pub mod Transfers
pub mod Routing
pub mod Serving
pub mod Safe
pub mod Safety
pub mod Guards
pub mod Signing
pub mod Authorised
pub mod Frozen
pub mod Dissolved
pub mod Done
pub mod Ends
pub mod Pushing
pub mod Effects
pub mod Removals
pub mod Acks
pub mod Keeping
pub mod Statements
pub mod Consistency
pub mod History
pub mod Reading
pub mod Paths
mod Tests
pub mod Numbers
pub mod Timely
