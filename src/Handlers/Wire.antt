-- ===== src/Handlers/Wire.antt =====
-- types/group.go: requests and answers.
pub mod Requests
pub mod Responses
pub mod Pushes
