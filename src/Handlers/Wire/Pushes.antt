-- ===== src/Handlers/Wire/Pushes.antt =====
-- types/types.go: what the server pushes over a WebSocket. A float64 is its bit pattern, and so is an
-- int64 that is only copied.
use etemsg_server.Base.{ℕ, String, Bool, List}
use etemsg_server.Handlers.Wire.Responses.{GroupNotifyPayload, GroupNewMessagePayload}

pub record NewMessagePayload : Type 0 where
  pub from : String
  pub ciphertext : String
  pub iv : String
  pub tag : String
  pub msg_id : String
  pub timestamp : ℕ
  pub msg_type : String
  pub file_id : String
  pub filename : String
  pub size : ℕ
  pub sha256 : String
  pub wrapped_key : String
  pub signature : String

pub record PresencePayload : Type 0 where
  pub user_id : String
  pub online : Bool

pub record PresenceSnapshotPayload : Type 0 where
  pub contacts : List (String × Bool)

-- `WSEnvelope` of a push, by its `Type`.
pub data Push : Type 0 where
  group_notify : GroupNotifyPayload → Push
  group_new_message : GroupNewMessagePayload → Push
  new_message : NewMessagePayload → Push
  presence : PresencePayload → Push
  presence_snapshot : PresenceSnapshotPayload → Push
