-- ===== src/Sockets/Frames.antt =====
-- types/types.go: the payloads of the frames that clients send, and their answers. A float64 and an
-- int64 are their bit patterns.
use etemsg_server.Base.{ℕ, String, Bool, Option}
use etemsg_server.Handlers.Server.{Code}

pub record ConnectPayload : Type 0 where
  pub user_id : String
  pub token : String

pub record SendMessagePayload : Type 0 where
  pub to : String
  pub ciphertext : String
  pub iv : String
  pub tag : String
  pub msg_id : String
  pub timestamp : ℕ
  pub msg_type : String
  pub file_id : String
  pub filename : String
  pub size : ℕ
  pub sha256 : String
  pub wrapped_key : String
  pub signature : String

pub record SendMessageAck : Type 0 where
  pub msg_id : String
  pub to : String
  pub delivered : Bool
  pub timestamp : ℕ
  pub error : Option Code

pub record HeartbeatPayload : Type 0 where
  pub online : Bool
