-- ===== src/Handlers/Wire/Responses.antt =====
-- types/group.go: the answers to the group requests, and what is pushed over a WebSocket. Roles and
-- states are the store's data types.
use etemsg_server.Base.{ℕ, ℤ, String, List}
use etemsg_server.Groups.State.{Role, GroupState, JoinStatus, TransferState}

pub record GroupCreateResponse : Type 0 where
  pub group_id : String

pub record GroupSummary : Type 0 where
  pub group_id : String
  pub name_enc : String
  pub my_role : Role
  pub current_epoch : ℤ
  pub min_seq : ℕ

pub record GroupMemberInfo : Type 0 where
  pub user_id : String
  pub role : Role
  pub joined_epoch : ℤ

pub record GroupInfoResponse : Type 0 where
  pub group_id : String
  pub name_enc : String
  pub creator : String
  pub current_epoch : ℤ
  pub state : GroupState
  pub min_seq : ℕ
  pub members : List GroupMemberInfo

pub record GroupSearchResult : Type 0 where
  pub group_id : String
  pub name_enc : String
  pub creator : String
  pub creator_public_key : String
  pub owner : String
  pub owner_public_key : String
  pub member_count : ℕ
  pub created_at : ℕ

pub record GroupKeyPackageResponse : Type 0 where
  pub kp_id : String
  pub user_id : String
  pub group_id : String
  pub kp_b64 : String
  pub kp_hash : String
  pub created_at : ℕ

pub record GroupJoinRequestInfo : Type 0 where
  pub request_id : String
  pub group_id : String
  pub applicant : String
  pub kp_id : String
  pub kp_hash : String
  pub text_ct : String
  pub text_iv : String
  pub text_tag : String
  pub text_wrapped_key : String
  pub status : JoinStatus
  pub created_at : ℕ

pub record GroupJoinDecisionResponse : Type 0 where
  pub request_id : String
  pub status : JoinStatus

pub record GroupCommitResponse : Type 0 where
  pub group_id : String
  pub epoch : ℤ
  pub seq : ℕ

pub record GroupCommitInfo : Type 0 where
  pub seq : ℕ
  pub epoch : ℤ
  pub kind : String
  pub sender : String
  pub target : String
  pub data_b64 : String
  pub data_hash : String

pub record GroupWelcomeResponse : Type 0 where
  pub group_id : String
  pub target_user : String
  pub epoch : ℤ
  pub seq : ℕ

pub record GroupWelcomeInfo : Type 0 where
  pub seq : ℕ
  pub epoch : ℤ
  pub kind : String
  pub sender : String
  pub target : String
  pub target_user : String
  pub data_b64 : String
  pub data_hash : String

pub record GroupMessageResponse : Type 0 where
  pub msg_id : String
  pub seq : ℕ

pub record GroupMessageInfo : Type 0 where
  pub seq : ℕ
  pub epoch : ℤ
  pub sender : String
  pub msg_id : String
  pub ciphertext : String
  pub msg_type : String
  pub file_id : String
  pub timestamp : String
  pub created_at : ℕ

pub record GroupMessagesResponse : Type 0 where
  pub messages : List GroupMessageInfo
  pub min_seq : ℕ
  pub my_role : Role

pub record GroupMessageAckResponse : Type 0 where
  pub last_seq : ℕ

pub record GroupNewMessagePayload : Type 0 where
  pub group_id : String
  pub seq : ℕ
  pub epoch : ℤ
  pub sender : String
  pub msg_id : String
  pub ciphertext : String
  pub msg_type : String
  pub file_id : String

pub record GroupNotifyPayload : Type 0 where
  pub group_id : String
  pub reason : String

pub record GroupPendingRemovalsResponse : Type 0 where
  pub group_id : String
  pub targets : List String

pub record GroupOwnerTransferInfo : Type 0 where
  pub group_id : String
  pub prev_owner : String
  pub designee : String
  pub state : TransferState
  pub created_at : ℕ
