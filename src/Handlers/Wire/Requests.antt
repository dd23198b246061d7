-- ===== src/Handlers/Wire/Requests.antt =====
-- types/group.go: the parameters of the group requests, as the JSON or the query carries them. An
-- int64 is an integer. The shape of the text fields is the client's business: the objects of MLS are
-- opaque.
use etemsg_server.Base.{ℤ, String}

pub record GroupCreateRequest : Type 0 where
  pub group_id : String
  pub name_enc : String
  pub creator : String
  pub timestamp : ℤ
  pub nonce : String
  pub signature : String

pub record GroupListRequest : Type 0 where
  pub user_id : String
  pub timestamp : ℤ
  pub nonce : String
  pub signature : String

pub record GroupInfoRequest : Type 0 where
  pub user_id : String
  pub timestamp : ℤ
  pub nonce : String
  pub signature : String

pub record GroupSearchRequest : Type 0 where
  pub user_id : String
  pub by : String
  pub q : String
  pub timestamp : ℤ
  pub nonce : String
  pub signature : String

pub record GroupKeyPackageUploadRequest : Type 0 where
  pub user_id : String
  pub kp_id : String
  pub kp_b64 : String
  pub kp_hash : String
  pub timestamp : ℤ
  pub nonce : String
  pub signature : String

pub record GroupKeyPackageGetRequest : Type 0 where
  pub user_id : String
  pub kp_id : String
  pub timestamp : ℤ
  pub nonce : String
  pub signature : String

pub record GroupJoinRequestCreate : Type 0 where
  pub user_id : String
  pub request_id : String
  pub applicant : String
  pub kp_id : String
  pub kp_hash : String
  pub text_ct : String
  pub text_iv : String
  pub text_tag : String
  pub text_wrapped_key : String
  pub timestamp : ℤ
  pub nonce : String
  pub signature : String

pub record GroupJoinRequestListRequest : Type 0 where
  pub user_id : String
  pub timestamp : ℤ
  pub nonce : String
  pub signature : String

pub record GroupJoinDecisionRequest : Type 0 where
  pub user_id : String
  pub decision : String
  pub timestamp : ℤ
  pub nonce : String
  pub signature : String

pub record GroupCommitRequest : Type 0 where
  pub user_id : String
  pub epoch : ℤ
  pub parent_epoch : ℤ
  pub kind : String
  pub commit_b64 : String
  pub data_hash : String
  pub timestamp : ℤ
  pub nonce : String
  pub signature : String

pub record GroupMlsLogListRequest : Type 0 where
  pub user_id : String
  pub since_epoch : ℤ
  pub timestamp : ℤ
  pub nonce : String
  pub signature : String

pub record GroupWelcomeCreateRequest : Type 0 where
  pub user_id : String
  pub target_user : String
  pub welcome_b64 : String
  pub data_hash : String
  pub epoch : ℤ
  pub timestamp : ℤ
  pub nonce : String
  pub signature : String

pub record GroupWelcomeListRequest : Type 0 where
  pub user_id : String
  pub timestamp : ℤ
  pub nonce : String
  pub signature : String

pub record GroupMessageSendRequest : Type 0 where
  pub user_id : String
  pub msg_id : String
  pub epoch : ℤ
  pub ciphertext : String
  pub msg_type : String
  pub file_id : String
  pub timestamp : ℤ
  pub nonce : String
  pub signature : String

pub record GroupMessageListRequest : Type 0 where
  pub user_id : String
  pub since_seq : ℤ
  pub limit : ℤ
  pub timestamp : ℤ
  pub nonce : String
  pub signature : String

pub record GroupMessageAckRequest : Type 0 where
  pub user_id : String
  pub last_seq : ℤ
  pub timestamp : ℤ
  pub nonce : String
  pub signature : String

pub record GroupKickMemberRequest : Type 0 where
  pub user_id : String
  pub target_user : String
  pub timestamp : ℤ
  pub nonce : String
  pub signature : String

pub record GroupLeaveRequest : Type 0 where
  pub user_id : String
  pub successor_user_id : String
  pub timestamp : ℤ
  pub nonce : String
  pub signature : String

pub record GroupDissolveRequest : Type 0 where
  pub user_id : String
  pub timestamp : ℤ
  pub nonce : String
  pub signature : String

pub record GroupMessagePayload : Type 0 where
  pub group_id : String
  pub epoch : ℤ
  pub ciphertext : String
  pub msg_id : String
  pub msg_type : String
  pub file_id : String
  pub signature : String

pub record GroupPendingRemovalsClearRequest : Type 0 where
  pub user_id : String
  pub timestamp : ℤ
  pub nonce : String
  pub signature : String

pub record GroupTransferRequest : Type 0 where
  pub user_id : String
  pub designee : String
  pub timestamp : ℤ
  pub nonce : String
  pub signature : String

pub record GroupTransferDecideRequest : Type 0 where
  pub user_id : String
  pub timestamp : ℤ
  pub nonce : String
  pub signature : String
