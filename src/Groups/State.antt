-- ===== src/Groups/State.antt =====
-- store/group.go and the group tables of store/store.go.
-- The string constants for roles and states are data types; the MLS objects are opaque texts.
use etemsg_server.Base.{ℕ, ℤ, String, Bool, true, false, List, [], ◌==◌, ◌&&◌}

pub data Role : Type 0 where
  owner admin member : Role

pub data GroupState : Type 0 where
  active dissolved : GroupState

pub data JoinStatus : Type 0 where
  pending approved denied : JoinStatus

pub data TransferState : Type 0 where
  waiting accepted declined : TransferState

abbrev pub is_owner : Role → Bool
is_owner Role.owner = true
is_owner _ = false

abbrev pub is_active : GroupState → Bool
is_active GroupState.active = true
is_active _ = false

abbrev pub is_pending : JoinStatus → Bool
is_pending JoinStatus.pending = true
is_pending _ = false

abbrev pub is_waiting : TransferState → Bool
is_waiting TransferState.waiting = true
is_waiting _ = false

abbrev pub max_group_members : ℕ
max_group_members = 1000

abbrev pub group_queue_max_messages : ℕ
group_queue_max_messages = 10000

pub record Group : Type 0 where
  pub group_id : String
  pub name_enc : List ℕ
  pub creator : String
  pub state : GroupState
  pub current_epoch : ℤ
  pub min_seq : ℕ
  pub created_at : ℕ

pub record GroupMember : Type 0 where
  pub group_id : String
  pub user_id : String
  pub role : Role
  pub joined_epoch : ℤ
  pub joined_at : ℕ

pub record KeyPackage : Type 0 where
  pub kp_id : String
  pub user_id : String
  pub group_id : String
  pub kp_b64 : String
  pub kp_hash : String
  pub created_at : ℕ

-- `decided_by` and `decided_at` are NULL, read as "" and 0, until the request is decided.
pub record JoinRequest : Type 0 where
  pub request_id : String
  pub group_id : String
  pub applicant : String
  pub kp_id : String
  pub kp_hash : String
  pub text_ct : String
  pub text_iv : String
  pub text_tag : String
  pub text_wrapped_key : String
  pub status : JoinStatus
  pub decided_by : String
  pub decided_at : ℕ
  pub created_at : ℕ

pub record LogEntry : Type 0 where
  pub group_id : String
  pub seq : ℕ
  pub epoch : ℤ
  pub kind : String
  pub sender : String
  pub target : String
  pub data_b64 : String
  pub data_hash : String
  pub created_at : ℕ

pub record GroupMessage : Type 0 where
  pub group_id : String
  pub seq : ℕ
  pub epoch : ℤ
  pub sender : String
  pub msg_id : String
  pub ciphertext : String
  pub msg_type : String
  pub file_id : String
  pub timestamp : String
  pub created_at : ℕ

pub record Cursor : Type 0 where
  pub user_id : String
  pub group_id : String
  pub last_seq : ℕ
  pub updated_at : ℕ

pub record Removal : Type 0 where
  pub group_id : String
  pub user_id : String
  pub created_at : ℕ

pub record OwnerTransfer : Type 0 where
  pub id : ℕ
  pub group_id : String
  pub prev_owner : String
  pub designee : String
  pub state : TransferState
  pub created_at : ℕ
  pub decided_at : ℕ

-- `next_transfer` is the AUTOINCREMENT counter of `group_owner_transfers`.
pub record Groups : Type 0 where
  pub groups : List Group
  pub members : List GroupMember
  pub key_packages : List KeyPackage
  pub join_requests : List JoinRequest
  pub mls_log : List LogEntry
  pub messages : List GroupMessage
  pub cursors : List Cursor
  pub pending_removals : List Removal
  pub transfers : List OwnerTransfer
  pub next_transfer : ℕ

abbrev pub no_groups : Groups
no_groups = record {
  groups = [];
  members = [];
  key_packages = [];
  join_requests = [];
  mls_log = [];
  messages = [];
  cursors = [];
  pending_removals = [];
  transfers = [];
  next_transfer = 1;
}

-- The WHERE clauses that the queries share.
abbrev pub is_group : String → Group → Bool
is_group gid g = g.group_id == gid

abbrev pub in_group : String → GroupMember → Bool
in_group gid m = m.group_id == gid

abbrev pub is_member : String → String → GroupMember → Bool
is_member gid user m = m.group_id == gid && m.user_id == user

abbrev pub is_group_owner : String → GroupMember → Bool
is_group_owner gid m = m.group_id == gid && is_owner m.role

abbrev pub is_cursor : String → String → Cursor → Bool
is_cursor user gid c = c.user_id == user && c.group_id == gid

abbrev pub is_open_transfer : String → OwnerTransfer → Bool
is_open_transfer gid t = t.group_id == gid && is_waiting t.state
