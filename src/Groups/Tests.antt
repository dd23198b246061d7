-- ===== src/Groups/Tests.antt =====
-- Sample groups for the tests of store/group.go.
mod Log
mod Queue
mod Roster
mod Requests
use etemsg_server.Base.{ℕ, String, pos, List, [], ◌∷◌}
use etemsg_server.Groups.State.{
  Role, GroupState, JoinStatus, TransferState, Group, GroupMember, JoinRequest, LogEntry,
  GroupMessage, Cursor, OwnerTransfer, Groups, no_groups,
}

abbrev pub team : Group
team = record {
  group_id = "team";
  name_enc = [];
  creator = "ann";
  state = GroupState.active;
  current_epoch = pos 0;
  min_seq = 0;
  created_at = 1;
}

abbrev pub seat : String → Role → GroupMember
seat user role = record {
  group_id = "team";
  user_id = user;
  role = role;
  joined_epoch = pos 0;
  joined_at = 1;
}

-- Ann owns the group, and Bob is in it.
abbrev pub pair : Groups
pair = record no_groups {
  groups = team ∷ [];
  members = seat "ann" Role.owner ∷ seat "bob" Role.member ∷ [];
}

abbrev pub entry : String → String → ℕ → LogEntry
entry kind target epoch = record {
  group_id = "team";
  seq = 0;
  epoch = pos epoch;
  kind = kind;
  sender = "ann";
  target = target;
  data_b64 = "AA==";
  data_hash = "h";
  created_at = 0;
}

abbrev pub text : String → ℕ → GroupMessage
text id seq = record {
  group_id = "team";
  seq = seq;
  epoch = pos 0;
  sender = "ann";
  msg_id = id;
  ciphertext = "c";
  msg_type = "text";
  file_id = "";
  timestamp = "t";
  created_at = 0;
}

abbrev pub cursor : String → ℕ → Cursor
cursor user n = record { user_id = user; group_id = "team"; last_seq = n; updated_at = 0 }

abbrev pub request : String → String → JoinRequest
request id applicant = record {
  request_id = id;
  group_id = "team";
  applicant = applicant;
  kp_id = "kp";
  kp_hash = "h";
  text_ct = "";
  text_iv = "";
  text_tag = "";
  text_wrapped_key = "";
  status = JoinStatus.pending;
  decided_by = "";
  decided_at = 0;
  created_at = 0;
}

abbrev pub transfer : ℕ → String → String → TransferState → OwnerTransfer
transfer id prev_owner designee state = record {
  id = id;
  group_id = "team";
  prev_owner = prev_owner;
  designee = designee;
  state = state;
  created_at = 4;
  decided_at = 0;
}
