-- ===== src/Handlers/Log.antt =====
-- handler/http_groups.go: the endpoints of the MLS log, for Commits and Welcomes.
use etemsg_server.Base.{ℤ, String, ◌||◌, not, List, [], ◌∷◌, map, ◌==◌, ltb, trim_space}
use Prim.Native.String.{len}
use etemsg_server.Errors.{Error}
use etemsg_server.Groups.State.{LogEntry}
use etemsg_server.Groups.Log.{
  append_group_commit, append_welcome, list_mls_log_since, list_welcomes_for,
}
use etemsg_server.Handlers.Wire.Requests.{
  GroupCommitRequest, GroupMlsLogListRequest, GroupWelcomeCreateRequest, GroupWelcomeListRequest,
}
use etemsg_server.Handlers.Wire.Responses.{
  GroupCommitResponse, GroupCommitInfo, GroupWelcomeResponse, GroupWelcomeInfo,
}
use etemsg_server.Handlers.Server.{Env, Code, Action, pure, gets, ◌>>=◌, ◌>>◌, refuse_when, store}
use etemsg_server.Handlers.Texts.{format_int, max_mls_blob_len, blob_hash_matches}
use etemsg_server.Handlers.Access.{
  signed, load_active_group_member, has_group_role, administrators, notify_group,
}

abbrev commit_code : Error → Code
commit_code Error.duplicate_commit_epoch = Code.duplicate_commit_epoch
commit_code Error.epoch_parent_mismatch = Code.epoch_mismatch
commit_code Error.epoch_not_monotonic = Code.epoch_not_monotonic
commit_code Error.group_not_found = Code.group_not_found
commit_code _ = Code.db_unavailable

-- The row to append; a Commit has no target.
abbrev pub log_entry : Env → String → ℤ → String → String → String → String → String → LogEntry
log_entry env gid epoch kind sender target blob hash = record {
  group_id = gid;
  seq = 0;
  epoch = epoch;
  kind = kind;
  sender = sender;
  target = target;
  data_b64 = blob;
  data_hash = env.to_lower hash;
  created_at = 0;
}

unfoldable pub create_commit : Env → GroupCommitRequest → String → Action GroupCommitResponse
create_commit env req gid = do
  let user = trim_space req.user_id
  let data_hash = trim_space req.data_hash
  refuse_when (user == "" || req.commit_b64 == "" || data_hash == "") Code.missing_payload
  signed env user
      (gid ∷ format_int req.epoch ∷ format_int req.parent_epoch ∷ req.kind ∷ data_hash ∷ [])
      req.timestamp req.nonce req.signature
  refuse_when (ltb max_mls_blob_len (len req.commit_b64)) Code.payload_too_large
  (_, member) ← load_active_group_member gid user
  refuse_when (not (has_group_role member administrators)) Code.forbidden
  refuse_when (not (blob_hash_matches env req.commit_b64 data_hash)) Code.hash_mismatch
  let entry = log_entry env gid req.epoch req.kind user "" req.commit_b64 data_hash
  seq ← store commit_code (λ db. append_group_commit env.now_s db entry req.parent_epoch)
  notify_group gid "commit" user
  pure (record { group_id = gid; epoch = req.epoch; seq = seq })

abbrev commit_out : LogEntry → GroupCommitInfo
commit_out e = record {
  seq = e.seq;
  epoch = e.epoch;
  kind = e.kind;
  sender = e.sender;
  target = e.target;
  data_b64 = e.data_b64;
  data_hash = e.data_hash;
}

unfoldable pub list_commits : Env → GroupMlsLogListRequest → String → Action (List GroupCommitInfo)
list_commits env req gid = do
  let user = trim_space req.user_id
  refuse_when (user == "") Code.missing_payload
  signed env user (gid ∷ format_int req.since_epoch ∷ []) req.timestamp req.nonce req.signature
  _ ← load_active_group_member gid user
  entries ← gets (λ s. list_mls_log_since s.groups gid req.since_epoch)
  pure (map commit_out entries)

abbrev welcome_code : Error → Code
welcome_code Error.group_not_found = Code.group_not_found
welcome_code Error.group_full = Code.group_full
welcome_code _ = Code.db_unavailable

unfoldable pub create_welcome :
    Env → GroupWelcomeCreateRequest → String → Action GroupWelcomeResponse
create_welcome env req gid = do
  let user = trim_space req.user_id
  let target = trim_space req.target_user
  let data_hash = trim_space req.data_hash
  refuse_when (user == "" || target == "" || req.welcome_b64 == "" || data_hash == "")
      Code.missing_payload
  signed env user (gid ∷ target ∷ data_hash ∷ format_int req.epoch ∷ []) req.timestamp req.nonce
      req.signature
  refuse_when (ltb max_mls_blob_len (len req.welcome_b64)) Code.payload_too_large
  (_, member) ← load_active_group_member gid user
  refuse_when (not (has_group_role member administrators)) Code.forbidden
  refuse_when (not (blob_hash_matches env req.welcome_b64 data_hash)) Code.hash_mismatch
  let entry = log_entry env gid req.epoch "welcome" user target req.welcome_b64 data_hash
  seq ← store welcome_code (λ db. append_welcome env.now_s db entry)
  notify_group gid "welcome" user
  pure (record { group_id = gid; target_user = target; epoch = req.epoch; seq = seq })

abbrev welcome_out : LogEntry → GroupWelcomeInfo
welcome_out e = record {
  seq = e.seq;
  epoch = e.epoch;
  kind = e.kind;
  sender = e.sender;
  target = e.target;
  target_user = e.target;
  data_b64 = e.data_b64;
  data_hash = e.data_hash;
}

unfoldable pub list_welcomes :
    Env → GroupWelcomeListRequest → String → Action (List GroupWelcomeInfo)
list_welcomes env req gid = do
  let user = trim_space req.user_id
  refuse_when (user == "") Code.missing_payload
  signed env user (gid ∷ user ∷ []) req.timestamp req.nonce req.signature
  _ ← load_active_group_member gid user
  entries ← gets (λ s. list_welcomes_for s.groups gid user)
  pure (map welcome_out entries)
