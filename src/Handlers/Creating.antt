-- ===== src/Handlers/Creating.antt =====
-- handler/http_groups.go: creating, listing, reading and dissolving groups.
use etemsg_server.Base.{
  ℕ, String, ◌||◌, not, List, [], ◌∷◌, map, pos, ok, ◌==◌, ltb, length, trim_space,
}
use etemsg_server.Errors.{Error}
use etemsg_server.Groups.State.{GroupState, Group, GroupMember, is_owner}
use etemsg_server.Groups.Roster.{
  create_group, list_groups_for_user, list_group_members, dissolve_group,
}
use etemsg_server.Groups.Roster as Roster
use etemsg_server.Handlers.Wire.Requests.{
  GroupCreateRequest, GroupListRequest, GroupInfoRequest, GroupDissolveRequest,
}
use etemsg_server.Handlers.Wire.Responses.{
  GroupCreateResponse, GroupSummary, GroupMemberInfo, GroupInfoResponse,
}
use etemsg_server.Handlers.Server.{
  Env, Code, Action, pure, gets, or_refuse, ◌>>=◌, ◌>>◌, refuse_when, store, no_value,
}
use etemsg_server.Handlers.Texts.{is_group_id, max_group_name_enc, encode_group_name}
use etemsg_server.Handlers.Access.{signed, load_active_group_member, notify_group}

abbrev create_group_code : Error → Code
create_group_code Error.duplicate_group = Code.duplicate_group_id
create_group_code _ = Code.db_unavailable

abbrev pub new_group : String → List ℕ → String → Group
new_group gid name_enc creator = record {
  group_id = gid;
  name_enc = name_enc;
  creator = creator;
  state = GroupState.active;
  current_epoch = pos 0;
  min_seq = 0;
  created_at = 0;
}

unfoldable pub create_group_handler : Env → GroupCreateRequest → Action GroupCreateResponse
create_group_handler env req = do
  let gid = trim_space req.group_id
  let creator = trim_space req.creator
  refuse_when (gid == "" || creator == "" || req.name_enc == "") Code.missing_payload
  refuse_when (not (is_group_id gid)) Code.invalid_group_id
  name_enc ← or_refuse (env.decode_base64 req.name_enc) Code.invalid_name_enc
  refuse_when (ltb max_group_name_enc (length name_enc)) Code.payload_too_large
  signed env creator (gid ∷ req.name_enc ∷ creator ∷ []) req.timestamp req.nonce req.signature
  store create_group_code
      (λ db. no_value (create_group env.now_s db (new_group gid name_enc creator)))
  pure (record { group_id = gid })

abbrev summary_out : Env → Roster.GroupSummary → GroupSummary
summary_out env g = record {
  group_id = g.group_id;
  name_enc = encode_group_name env g.name_enc;
  my_role = g.my_role;
  current_epoch = g.current_epoch;
  min_seq = g.min_seq;
}

unfoldable pub list_groups : Env → GroupListRequest → Action (List GroupSummary)
list_groups env req = do
  let user = trim_space req.user_id
  refuse_when (user == "") Code.missing_payload
  signed env user (user ∷ []) req.timestamp req.nonce req.signature
  groups ← gets (λ s. list_groups_for_user s.groups user)
  pure (map (summary_out env) groups)

abbrev member_out : GroupMember → GroupMemberInfo
member_out m = record { user_id = m.user_id; role = m.role; joined_epoch = m.joined_epoch }

-- The answer leaves `MinSeq` at its zero value.
unfoldable pub group_info : Env → GroupInfoRequest → String → Action GroupInfoResponse
group_info env req gid = do
  let user = trim_space req.user_id
  refuse_when (user == "") Code.missing_payload
  signed env user (gid ∷ user ∷ []) req.timestamp req.nonce req.signature
  (g, _) ← load_active_group_member gid user
  members ← gets (λ s. list_group_members s.groups gid)
  pure (record {
    group_id = g.group_id;
    name_enc = encode_group_name env g.name_enc;
    creator = g.creator;
    current_epoch = g.current_epoch;
    state = g.state;
    min_seq = 0;
    members = map member_out members;
  })

-- The group's id and the state "dissolved".
unfoldable pub dissolve_group_handler :
    Env → GroupDissolveRequest → String → Action (String × GroupState)
dissolve_group_handler env req gid = do
  let user = trim_space req.user_id
  refuse_when (user == "") Code.missing_payload
  signed env user (gid ∷ user ∷ []) req.timestamp req.nonce req.signature
  (_, member) ← load_active_group_member gid user
  refuse_when (not (is_owner member.role)) Code.not_owner
  store (λ _. Code.db_unavailable) (λ db. ok (dissolve_group db gid, tt))
  notify_group gid "dissolved" user
  pure (gid, GroupState.dissolved)
