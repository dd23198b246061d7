-- ===== src/Handlers/Joining.antt =====
-- handler/http_groups.go: requests to join.
use etemsg_server.Base.{
  String, Bool, false, ◌||◌, ◌&&◌, not, List, [], ◌∷◌, map, ok, err, ◌==◌, trim_space,
  if◌then◌else◌,
}
use etemsg_server.Errors.{Error}
use etemsg_server.Groups.State.{JoinStatus, JoinRequest, Groups}
use etemsg_server.Groups.Roster.{is_group_member, group_has_owner}
use etemsg_server.Groups.Joining.{
  get_key_package, create_join_request, list_pending_join_requests, decide_join_request,
  join_request_created_at,
}
use etemsg_server.Groups.Ownership.{pending_owner_transfer, owns_join_request_backlog}
use etemsg_server.Handlers.Wire.Requests.{
  GroupJoinRequestCreate, GroupJoinRequestListRequest, GroupJoinDecisionRequest,
}
use etemsg_server.Handlers.Wire.Responses.{GroupJoinRequestInfo, GroupJoinDecisionResponse}
use etemsg_server.Handlers.Server.{
  Env, Code, Action, pure, gets, asks, ◌>>=◌, ◌>>◌, refuse_when, store, no_value,
}
use etemsg_server.Handlers.KeyPackages.{key_package_code}
use etemsg_server.Handlers.Access.{
  signed, load_active_group, load_active_group_member, has_group_role, administrators,
  notify_group_roles,
}

-- A transfer is open and the group has no owner.
abbrev pub is_owner_updating : Groups → String → Bool
is_owner_updating db gid = elim (pending_owner_transfer db gid) [
  | err e ↦ false
  | ok t ↦ not (group_has_owner db gid)
]

abbrev join_request_code : Error → Code
join_request_code Error.duplicate_join_request = Code.duplicate_join_request
join_request_code Error.duplicate_request_id = Code.duplicate_request_id
join_request_code _ = Code.db_unavailable

abbrev pub new_request : GroupJoinRequestCreate → String → JoinRequest
new_request req gid = record {
  request_id = trim_space req.request_id;
  group_id = gid;
  applicant = trim_space req.applicant;
  kp_id = trim_space req.kp_id;
  kp_hash = trim_space req.kp_hash;
  text_ct = req.text_ct;
  text_iv = req.text_iv;
  text_tag = req.text_tag;
  text_wrapped_key = req.text_wrapped_key;
  status = JoinStatus.pending;
  decided_by = "";
  decided_at = 0;
  created_at = 0;
}

-- The answer is the id and the status.
unfoldable pub create_join_request_handler :
    Env → GroupJoinRequestCreate → String → Action (String × JoinStatus)
create_join_request_handler env req gid = do
  let user = trim_space req.user_id
  let r : JoinRequest = new_request req gid
  refuse_when
      (user == "" || r.request_id == "" || r.applicant == "" || r.kp_id == "" || r.kp_hash == "")
      Code.missing_payload
  signed env user
      (gid ∷ r.request_id ∷ r.applicant ∷ r.kp_id ∷ r.kp_hash ∷ r.text_ct ∷ r.text_iv ∷ r.text_tag
        ∷ r.text_wrapped_key ∷ [])
      req.timestamp req.nonce req.signature
  refuse_when (not (r.applicant == user)) Code.applicant_mismatch
  _ ← load_active_group gid
  updating ← gets (λ s. is_owner_updating s.groups gid)
  refuse_when updating Code.group_owner_updating
  member ← gets (λ s. is_group_member s.groups gid r.applicant)
  refuse_when member Code.already_member
  kp ← asks key_package_code (λ s. get_key_package s.groups r.kp_id)
  refuse_when (not (kp.user_id == r.applicant) || not (kp.group_id == gid))
      Code.key_package_not_found
  refuse_when (not (env.equal_fold kp.kp_hash r.kp_hash)) Code.key_package_hash_mismatch
  store join_request_code (λ db. no_value (create_join_request env.now_s db r))
  notify_group_roles gid "join_request" administrators r.applicant
  pure (r.request_id, JoinStatus.pending)

abbrev request_out : JoinRequest → GroupJoinRequestInfo
request_out r = record {
  request_id = r.request_id;
  group_id = r.group_id;
  applicant = r.applicant;
  kp_id = r.kp_id;
  kp_hash = r.kp_hash;
  text_ct = r.text_ct;
  text_iv = r.text_iv;
  text_tag = r.text_tag;
  text_wrapped_key = r.text_wrapped_key;
  status = r.status;
  created_at = r.created_at;
}

unfoldable pub list_join_requests :
    Env → GroupJoinRequestListRequest → String → Action (List GroupJoinRequestInfo)
list_join_requests env req gid = do
  let user = trim_space req.user_id
  refuse_when (user == "") Code.missing_payload
  signed env user (gid ∷ user ∷ []) req.timestamp req.nonce req.signature
  (_, member) ← load_active_group_member gid user
  refuse_when (not (has_group_role member administrators)) Code.forbidden
  requests ← gets (λ s. list_pending_join_requests s.groups gid)
  pure (map request_out requests)

-- The approval right of an old owner over requests from before their transfer.
abbrev pub owns_backlog : Groups → String → String → String → Bool
owns_backlog db gid id user = elim (join_request_created_at db gid id) [
  | err e ↦ false
  | ok created_at ↦ owns_join_request_backlog db gid user created_at
]

abbrev decide_code : Error → Code
decide_code Error.join_request_not_found = Code.join_request_not_found
decide_code Error.join_request_group_mismatch = Code.request_group_mismatch
decide_code Error.join_request_not_pending = Code.request_not_pending
decide_code _ = Code.db_unavailable

abbrev pub status_of : String → JoinStatus
status_of decision = if decision == "deny" then JoinStatus.denied else JoinStatus.approved

unfoldable pub decide_join_request_handler :
    Env → GroupJoinDecisionRequest → String → String → Action GroupJoinDecisionResponse
decide_join_request_handler env req gid id = do
  let user = trim_space req.user_id
  let decision = trim_space req.decision
  refuse_when (user == "" || id == "" || decision == "") Code.missing_payload
  signed env user (gid ∷ id ∷ decision ∷ []) req.timestamp req.nonce req.signature
  refuse_when (not (decision == "allow") && not (decision == "deny")) Code.invalid_decision
  (_, member) ← load_active_group_member gid user
  backlog ← gets (λ s. owns_backlog s.groups gid id user)
  refuse_when (not (has_group_role member administrators) && not backlog) Code.forbidden
  store decide_code
      (λ db. no_value (decide_join_request env.now_s db gid id (status_of decision) user))
  pure (record { request_id = id; status = status_of decision })
