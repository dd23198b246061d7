-- ===== src/Handlers/Serving.antt =====
-- handler/http_groups.go: a request to /groups, from its method and path to the handler's answer.
-- The decoding of the parameters (decodeGroupParams: encoding/json, net/url and reflect) is an
-- argument: what it makes of the request for each type, `none` for an error.
use etemsg_server.Base.{String, Option, List, Result, ok, err}
use etemsg_server.Groups.State.{GroupState, JoinStatus, OwnerTransfer}
use etemsg_server.Handlers.Wire.Requests.{
  GroupCreateRequest, GroupListRequest, GroupInfoRequest, GroupSearchRequest,
  GroupKeyPackageUploadRequest, GroupKeyPackageGetRequest, GroupJoinRequestCreate,
  GroupJoinRequestListRequest, GroupJoinDecisionRequest, GroupCommitRequest, GroupMlsLogListRequest,
  GroupWelcomeCreateRequest, GroupWelcomeListRequest, GroupMessageSendRequest,
  GroupMessageListRequest, GroupMessageAckRequest, GroupKickMemberRequest, GroupLeaveRequest,
  GroupDissolveRequest, GroupPendingRemovalsClearRequest, GroupTransferRequest,
  GroupTransferDecideRequest,
}
use etemsg_server.Handlers.Wire.Responses.{
  GroupCreateResponse, GroupSummary, GroupInfoResponse, GroupSearchResult, GroupKeyPackageResponse,
  GroupJoinRequestInfo, GroupJoinDecisionResponse, GroupCommitResponse, GroupCommitInfo,
  GroupWelcomeResponse, GroupWelcomeInfo, GroupMessageResponse, GroupMessagesResponse,
  GroupMessageAckResponse, GroupPendingRemovalsResponse, GroupOwnerTransferInfo,
}
use etemsg_server.Handlers.Server.{Env, Code, Action, pure, refuse, or_refuse, ◌>>=◌}
use etemsg_server.Handlers.Creating.{
  create_group_handler, list_groups, group_info, dissolve_group_handler,
}
use etemsg_server.Handlers.KeyPackages.{search_groups, upload_key_package, get_key_package_handler}
use etemsg_server.Handlers.Joining.{
  create_join_request_handler, list_join_requests, decide_join_request_handler,
}
use etemsg_server.Handlers.Log.{create_commit, list_commits, create_welcome, list_welcomes}
use etemsg_server.Handlers.Messages.{send_message, list_messages, ack_messages}
use etemsg_server.Handlers.Members.{
  KickStatus, Left, leave_group_handler, list_pending_removals, clear_pending_removals_handler,
  kick_member,
}
use etemsg_server.Handlers.Transfers.{
  start_owner_transfer, get_owner_transfer, decide_owner_transfer_handler,
}
use etemsg_server.Handlers.Routing.{Method, Endpoint, route}

pub record Params : Type 0 where
  pub create : Option GroupCreateRequest
  pub list : Option GroupListRequest
  pub info : Option GroupInfoRequest
  pub search : Option GroupSearchRequest
  pub upload : Option GroupKeyPackageUploadRequest
  pub key_package : Option GroupKeyPackageGetRequest
  pub join : Option GroupJoinRequestCreate
  pub join_list : Option GroupJoinRequestListRequest
  pub decision : Option GroupJoinDecisionRequest
  pub commit : Option GroupCommitRequest
  pub log_list : Option GroupMlsLogListRequest
  pub welcome : Option GroupWelcomeCreateRequest
  pub welcome_list : Option GroupWelcomeListRequest
  pub message : Option GroupMessageSendRequest
  pub message_list : Option GroupMessageListRequest
  pub ack : Option GroupMessageAckRequest
  pub kick : Option GroupKickMemberRequest
  pub leave : Option GroupLeaveRequest
  pub dissolve : Option GroupDissolveRequest
  pub clear : Option GroupPendingRemovalsClearRequest
  pub transfer : Option GroupTransferRequest
  pub transfer_decision : Option GroupTransferDecideRequest

-- The payload of a response.
pub data Response : Type 0 where
  created : GroupCreateResponse → Response
  groups : List GroupSummary → Response
  info : GroupInfoResponse → Response
  dissolved : String × GroupState → Response
  search_results : List GroupSearchResult → Response
  key_package_created : String → Response
  key_package : GroupKeyPackageResponse → Response
  join_requested : String × JoinStatus → Response
  join_requests : List GroupJoinRequestInfo → Response
  join_decided : GroupJoinDecisionResponse → Response
  committed : GroupCommitResponse → Response
  commits : List GroupCommitInfo → Response
  welcomed : GroupWelcomeResponse → Response
  welcomes : List GroupWelcomeInfo → Response
  sent : GroupMessageResponse → Response
  messages : GroupMessagesResponse → Response
  acked : GroupMessageAckResponse → Response
  left : Left → Response
  pending_removals : GroupPendingRemovalsResponse → Response
  removals_cleared : String → Response
  kick_result : KickStatus → Response
  transfer_started : String × String → Response
  transfer : String × Option GroupOwnerTransferInfo → Response
  transfer_decided : OwnerTransfer → Response

-- The parameters are decoded before anything else.
unfoldable pub with_params :
    {P A : Type 0} → Option P → (P → Action A) → (A → Response) → Action Response
with_params params handler respond = do
  req ← or_refuse params Code.invalid_json
  a ← handler req
  pure (respond a)

unfoldable pub handle : Env → Params → Endpoint → Action Response
handle env p Endpoint.create_group =
    with_params p.create (create_group_handler env) Response.created
handle env p Endpoint.list_groups = with_params p.list (list_groups env) Response.groups
handle env p Endpoint.search_groups =
    with_params p.search (search_groups env) Response.search_results
handle env p (Endpoint.group_info gid) =
    with_params p.info (λ req. group_info env req gid) Response.info
handle env p (Endpoint.dissolve_group gid) =
    with_params p.dissolve (λ req. dissolve_group_handler env req gid) Response.dissolved
handle env p (Endpoint.upload_key_package gid) =
    with_params p.upload (λ req. upload_key_package env req gid) Response.key_package_created
handle env p (Endpoint.get_key_package gid) =
    with_params p.key_package (λ req. get_key_package_handler env req gid) Response.key_package
handle env p (Endpoint.create_join_request gid) =
    with_params p.join (λ req. create_join_request_handler env req gid) Response.join_requested
handle env p (Endpoint.list_join_requests gid) =
    with_params p.join_list (λ req. list_join_requests env req gid) Response.join_requests
handle env p (Endpoint.decide_join_request gid id) =
    with_params p.decision (λ req. decide_join_request_handler env req gid id) Response.join_decided
handle env p (Endpoint.create_commit gid) =
    with_params p.commit (λ req. create_commit env req gid) Response.committed
handle env p (Endpoint.list_commits gid) =
    with_params p.log_list (λ req. list_commits env req gid) Response.commits
handle env p (Endpoint.create_welcome gid) =
    with_params p.welcome (λ req. create_welcome env req gid) Response.welcomed
handle env p (Endpoint.list_welcomes gid) =
    with_params p.welcome_list (λ req. list_welcomes env req gid) Response.welcomes
handle env p (Endpoint.send_message gid) =
    with_params p.message (λ req. send_message env req gid) Response.sent
handle env p (Endpoint.list_messages gid) =
    with_params p.message_list (λ req. list_messages env req gid) Response.messages
handle env p (Endpoint.ack_messages gid) =
    with_params p.ack (λ req. ack_messages env req gid) Response.acked
handle env p (Endpoint.start_owner_transfer gid) =
    with_params p.transfer (λ req. start_owner_transfer env req gid) Response.transfer_started
handle env p (Endpoint.get_owner_transfer gid) =
    with_params p.info (λ req. get_owner_transfer env req gid) Response.transfer
handle env p (Endpoint.decide_owner_transfer gid accept) =
    with_params p.transfer_decision (λ req. decide_owner_transfer_handler env req gid accept)
      Response.transfer_decided
handle env p (Endpoint.leave_group gid) =
    with_params p.leave (λ req. leave_group_handler env req gid) Response.left
handle env p (Endpoint.list_pending_removals gid) =
    with_params p.info (λ req. list_pending_removals env req gid) Response.pending_removals
handle env p (Endpoint.clear_pending_removals gid) =
    with_params p.clear (λ req. clear_pending_removals_handler env req gid)
      Response.removals_cleared
handle env p (Endpoint.kick_member gid) =
    with_params p.kick (λ req. kick_member env req gid) Response.kick_result

abbrev pub dispatch : Env → Params → Result Code Endpoint → Action Response
dispatch env p (err c) = refuse c
dispatch env p (ok e) = handle env p e

unfoldable pub serve : Env → Params → Method → String → Action Response
serve env p method path = dispatch env p (route method path)
