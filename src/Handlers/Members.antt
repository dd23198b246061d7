-- ===== src/Handlers/Members.antt =====
-- handler/http_groups.go: leaving a group, removing a member, and the removals that wait for a Commit.
use etemsg_server.Base.{
  String, Bool, true, false, ◌||◌, not, [], ◌∷◌, ok, err, ◌==◌, trim_space, if◌then◌else◌,
}
use etemsg_server.Errors.{Error}
use etemsg_server.Groups.State.{Groups, is_owner}
use etemsg_server.Groups.Roster.{
  get_group_member, remove_group_member, pending_removal_ids, clear_pending_removals,
}
use etemsg_server.Groups.Ownership.{leave_group}
use etemsg_server.Handlers.Wire.Requests.{
  GroupInfoRequest, GroupLeaveRequest, GroupKickMemberRequest, GroupPendingRemovalsClearRequest,
}
use etemsg_server.Handlers.Wire.Responses.{GroupPendingRemovalsResponse}
use etemsg_server.Handlers.Server.{Env, Code, Action, pure, gets, ◌>>=◌, ◌>>◌, refuse_when, store}
use etemsg_server.Handlers.Access.{
  active_group, signed, load_active_group, load_active_group_member, notify_group,
}

abbrev leave_code : Error → Code
leave_code Error.successor_required = Code.successor_required
leave_code Error.invalid_successor = Code.invalid_successor
leave_code Error.group_member_not_found = Code.not_group_member
leave_code Error.group_not_found = Code.group_not_found
leave_code _ = Code.db_unavailable

-- The answer beside its status, "left".
pub record Left : Type 0 where
  pub group_id : String
  pub successor_user_id : String
  pub dissolved : Bool
  pub pending_removal : Bool

unfoldable pub leave_group_handler : Env → GroupLeaveRequest → String → Action Left
leave_group_handler env req gid = do
  let user = trim_space req.user_id
  refuse_when (user == "") Code.missing_payload
  signed env user (gid ∷ user ∷ []) req.timestamp req.nonce req.signature
  _ ← load_active_group gid
  res ←
      store leave_code (λ db. leave_group env.now_s db gid user (trim_space req.successor_user_id))
  if res.dissolved then pure tt else notify_group gid "leave" user
  pure (record {
    group_id = gid;
    successor_user_id = res.successor;
    dissolved = res.dissolved;
    pending_removal = res.pending_removal;
  })

unfoldable pub list_pending_removals :
    Env → GroupInfoRequest → String → Action GroupPendingRemovalsResponse
list_pending_removals env req gid = do
  let user = trim_space req.user_id
  refuse_when (user == "") Code.missing_payload
  signed env user (gid ∷ user ∷ []) req.timestamp req.nonce req.signature
  _ ← load_active_group gid
  (_, actor) ← load_active_group_member gid user
  refuse_when (not (is_owner actor.role)) Code.not_owner
  targets ← gets (λ s. pending_removal_ids s.groups gid)
  pure (record { group_id = gid; targets = targets })

-- The answer is the group's id; its status is "cleared".
unfoldable pub clear_pending_removals_handler :
    Env → GroupPendingRemovalsClearRequest → String → Action String
clear_pending_removals_handler env req gid = do
  let user = trim_space req.user_id
  refuse_when (user == "") Code.missing_payload
  signed env user (gid ∷ user ∷ []) req.timestamp req.nonce req.signature
  _ ← load_active_group gid
  (_, actor) ← load_active_group_member gid user
  refuse_when (not (is_owner actor.role)) Code.not_owner
  store (λ _. Code.db_unavailable) (λ db. ok (clear_pending_removals db gid, tt))
  pure gid

pub data KickStatus : Type 0 where
  kicked not_a_member : KickStatus

-- `loadActiveGroupMember` for the target, of which only the code counts.
abbrev pub is_active_member : String → String → Groups → Bool
is_active_member gid user db = elim (active_group db gid) [
  | err c ↦ false
  | ok g ↦ elim (get_group_member db gid user) [ err e ↦ false | ok m ↦ true ]
]

unfoldable pub remove_target : String → String → String → Action KickStatus
remove_target gid user target = do
  store (λ _. Code.db_unavailable) (λ db. ok (remove_group_member db gid target, tt))
  notify_group gid "commit" user
  pure KickStatus.kicked

unfoldable pub kick_member : Env → GroupKickMemberRequest → String → Action KickStatus
kick_member env req gid = do
  let user = trim_space req.user_id
  let target = trim_space req.target_user
  refuse_when (user == "" || target == "") Code.missing_payload
  refuse_when (user == target) Code.invalid_target
  signed env user (gid ∷ user ∷ target ∷ []) req.timestamp req.nonce req.signature
  g ← load_active_group gid
  (_, actor) ← load_active_group_member gid user
  refuse_when (not (is_owner actor.role)) Code.not_owner
  refuse_when (target == g.creator) Code.not_owner
  member ← gets (λ s. is_active_member gid target s.groups)
  if member then remove_target gid user target else pure KickStatus.not_a_member
