-- ===== src/Handlers/Transfers.antt =====
-- handler/http_groups.go: handing the ownership of a group over.
use etemsg_server.Base.{
  String, Bool, false, ◌&&◌, ◌||◌, not, Option, none, some, [], ◌∷◌, ok, err, ◌==◌, trim_space,
  if◌then◌else◌,
}
use etemsg_server.Errors.{Error}
use etemsg_server.Groups.State.{OwnerTransfer, Groups, is_owner}
use etemsg_server.Groups.Roster.{get_group_member}
use etemsg_server.Groups.Ownership.{
  create_owner_transfer, pending_owner_transfer, decide_owner_transfer,
}
use etemsg_server.Handlers.Wire.Requests.{
  GroupInfoRequest, GroupTransferRequest, GroupTransferDecideRequest,
}
use etemsg_server.Handlers.Wire.Responses.{GroupOwnerTransferInfo}
use etemsg_server.Handlers.Server.{
  Env, Code, Action, pure, gets, ◌>>=◌, ◌>>◌, refuse_when, store, no_value,
}
use etemsg_server.Handlers.Access.{signed, load_active_group_member, notify_user, notify_group}

abbrev pub is_owner_of : Groups → String → String → Bool
is_owner_of db gid user = elim (get_group_member db gid user) [
  | err e ↦ false
  | ok m ↦ is_owner m.role
]

abbrev start_code : Error → Code
start_code Error.transfer_pending = Code.transfer_pending
start_code Error.invalid_successor = Code.invalid_successor
start_code _ = Code.db_unavailable

-- The answer is the group's id and the designee; its status is "pending".
unfoldable pub start_owner_transfer : Env → GroupTransferRequest → String → Action (String × String)
start_owner_transfer env req gid = do
  let user = trim_space req.user_id
  let designee = trim_space req.designee
  refuse_when (user == "" || designee == "") Code.missing_payload
  signed env user (gid ∷ user ∷ designee ∷ []) req.timestamp req.nonce req.signature
  _ ← load_active_group_member gid user
  owner ← gets (λ s. is_owner_of s.groups gid user)
  refuse_when (not owner) Code.not_owner
  store start_code (λ db. no_value (create_owner_transfer env.now_s db gid user designee))
  notify_user designee gid "transfer"
  pure (gid, designee)

abbrev transfer_out : OwnerTransfer → GroupOwnerTransferInfo
transfer_out t = record {
  group_id = t.group_id;
  prev_owner = t.prev_owner;
  designee = t.designee;
  state = t.state;
  created_at = t.created_at;
}

-- The open transfer as a user may see it: the designee and an owner do.
unfoldable pub visible_transfer : Groups → String → String → Option GroupOwnerTransferInfo
visible_transfer db gid user = elim (pending_owner_transfer db gid) [
  | err e ↦ none
  | ok t ↦
      if not (user == t.designee) && not (is_owner_of db gid user)
      then none
      else some (transfer_out t)
]

-- The answer is the group's id and the transfer.
unfoldable pub get_owner_transfer :
    Env → GroupInfoRequest → String → Action (String × Option GroupOwnerTransferInfo)
get_owner_transfer env req gid = do
  let user = trim_space req.user_id
  refuse_when (user == "") Code.missing_payload
  signed env user (gid ∷ user ∷ []) req.timestamp req.nonce req.signature
  transfer ← gets (λ s. visible_transfer s.groups gid user)
  pure (gid, transfer)

abbrev decide_code : Error → Code
decide_code Error.transfer_not_found = Code.transfer_not_found
decide_code Error.not_designee = Code.not_designee
decide_code Error.invalid_successor = Code.invalid_successor
decide_code _ = Code.db_unavailable

-- The decided transfer, of which the answer shows the state, the designee and the previous owner.
unfoldable pub decide_owner_transfer_handler :
    Env → GroupTransferDecideRequest → String → Bool → Action OwnerTransfer
decide_owner_transfer_handler env req gid accept = do
  let user = trim_space req.user_id
  refuse_when (user == "") Code.missing_payload
  signed env user (gid ∷ user ∷ []) req.timestamp req.nonce req.signature
  t ← store decide_code (λ db. decide_owner_transfer env.now_s db gid user accept)
  notify_group gid "commit" user
  pure t
