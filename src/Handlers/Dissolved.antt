-- ===== src/Handlers/Dissolved.antt =====
-- Endpoints of http_groups.go on a group that is missing or dissolved.
use etemsg_server.Base.{String, Option, ◌≡◌}
use etemsg_server.Handlers.Server.{Server, Env, Code, Action, pure, or_refuse}
use etemsg_server.Handlers.Frozen.{
  IsInactive, IsFrozen, frozen_steps, bind-IsFrozen, or_refuse-IsFrozen, pure-IsFrozen,
}
use etemsg_server.Handlers.Creating.{
  create_group_handler, list_groups, group_info, dissolve_group_handler,
}
use etemsg_server.Handlers.KeyPackages.{search_groups, upload_key_package, get_key_package_handler}
use etemsg_server.Handlers.Joining.{
  create_join_request_handler, list_join_requests, decide_join_request_handler,
}
use etemsg_server.Handlers.Log.{create_commit, list_commits, create_welcome, list_welcomes}
use etemsg_server.Handlers.Messages.{send_message, list_messages, ack_messages}
use etemsg_server.Handlers.Members.{
  leave_group_handler, list_pending_removals, clear_pending_removals_handler, remove_target,
  kick_member,
}
use etemsg_server.Handlers.Transfers.{
  start_owner_transfer, get_owner_transfer, decide_owner_transfer_handler,
}
use etemsg_server.Handlers.Routing.{Endpoint}
use etemsg_server.Handlers.Serving.{Params, Response, with_params, handle}

-- The endpoints that load the group first, and those that only read.
abbrev pub Needs : String → Endpoint → Type 0
Needs gid (Endpoint.group_info g) = gid ≡ g
Needs gid (Endpoint.dissolve_group g) = gid ≡ g
Needs gid (Endpoint.upload_key_package g) = gid ≡ g
Needs gid (Endpoint.get_key_package g) = gid ≡ g
Needs gid (Endpoint.create_join_request g) = gid ≡ g
Needs gid (Endpoint.list_join_requests g) = gid ≡ g
Needs gid (Endpoint.create_commit g) = gid ≡ g
Needs gid (Endpoint.list_commits g) = gid ≡ g
Needs gid (Endpoint.create_welcome g) = gid ≡ g
Needs gid (Endpoint.list_welcomes g) = gid ≡ g
Needs gid (Endpoint.send_message g) = gid ≡ g
Needs gid (Endpoint.list_messages g) = gid ≡ g
Needs gid (Endpoint.ack_messages g) = gid ≡ g
Needs gid (Endpoint.start_owner_transfer g) = gid ≡ g
Needs gid (Endpoint.get_owner_transfer g) = gid ≡ g
Needs gid (Endpoint.leave_group g) = gid ≡ g
Needs gid (Endpoint.list_pending_removals g) = gid ≡ g
Needs gid (Endpoint.clear_pending_removals g) = gid ≡ g
Needs gid (Endpoint.kick_member g) = gid ≡ g
Needs gid (Endpoint.decide_join_request g id) = gid ≡ g
Needs gid Endpoint.search_groups = Unit
Needs gid Endpoint.list_groups = Unit
Needs gid _ = ⊥

with_params-IsFrozen :
    {P A : Type 0} (gid : String) (params : Option P) (handler : P → Action A)
    (respond : A → Response)
    → ((req : P) → IsFrozen gid (handler req))
    → IsFrozen gid (with_params params handler respond)
unfolding with_params
with_params-IsFrozen gid params handler respond frozen =
    bind-IsFrozen gid (or_refuse params Code.invalid_json) _
      (or_refuse-IsFrozen gid params Code.invalid_json)
      (λ req.
        bind-IsFrozen gid (handler req) (λ a. pure (respond a)) (frozen req)
          (λ a. pure-IsFrozen gid (respond a)))

-- Every such action is frozen.
handle-IsFrozen :
    (env : Env) (p : Params) (e : Endpoint) (gid : String)
    → Needs gid e
    → IsFrozen gid (handle env p e)
unfolding handle create_group_handler list_groups search_groups group_info dissolve_group_handler
    upload_key_package get_key_package_handler create_join_request_handler list_join_requests
    decide_join_request_handler create_commit list_commits create_welcome list_welcomes send_message
    list_messages ack_messages start_owner_transfer get_owner_transfer decide_owner_transfer_handler
    leave_group_handler list_pending_removals clear_pending_removals_handler remove_target
    kick_member
handle-IsFrozen env p (Endpoint.group_info g) gid h =
    rw h (search (frozen_steps, with_params-IsFrozen) depth 30 fits 8000)
handle-IsFrozen env p (Endpoint.dissolve_group g) gid h =
    rw h (search (frozen_steps, with_params-IsFrozen) depth 30 fits 8000)
handle-IsFrozen env p (Endpoint.upload_key_package g) gid h =
    rw h (search (frozen_steps, with_params-IsFrozen) depth 30 fits 8000)
handle-IsFrozen env p (Endpoint.get_key_package g) gid h =
    rw h (search (frozen_steps, with_params-IsFrozen) depth 30 fits 8000)
handle-IsFrozen env p (Endpoint.create_join_request g) gid h =
    rw h (search (frozen_steps, with_params-IsFrozen) depth 30 fits 8000)
handle-IsFrozen env p (Endpoint.list_join_requests g) gid h =
    rw h (search (frozen_steps, with_params-IsFrozen) depth 30 fits 8000)
handle-IsFrozen env p (Endpoint.create_commit g) gid h =
    rw h (search (frozen_steps, with_params-IsFrozen) depth 30 fits 8000)
handle-IsFrozen env p (Endpoint.list_commits g) gid h =
    rw h (search (frozen_steps, with_params-IsFrozen) depth 30 fits 8000)
handle-IsFrozen env p (Endpoint.create_welcome g) gid h =
    rw h (search (frozen_steps, with_params-IsFrozen) depth 30 fits 8000)
handle-IsFrozen env p (Endpoint.list_welcomes g) gid h =
    rw h (search (frozen_steps, with_params-IsFrozen) depth 30 fits 8000)
handle-IsFrozen env p (Endpoint.send_message g) gid h =
    rw h (search (frozen_steps, with_params-IsFrozen) depth 30 fits 8000)
handle-IsFrozen env p (Endpoint.list_messages g) gid h =
    rw h (search (frozen_steps, with_params-IsFrozen) depth 30 fits 8000)
handle-IsFrozen env p (Endpoint.ack_messages g) gid h =
    rw h (search (frozen_steps, with_params-IsFrozen) depth 30 fits 8000)
handle-IsFrozen env p (Endpoint.start_owner_transfer g) gid h =
    rw h (search (frozen_steps, with_params-IsFrozen) depth 30 fits 8000)
handle-IsFrozen env p (Endpoint.get_owner_transfer g) gid h =
    rw h (search (frozen_steps, with_params-IsFrozen) depth 30 fits 8000)
handle-IsFrozen env p (Endpoint.leave_group g) gid h =
    rw h (search (frozen_steps, with_params-IsFrozen) depth 30 fits 8000)
handle-IsFrozen env p (Endpoint.list_pending_removals g) gid h =
    rw h (search (frozen_steps, with_params-IsFrozen) depth 30 fits 8000)
handle-IsFrozen env p (Endpoint.clear_pending_removals g) gid h =
    rw h (search (frozen_steps, with_params-IsFrozen) depth 30 fits 8000)
handle-IsFrozen env p (Endpoint.kick_member g) gid h =
    rw h (search (frozen_steps, with_params-IsFrozen) depth 30 fits 8000)
handle-IsFrozen env p (Endpoint.decide_join_request g id) gid h =
    rw h (search (frozen_steps, with_params-IsFrozen) depth 30 fits 8000)
handle-IsFrozen env p Endpoint.search_groups gid h =
    search (frozen_steps, with_params-IsFrozen) depth 30 fits 8000
handle-IsFrozen env p Endpoint.list_groups gid h =
    search (frozen_steps, with_params-IsFrozen) depth 30 fits 8000
handle-IsFrozen env p Endpoint.create_group gid h = absurd h
handle-IsFrozen env p (Endpoint.decide_owner_transfer g accept) gid h = absurd h

-- On a group that is missing or dissolved no endpoint but the creation of a group and the decision on a
-- transfer changes any row of the group tables.
pub handle_inactive :
    (env : Env) (p : Params) (e : Endpoint) (gid : String) (s : Server)
    → Needs gid e
    → IsInactive gid s.groups
    → (handle env p e s).1.groups ≡ s.groups
handle_inactive env p e gid s needs inactive = (handle-IsFrozen env p e gid needs).at s inactive
