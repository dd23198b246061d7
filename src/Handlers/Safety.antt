-- ===== src/Handlers/Safety.antt =====
-- No endpoint of http_groups.go panics or breaks the session manager.
use etemsg_server.Base.{String, Option, ok, err, Result}
use etemsg_server.Handlers.Server.{Env, Code, Action}
use etemsg_server.Handlers.Safe.{IsSafe, safe_steps}
use etemsg_server.Handlers.Creating.{
  create_group_handler, list_groups, group_info, dissolve_group_handler,
}
use etemsg_server.Handlers.KeyPackages.{search_groups, upload_key_package, get_key_package_handler}
use etemsg_server.Handlers.Joining.{
  create_join_request_handler, list_join_requests, decide_join_request_handler,
}
use etemsg_server.Handlers.Log.{create_commit, list_commits, create_welcome, list_welcomes}
use etemsg_server.Handlers.Messages.{send_message, list_messages, ack_messages}
use etemsg_server.Handlers.Members.{
  leave_group_handler, list_pending_removals, clear_pending_removals_handler, remove_target,
  kick_member,
}
use etemsg_server.Handlers.Transfers.{
  start_owner_transfer, get_owner_transfer, decide_owner_transfer_handler,
}
use etemsg_server.Handlers.Routing.{Method, Endpoint, route}
use etemsg_server.Handlers.Serving.{Params, Response, with_params, handle, dispatch, serve}

with_params-IsSafe :
    {P A : Type 0} (params : Option P) (handler : P → Action A) (respond : A → Response)
    → ((req : P) → IsSafe (handler req))
    → IsSafe (with_params params handler respond)
unfolding with_params
with_params-IsSafe params handler respond safe = search (safe_steps, safe)

handle-IsSafe : (env : Env) (p : Params) (e : Endpoint) → IsSafe (handle env p e)
unfolding handle create_group_handler list_groups search_groups group_info dissolve_group_handler
    upload_key_package get_key_package_handler create_join_request_handler list_join_requests
    decide_join_request_handler create_commit list_commits create_welcome list_welcomes send_message
    list_messages ack_messages start_owner_transfer get_owner_transfer decide_owner_transfer_handler
    leave_group_handler list_pending_removals clear_pending_removals_handler remove_target
    kick_member
handle-IsSafe env p Endpoint.create_group =
    search (safe_steps, with_params-IsSafe) depth 30 fits 8000
handle-IsSafe env p Endpoint.list_groups =
    search (safe_steps, with_params-IsSafe) depth 30 fits 8000
handle-IsSafe env p Endpoint.search_groups =
    search (safe_steps, with_params-IsSafe) depth 30 fits 8000
handle-IsSafe env p (Endpoint.group_info gid) =
    search (safe_steps, with_params-IsSafe) depth 30 fits 8000
handle-IsSafe env p (Endpoint.dissolve_group gid) =
    search (safe_steps, with_params-IsSafe) depth 30 fits 8000
handle-IsSafe env p (Endpoint.upload_key_package gid) =
    search (safe_steps, with_params-IsSafe) depth 30 fits 8000
handle-IsSafe env p (Endpoint.get_key_package gid) =
    search (safe_steps, with_params-IsSafe) depth 30 fits 8000
handle-IsSafe env p (Endpoint.create_join_request gid) =
    search (safe_steps, with_params-IsSafe) depth 30 fits 8000
handle-IsSafe env p (Endpoint.list_join_requests gid) =
    search (safe_steps, with_params-IsSafe) depth 30 fits 8000
handle-IsSafe env p (Endpoint.create_commit gid) =
    search (safe_steps, with_params-IsSafe) depth 30 fits 8000
handle-IsSafe env p (Endpoint.list_commits gid) =
    search (safe_steps, with_params-IsSafe) depth 30 fits 8000
handle-IsSafe env p (Endpoint.create_welcome gid) =
    search (safe_steps, with_params-IsSafe) depth 30 fits 8000
handle-IsSafe env p (Endpoint.list_welcomes gid) =
    search (safe_steps, with_params-IsSafe) depth 30 fits 8000
handle-IsSafe env p (Endpoint.send_message gid) =
    search (safe_steps, with_params-IsSafe) depth 30 fits 8000
handle-IsSafe env p (Endpoint.list_messages gid) =
    search (safe_steps, with_params-IsSafe) depth 30 fits 8000
handle-IsSafe env p (Endpoint.ack_messages gid) =
    search (safe_steps, with_params-IsSafe) depth 30 fits 8000
handle-IsSafe env p (Endpoint.start_owner_transfer gid) =
    search (safe_steps, with_params-IsSafe) depth 30 fits 8000
handle-IsSafe env p (Endpoint.get_owner_transfer gid) =
    search (safe_steps, with_params-IsSafe) depth 30 fits 8000
handle-IsSafe env p (Endpoint.leave_group gid) =
    search (safe_steps, with_params-IsSafe) depth 30 fits 8000
handle-IsSafe env p (Endpoint.list_pending_removals gid) =
    search (safe_steps, with_params-IsSafe) depth 30 fits 8000
handle-IsSafe env p (Endpoint.clear_pending_removals gid) =
    search (safe_steps, with_params-IsSafe) depth 30 fits 8000
handle-IsSafe env p (Endpoint.kick_member gid) =
    search (safe_steps, with_params-IsSafe) depth 30 fits 8000
handle-IsSafe env p (Endpoint.decide_join_request gid id) =
    search (safe_steps, with_params-IsSafe) depth 30 fits 8000
handle-IsSafe env p (Endpoint.decide_owner_transfer gid accept) =
    search (safe_steps, with_params-IsSafe) depth 30 fits 8000

dispatch-IsSafe : (env : Env) (p : Params) (r : Result Code Endpoint) → IsSafe (dispatch env p r)
dispatch-IsSafe env p (ok e) = handle-IsSafe env p e
dispatch-IsSafe env p (err c) = search safe_steps

-- The whole of `serve`.
pub serve-IsSafe :
    (env : Env) (p : Params) (method : Method) (path : String) → IsSafe (serve env p method path)
unfolding serve
serve-IsSafe env p method path = dispatch-IsSafe env p (route method path)
