-- ===== src/Handlers/Consistency.antt =====
-- Every state that requests to http_groups.go lead to is consistent.
use etemsg_server.Base.{String, Option, ok, err, Result}
use etemsg_server.Handlers.Server.{Env, Code, Action}
use etemsg_server.Handlers.Wire.Requests.{GroupJoinRequestCreate}
use etemsg_server.Handlers.Keeping.{IsKeeping, keeping_steps}
use etemsg_server.Handlers.Statements.{IsConsistent, statement_rules, create_join_request-IsStore}
use etemsg_server.Handlers.Creating.{
  create_group_handler, list_groups, group_info, dissolve_group_handler,
}
use etemsg_server.Handlers.KeyPackages.{search_groups, upload_key_package, get_key_package_handler}
use etemsg_server.Handlers.Joining.{
  create_join_request_handler, new_request, list_join_requests, decide_join_request_handler,
}
use etemsg_server.Handlers.Log.{create_commit, list_commits, create_welcome, list_welcomes}
use etemsg_server.Handlers.Messages.{send_message, list_messages, ack_messages}
use etemsg_server.Handlers.Members.{
  leave_group_handler, list_pending_removals, clear_pending_removals_handler, remove_target,
  kick_member,
}
use etemsg_server.Handlers.Transfers.{
  start_owner_transfer, get_owner_transfer, decide_owner_transfer_handler,
}
use etemsg_server.Handlers.Routing.{Method, Endpoint, route}
use etemsg_server.Handlers.Serving.{Params, Response, with_params, handle, dispatch, serve}

with_params-IsKeeping :
    {P A : Type 0} (params : Option P) (handler : P → Action A) (respond : A → Response)
    → ((req : P) → IsKeeping IsConsistent (handler req))
    → IsKeeping IsConsistent (with_params params handler respond)
unfolding with_params
with_params-IsKeeping params handler respond safe = search (keeping_steps, safe)

create_join_request_handler-IsKeeping :
    (env : Env) (req : GroupJoinRequestCreate) (gid : String)
    → IsKeeping IsConsistent (create_join_request_handler env req gid)
unfolding create_join_request_handler
create_join_request_handler-IsKeeping env req gid =
    search (keeping_steps, create_join_request-IsStore env.now_s (new_request req gid)) depth 40
      fits 8000

handle-IsKeeping : (env : Env) (p : Params) (e : Endpoint) → IsKeeping IsConsistent (handle env p e)
unfolding handle create_group_handler list_groups search_groups group_info dissolve_group_handler
    upload_key_package get_key_package_handler list_join_requests decide_join_request_handler
    create_commit list_commits create_welcome list_welcomes send_message list_messages ack_messages
    start_owner_transfer get_owner_transfer decide_owner_transfer_handler leave_group_handler
    list_pending_removals clear_pending_removals_handler remove_target kick_member
handle-IsKeeping env p Endpoint.create_group =
    search (keeping_steps, statement_rules, with_params-IsKeeping) depth 30 fits 8000
handle-IsKeeping env p Endpoint.list_groups =
    search (keeping_steps, statement_rules, with_params-IsKeeping) depth 30 fits 8000
handle-IsKeeping env p Endpoint.search_groups =
    search (keeping_steps, statement_rules, with_params-IsKeeping) depth 30 fits 8000
handle-IsKeeping env p (Endpoint.group_info gid) =
    search (keeping_steps, statement_rules, with_params-IsKeeping) depth 30 fits 8000
handle-IsKeeping env p (Endpoint.dissolve_group gid) =
    search (keeping_steps, statement_rules, with_params-IsKeeping) depth 30 fits 8000
handle-IsKeeping env p (Endpoint.upload_key_package gid) =
    search (keeping_steps, statement_rules, with_params-IsKeeping) depth 30 fits 8000
handle-IsKeeping env p (Endpoint.get_key_package gid) =
    search (keeping_steps, statement_rules, with_params-IsKeeping) depth 30 fits 8000
handle-IsKeeping env p (Endpoint.create_join_request gid) =
    search (create_join_request_handler-IsKeeping, with_params-IsKeeping) depth 30 fits 8000
handle-IsKeeping env p (Endpoint.list_join_requests gid) =
    search (keeping_steps, statement_rules, with_params-IsKeeping) depth 30 fits 8000
handle-IsKeeping env p (Endpoint.create_commit gid) =
    search (keeping_steps, statement_rules, with_params-IsKeeping) depth 30 fits 8000
handle-IsKeeping env p (Endpoint.list_commits gid) =
    search (keeping_steps, statement_rules, with_params-IsKeeping) depth 30 fits 8000
handle-IsKeeping env p (Endpoint.create_welcome gid) =
    search (keeping_steps, statement_rules, with_params-IsKeeping) depth 30 fits 8000
handle-IsKeeping env p (Endpoint.list_welcomes gid) =
    search (keeping_steps, statement_rules, with_params-IsKeeping) depth 30 fits 8000
handle-IsKeeping env p (Endpoint.send_message gid) =
    search (keeping_steps, statement_rules, with_params-IsKeeping) depth 30 fits 8000
handle-IsKeeping env p (Endpoint.list_messages gid) =
    search (keeping_steps, statement_rules, with_params-IsKeeping) depth 30 fits 8000
handle-IsKeeping env p (Endpoint.ack_messages gid) =
    search (keeping_steps, statement_rules, with_params-IsKeeping) depth 30 fits 8000
handle-IsKeeping env p (Endpoint.start_owner_transfer gid) =
    search (keeping_steps, statement_rules, with_params-IsKeeping) depth 30 fits 8000
handle-IsKeeping env p (Endpoint.get_owner_transfer gid) =
    search (keeping_steps, statement_rules, with_params-IsKeeping) depth 30 fits 8000
handle-IsKeeping env p (Endpoint.leave_group gid) =
    search (keeping_steps, statement_rules, with_params-IsKeeping) depth 30 fits 8000
handle-IsKeeping env p (Endpoint.list_pending_removals gid) =
    search (keeping_steps, statement_rules, with_params-IsKeeping) depth 30 fits 8000
handle-IsKeeping env p (Endpoint.clear_pending_removals gid) =
    search (keeping_steps, statement_rules, with_params-IsKeeping) depth 30 fits 8000
handle-IsKeeping env p (Endpoint.kick_member gid) =
    search (keeping_steps, statement_rules, with_params-IsKeeping) depth 30 fits 8000
handle-IsKeeping env p (Endpoint.decide_join_request gid id) =
    search (keeping_steps, statement_rules, with_params-IsKeeping) depth 30 fits 8000
handle-IsKeeping env p (Endpoint.decide_owner_transfer gid accept) =
    search (keeping_steps, statement_rules, with_params-IsKeeping) depth 30 fits 8000

dispatch-IsKeeping :
    (env : Env) (p : Params) (r : Result Code Endpoint) → IsKeeping IsConsistent (dispatch env p r)
dispatch-IsKeeping env p (ok e) = handle-IsKeeping env p e
dispatch-IsKeeping env p (err c) = search keeping_steps

-- The whole of `serve`.
pub serve-IsKeeping :
    (env : Env) (p : Params) (method : Method) (path : String)
    → IsKeeping IsConsistent (serve env p method path)
unfolding serve
serve-IsKeeping env p method path = dispatch-IsKeeping env p (route method path)
