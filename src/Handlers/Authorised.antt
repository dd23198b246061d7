-- ===== src/Handlers/Authorised.antt =====
-- Endpoints of http_groups.go change nothing without an accepted signature.
use etemsg_server.Base.{Option, none, some, ok, err, Result, ◌≡◌, refl, ◌⊎◌, inl, inr}
use etemsg_server.Auth.Signed.{SignedRequest}
use etemsg_server.Handlers.Server.{Env, Code, Action, Server, pure, refuse, or_refuse, ◌>>=◌}
use etemsg_server.Handlers.Signing.{signed_parts, signed_request}
use etemsg_server.Handlers.Guards.{
  IsKept, IsAccepted, IsGuarded, guard_steps, bind-IsGuarded_last, pure-IsQuiet,
}
use etemsg_server.Handlers.Creating.{
  create_group_handler, list_groups, group_info, dissolve_group_handler,
}
use etemsg_server.Handlers.KeyPackages.{search_groups, upload_key_package, get_key_package_handler}
use etemsg_server.Handlers.Joining.{
  create_join_request_handler, list_join_requests, decide_join_request_handler,
}
use etemsg_server.Handlers.Log.{create_commit, list_commits, create_welcome, list_welcomes}
use etemsg_server.Handlers.Messages.{send_message, list_messages, ack_messages}
use etemsg_server.Handlers.Members.{
  leave_group_handler, list_pending_removals, clear_pending_removals_handler, remove_target,
  kick_member,
}
use etemsg_server.Handlers.Transfers.{
  start_owner_transfer, get_owner_transfer, decide_owner_transfer_handler,
}
use etemsg_server.Handlers.Routing.{Endpoint}
use etemsg_server.Handlers.Serving.{Params, Response, with_params, handle, dispatch}

with_params-IsGuarded :
    {P A : Type 0} (env : Env) (params : Option P) (parts : P → SignedRequest)
    (handler : P → Action A) (respond : A → Response)
    → ((req : P) → IsGuarded env (some (parts req)) (handler req))
    → IsGuarded env (signed_parts params parts) (with_params params handler respond)
unfolding with_params ◌>>=◌ or_refuse
with_params-IsGuarded env none parts handler respond guarded = record { at = λ s. inl (refl, refl) }
with_params-IsGuarded env (some req) parts handler respond guarded =
    bind-IsGuarded_last env (some (parts req)) (handler req) (λ a. pure (respond a)) (guarded req)
      (λ a. pure-IsQuiet (respond a))

handle-IsGuarded :
    (env : Env) (p : Params) (e : Endpoint) → IsGuarded env (signed_request p e) (handle env p e)
unfolding handle create_group_handler list_groups search_groups group_info dissolve_group_handler
    upload_key_package get_key_package_handler create_join_request_handler list_join_requests
    decide_join_request_handler create_commit list_commits create_welcome list_welcomes send_message
    list_messages ack_messages start_owner_transfer get_owner_transfer decide_owner_transfer_handler
    leave_group_handler list_pending_removals clear_pending_removals_handler remove_target
    kick_member
handle-IsGuarded env p Endpoint.create_group =
    search (guard_steps, with_params-IsGuarded) depth 30 fits 8000
handle-IsGuarded env p Endpoint.list_groups =
    search (guard_steps, with_params-IsGuarded) depth 30 fits 8000
handle-IsGuarded env p Endpoint.search_groups =
    search (guard_steps, with_params-IsGuarded) depth 30 fits 8000
handle-IsGuarded env p (Endpoint.group_info gid) =
    search (guard_steps, with_params-IsGuarded) depth 30 fits 8000
handle-IsGuarded env p (Endpoint.dissolve_group gid) =
    search (guard_steps, with_params-IsGuarded) depth 30 fits 8000
handle-IsGuarded env p (Endpoint.upload_key_package gid) =
    search (guard_steps, with_params-IsGuarded) depth 30 fits 8000
handle-IsGuarded env p (Endpoint.get_key_package gid) =
    search (guard_steps, with_params-IsGuarded) depth 30 fits 8000
handle-IsGuarded env p (Endpoint.create_join_request gid) =
    search (guard_steps, with_params-IsGuarded) depth 30 fits 8000
handle-IsGuarded env p (Endpoint.list_join_requests gid) =
    search (guard_steps, with_params-IsGuarded) depth 30 fits 8000
handle-IsGuarded env p (Endpoint.create_commit gid) =
    search (guard_steps, with_params-IsGuarded) depth 30 fits 8000
handle-IsGuarded env p (Endpoint.list_commits gid) =
    search (guard_steps, with_params-IsGuarded) depth 30 fits 8000
handle-IsGuarded env p (Endpoint.create_welcome gid) =
    search (guard_steps, with_params-IsGuarded) depth 30 fits 8000
handle-IsGuarded env p (Endpoint.list_welcomes gid) =
    search (guard_steps, with_params-IsGuarded) depth 30 fits 8000
handle-IsGuarded env p (Endpoint.send_message gid) =
    search (guard_steps, with_params-IsGuarded) depth 30 fits 8000
handle-IsGuarded env p (Endpoint.list_messages gid) =
    search (guard_steps, with_params-IsGuarded) depth 30 fits 8000
handle-IsGuarded env p (Endpoint.ack_messages gid) =
    search (guard_steps, with_params-IsGuarded) depth 30 fits 8000
handle-IsGuarded env p (Endpoint.start_owner_transfer gid) =
    search (guard_steps, with_params-IsGuarded) depth 30 fits 8000
handle-IsGuarded env p (Endpoint.get_owner_transfer gid) =
    search (guard_steps, with_params-IsGuarded) depth 30 fits 8000
handle-IsGuarded env p (Endpoint.leave_group gid) =
    search (guard_steps, with_params-IsGuarded) depth 30 fits 8000
handle-IsGuarded env p (Endpoint.list_pending_removals gid) =
    search (guard_steps, with_params-IsGuarded) depth 30 fits 8000
handle-IsGuarded env p (Endpoint.clear_pending_removals gid) =
    search (guard_steps, with_params-IsGuarded) depth 30 fits 8000
handle-IsGuarded env p (Endpoint.kick_member gid) =
    search (guard_steps, with_params-IsGuarded) depth 30 fits 8000
handle-IsGuarded env p (Endpoint.decide_join_request gid id) =
    search (guard_steps, with_params-IsGuarded) depth 30 fits 8000
handle-IsGuarded env p (Endpoint.decide_owner_transfer gid accept) =
    search (guard_steps, with_params-IsGuarded) depth 30 fits 8000

-- The whole of `serve`: the groups and the sessions are as they were, or the path names an endpoint,
-- and the request is signed over what that endpoint asks for.
pub serve_by :
    (env : Env) (p : Params) (s : Server) (r : Result Code Endpoint)
    → IsKept s (dispatch env p r s).1
      ⊎ ((e : Endpoint) × (c : SignedRequest) × (r ≡ ok e)
          × (signed_request p e ≡ some c)
          × IsAccepted env s c)
unfolding refuse
serve_by env p s (err c) = inl (refl, refl)
serve_by env p s (ok e) = elim ((handle-IsGuarded env p e).at s) [
  | inl kept ↦ inl kept
  | inr (c, is_c, accepted) ↦ inr (e, c, refl, is_c, accepted)
]
