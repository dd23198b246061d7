-- ===== src/Handlers/Tests/Serving.antt =====
-- Tests of whole requests, paths and numbers.
use etemsg_server.Base.{
  ◌+◌, ◌≤◌, ◌<◌, pos, String, true, none, some, List, [], ◌∷◌, ◌++◌, map, ok, ◌≡◌, ◌⊎◌, refl, arith,
  dec_text, length, trim_space,
}
use etemsg_server.Base.Map.{lookup, put, erase}
use etemsg_server.Accounts.Users.{get_public_key}
use etemsg_server.Groups.State.{GroupState, Group, Groups}
use etemsg_server.Groups.Roster.{get_group, get_group_member, group_member_ids, dissolve_group}
use etemsg_server.Groups.Messages.{append_group_message, list_group_messages}
use etemsg_server.Groups.Sequence.{appended}
use etemsg_server.Session.Steps.{new_manager, enqueue_message}
use etemsg_server.Session.Invariant.{IsValid, new_manager-IsValid}
use etemsg_server.Auth.Nonces.{check_nonce}
use etemsg_server.Auth.Signed.{
  SignedRequest, handle_signed_request, verify_signed_request, in_window, time_diff, parse_int64,
  parse_unsigned, parse_digits, message_digest,
}
use etemsg_server.Handlers.Wire.Requests.{GroupMessageListRequest}
use etemsg_server.Handlers.Wire.Responses.{GroupMessagesResponse}
use etemsg_server.Handlers.Server.{
  Server, Outcome, pure, gets, asks, or_refuse, ◌>>=◌, refuse_when, store,
}
use etemsg_server.Handlers.Texts.{format_int, digits, is_group_id, is_base36_lower}
use etemsg_server.Handlers.Access.{
  signed, load_active_group, load_active_group_member, notify_user, notify_others, notify_group,
}
use etemsg_server.Handlers.Messages.{
  send_message, list_messages, new_message, message_out, page_size, resume_from,
}
use etemsg_server.Handlers.Routing.{Method, Endpoint, route, trim_slash, split_slash, after_prefix}
use etemsg_server.Handlers.Serving.{Params, handle, serve}
use etemsg_server.Handlers.Guards.{IsAccepted, IsKept}
use etemsg_server.Handlers.Safe.{IsFine}
use etemsg_server.Handlers.Statements.{IsConsistent}
use etemsg_server.Handlers.Frozen.{IsInactive}
use etemsg_server.Handlers.Dissolved.{handle_inactive}
use etemsg_server.Handlers.History.{
  Request, run_requests, serve_guarded, serve_safe, run_requests-IsConsistent,
}
use etemsg_server.Handlers.Reading.{list_messages-send_message}
use etemsg_server.Handlers.Paths.{route_ids}
use etemsg_server.Handlers.Timely.{signed_timely}
use etemsg_server.Handlers.Signing.{signed_request}
use etemsg_server.Handlers.Tests.{env, gid, start, hello, hello_answer, after_hello, hello_sent}

abbrev params : Params
params = record {
  create = none;
  list = none;
  info = none;
  search = none;
  upload = none;
  key_package = none;
  join = none;
  join_list = none;
  decision = none;
  commit = none;
  log_list = none;
  welcome = none;
  welcome_list = none;
  message = some hello;
  message_list = none;
  ack = none;
  kick = none;
  leave = none;
  dissolve = none;
  clear = none;
  transfer = none;
  transfer_decision = none;
}

abbrev path : String
path = "/groups/abcdefghij/messages/"

serve_guarded_example :
    IsKept start (serve env params Method.post path start).1
    ⊎ ((e : Endpoint) × (c : SignedRequest) × (route Method.post path ≡ ok e)
        × (signed_request params e ≡ some c)
        × IsAccepted env start c)
serve_guarded_example = serve_guarded env params Method.post path start

serve_safe_example : IsFine start (serve env params Method.post path start)
serve_safe_example = serve_safe env params Method.post path start new_manager-IsValid

abbrev twice : List Request
twice =
    record { env = env; params = params; method = Method.post; path = path }
    ∷ record { env = env; params = params; method = Method.post; path = path }
    ∷ []

start-IsConsistent : IsConsistent start.groups
start-IsConsistent = record {
  commits = λ g epoch. omega arith;
  messages = record { by_number = λ g seq. omega arith; by_id = λ g id. omega arith };
  requests = record { by_id = λ id. omega arith; undecided = λ g a. omega arith };
}

run_requests-IsConsistent_example :
    IsValid (run_requests start twice).session
    × IsConsistent (run_requests start twice).groups
    × ((run_requests start twice).accounts ≡ start.accounts)
run_requests-IsConsistent_example =
    run_requests-IsConsistent twice start new_manager-IsValid start-IsConsistent

abbrev closed : Server
closed = record start { groups = dissolve_group start.groups gid }

closed-IsInactive : IsInactive gid closed.groups
unfolding dissolve_group get_group dec_text
closed-IsInactive g h = ground arith

handle_inactive_example :
    (handle env params (Endpoint.send_message gid) closed).1.groups ≡ closed.groups
handle_inactive_example =
    handle_inactive env params (Endpoint.send_message gid) gid closed refl closed-IsInactive

routed : route Method.post path ≡ ok (Endpoint.send_message gid)
unfolding route trim_slash split_slash after_prefix dec_text is_group_id is_base36_lower trim_space
routed = refl

route_ids_example : is_group_id gid ≡ true
route_ids_example = route_ids Method.post path (Endpoint.send_message gid) gid routed refl

abbrev stamped_fields : List String
stamped_fields = "x" ∷ []

abbrev after_stamped : Server
after_stamped = (signed env "bob" stamped_fields (pos 900) "n1" "s" start).1

stamped_run :
    signed env "bob" stamped_fields (pos 900) "n1" "s" start ≡ (Outcome.done tt, after_stamped)
unfolding signed handle_signed_request verify_signed_request get_public_key in_window time_diff
    parse_int64 parse_unsigned parse_digits message_digest check_nonce lookup put erase dec_text
    format_int digits
stamped_run = refl

signed_timely_example : (env.now_ms ≤ 900 + 300000) × (900 ≤ env.now_ms + 300000)
signed_timely_example =
    signed_timely env "bob" stamped_fields 900 "n1" "s" start after_stamped (omega arith)
      (omega arith) stamped_run

abbrev ask : GroupMessageListRequest
ask = record {
  user_id = "ann";
  since_seq = pos 0;
  limit = pos 0;
  timestamp = pos 900;
  nonce = "n7";
  signature = "s";
}

abbrev page : GroupMessagesResponse
page = record {
  messages = message_out (appended 1 (new_message hello gid) 1) ∷ [];
  min_seq = 0;
  my_role = etemsg_server.Groups.State.Role.owner;
}

abbrev after_ask : Server
after_ask = (list_messages env ask gid after_hello).1

asked : list_messages env ask gid after_hello ≡ (Outcome.done page, after_ask)
unfolding list_messages list_group_messages page_size resume_from send_message pure gets asks
    or_refuse ◌>>=◌ refuse_when store signed load_active_group load_active_group_member notify_group
    notify_others notify_user enqueue_message new_manager handle_signed_request
    verify_signed_request get_public_key in_window time_diff parse_int64 parse_unsigned parse_digits
    message_digest check_nonce lookup put erase dec_text trim_space format_int digits get_group
    get_group_member group_member_ids append_group_message
asked = refl

few :
    length (
      list_group_messages start.groups gid
        (resume_from ask.since_seq page.min_seq)
        (page_size ask.limit))
    < page_size ask.limit
unfolding list_group_messages page_size resume_from
few = omega arith

below : resume_from ask.since_seq page.min_seq < hello_answer.seq
unfolding resume_from
below = omega arith

list_messages-send_message_example :
    page.messages
    ≡ map message_out (
        list_group_messages start.groups gid
          (resume_from ask.since_seq page.min_seq)
          (page_size ask.limit)
        ++ appended env.now_s (new_message hello gid) hello_answer.seq ∷ [])
list_messages-send_message_example =
    list_messages-send_message env env hello ask gid start after_hello after_ask hello_answer page
      hello_sent asked below few
