-- ===== src/Handlers/Tests.antt =====
-- Tests of the group endpoints: a group of an owner and a member, over a toy signature.
mod Serving
use etemsg_server.Base.{
  ℕ, ◌<◌, ◌≤◌, ℤ, pos, negsuc, String, Bool, true, false, not, ◌&&◌, ◌||◌, none, some, List, [],
  ◌∷◌, ◌++◌, map, ok, ◌≡◌, ◌≢◌, refl, arith, dec_text, ◌==◌, ltb, if◌then◌else◌, trim_space,
  int_ltb, length, ◌⊎◌,
}
use etemsg_server.Base.Map.{Map, lookup, put, erase}
use etemsg_server.Accounts.State.{Accounts, no_accounts}
use etemsg_server.Accounts.Users.{get_public_key}
use etemsg_server.Groups.State.{is_owner, Role, GroupState, Group, GroupMember, Groups, no_groups}
use etemsg_server.Groups.Roster.{
  get_group, get_group_member, group_member_ids, dissolve_group, remove_group_member,
}
use etemsg_server.Groups.Messages.{append_group_message}
use etemsg_server.Session.Steps.{new_manager, enqueue_message}
use etemsg_server.Session.Invariant.{IsValid, new_manager-IsValid}
use etemsg_server.Auth.Nonces.{Pick, check_nonce}
use etemsg_server.Auth.Signed.{
  Crypto, handle_signed_request, verify_signed_request, in_window, time_diff, parse_int64,
  parse_unsigned, parse_digits, message_digest,
}
use etemsg_server.Handlers.Wire.Requests.{
  GroupCommitRequest, GroupMessageSendRequest, GroupDissolveRequest, GroupKickMemberRequest,
  GroupWelcomeCreateRequest, GroupMessageAckRequest, GroupMessageListRequest,
}
use etemsg_server.Handlers.Wire.Responses.{
  GroupCommitResponse, GroupWelcomeResponse, GroupMessageResponse, GroupMessageAckResponse,
  GroupMessagesResponse,
}
use etemsg_server.Handlers.Server.{
  Server, Env, Code, Outcome, pure, refuse, gets, asks, or_refuse, ◌>>=◌, refuse_when, store,
}
use etemsg_server.Handlers.Texts.{format_int, digits, blob_hash_matches}
use etemsg_server.Handlers.Access.{
  signed, load_active_group, load_active_group_member, has_group_role, notify_user, notify_others,
  notify_group,
}
use etemsg_server.Groups.Log.{append_group_commit, append_welcome, next_mls_seq, welcome_member}
use etemsg_server.Groups.Messages.{
  max_group_message_seq, upsert_group_cursor, get_group_cursor, list_group_messages,
}
use etemsg_server.Handlers.Messages.{
  send_message, ack_messages, new_message, list_messages, message_out, page_size, resume_from,
}
use etemsg_server.Handlers.Log.{create_commit, create_welcome, log_entry}
use etemsg_server.Handlers.Creating.{dissolve_group_handler}
use etemsg_server.Handlers.Members.{KickStatus, kick_member, remove_target, is_active_member}
use etemsg_server.Handlers.Guards.{IsSignedBy, IsKept}
use etemsg_server.Handlers.Access.{administrators}
use etemsg_server.Handlers.Ends.{Ends-done}
use etemsg_server.Handlers.Effects.{
  IsCommitted, create_commit-Ends, IsWelcomed, create_welcome-Ends, IsSent, send_message-Ends,
}
use etemsg_server.Handlers.Removals.{
  IsDissolved, dissolve_group_handler-Ends, IsKicked, kick_member-Ends,
}
use etemsg_server.Handlers.Acks.{ack_messages_done}

abbrev pick_first : Pick
pick_first [] = ""
pick_first ((n, t) ∷ m) = n

-- A signature is "s", with the key "k"; every blob has the hash "h".
abbrev env : Env
env = record {
  crypto = record { sha256 = λ x. x; is_signed = λ k d s. k == "k" && s == "s" };
  pick = pick_first;
  now = 5;
  now_ms = 1000;
  now_s = 1;
  decode_base64 = λ t. some [];
  encode_base64 = λ bs. "";
  sha256_hex = λ bs. "h";
  equal_fold = λ a b. a == b;
  to_lower = λ t. t;
}

abbrev gid : String
gid = "abcdefghij"

abbrev member : String → Role → GroupMember
member user role = record {
  group_id = gid;
  user_id = user;
  role = role;
  joined_epoch = pos 0;
  joined_at = 1;
}

abbrev start : Server
start = record {
  accounts = record no_accounts {
    users =
        record { user_id = "ann"; public_key = "k"; created_at = 1 }
        ∷ record { user_id = "bob"; public_key = "k"; created_at = 1 }
        ∷ [];
  };
  groups = record no_groups {
    groups =
        record {
          group_id = gid;
          name_enc = [];
          creator = "ann";
          state = GroupState.active;
          current_epoch = pos 0;
          min_seq = 0;
          created_at = 1;
        }
        ∷ [];
    members = member "ann" Role.owner ∷ member "bob" Role.member ∷ [];
  };
  seen = [];
  replay = [];
  session = new_manager;
}

abbrev hello : GroupMessageSendRequest
hello = record {
  user_id = " bob";
  msg_id = "m1";
  epoch = pos 0;
  ciphertext = "c";
  msg_type = "";
  file_id = "";
  timestamp = pos 900;
  nonce = "n1";
  signature = "s";
}

abbrev after_hello : Server
after_hello = (send_message env hello gid start).1

hello_sent :
    send_message env hello gid start
    ≡ (Outcome.done (record { msg_id = "m1"; seq = 1 }), after_hello)
unfolding send_message pure gets asks or_refuse ◌>>=◌ refuse_when store signed load_active_group
    load_active_group_member notify_group notify_others notify_user enqueue_message new_manager
    handle_signed_request verify_signed_request get_public_key in_window time_diff parse_int64
    parse_unsigned parse_digits message_digest check_nonce lookup put erase dec_text trim_space
    format_int digits get_group get_group_member group_member_ids append_group_message
hello_sent = refl

abbrev the_commit : GroupCommitRequest
the_commit = record {
  user_id = "ann";
  epoch = pos 1;
  parent_epoch = pos 0;
  kind = "commit";
  commit_b64 = "x";
  data_hash = "h";
  timestamp = pos 900;
  nonce = "n1";
  signature = "s";
}

abbrev the_welcome : GroupWelcomeCreateRequest
the_welcome = record {
  user_id = "ann";
  target_user = "cat";
  welcome_b64 = "x";
  data_hash = "h";
  epoch = pos 0;
  timestamp = pos 900;
  nonce = "n1";
  signature = "s";
}

abbrev the_end : GroupDissolveRequest
the_end = record { user_id = "ann"; timestamp = pos 900; nonce = "n1"; signature = "s" }

abbrev off : GroupKickMemberRequest
off = record {
  user_id = "ann";
  target_user = "bob";
  timestamp = pos 900;
  nonce = "n1";
  signature = "s";
}

abbrev got : GroupMessageAckRequest
got = record {
  user_id = "ann";
  last_seq = pos 1;
  timestamp = pos 900;
  nonce = "n2";
  signature = "s";
}

abbrev the_commit_answer : GroupCommitResponse
the_commit_answer = record { group_id = gid; epoch = pos 1; seq = 1 }

abbrev after_the_commit : Server
after_the_commit = (create_commit env the_commit gid start).1

the_commit_run :
    create_commit env the_commit gid start ≡ (Outcome.done the_commit_answer, after_the_commit)
unfolding create_commit has_group_role blob_hash_matches append_group_commit next_mls_seq pure gets
    asks or_refuse ◌>>=◌ refuse_when store signed load_active_group load_active_group_member
    notify_group notify_others notify_user enqueue_message new_manager handle_signed_request
    verify_signed_request get_public_key in_window time_diff parse_int64 parse_unsigned parse_digits
    message_digest check_nonce lookup put erase dec_text trim_space format_int digits get_group
    get_group_member group_member_ids
the_commit_run = refl

create_commit-Ends_example :
    IsCommitted env the_commit gid start the_commit_answer after_the_commit.groups
create_commit-Ends_example =
    Ends-done start.groups (IsCommitted env the_commit gid start) (λ z. z.groups) _
      the_commit_answer after_the_commit the_commit_run
      (create_commit-Ends env the_commit gid start)

abbrev the_welcome_answer : GroupWelcomeResponse
the_welcome_answer = record { group_id = gid; target_user = "cat"; epoch = pos 0; seq = 1 }

abbrev after_the_welcome : Server
after_the_welcome = (create_welcome env the_welcome gid start).1

the_welcome_run :
    create_welcome env the_welcome gid start ≡ (Outcome.done the_welcome_answer, after_the_welcome)
unfolding create_welcome has_group_role blob_hash_matches append_welcome welcome_member next_mls_seq
    pure gets asks or_refuse ◌>>=◌ refuse_when store signed load_active_group
    load_active_group_member notify_group notify_others notify_user enqueue_message new_manager
    handle_signed_request verify_signed_request get_public_key in_window time_diff parse_int64
    parse_unsigned parse_digits message_digest check_nonce lookup put erase dec_text trim_space
    format_int digits get_group get_group_member group_member_ids
the_welcome_run = refl

create_welcome-Ends_example :
    IsWelcomed env the_welcome gid start the_welcome_answer after_the_welcome.groups
create_welcome-Ends_example =
    Ends-done start.groups (IsWelcomed env the_welcome gid start) (λ z. z.groups) _
      the_welcome_answer after_the_welcome the_welcome_run
      (create_welcome-Ends env the_welcome gid start)

abbrev hello_answer : GroupMessageResponse
hello_answer = record { msg_id = "m1"; seq = 1 }

send_message-Ends_example : IsSent env hello gid start hello_answer after_hello.groups
send_message-Ends_example =
    Ends-done start.groups (IsSent env hello gid start) (λ z. z.groups) _ hello_answer after_hello
      hello_sent (send_message-Ends env hello gid start)

abbrev the_end_answer : String × GroupState
the_end_answer = (gid, GroupState.dissolved)

abbrev after_the_end : Server
after_the_end = (dissolve_group_handler env the_end gid start).1

the_end_run :
    dissolve_group_handler env the_end gid start ≡ (Outcome.done the_end_answer, after_the_end)
unfolding dissolve_group_handler dissolve_group pure gets asks or_refuse ◌>>=◌ refuse_when store
    signed load_active_group load_active_group_member notify_group notify_others notify_user
    enqueue_message new_manager handle_signed_request verify_signed_request get_public_key in_window
    time_diff parse_int64 parse_unsigned parse_digits message_digest check_nonce lookup put erase
    dec_text trim_space format_int digits get_group get_group_member group_member_ids
the_end_run = refl

dissolve_group_handler-Ends_example :
    IsDissolved env the_end gid start the_end_answer after_the_end.groups
dissolve_group_handler-Ends_example =
    Ends-done start.groups (IsDissolved env the_end gid start) (λ z. z.groups) _ the_end_answer
      after_the_end the_end_run (dissolve_group_handler-Ends env the_end gid start)

abbrev off_answer : KickStatus
off_answer = KickStatus.kicked

abbrev after_off : Server
after_off = (kick_member env off gid start).1

off_run : kick_member env off gid start ≡ (Outcome.done off_answer, after_off)
unfolding kick_member remove_target remove_group_member pure gets asks or_refuse ◌>>=◌ refuse_when
    store signed load_active_group load_active_group_member notify_group notify_others notify_user
    enqueue_message new_manager handle_signed_request verify_signed_request get_public_key in_window
    time_diff parse_int64 parse_unsigned parse_digits message_digest check_nonce lookup put erase
    dec_text trim_space format_int digits get_group get_group_member group_member_ids
off_run = refl

kick_member-Ends_example : IsKicked env off gid start off_answer after_off.groups
kick_member-Ends_example =
    Ends-done start.groups (IsKicked env off gid start) (λ z. z.groups) _ off_answer after_off
      off_run (kick_member-Ends env off gid start)

abbrev got_answer : GroupMessageAckResponse
got_answer = record { last_seq = 1 }

abbrev after_got : Server
after_got = (ack_messages env got gid after_hello).1

got_run : ack_messages env got gid after_hello ≡ (Outcome.done got_answer, after_got)
unfolding ack_messages send_message append_group_message max_group_message_seq upsert_group_cursor
    get_group_cursor pure gets asks or_refuse ◌>>=◌ refuse_when store signed load_active_group
    load_active_group_member notify_group notify_others notify_user enqueue_message new_manager
    handle_signed_request verify_signed_request get_public_key in_window time_diff parse_int64
    parse_unsigned parse_digits message_digest check_nonce lookup put erase dec_text trim_space
    format_int digits get_group get_group_member group_member_ids
got_run = refl

ack_messages_done_example :
    (n : ℕ) × (got.last_seq ≡ pos n)
    × (n ≤ max_group_message_seq after_hello.groups gid)
    × (got_answer.last_seq ≡ get_group_cursor after_got.groups (trim_space got.user_id) gid)
    × ((u g : String)
        → get_group_cursor after_got.groups u g ≡ (
            let old = get_group_cursor after_hello.groups u g in
            if trim_space got.user_id == u && gid == g
            then (if ltb old n then n else old)
            else old))
ack_messages_done_example = ack_messages_done env got gid after_hello after_got got_answer got_run
