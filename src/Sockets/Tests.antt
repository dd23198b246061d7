-- ===== src/Sockets/Tests.antt =====
-- Tests of the frames: two mutual contacts in a group, one of whom connects, over a toy signature.
use etemsg_server.Base.{
  pos, String, true, ◌&&◌, none, some, [], ◌∷◌, ◌≡◌, refl, dec_text, ◌==◌, trim_space,
}
use etemsg_server.Base.Map.{lookup, put, erase}
use etemsg_server.Accounts.State.{no_accounts}
use etemsg_server.Accounts.Users.{
  user_exists, get_public_key, is_mutual_contact, mutual_contact_ids, contacts_of,
}
use etemsg_server.Accounts.Logins.{get_token}
use etemsg_server.Groups.State.{Role, GroupState, GroupMember, no_groups}
use etemsg_server.Groups.Roster.{get_group, get_group_member, group_member_ids}
use etemsg_server.Groups.Messages.{append_group_message, max_group_message_seq}
use etemsg_server.Session.Steps.{
  new_manager, enqueue_message, is_online, set_online, close_old, try_send,
}
use etemsg_server.Session.Invariant.{new_manager-IsValid}
use etemsg_server.Auth.Nonces.{Pick, is_replay}
use etemsg_server.Auth.Signed.{message_digest}
use etemsg_server.Handlers.Wire.Requests.{GroupMessagePayload}
use etemsg_server.Handlers.Wire.Responses.{GroupMessageResponse}
use etemsg_server.Handlers.Server.{
  Server, Outcome, pure, gets, asks, or_refuse, ◌>>=◌, refuse_when, store,
}
use etemsg_server.Handlers.Texts.{is_group_id, format_int, digits}
use etemsg_server.Handlers.Safe.{IsFine}
use etemsg_server.Handlers.Access.{load_active_group, load_active_group_member}
use etemsg_server.Sockets.Frames.{ConnectPayload, SendMessagePayload, SendMessageAck}
use etemsg_server.Sockets.Sending.{
  SocketEnv, handle_send_message, deliver_mutual, deliver_signed, deliver_once, deliver,
  check_replay, enqueue,
}
use etemsg_server.Sockets.Presence.{
  Binding, is_valid_user_id, handle_connect, go_online, broadcast_presence, enqueue_all,
  filter_mutual_contacts, disconnect, push_presence_snapshots,
}
use etemsg_server.Sockets.Grouping.{fan_out, post_message, handle_group_message}
use etemsg_server.Sockets.Delivered.{IsOnce}
use etemsg_server.Sockets.Once.{handle_send_message-IsOnce}
use etemsg_server.Sockets.Steady.{pushes_safe}
use etemsg_server.Sockets.Admitted.{
  IsConnected, handle_connect-Ends, IsPosted, handle_group_message-Ends,
}
use etemsg_server.Handlers.Ends.{Ends-done}

abbrev pick_first : Pick
pick_first [] = ""
pick_first ((n, t) ∷ m) = n

-- A signature is "s", with the key "k".
abbrev env : SocketEnv
env = record {
  base = record {
    crypto = record { sha256 = λ x. x; is_signed = λ k d s. k == "k" && s == "s" };
    pick = pick_first;
    now = 5;
    now_ms = 1000;
    now_s = 1;
    decode_base64 = λ t. some [];
    encode_base64 = λ bs. "";
    sha256_hex = λ bs. "h";
    equal_fold = λ a b. a == b;
    to_lower = λ t. t;
  };
  timestamp = 7;
  generated_id = "g1";
  format_float = λ x. "0";
  format_bits = λ x. "0";
}

abbrev gid : String
gid = "abcdefghij"

abbrev member : String → Role → GroupMember
member user role = record {
  group_id = gid;
  user_id = user;
  role = role;
  joined_epoch = pos 0;
  joined_at = 1;
}

abbrev start : Server
start = record {
  accounts = record no_accounts {
    users =
        record { user_id = "ann"; public_key = "k"; created_at = 1 }
        ∷ record { user_id = "bob"; public_key = "k"; created_at = 1 }
        ∷ [];
    contacts =
        record { user_id = "ann"; contact_id = "bob" }
        ∷ record { user_id = "bob"; contact_id = "ann" }
        ∷ [];
    auth_tokens = record { user_id = "bob"; token = "t"; expires_at = 9 } ∷ [];
  };
  groups = record no_groups {
    groups =
        record {
          group_id = gid;
          name_enc = [];
          creator = "ann";
          state = GroupState.active;
          current_epoch = pos 0;
          min_seq = 0;
          created_at = 1;
        }
        ∷ [];
    members = member "ann" Role.owner ∷ member "bob" Role.member ∷ [];
  };
  seen = [];
  replay = [];
  session = new_manager;
}

abbrev unbound : String
unbound = ""

abbrev bob : ConnectPayload
bob = record { user_id = " bob"; token = "t" }

abbrev bound_bob : Binding
bound_bob = record { user = "bob"; ch = 0; generation = 1 }

abbrev connected : Server
connected = (handle_connect env.base unbound (some bob) start).1

connected_run :
    handle_connect env.base unbound (some bob) start ≡ (Outcome.done bound_bob, connected)
unfolding handle_connect or_refuse refuse_when gets asks pure ◌>>=◌ is_valid_user_id user_exists
    get_token go_online set_online new_manager broadcast_presence enqueue_all filter_mutual_contacts
    enqueue enqueue_message lookup put trim_space contacts_of mutual_contact_ids dec_text close_old
connected_run = refl

handle_connect-Ends_example :
    IsConnected env.base unbound bob start bound_bob connected.session.users
handle_connect-Ends_example =
    Ends-done start.session.users (IsConnected env.base unbound bob start) (λ z. z.session.users) _
      bound_bob connected connected_run (handle_connect-Ends env.base unbound bob start)

abbrev hello : SendMessagePayload
hello = record {
  to = "bob";
  ciphertext = "c";
  iv = "i";
  tag = "t";
  msg_id = "m1";
  timestamp = 0;
  msg_type = "";
  file_id = "";
  filename = "";
  size = 0;
  sha256 = "";
  wrapped_key = "w";
  signature = "s";
}

abbrev hello_ack : SendMessageAck
hello_ack = record { msg_id = "m1"; to = "bob"; delivered = true; timestamp = 7; error = none }

abbrev after_hello : Server
after_hello = (handle_send_message env "ann" (some hello) connected).1

hello_sent :
    handle_send_message env "ann" (some hello) connected ≡ (Outcome.done hello_ack, after_hello)
unfolding handle_send_message deliver_mutual deliver_signed deliver_once deliver check_replay
    is_replay is_mutual_contact get_public_key message_digest is_online handle_connect or_refuse
    refuse_when gets asks pure ◌>>=◌ is_valid_user_id user_exists get_token go_online set_online
    new_manager broadcast_presence enqueue_all filter_mutual_contacts enqueue enqueue_message lookup
    put erase trim_space contacts_of mutual_contact_ids dec_text close_old try_send
hello_sent = refl

handle_send_message-IsOnce_example :
    IsOnce env "ann" (trim_space hello.to) hello connected after_hello hello_ack
handle_send_message-IsOnce_example =
    handle_send_message-IsOnce env "ann" hello connected after_hello hello_ack hello_sent

abbrev post : GroupMessagePayload
post = record {
  group_id = gid;
  epoch = pos 0;
  ciphertext = "c";
  msg_id = "m1";
  msg_type = "";
  file_id = "";
  signature = "s";
}

abbrev posted : GroupMessageResponse
posted = record { msg_id = "m1"; seq = 1 }

abbrev after_post : Server
after_post = (handle_group_message env.base "bob" (some post) start).1

post_run : handle_group_message env.base "bob" (some post) start ≡ (Outcome.done posted, after_post)
unfolding handle_group_message post_message fan_out is_online load_active_group
    load_active_group_member store get_group get_group_member group_member_ids append_group_message
    max_group_message_seq get_public_key message_digest or_refuse refuse_when gets asks pure ◌>>=◌
    enqueue enqueue_message new_manager lookup put erase trim_space format_int digits dec_text
    is_group_id
post_run = refl

handle_group_message-Ends_example : IsPosted env.base "bob" post start posted after_post.groups
handle_group_message-Ends_example =
    Ends-done start.groups (IsPosted env.base "bob" post start) (λ z. z.groups) _ posted after_post
      post_run (handle_group_message-Ends env.base "bob" post start)

pushes_safe_example :
    IsFine start (handle_group_message env.base "bob" (some post) start)
    × IsFine start (disconnect "bob" 0 start)
    × IsFine start (push_presence_snapshots start)
pushes_safe_example = pushes_safe env.base "bob" (some post) 0 start new_manager-IsValid
