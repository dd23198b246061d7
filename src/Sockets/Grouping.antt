-- ===== src/Sockets/Grouping.antt =====
-- handler/ws.go, handleGroupMessage: a message to a group, stored once and pushed to its members.
use etemsg_server.Base.{
  ℕ, String, ◌||◌, not, Option, List, [], ◌∷◌, ◌==◌, ltb, int_ltb, int_eq, trim_space,
  if◌then◌else◌,
}
use Prim.Native.String.{len}
use etemsg_server.Errors.{Error}
use etemsg_server.Accounts.Users.{get_public_key}
use etemsg_server.Groups.State.{GroupMessage}
use etemsg_server.Groups.Roster.{group_member_ids}
use etemsg_server.Groups.Messages.{append_group_message}
use etemsg_server.Session.Steps.{is_online}
use etemsg_server.Auth.Signed.{message_digest}
use etemsg_server.Handlers.Wire.Requests.{GroupMessagePayload}
use etemsg_server.Handlers.Wire.Responses.{GroupMessageResponse, GroupNewMessagePayload}
use etemsg_server.Handlers.Wire.Pushes.{Push}
use etemsg_server.Handlers.Server.{
  Env, Code, Action, pure, gets, asks, or_refuse, ◌>>=◌, ◌>>◌, refuse_when, store,
}
use etemsg_server.Handlers.Texts.{is_group_id, format_int, max_group_msg_len}
use etemsg_server.Handlers.Access.{load_active_group_member}
use etemsg_server.Sockets.Sending.{enqueue}

abbrev store_code : Error → Code
store_code Error.duplicate_group_msg = Code.duplicate_msg_id
store_code _ = Code.internal_error

-- The row has no timestamp of the client's.
abbrev pub frame_message : String → GroupMessagePayload → GroupMessage
frame_message sender p = record {
  group_id = trim_space p.group_id;
  seq = 0;
  epoch = p.epoch;
  sender = sender;
  msg_id = trim_space p.msg_id;
  ciphertext = p.ciphertext;
  msg_type = p.msg_type;
  file_id = p.file_id;
  timestamp = "";
  created_at = 0;
}

abbrev pub group_push : GroupMessage → ℕ → GroupNewMessagePayload
group_push m seq = record {
  group_id = m.group_id;
  seq = seq;
  epoch = m.epoch;
  sender = m.sender;
  msg_id = m.msg_id;
  ciphertext = m.ciphertext;
  msg_type = m.msg_type;
  file_id = m.file_id;
}

unfoldable pub fan_out : List String → String → Push → Action (Unit {0})
fan_out [] sender push = pure tt
fan_out (user ∷ users) sender push =
    let rest = fan_out users sender push in
    if user == sender then rest else (do
      online ← gets (λ s. is_online user s.session)
      if online then (enqueue user push >>= λ _. rest) else rest)

-- The message is stored, and then pushed to the members who are online, but not to its sender.
unfoldable pub post_message : Env → String → GroupMessage → Action GroupMessageResponse
post_message env sender m = do
  seq ← store store_code (λ db. append_group_message env.now_s db m)
  users ← gets (λ s. group_member_ids s.groups m.group_id)
  fan_out users sender (Push.group_new_message (group_push m seq))
  pure (record { msg_id = m.msg_id; seq = seq })

unfoldable pub handle_group_message :
    Env → String → Option GroupMessagePayload → Action GroupMessageResponse
handle_group_message env sender payload = do
  refuse_when (sender == "") Code.unauthorized
  p ← or_refuse payload Code.missing_payload
  let m : GroupMessage = frame_message sender p
  refuse_when (m.group_id == "" || m.msg_id == "" || p.ciphertext == "") Code.missing_payload
  refuse_when (not (is_group_id m.group_id)) Code.invalid_group_id
  refuse_when (p.signature == "") Code.signature_required
  refuse_when (ltb max_group_msg_len (len p.ciphertext)) Code.payload_too_large
  (g, member) ← load_active_group_member m.group_id sender
  refuse_when (int_ltb p.epoch member.joined_epoch) Code.epoch_before_join
  refuse_when (not (int_eq p.epoch g.current_epoch)) Code.epoch_mismatch
  key ← asks (λ _. Code.internal_error) (λ s. get_public_key s.accounts sender)
  refuse_when
      (not (
        env.crypto.is_signed key
          (message_digest env.crypto (
            m.group_id
            ∷ format_int p.epoch
            ∷ m.msg_id
            ∷ p.ciphertext
            ∷ p.msg_type
            ∷ p.file_id
            ∷ sender
            ∷ []))
          p.signature))
      Code.signature_invalid
  post_message env sender m
