-- ===== src/Handlers/Messages.antt =====
-- handler/http_groups.go: the endpoints of the message queue.
use etemsg_server.Base.{
  ℕ, ℤ, pos, negsuc, String, ◌||◌, not, [], ◌∷◌, map, ◌==◌, ◌=ℕ◌, ltb, int_ltb, int_eq, trim_space,
  if◌then◌else◌,
}
use Prim.Native.String.{len}
use etemsg_server.Errors.{Error}
use etemsg_server.Groups.State.{GroupMessage}
use etemsg_server.Groups.Messages.{
  append_group_message, list_group_messages, max_group_message_seq, upsert_group_cursor,
  get_group_cursor,
}
use etemsg_server.Handlers.Wire.Requests.{
  GroupMessageSendRequest, GroupMessageListRequest, GroupMessageAckRequest,
}
use etemsg_server.Handlers.Wire.Responses.{
  GroupMessageResponse, GroupMessageInfo, GroupMessagesResponse, GroupMessageAckResponse,
}
use etemsg_server.Handlers.Server.{
  Env, Code, Action, pure, gets, ◌>>=◌, ◌>>◌, refuse_when, store, no_value,
}
use etemsg_server.Handlers.Texts.{
  format_int, max_group_msg_len, default_message_page, max_message_page,
}
use etemsg_server.Handlers.Access.{signed, load_active_group_member, notify_group}

abbrev message_code : Error → Code
message_code Error.duplicate_group_msg = Code.duplicate_msg_id
message_code _ = Code.db_unavailable

abbrev pub new_message : GroupMessageSendRequest → String → GroupMessage
new_message req gid = record {
  group_id = gid;
  seq = 0;
  epoch = req.epoch;
  sender = trim_space req.user_id;
  msg_id = trim_space req.msg_id;
  ciphertext = req.ciphertext;
  msg_type = req.msg_type;
  file_id = req.file_id;
  timestamp = format_int req.timestamp;
  created_at = 0;
}

unfoldable pub send_message : Env → GroupMessageSendRequest → String → Action GroupMessageResponse
send_message env req gid = do
  let m : GroupMessage = new_message req gid
  refuse_when (m.sender == "" || m.msg_id == "" || req.ciphertext == "") Code.missing_payload
  signed env m.sender
      (gid ∷ m.msg_id ∷ format_int req.epoch ∷ req.ciphertext ∷ req.msg_type ∷ req.file_id ∷ [])
      req.timestamp req.nonce req.signature
  refuse_when (ltb max_group_msg_len (len req.ciphertext)) Code.payload_too_large
  (g, member) ← load_active_group_member gid m.sender
  refuse_when (int_ltb req.epoch member.joined_epoch) Code.epoch_before_join
  refuse_when (not (int_eq req.epoch g.current_epoch)) Code.epoch_mismatch
  seq ← store message_code (λ db. append_group_message env.now_s db m)
  notify_group gid "message" m.sender
  pure (record { msg_id = m.msg_id; seq = seq })

abbrev pub clamp_page : ℕ → ℕ
clamp_page n = if ltb max_message_page n then max_message_page else n

-- `limit` of the request, on a machine whose `int` has 64 bits
unfoldable pub page_size : ℤ → ℕ
page_size (negsuc n) = default_message_page
page_size (pos n) = if n =ℕ 0 then default_message_page else clamp_page n

-- `since`, raised to the floor of the queue
unfoldable pub resume_from : ℤ → ℕ → ℕ
resume_from (negsuc n) min_seq = min_seq
resume_from (pos n) min_seq = if ltb n min_seq then min_seq else n

abbrev pub message_out : GroupMessage → GroupMessageInfo
message_out m = record {
  seq = m.seq;
  epoch = m.epoch;
  sender = m.sender;
  msg_id = m.msg_id;
  ciphertext = m.ciphertext;
  msg_type = m.msg_type;
  file_id = m.file_id;
  timestamp = m.timestamp;
  created_at = m.created_at;
}

unfoldable pub list_messages : Env → GroupMessageListRequest → String → Action GroupMessagesResponse
list_messages env req gid = do
  let user = trim_space req.user_id
  refuse_when (user == "") Code.missing_payload
  signed env user (gid ∷ format_int req.since_seq ∷ []) req.timestamp req.nonce req.signature
  (g, member) ← load_active_group_member gid user
  let since = resume_from req.since_seq g.min_seq
  messages ← gets (λ s. list_group_messages s.groups gid since (page_size req.limit))
  pure (record { messages = map message_out messages; min_seq = g.min_seq; my_role = member.role })

-- `last_seq` where it is not negative
abbrev pub as_seq : ℤ → ℕ
as_seq (pos n) = n
as_seq (negsuc n) = 0

unfoldable pub ack_messages : Env → GroupMessageAckRequest → String → Action GroupMessageAckResponse
ack_messages env req gid = do
  let user = trim_space req.user_id
  refuse_when (user == "") Code.missing_payload
  signed env user (gid ∷ format_int req.last_seq ∷ []) req.timestamp req.nonce req.signature
  _ ← load_active_group_member gid user
  refuse_when (int_ltb req.last_seq (pos 0)) Code.invalid_last_seq
  max_seq ← gets (λ s. max_group_message_seq s.groups gid)
  refuse_when (int_ltb (pos max_seq) req.last_seq) Code.seq_out_of_range
  store (λ _. Code.db_unavailable)
      (λ db. no_value (upsert_group_cursor env.now_s db user gid (as_seq req.last_seq)))
  cursor ← gets (λ s. get_group_cursor s.groups user gid)
  pure (record { last_seq = cursor })
