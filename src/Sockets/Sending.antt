-- ===== src/Sockets/Sending.antt =====
-- handler/ws.go, handleSendMessage: a message to one user, to their session or their offline queue.
use etemsg_server.Base.{
  ℕ, ◌^◌, String, Bool, true, false, ◌||◌, Option, none, some, List, [], ◌∷◌, Result, ok, err, ◌==◌,
  ◌=ℕ◌, trim_space, if◌then◌else◌,
}
use etemsg_server.Errors.{Error}
use etemsg_server.Accounts.State.{Accounts, OfflineMessage}
use etemsg_server.Accounts.Users.{get_public_key, is_mutual_contact}
use etemsg_server.Accounts.Offline.{push_offline_msg}
use etemsg_server.Session.Steps.{Manager, Panic, is_online, enqueue_message}
use etemsg_server.Auth.Nonces.{is_replay}
use etemsg_server.Auth.Signed.{message_digest}
use etemsg_server.Handlers.Wire.Pushes.{Push, NewMessagePayload}
use etemsg_server.Handlers.Server.{
  Server, Env, Code, Outcome, Action, pure, gets, asks, or_refuse, ◌>>=◌, ◌>>◌, refuse_when,
}
use etemsg_server.Sockets.Frames.{SendMessagePayload, SendMessageAck}

-- Beside the clocks of Env: `utils.CurrentTimestamp()`, `utils.GenerateMsgID()` (a random number),
-- and `strconv` on a float64 and on the bits of an int64.
pub record SocketEnv : Type 0 where
  pub base : Env
  pub timestamp : ℕ
  pub generated_id : String
  pub format_float : ℕ → String
  pub format_bits : ℕ → String

abbrev pub ack : SocketEnv → String → String → Bool → Option Code → SendMessageAck
ack env msg_id target delivered error = record {
  msg_id = msg_id;
  to = target;
  delivered = delivered;
  timestamp = env.timestamp;
  error = error;
}

-- `rejectAck`
abbrev pub reject : SocketEnv → String → String → Code → Action SendMessageAck
reject env msg_id target code = pure (ack env msg_id target false (some code))

abbrev pub message_id : SocketEnv → SendMessagePayload → String
message_id env p = if p.msg_id == "" then env.generated_id else p.msg_id

-- `ts == 0` holds of both zeros of a float64.
abbrev pub message_time : SocketEnv → SendMessagePayload → ℕ
message_time env p =
    if p.timestamp =ℕ 0 || p.timestamp =ℕ 2 ^ 63 then env.timestamp else p.timestamp

abbrev pub new_push : SocketEnv → String → SendMessagePayload → NewMessagePayload
new_push env sender p = record {
  from = sender;
  ciphertext = p.ciphertext;
  iv = p.iv;
  tag = p.tag;
  msg_id = message_id env p;
  timestamp = message_time env p;
  msg_type = p.msg_type;
  file_id = p.file_id;
  filename = p.filename;
  size = p.size;
  sha256 = p.sha256;
  wrapped_key = p.wrapped_key;
  signature = p.signature;
}

abbrev pub offline_copy : SocketEnv → String → SendMessagePayload → OfflineMessage
offline_copy env sender p = record {
  from = sender;
  ciphertext = p.ciphertext;
  iv = p.iv;
  tag = p.tag;
  msg_id = message_id env p;
  timestamp = message_time env p;
  msg_type = p.msg_type;
  file_id = p.file_id;
  filename = p.filename;
  size = p.size;
  sha256 = p.sha256;
  wrapped_key = p.wrapped_key;
  signature = p.signature;
}

-- The fields that the signature of a message covers.
abbrev pub message_fields : SocketEnv → String → String → SendMessagePayload → List String
message_fields env sender target p =
    message_id env p
    ∷ target
    ∷ sender
    ∷ env.format_float (message_time env p)
    ∷ p.msg_type
    ∷ p.ciphertext
    ∷ p.iv
    ∷ p.tag
    ∷ p.wrapped_key
    ∷ p.file_id
    ∷ p.filename
    ∷ env.format_bits p.size
    ∷ p.sha256
    ∷ []

abbrev pub enqueue_outcome : Server → Result Panic (Manager Push × Bool) → Outcome Bool × Server
enqueue_outcome s (err p) = (Outcome.panicked p, s)
enqueue_outcome s (ok (session, sent)) = (Outcome.done sent, record s { session = session })

unfoldable pub enqueue : String → Push → Action Bool
enqueue user push s = enqueue_outcome s (enqueue_message user push s.session)

-- `msgID != "" && h.isReplay(senderID, msgID)`
unfoldable pub check_replay : SocketEnv → String → String → Action Bool
check_replay env sender msg_id s =
    if msg_id == ""
    then (Outcome.done false, s)
    else (let (replay, seen) = is_replay env.base.pick env.base.now s.replay sender msg_id in
        (Outcome.done seen, record s { replay = replay }))

abbrev pub offline_failure : SocketEnv → String → String → Error → Outcome SendMessageAck
offline_failure env msg_id target Error.offline_queue_full =
    Outcome.done (ack env msg_id target false (some Code.offline_queue_full))
offline_failure env msg_id target _ = Outcome.refused Code.internal_error

abbrev pub stored_offline :
    SocketEnv → String → String → Server → Result Error Accounts → Outcome SendMessageAck × Server
stored_offline env msg_id target s (err e) = (offline_failure env msg_id target e, s)
stored_offline env msg_id target s (ok db) =
    (Outcome.done (ack env msg_id target false none), record s { accounts = db })

unfoldable pub store_offline : SocketEnv → String → OfflineMessage → Action SendMessageAck
store_offline env target m s =
    stored_offline env m.msg_id target s (push_offline_msg env.base.now_s s.accounts target m)

-- To the session of a user who is online, or else to the offline queue, as where the session's
-- queue is full.
unfoldable pub deliver : SocketEnv → String → String → SendMessagePayload → Action SendMessageAck
deliver env sender target p = do
  online ← gets (λ s. is_online target s.session)
  enqueued ←
      if online then enqueue target (Push.new_message (new_push env sender p)) else pure false
  if enqueued
      then pure (ack env (message_id env p) target true none)
      else store_offline env target (offline_copy env sender p)

unfoldable pub deliver_once :
    SocketEnv → String → String → SendMessagePayload → Action SendMessageAck
deliver_once env sender target p = do
  replay ← check_replay env sender (message_id env p)
  if replay
      then reject env (message_id env p) target Code.duplicate_msg_id
      else deliver env sender target p

unfoldable pub deliver_signed :
    SocketEnv → String → String → SendMessagePayload → Action SendMessageAck
deliver_signed env sender target p = do
  key ← asks (λ _. Code.internal_error) (λ s. get_public_key s.accounts sender)
  if env.base.crypto.is_signed key
        (message_digest env.base.crypto (message_fields env sender target p)) p.signature
      then deliver_once env sender target p
      else reject env (message_id env p) target Code.signature_invalid

unfoldable pub deliver_mutual :
    SocketEnv → String → String → SendMessagePayload → Action SendMessageAck
deliver_mutual env sender target p =
    if p.wrapped_key == "" || p.iv == "" || p.tag == ""
    then reject env p.msg_id target Code.message_not_encrypted
    else if p.signature == ""
    then reject env (message_id env p) target Code.signature_invalid
    else deliver_signed env sender target p

-- `sender` is the user that the connection is bound to, "" before it is; the payload is `none` where
-- it does not parse.
unfoldable pub handle_send_message :
    SocketEnv → String → Option SendMessagePayload → Action SendMessageAck
handle_send_message env sender payload = do
  refuse_when (sender == "") Code.unauthorized
  p ← or_refuse payload Code.missing_payload
  let target = trim_space p.to
  refuse_when (target == "") Code.missing_payload
  refuse_when (if p.msg_type == "file" then p.file_id == "" else p.ciphertext == "")
      Code.missing_payload
  refuse_when (target == sender) Code.invalid_contact
  both ← gets (λ s. is_mutual_contact s.accounts sender target)
  if both
      then deliver_mutual env sender target p
      else reject env (message_id env p) target Code.not_mutual
