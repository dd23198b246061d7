-- ===== src/Sockets/Once.antt =====
-- A message that handleSendMessage of handler/ws.go answers is delivered, stored or refused, and no
-- two of these.
use etemsg_server.Base.{
  ℕ, String, Bool, true, false, ◌||◌, some, ◌≡◌, refl, sym, ◌∙◌, ap, subst, inl, inr, arith,
  Bool-cases, ◌==◌, if◌then◌else◌, trim_space,
}
use etemsg_server.Base.Map.{Map}
use etemsg_server.Accounts.Users.{is_mutual_contact}
use etemsg_server.Auth.Nonces.{is_replay}
use etemsg_server.Auth.Signed.{message_digest}
use etemsg_server.Handlers.Server.{Server, Code, Outcome, Action}
use etemsg_server.Handlers.Done.{
  bind_done, gets_done, pure_done, refuse_when_done, asks_done, or_refuse_done,
}
use etemsg_server.Sockets.Frames.{SendMessagePayload, SendMessageAck}
use etemsg_server.Sockets.Sending.{
  SocketEnv, ack, message_id, message_fields, check_replay, deliver, deliver_once, deliver_signed,
  deliver_mutual, handle_send_message, reject,
}
use etemsg_server.Sockets.Delivered.{IsOnce, refused-IsOnce, deliver_lem}

check_replay_kept :
    (env : SocketEnv) (sender msg_id : String) (s : Server)
    → (replay : Map (Map ℕ)) × ((check_replay env sender msg_id s).1 ≡ record s { replay = replay })
unfolding check_replay
check_replay_kept env sender msg_id s = elim (Bool-cases (msg_id == "")) [
  | inl none_ ↦ (s.replay, rw none_ refl)
  | inr some_ ↦ ((is_replay env.base.pick env.base.now s.replay sender msg_id).0, rw some_ refl)
]

forget_replay :
    (env : SocketEnv) (sender target : String) (p : SendMessagePayload) (s s' : Server)
    (a : SendMessageAck) (replay : Map (Map ℕ))
    → IsOnce env sender target p (record s { replay = replay }) s' a
    → IsOnce env sender target p s s' a
forget_replay env sender target p s s' a replay (groups, out) = (
  groups,
  elim out [
    | inl d ↦ inl (record {
      accepted = d.accepted;
      delivered = d.delivered;
      queued = d.queued;
      not_stored = d.not_stored;
    })
    | inr (inl w) ↦ inr (
        inl (record {
          accepted = w.accepted;
          waiting = w.waiting;
          stored = w.stored;
          not_queued = w.not_queued;
        }))
    | inr (inr r) ↦ inr (
        inr (record {
          code = r.code;
          refused = r.refused;
          not_delivered = r.not_delivered;
          not_stored = r.not_stored;
          not_queued = r.not_queued;
        }))
  ],
)

rejected-IsOnce :
    (env : SocketEnv) (sender target id : String) (p : SendMessagePayload) (s s' : Server)
    (a : SendMessageAck) (code : Code)
    → reject env id target code s ≡ (Outcome.done a, s')
    → IsOnce env sender target p s s' a
rejected-IsOnce env sender target id p s s' a code h =
    let (answer, same) = pure_done (ack env id target false (some code)) a s s' h in
    refused-IsOnce env sender target p s s' a code answer same

choose :
    (env : SocketEnv) (sender target id : String) (p : SendMessagePayload) (s s' : Server)
    (a : SendMessageAck) (code : Code) (b : Bool) (m : Action SendMessageAck)
    → (m s ≡ (Outcome.done a, s') → IsOnce env sender target p s s' a)
    → (if b then reject env id target code else m) s ≡ (Outcome.done a, s')
    → IsOnce env sender target p s s' a
choose env sender target id p s s' a code true m next h =
    rejected-IsOnce env sender target id p s s' a code h
choose env sender target id p s s' a code false m next h = next h

deliver_once_lem :
    (env : SocketEnv) (sender target : String) (p : SendMessagePayload) (s s' : Server)
    (a : SendMessageAck)
    → deliver_once env sender target p s ≡ (Outcome.done a, s')
    → IsOnce env sender target p s s' a
unfolding deliver_once
deliver_once_lem env sender target p s s' a h =
    let (seen, e, h1) = bind_done (check_replay env sender (message_id env p)) _ s s' a h in
    let (replay, after) = check_replay_kept env sender (message_id env p) s in
    let s1 : Server = record s { replay = replay } in
    forget_replay env sender target p s s' a replay (
      choose env sender target (message_id env p) p s1 s' a Code.duplicate_msg_id seen
        (deliver env sender target p) (deliver_lem env sender target p s1 s' a)
        (ap
            (if seen
              then reject env (message_id env p) target Code.duplicate_msg_id
              else deliver env sender target p)
            (sym after)
          ∙ h1))

choose_else :
    (env : SocketEnv) (sender target id : String) (p : SendMessagePayload) (s s' : Server)
    (a : SendMessageAck) (code : Code) (b : Bool) (m : Action SendMessageAck)
    → (m s ≡ (Outcome.done a, s') → IsOnce env sender target p s s' a)
    → (if b then m else reject env id target code) s ≡ (Outcome.done a, s')
    → IsOnce env sender target p s s' a
choose_else env sender target id p s s' a code true m next h = next h
choose_else env sender target id p s s' a code false m next h =
    rejected-IsOnce env sender target id p s s' a code h

deliver_mutual_lem :
    (env : SocketEnv) (sender target : String) (p : SendMessagePayload) (s s' : Server)
    (a : SendMessageAck)
    → deliver_mutual env sender target p s ≡ (Outcome.done a, s')
    → IsOnce env sender target p s s' a
unfolding deliver_mutual deliver_signed
deliver_mutual_lem env sender target p s s' a h =
    choose env sender target p.msg_id p s s' a Code.message_not_encrypted
      (p.wrapped_key == "" || p.iv == "" || p.tag == "")
      (if p.signature == ""
        then reject env (message_id env p) target Code.signature_invalid
        else deliver_signed env sender target p)
      (choose env sender target (message_id env p) p s s' a Code.signature_invalid
        (p.signature == "") (deliver_signed env sender target p)
        (λ h1.
          let (key, found, h2) = asks_done _ _ _ s s' a h1 in
          choose_else env sender target (message_id env p) p s s' a Code.signature_invalid
            (env.base.crypto.is_signed key
              (message_digest env.base.crypto (message_fields env sender target p)) p.signature)
            (deliver_once env sender target p) (deliver_once_lem env sender target p s s' a) h2))
      h

-- Whatever a connection sends as a message, its answer says what happened: it is in the queue of the
-- receiver's session and nowhere else, or it waits in their offline queue and nowhere else, or it
-- carries an error and neither queue has changed. The groups are as they were.
pub handle_send_message-IsOnce :
    (env : SocketEnv) (sender : String) (p : SendMessagePayload) (s s' : Server)
    (a : SendMessageAck)
    → handle_send_message env sender (some p) s ≡ (Outcome.done a, s')
    → IsOnce env sender (trim_space p.to) p s s' a
unfolding handle_send_message
handle_send_message-IsOnce env sender p s s' a h =
    let (_, h1) = refuse_when_done _ _ _ s s' a h in
    let (q, e, h2) = or_refuse_done (some p) _ _ s s' a h1 in
    let same : q ≡ p = ground arith in
    let (_, h3) = refuse_when_done _ _ _ s s' a h2 in
    let (_, h4) = refuse_when_done _ _ _ s s' a h3 in
    let (_, h5) = refuse_when_done _ _ _ s s' a h4 in
    let h6 = gets_done _ _ s s' a h5 in
    subst (λ x. IsOnce env sender (trim_space x.to) x s s' a) same
      (choose_else env sender (trim_space q.to) (message_id env q) q s s' a Code.not_mutual
        (is_mutual_contact s.accounts sender (trim_space q.to))
        (deliver_mutual env sender (trim_space q.to) q)
        (deliver_mutual_lem env sender (trim_space q.to) q s s' a) h6)
