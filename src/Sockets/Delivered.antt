-- ===== src/Sockets/Delivered.antt =====
-- What happens to a message that handleSendMessage of handler/ws.go delivers or stores.
use etemsg_server.Base.{
  ℕ, String, Bool, true, false, none, some, List, ok, ◌≡◌, refl, sym, ◌∙◌, ap, ◌⊎◌, inl, inr, arith,
  Option-cases, Result-cases, get_elem?, if◌then◌else◌,
}
use etemsg_server.Base.Map.{lookup}
use etemsg_server.Errors.{Error}
use etemsg_server.Accounts.Offline.{push_offline_msg}
use etemsg_server.Session.Steps.{Manager, Channel, try_send, is_online, enqueue_message}
use etemsg_server.Handlers.Wire.Pushes.{Push}
use etemsg_server.Handlers.Server.{Server, Code, Outcome, Action, pure}
use etemsg_server.Handlers.Done.{bind_done, gets_done, pure_done}
use etemsg_server.Sockets.Frames.{SendMessagePayload, SendMessageAck}
use etemsg_server.Sockets.Sending.{
  SocketEnv, ack, message_id, new_push, offline_copy, enqueue, store_offline, offline_failure,
  deliver,
}

module _ {A : Type 0} where
  try_send_dropped :
      (ch : ℕ) (msg : A) (heap heap' : List (Channel A))
      → try_send ch msg heap ≡ ok (heap', false)
      → heap' ≡ heap
  unfolding try_send
  try_send_dropped ch msg heap heap' h = elim (Option-cases (get_elem? heap ch)) [
    | inl e ↦ ground arith
    | inr (c, e) ↦ ground arith
  ]

  -- A message that is dropped leaves the manager as it is.
  pub enqueue_message_dropped :
      (user : String) (msg : A) (m m' : Manager A)
      → enqueue_message user msg m ≡ ok (m', false)
      → m' ≡ m
  unfolding enqueue_message
  enqueue_message_dropped user msg m m' h = elim (Option-cases (lookup user m.users)) [
    | inl e ↦ ground arith
    | inr (u, e) ↦ elim (Result-cases (try_send u.ch msg m.channels)) [
      | inl (p, bad) ↦ absurd (ground arith)
      | inr ((heap, true), good) ↦ absurd (ground arith)
      | inr ((heap, false), good) ↦
          let same = try_send_dropped u.ch msg m.channels heap good in ground (arith, same)
    ]
  ]

-- What an answer says happened, of a message to `target`.
pub record IsDelivered (env : SocketEnv) (sender target : String) (p : SendMessagePayload)
    (s s' : Server) (a : SendMessageAck) : Type 0 where
  pub accepted : a.error ≡ none
  pub delivered : a.delivered ≡ true
  pub queued :
      enqueue_message target (Push.new_message (new_push env sender p)) s.session
      ≡ ok (s'.session, true)
  pub not_stored : s'.accounts ≡ s.accounts

pub record IsStored (env : SocketEnv) (sender target : String) (p : SendMessagePayload)
    (s s' : Server) (a : SendMessageAck) : Type 0 where
  pub accepted : a.error ≡ none
  pub waiting : a.delivered ≡ false
  pub stored :
      push_offline_msg env.base.now_s s.accounts target (offline_copy env sender p) ≡ ok s'.accounts
  pub not_queued : s'.session ≡ s.session

pub record IsRefused (s s' : Server) (a : SendMessageAck) : Type 0 where
  pub code : Code
  pub refused : a.error ≡ some code
  pub not_delivered : a.delivered ≡ false
  pub not_stored : s'.accounts ≡ s.accounts
  pub not_queued : s'.session ≡ s.session

abbrev pub IsOnce :
    SocketEnv → String → String → SendMessagePayload → Server → Server → SendMessageAck → Type 0
IsOnce env sender target p s s' a =
    (s'.groups ≡ s.groups)
    × (IsDelivered env sender target p s s' a
        ⊎ (IsStored env sender target p s s' a ⊎ IsRefused s s' a))

pub refused-IsOnce :
    (env : SocketEnv) (sender target : String) (p : SendMessagePayload) (s s' : Server)
    (a : SendMessageAck) (code : Code) {id : String}
    → ack env id target false (some code) ≡ a
    → s ≡ s'
    → IsOnce env sender target p s s' a
refused-IsOnce env sender target p s s' a code answer same = (
  ap (λ z. z.groups) (sym same),
  inr (
      inr (record {
        code = code;
        refused = ap (λ x. x.error) (sym answer);
        not_delivered = ap (λ x. x.delivered) (sym answer);
        not_stored = ap (λ z. z.accounts) (sym same);
        not_queued = ap (λ z. z.session) (sym same);
      })),
)

offline_failure_cases :
    (env : SocketEnv) (msg_id target : String) (c : Error)
    → (offline_failure env msg_id target c
        ≡ Outcome.done (ack env msg_id target false (some Code.offline_queue_full)))
      ⊎ (offline_failure env msg_id target c ≡ Outcome.refused Code.internal_error)
offline_failure_cases env msg_id target c = ground arith

store_offline-IsOnce :
    (env : SocketEnv) (sender target : String) (p : SendMessagePayload) (s s' : Server)
    (a : SendMessageAck)
    → store_offline env target (offline_copy env sender p) s ≡ (Outcome.done a, s')
    → IsOnce env sender target p s s' a
unfolding store_offline pure
store_offline-IsOnce env sender target p s s' a h =
    elim (Result-cases
      (push_offline_msg env.base.now_s s.accounts target (offline_copy env sender p))) [
        | inl (c, e) ↦ elim (offline_failure_cases env (message_id env p) target c) [
          | inr bad ↦ absurd (cc (e, bad, h))
          | inl full ↦
              let (answer, same) =
                pure_done (ack env (message_id env p) target false (some Code.offline_queue_full)) a
                  s s' (cc (e, full, h)) in
              refused-IsOnce env sender target p s s' a _ answer same
        ]
        | inr (db, e) ↦
            let (answer, after) =
              pure_done (ack env (message_id env p) target false none) a
                (record s { accounts = db }) s' (cc (e, h)) in
            (
              ap (λ z. z.groups) (sym after),
              inr (
                  inl (record {
                    accepted = ap (λ x. x.error) (sym answer);
                    waiting = ap (λ x. x.delivered) (sym answer);
                    stored = e ∙ ap (λ z. ok z.accounts) after;
                    not_queued = ap (λ z. z.session) (sym after);
                  })),
            )
      ]

-- The attempt to enqueue a message: it was sent to the session, or nothing happened.
tried :
    (online : Bool) (target : String) (push : Push) (s : Server) (sent : Bool)
    → ((if online then enqueue target push else pure false) s).0 ≡ Outcome.done sent
    → ((m : Manager Push) × (sent ≡ true)
        × (enqueue_message target push s.session ≡ ok (m, true))
        × (((if online then enqueue target push else pure false) s).1 ≡ record s { session = m }))
      ⊎ ((sent ≡ false) × (((if online then enqueue target push else pure false) s).1 ≡ s))
unfolding enqueue pure
tried false target push s sent h = inr (ground arith, refl)
tried true target push s sent h = elim (Result-cases (enqueue_message target push s.session)) [
  | inl (p, bad) ↦ absurd (ground arith)
  | inr ((m, true), good) ↦ inl (m, ground arith, good, rw good refl)
  | inr ((m, false), good) ↦
      let same = enqueue_message_dropped target push s.session m good in
      inr (ground arith, rw good (ap (λ session. record s { session = session }) same))
]

pub deliver_lem :
    (env : SocketEnv) (sender target : String) (p : SendMessagePayload) (s s' : Server)
    (a : SendMessageAck)
    → deliver env sender target p s ≡ (Outcome.done a, s')
    → IsOnce env sender target p s s' a
unfolding deliver
deliver_lem env sender target p s s' a h =
    let push = Push.new_message (new_push env sender p) in
    let online = is_online target s.session in
    let h1 = gets_done (λ z. is_online target z.session) _ s s' a h in
    let k : Bool → Action SendMessageAck = λ b.
      if b
      then pure (ack env (message_id env p) target true none)
      else store_offline env target (offline_copy env sender p) in
    let (sent, e, h2) =
      bind_done (if online then enqueue target push else pure false) _ s s' a h1 in
    elim (tried online target push s sent e) [
      | inl (m, yes_, queued, after) ↦
          let h3 : pure (ack env (message_id env p) target true none) (record s { session = m })
              ≡ (Outcome.done a, s') =
            ap (λ b. k b (record s { session = m })) (sym yes_) ∙ ap (k sent) (sym after) ∙ h2 in
          let (answer, same) = pure_done (ack env (message_id env p) target true none) a _ s' h3 in
          (
            ap (λ z. z.groups) (sym same),
            inl (record {
              accepted = ap (λ x. x.error) (sym answer);
              delivered = ap (λ x. x.delivered) (sym answer);
              queued = queued ∙ ap (λ z. ok (z.session, true)) same;
              not_stored = ap (λ z. z.accounts) (sym same);
            }),
          )
      | inr (no_, after) ↦
          store_offline-IsOnce env sender target p s s' a
            (ap (λ b. k b s) (sym no_) ∙ ap (k sent) (sym after) ∙ h2)
    ]
