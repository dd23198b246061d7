-- ===== src/Sockets/Admitted.antt =====
-- How the frames of handler/ws.go that connect a user or write to a group end.
use etemsg_server.Base.{
  ◌+◌, ◌^◌, ◌%◌, length, ℕ, ◌≤◌, String, true, false, some, [], ◌∷◌, Result, ok, err, ◌≡◌, refl,
  ◌∙◌, ap, inl, inr, arith, Result-cases, int_ltb, int_eq_path, trim_space,
}
use etemsg_server.Accounts.Users.{user_exists, get_public_key}
use etemsg_server.Accounts.Logins.{get_token}
use etemsg_server.Groups.State.{Group, GroupMember, Groups}
use etemsg_server.Groups.Messages.{append_group_message}
use etemsg_server.Session.Steps.{Manager, Panic, set_online, UserState, close_old}
use etemsg_server.Base.Map.{Map, lookup, put, lookup-put_self}
use etemsg_server.Auth.Signed.{message_digest}
use etemsg_server.Handlers.Wire.Requests.{GroupMessagePayload}
use etemsg_server.Handlers.Wire.Responses.{GroupMessageResponse}
use etemsg_server.Handlers.Wire.Pushes.{Push}
use etemsg_server.Handlers.Server.{Server, Env, pure, ◌>>=◌, ◌>>◌, continue}
use etemsg_server.Handlers.Texts.{format_int}
use etemsg_server.Handlers.Ends.{
  Ends, IsMemberOf, refuse_when-Ends, some-Ends, gets-Ends, asks-Ends,
  load_active_group_member-Ends, store-Ends, told-Ends, told_by,
}
use etemsg_server.Handlers.Effects.{when_not}
use etemsg_server.Sockets.Frames.{ConnectPayload}
use etemsg_server.Sockets.Presence.{
  Binding, go_online, bound, broadcast_presence, handle_connect, is_valid_user_id,
}
use etemsg_server.Sockets.Grouping.{frame_message, post_message, handle_group_message}
use etemsg_server.Sockets.Pushing.{broadcast_presence-IsPush, fan_out-IsPush}

-- What a connection takes, and who is online after it.
pub record IsConnected (env : Env) (current : String) (p : ConnectPayload) (s : Server)
    (b : Binding) (users : Map UserState) : Type 0 where
  pub unbound : current ≡ ""
  pub user : b.user ≡ trim_space p.user_id
  pub well_formed : is_valid_user_id (trim_space p.user_id) ≡ true
  pub registered : user_exists s.accounts (trim_space p.user_id) ≡ true
  pub expires_at : ℕ
  pub token : get_token s.accounts (trim_space p.user_id) ≡ ok (trim_space p.token, expires_at)
  pub live : env.now_s ≤ expires_at
  pub manager : Manager Push
  pub connected : set_online (trim_space p.user_id) s.session ≡ ok (manager, b.ch, b.generation)
  pub kept : users ≡ manager.users
  pub online :
      lookup (trim_space p.user_id) users ≡ some (record { generation = b.generation; ch = b.ch })

set_online-lookup :
    (user : String) (m m' : Manager Push) (ch generation : ℕ)
    → set_online user m ≡ ok (m', ch, generation)
    → lookup user m'.users ≡ some (record { generation = generation; ch = ch })
unfolding set_online
set_online-lookup user m m' ch generation h =
    elim (Result-cases (close_old (lookup user m.users) m.channels)) [
      | inl (p, bad) ↦ absurd (ground arith)
      | inr (heap, good) ↦
          let u : UserState = record { generation = (m.sequence + 1) % 2 ^ 64; ch = length heap } in
          let there : lookup user (put user u m.users) ≡ some u = lookup-put_self user u m.users in
          ground (arith, there)
    ]

-- What is left of a connection once the checks have passed.
welcome-Ends :
    (C : Binding → Map UserState → Type 0) (user : String) (s : Server)
    → ((m : Manager Push) (ch generation : ℕ)
        → set_online user s.session ≡ ok (m, ch, generation)
        → C (record { user = user; ch = ch; generation = generation }) m.users)
    → Ends s.session.users C
        (λ z. z.session.users)
        ((go_online user >>= λ b. broadcast_presence user true >> pure b) s)
unfolding go_online ◌>>=◌ Ends
welcome-Ends C user s rest = by_cases (set_online user s.session) refl
  where
    by_cases :
        (r : Result Panic (Manager Push × ℕ × ℕ))
        → set_online user s.session ≡ r
        → Ends s.session.users C
            (λ z. z.session.users)
            (continue
              (bound user s r).0
              (λ b. broadcast_presence user true >> pure b)
              (bound user s r).1)
    by_cases (err p) h = inl refl
    by_cases (ok (m, ch, generation)) h =
        let s1 : Server = record s { session = m } in
        let push = broadcast_presence-IsPush user true in
        told_by s.session.users C (λ z. z.session.users) (broadcast_presence user true s1).0 s1
          (broadcast_presence user true s1).1 _ (push.unrefused s1) (push.online s1)
          (rest m ch generation h)

-- However a request to connect with a payload that parses ends, who is online changes only where
-- the connection is not bound yet and names a registered user with a well-formed id, with the
-- token that the store holds for them and that has not expired. Then the answer is bound to that
-- user, the session manager has taken them online, and it has them under the channel and the
-- generation of the answer. A refused request leaves who is online as it was.
pub handle_connect-Ends :
    (env : Env) (current : String) (p : ConnectPayload) (s : Server)
    → Ends s.session.users
        (IsConnected env current p s)
        (λ z. z.session.users)
        (handle_connect env current (some p) s)
unfolding handle_connect
handle_connect-Ends env current p s =
    let C = IsConnected env current p s in
    let view : Server → Map UserState = λ z. z.session.users in
    some-Ends s.session.users C view p _ _ s (
      refuse_when-Ends s.session.users C view _ _ _ s refl (λ valid.
        refuse_when-Ends s.session.users C view _ _ _ s refl (λ fresh.
          gets-Ends s.session.users C view _ _ s (
            refuse_when-Ends s.session.users C view _ _ _ s refl (λ known.
              refuse_when-Ends s.session.users C view _ _ _ s refl (λ has_token.
                asks-Ends s.session.users C view _ _ _ s refl (λ t found.
                  refuse_when-Ends s.session.users C view _ _ _ s refl (λ live.
                    refuse_when-Ends s.session.users C view _ _ _ s refl (λ right.
                      welcome-Ends C (trim_space p.user_id) s (λ m ch generation went. record {
                        unbound = ground arith;
                        user = refl;
                        well_formed = when_not _ valid;
                        registered = when_not _ known;
                        expires_at = t.1;
                        token =
                            let same : t.0 ≡ trim_space p.token = ground arith in
                            found ∙ ap (λ x. ok (x, t.1)) same;
                        live = ground arith;
                        manager = m;
                        connected = went;
                        kept = refl;
                        online =
                            set_online-lookup (trim_space p.user_id) s.session m ch generation went;
                      }))))))))))

-- The conditions of a message that a frame writes to a group, and the tables after it.
pub record IsPosted (env : Env) (sender : String) (p : GroupMessagePayload) (s : Server)
    (resp : GroupMessageResponse) (db : Groups) : Type 0 where
  pub group : Group
  pub member : GroupMember
  pub joined : IsMemberOf s.groups (trim_space p.group_id) sender group member
  pub after_join : int_ltb p.epoch member.joined_epoch ≡ false
  pub at_epoch : p.epoch ≡ group.current_epoch
  pub key : String
  pub registered : get_public_key s.accounts sender ≡ ok key
  pub verified :
      env.crypto.is_signed key
        (message_digest env.crypto (
          trim_space p.group_id
          ∷ format_int p.epoch
          ∷ trim_space p.msg_id
          ∷ p.ciphertext
          ∷ p.msg_type
          ∷ p.file_id
          ∷ sender
          ∷ []))
        p.signature
      ≡ true
  pub appended :
      append_group_message env.now_s s.groups (frame_message sender p) ≡ ok (db, resp.seq)

-- However a frame with a payload that parses, to write a message to a group, ends, the group
-- tables change only where the group is active, the user of the connection is a member, the epoch
-- is the current one and none before they joined, and their key verifies a signature over the
-- message and their own id; the tables and the number in the answer are then those of the store's
-- append. A refused frame leaves the tables as they were.
pub handle_group_message-Ends :
    (env : Env) (sender : String) (p : GroupMessagePayload) (s : Server)
    → Ends s.groups
        (IsPosted env sender p s)
        (λ z. z.groups)
        (handle_group_message env sender (some p) s)
unfolding handle_group_message post_message
handle_group_message-Ends env sender p s =
    let C = IsPosted env sender p s in
    let view : Server → Groups = λ z. z.groups in
    refuse_when-Ends s.groups C view _ _ _ s refl (λ _. some-Ends s.groups C view p _ _ s (
      refuse_when-Ends s.groups C view _ _ _ s refl (λ _.
        refuse_when-Ends s.groups C view _ _ _ s refl (λ _.
          refuse_when-Ends s.groups C view _ _ _ s refl (λ _.
            refuse_when-Ends s.groups C view _ _ _ s refl (λ _.
              load_active_group_member-Ends s.groups C (trim_space p.group_id) sender _ s refl
                (λ g m joined. refuse_when-Ends s.groups C view _ _ _ s refl (λ after_join.
                  refuse_when-Ends s.groups C view _ _ _ s refl (λ at_epoch.
                    asks-Ends s.groups C view _ _ _ s refl (λ key known.
                      refuse_when-Ends s.groups C view _ _ _ s refl (λ verified.
                        store-Ends s.groups C _ _ _ s refl (λ seq db stored.
                          let s1 : Server = record s { groups = db } in
                          gets-Ends s.groups C view _ _ s1 (
                            told-Ends s.groups C _ _ s1 (fan_out-IsPush _ sender _) (record {
                              group = g;
                              member = m;
                              joined = joined;
                              after_join = after_join;
                              at_epoch = int_eq_path p.epoch g.current_epoch (when_not _ at_epoch);
                              key = key;
                              registered = known;
                              verified = when_not _ verified;
                              appended = stored;
                            }))))))))))))))
