-- ===== src/Handlers/Effects.antt =====
-- How the endpoints of http_groups.go that append to a group's log or queue end.
use etemsg_server.Base.{
  String, Bool, true, false, not, [], ◌∷◌, ok, ◌≡◌, refl, int_ltb, int_eq_path, trim_space,
}
use etemsg_server.Groups.State.{Group, GroupMember, Groups}
use etemsg_server.Groups.Log.{append_group_commit, append_welcome}
use etemsg_server.Groups.Messages.{append_group_message}
use etemsg_server.Handlers.Wire.Requests.{
  GroupCommitRequest, GroupWelcomeCreateRequest, GroupMessageSendRequest,
}
use etemsg_server.Handlers.Wire.Responses.{
  GroupCommitResponse, GroupWelcomeResponse, GroupMessageResponse,
}
use etemsg_server.Handlers.Server.{Server, Env}
use etemsg_server.Handlers.Texts.{format_int, blob_hash_matches}
use etemsg_server.Handlers.Access.{has_group_role, administrators}
use etemsg_server.Handlers.Guards.{IsAccepted, as_request}
use etemsg_server.Handlers.Ends.{
  Ends, IsMemberOf, refuse_when-Ends, signed-Ends, load_active_group_member-Ends, store-Ends,
  told-Ends,
}
use etemsg_server.Handlers.Pushing.{notify_group-IsPush}
use etemsg_server.Handlers.Log.{create_commit, create_welcome, log_entry}
use etemsg_server.Handlers.Messages.{send_message, new_message}

pub when_not : (b : Bool) → not b ≡ false → b ≡ true
when_not true h = refl
when_not false h = cc

-- What an appended Commit takes: the request is signed, over these fields, by an owner or an admin of
-- the group, which is active; the hash fits the data; the store's `AppendGroupCommit` writes it.
pub record IsCommitted (env : Env) (req : GroupCommitRequest) (gid : String) (s : Server)
    (resp : GroupCommitResponse) (db : Groups) : Type 0 where
  pub accepted : IsAccepted env s (
      as_request
        (trim_space req.user_id)
        (gid
          ∷ format_int req.epoch
          ∷ format_int req.parent_epoch
          ∷ req.kind
          ∷ trim_space req.data_hash
          ∷ [])
        req.timestamp
        req.nonce
        req.signature)
  pub group : Group
  pub member : GroupMember
  pub joined : IsMemberOf s.groups gid (trim_space req.user_id) group member
  pub role : has_group_role member administrators ≡ true
  pub hash : blob_hash_matches env req.commit_b64 (trim_space req.data_hash) ≡ true
  pub appended :
      append_group_commit env.now_s s.groups
        (log_entry env gid req.epoch req.kind
          (trim_space req.user_id)
          ""
          req.commit_b64
          (trim_space req.data_hash))
        req.parent_epoch
      ≡ ok (db, resp.seq)

-- However a request to append a Commit ends, the group tables change only for a request that is signed,
-- over just these fields, by an owner or an admin of the group, which is active, and whose hash fits
-- the data; the tables and the number in the answer are then those of the store's append. A refused
-- request leaves the tables as they were.
pub create_commit-Ends :
    (env : Env) (req : GroupCommitRequest) (gid : String) (s : Server)
    → Ends s.groups (IsCommitted env req gid s) (λ z. z.groups) (create_commit env req gid s)
unfolding create_commit
create_commit-Ends env req gid s =
    let C = IsCommitted env req gid s in
    refuse_when-Ends s.groups C (λ z. z.groups) _ _ _ s refl
      (λ _. signed-Ends s.groups C env _ _ _ _ _ _ s refl (λ accepted seen.
        let s1 : Server = record s { seen = seen } in
        refuse_when-Ends s.groups C (λ z. z.groups) _ _ _ s1 refl
          (λ _. load_active_group_member-Ends s.groups C gid _ _ s1 refl (λ g m joined.
            refuse_when-Ends s.groups C (λ z. z.groups) _ _ _ s1 refl
              (λ role.
                refuse_when-Ends s.groups C (λ z. z.groups) _ _ _ s1 refl
                  (λ hash. store-Ends s.groups C _ _ _ s1 refl (λ seq db appended.
                    told-Ends s.groups C _ _ _ (notify_group-IsPush gid _ _) (record {
                      accepted = accepted;
                      group = g;
                      member = m;
                      joined = joined;
                      role = when_not _ role;
                      hash = when_not _ hash;
                      appended = appended;
                    }))))))))

-- What an appended Welcome takes; it is the store's `AppendWelcome` that writes it.
pub record IsWelcomed (env : Env) (req : GroupWelcomeCreateRequest) (gid : String) (s : Server)
    (resp : GroupWelcomeResponse) (db : Groups) : Type 0 where
  pub accepted : IsAccepted env s (
      as_request
        (trim_space req.user_id)
        (gid ∷ trim_space req.target_user ∷ trim_space req.data_hash ∷ format_int req.epoch ∷ [])
        req.timestamp
        req.nonce
        req.signature)
  pub group : Group
  pub member : GroupMember
  pub joined : IsMemberOf s.groups gid (trim_space req.user_id) group member
  pub role : has_group_role member administrators ≡ true
  pub hash : blob_hash_matches env req.welcome_b64 (trim_space req.data_hash) ≡ true
  pub appended :
      append_welcome env.now_s s.groups (
        log_entry env gid req.epoch "welcome"
          (trim_space req.user_id)
          (trim_space req.target_user)
          req.welcome_b64
          (trim_space req.data_hash))
      ≡ ok (db, resp.seq)

-- However a request to append a Welcome ends, the group tables change only for a request that is
-- signed, over just these fields, by an owner or an admin of the group, which is active, and whose hash
-- fits the data; the tables and the number in the answer are then those of the store's append. A
-- refused request leaves the tables as they were.
pub create_welcome-Ends :
    (env : Env) (req : GroupWelcomeCreateRequest) (gid : String) (s : Server)
    → Ends s.groups (IsWelcomed env req gid s) (λ z. z.groups) (create_welcome env req gid s)
unfolding create_welcome
create_welcome-Ends env req gid s =
    let C = IsWelcomed env req gid s in
    refuse_when-Ends s.groups C (λ z. z.groups) _ _ _ s refl
      (λ _. signed-Ends s.groups C env _ _ _ _ _ _ s refl (λ accepted seen.
        let s1 : Server = record s { seen = seen } in
        refuse_when-Ends s.groups C (λ z. z.groups) _ _ _ s1 refl
          (λ _. load_active_group_member-Ends s.groups C gid _ _ s1 refl (λ g m joined.
            refuse_when-Ends s.groups C (λ z. z.groups) _ _ _ s1 refl
              (λ role.
                refuse_when-Ends s.groups C (λ z. z.groups) _ _ _ s1 refl
                  (λ hash. store-Ends s.groups C _ _ _ s1 refl (λ seq db appended.
                    told-Ends s.groups C _ _ _ (notify_group-IsPush gid _ _) (record {
                      accepted = accepted;
                      group = g;
                      member = m;
                      joined = joined;
                      role = when_not _ role;
                      hash = when_not _ hash;
                      appended = appended;
                    }))))))))

-- What a sent message takes; it is the store's `AppendGroupMessage` that writes it.
pub record IsSent (env : Env) (req : GroupMessageSendRequest) (gid : String) (s : Server)
    (resp : GroupMessageResponse) (db : Groups) : Type 0 where
  pub accepted : IsAccepted env s (
      as_request
        (trim_space req.user_id)
        (gid
          ∷ trim_space req.msg_id
          ∷ format_int req.epoch
          ∷ req.ciphertext
          ∷ req.msg_type
          ∷ req.file_id
          ∷ [])
        req.timestamp
        req.nonce
        req.signature)
  pub group : Group
  pub member : GroupMember
  pub joined : IsMemberOf s.groups gid (trim_space req.user_id) group member
  pub after_join : int_ltb req.epoch member.joined_epoch ≡ false
  pub at_epoch : req.epoch ≡ group.current_epoch
  pub appended : append_group_message env.now_s s.groups (new_message req gid) ≡ ok (db, resp.seq)

-- However a request to send a message ends, the group tables change only for a request that is signed,
-- over just these fields, by a member of the group, which is active, and whose epoch is the group's
-- current one and none before they joined; the tables and the number in the answer are then those of
-- the store's append. A refused request leaves the tables as they were.
pub send_message-Ends :
    (env : Env) (req : GroupMessageSendRequest) (gid : String) (s : Server)
    → Ends s.groups (IsSent env req gid s) (λ z. z.groups) (send_message env req gid s)
unfolding send_message
send_message-Ends env req gid s =
    let C = IsSent env req gid s in
    refuse_when-Ends s.groups C (λ z. z.groups) _ _ _ s refl
      (λ _. signed-Ends s.groups C env _ _ _ _ _ _ s refl (λ accepted seen.
        let s1 : Server = record s { seen = seen } in
        refuse_when-Ends s.groups C (λ z. z.groups) _ _ _ s1 refl
          (λ _. load_active_group_member-Ends s.groups C gid _ _ s1 refl (λ g m joined.
            refuse_when-Ends s.groups C (λ z. z.groups) _ _ _ s1 refl
              (λ after_join.
                refuse_when-Ends s.groups C (λ z. z.groups) _ _ _ s1 refl
                  (λ at_epoch. store-Ends s.groups C _ _ _ s1 refl (λ seq db appended.
                    told-Ends s.groups C _ _ _ (notify_group-IsPush gid _ _) (record {
                      accepted = accepted;
                      group = g;
                      member = m;
                      joined = joined;
                      after_join = after_join;
                      at_epoch = int_eq_path req.epoch g.current_epoch (when_not _ at_epoch);
                      appended = appended;
                    }))))))))
