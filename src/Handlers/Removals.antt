-- ===== src/Handlers/Removals.antt =====
-- How the requests of http_groups.go to dissolve a group and to remove a member end.
use etemsg_server.Base.{
  String, Bool, true, false, [], ◌∷◌, ◌≡◌, refl, arith, ◌≢◌, if◌then◌else◌, trim_space,
}
use etemsg_server.Groups.State.{Group, GroupMember, Groups, is_owner, GroupState}
use etemsg_server.Groups.Roster.{dissolve_group, remove_group_member}
use etemsg_server.Handlers.Wire.Requests.{GroupDissolveRequest, GroupKickMemberRequest}
use etemsg_server.Handlers.Server.{Server, Env, pure}
use etemsg_server.Handlers.Guards.{IsAccepted, as_request}
use etemsg_server.Handlers.Ends.{
  Ends, IsMemberOf, pure-Ends, refuse_when-Ends, gets-Ends, signed-Ends, load_active_group-Ends,
  load_active_group_member-Ends, store-Ends, told-Ends,
}
use etemsg_server.Handlers.Pushing.{notify_group-IsPush}
use etemsg_server.Handlers.Effects.{when_not}
use etemsg_server.Handlers.Creating.{dissolve_group_handler}
use etemsg_server.Handlers.Members.{KickStatus, is_active_member, remove_target, kick_member}

-- What a request to dissolve a group takes, and the tables after it.
pub record IsDissolved (env : Env) (req : GroupDissolveRequest) (gid : String) (s : Server)
    (resp : String × GroupState) (db : Groups) : Type 0 where
  pub accepted : IsAccepted env s (
      as_request
        (trim_space req.user_id)
        (gid ∷ trim_space req.user_id ∷ [])
        req.timestamp
        req.nonce
        req.signature)
  pub group : Group
  pub member : GroupMember
  pub joined : IsMemberOf s.groups gid (trim_space req.user_id) group member
  pub owns : is_owner member.role ≡ true
  pub dissolved : db ≡ dissolve_group s.groups gid
  pub answered : resp ≡ (gid, GroupState.dissolved)

-- However a request to dissolve a group ends, the group tables change only for a request that is
-- signed, over just these fields, by an owner of the group, which is active, and then as the store's
-- dissolution changes them, with the group's id and its new state as the answer. A refused request
-- leaves them as they were.
pub dissolve_group_handler-Ends :
    (env : Env) (req : GroupDissolveRequest) (gid : String) (s : Server)
    → Ends s.groups
        (IsDissolved env req gid s)
        (λ z. z.groups)
        (dissolve_group_handler env req gid s)
unfolding dissolve_group_handler
dissolve_group_handler-Ends env req gid s =
    let C = IsDissolved env req gid s in
    refuse_when-Ends s.groups C (λ z. z.groups) _ _ _ s refl
      (λ _. signed-Ends s.groups C env _ _ _ _ _ _ s refl (λ accepted seen.
        let s1 : Server = record s { seen = seen } in
        load_active_group_member-Ends s.groups C gid _ _ s1 refl (λ g m joined.
          refuse_when-Ends s.groups C (λ z. z.groups) _ _ _ s1 refl
            (λ role. store-Ends s.groups C _ _ _ s1 refl (λ _ db changed.
              told-Ends s.groups C _ _ _ (notify_group-IsPush gid _ _) (record {
                accepted = accepted;
                group = g;
                member = m;
                joined = joined;
                owns = when_not _ role;
                dissolved = cc changed;
                answered = refl;
              }))))))

-- What a request to remove a member takes, and the tables after it.
pub record IsKicked (env : Env) (req : GroupKickMemberRequest) (gid : String) (s : Server)
    (resp : KickStatus) (db : Groups) : Type 0 where
  pub accepted : IsAccepted env s (
      as_request
        (trim_space req.user_id)
        (gid ∷ trim_space req.user_id ∷ trim_space req.target_user ∷ [])
        req.timestamp
        req.nonce
        req.signature)
  pub group : Group
  pub member : GroupMember
  pub joined : IsMemberOf s.groups gid (trim_space req.user_id) group member
  pub owns : is_owner member.role ≡ true
  pub not_creator : trim_space req.target_user ≢ group.creator
  pub not_oneself : trim_space req.target_user ≢ trim_space req.user_id
  pub removed : db ≡ (
      if is_active_member gid (trim_space req.target_user) s.groups
      then remove_group_member s.groups gid (trim_space req.target_user)
      else s.groups)
  pub answered : resp ≡ (
      if is_active_member gid (trim_space req.target_user) s.groups
      then KickStatus.kicked
      else KickStatus.not_a_member)

-- The last step of a request to remove a member.
target-Ends :
    (C : KickStatus → Groups → Type 0) (gid user target : String) (member : Bool) (s : Server)
    → ((resp : KickStatus) (db : Groups)
        → db ≡ (if member then remove_group_member s.groups gid target else s.groups)
        → resp ≡ (if member then KickStatus.kicked else KickStatus.not_a_member)
        → C resp db)
    → Ends s.groups C
        (λ z. z.groups)
        ((if member then remove_target gid user target else pure KickStatus.not_a_member) s)
unfolding remove_target
target-Ends C gid user target false s rest =
    pure-Ends s.groups C (λ z. z.groups) KickStatus.not_a_member s
      (rest KickStatus.not_a_member s.groups refl refl)
target-Ends C gid user target true s rest = store-Ends s.groups C _ _ _ s refl (λ _ db changed.
    told-Ends s.groups C _ KickStatus.kicked _ (notify_group-IsPush gid _ _)
      (rest KickStatus.kicked db (cc changed) refl))

-- However a request to remove a member ends, the group tables change only for a request that is signed,
-- over just these fields, by an owner of the group, which is active, and whose target is neither
-- themselves nor the group's creator, whoever owns it now. They change only where the target is a
-- member, as the store's removal changes them, and the answer says whether they were; a refused
-- request leaves them as they were.
pub kick_member-Ends :
    (env : Env) (req : GroupKickMemberRequest) (gid : String) (s : Server)
    → Ends s.groups (IsKicked env req gid s) (λ z. z.groups) (kick_member env req gid s)
unfolding kick_member
kick_member-Ends env req gid s =
    let C = IsKicked env req gid s in
    refuse_when-Ends s.groups C (λ z. z.groups) _ _ _ s refl
      (λ _.
        refuse_when-Ends s.groups C (λ z. z.groups) _ _ _ s refl
          (λ other. signed-Ends s.groups C env _ _ _ _ _ _ s refl (λ accepted seen.
            let s1 : Server = record s { seen = seen } in
            load_active_group-Ends s.groups C gid _ s1 refl (λ g0 found0.
              load_active_group_member-Ends s.groups C gid _ _ s1 refl (λ g m joined.
                refuse_when-Ends s.groups C (λ z. z.groups) _ _ _ s1 refl
                  (λ role.
                    refuse_when-Ends s.groups C (λ z. z.groups) _ _ _ s1 refl
                      (λ not_creator.
                        gets-Ends s.groups C (λ z. z.groups) _ _ s1
                          (target-Ends C gid _ _ _ s1 (λ resp db removed answered. record {
                            accepted = accepted;
                            group = g;
                            member = m;
                            joined = joined;
                            owns = when_not _ role;
                            not_creator =
                                let same : g0 ≡ g = ground (arith, found0, joined.found) in
                                ground (arith, same);
                            not_oneself = ground arith;
                            removed = removed;
                            answered = answered;
                          })))))))))
