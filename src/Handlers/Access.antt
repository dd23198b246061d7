-- ===== src/Handlers/Access.antt =====
-- handler/http_groups.go and handler/signed.go: the checks that the handlers share, and the hints
-- that they send to the other members' sessions.
use etemsg_server.Base.{
  ℤ, String, Bool, true, false, List, [], ◌∷◌, Result, ok, err, ◌==◌, if◌then◌else◌,
}
use etemsg_server.Base.Table.{any_where}
use etemsg_server.Errors.{Error}
use etemsg_server.Groups.State.{Role, Group, GroupMember, Groups, is_active}
use etemsg_server.Groups.Roster.{get_group, get_group_member, group_member_ids}
use etemsg_server.Session.Steps.{Manager, Panic, enqueue_message}
use etemsg_server.Auth.Signed.{Verdict, SignedRequest, handle_signed_request}
use etemsg_server.Handlers.Wire.Pushes.{Push}
use etemsg_server.Handlers.Server.{
  Server, Env, Code, Outcome, Action, pure, gets, asks, ◌>>=◌, ◌>>◌,
}
use etemsg_server.Handlers.Texts.{format_int}

abbrev pub verdict_outcome : Verdict → Outcome (Unit {0})
verdict_outcome Verdict.accepted = Outcome.done tt
verdict_outcome Verdict.signature_required = Outcome.refused Code.signature_required
verdict_outcome Verdict.user_not_registered = Outcome.refused Code.user_not_found
verdict_outcome Verdict.signature_invalid = Outcome.refused Code.signature_invalid
verdict_outcome Verdict.duplicate_request = Outcome.refused Code.duplicate_request

unfoldable pub signed : Env → String → List String → ℤ → String → String → Action (Unit {0})
signed env user fields timestamp nonce signature s =
    let r : SignedRequest = record {
      user = user;
      fields = fields;
      timestamp = format_int timestamp;
      nonce = nonce;
      signature = signature;
    } in
    let (seen, verdict) =
      handle_signed_request env.crypto env.pick env.now env.now_ms s.accounts s.seen r in
    (verdict_outcome verdict, record s { seen = seen })

abbrev pub active_group : Groups → String → Result Code Group
active_group db gid = elim (get_group db gid) [
  | err e ↦ err Code.group_not_found
  | ok g ↦ if is_active g.state then ok g else err Code.group_dissolved
]

abbrev pub result_outcome : {A : Type 0} → Result Code A → Outcome A
result_outcome (ok a) = Outcome.done a
result_outcome (err c) = Outcome.refused c

unfoldable pub load_active_group : String → Action Group
load_active_group gid s = (result_outcome (active_group s.groups gid), s)

abbrev pub member_code : Error → Code
member_code Error.group_member_not_found = Code.not_group_member
member_code _ = Code.db_unavailable

unfoldable pub load_active_group_member : String → String → Action (Group × GroupMember)
load_active_group_member gid user = do
  g ← load_active_group gid
  m ← asks member_code (λ s. get_group_member s.groups gid user)
  pure (g, m)

abbrev same_role : Role → Role → Bool
same_role Role.owner Role.owner = true
same_role Role.admin Role.admin = true
same_role Role.member Role.member = true
same_role _ _ = false

unfoldable pub has_group_role : GroupMember → List Role → Bool
has_group_role m roles = any_where (same_role m.role) roles

abbrev pub administrators : List Role
administrators = Role.owner ∷ Role.admin ∷ []

abbrev pub enqueued : Server → Result Panic (Manager Push × Bool) → Outcome (Unit {0}) × Server
enqueued s (err p) = (Outcome.panicked p, s)
enqueued s (ok (session, sent)) = (Outcome.done tt, record s { session = session })

unfoldable pub notify_user : String → String → String → Action (Unit {0})
notify_user user gid reason s = enqueued s (
    enqueue_message user (Push.group_notify (record { group_id = gid; reason = reason })) s.session)

unfoldable pub notify_others : List String → String → String → String → Action (Unit {0})
notify_others [] gid reason exclude = pure tt
notify_others (user ∷ users) gid reason exclude =
    let rest = notify_others users gid reason exclude in
    if user == exclude then rest else notify_user user gid reason >> rest

unfoldable pub notify_group : String → String → String → Action (Unit {0})
notify_group gid reason exclude = do
  users ← gets (λ s. group_member_ids s.groups gid)
  notify_others users gid reason exclude

-- The role is read again for each member.
abbrev pub holds_role : Groups → String → List Role → String → Bool
holds_role db gid roles user = elim (get_group_member db gid user) [
  | err e ↦ false
  | ok m ↦ has_group_role m roles
]

unfoldable pub notify_holders :
    List String → String → String → List Role → String → Action (Unit {0})
notify_holders [] gid reason roles exclude = pure tt
notify_holders (user ∷ users) gid reason roles exclude =
    let rest = notify_holders users gid reason roles exclude in
    if user == exclude then rest else (do
      held ← gets (λ s. holds_role s.groups gid roles user)
      if held then (notify_user user gid reason >> rest) else rest)

unfoldable pub notify_group_roles : String → String → List Role → String → Action (Unit {0})
notify_group_roles gid reason roles exclude = do
  users ← gets (λ s. group_member_ids s.groups gid)
  notify_holders users gid reason roles exclude
