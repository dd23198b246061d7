-- ===== src/Handlers/Frozen.antt =====
-- A group that is missing or dissolved stops the handlers that work on it.
use etemsg_server.Base.{
  ℤ, String, Bool, false, Option, List, ok, err, ◌≡◌, refl, ◌∙◌, inl, inr, arith, Result-cases,
}
use etemsg_server.Groups.State.{Group, GroupMember, Groups, is_active}
use etemsg_server.Groups.Roster.{get_group}
use etemsg_server.Handlers.Server.{
  Server, Env, Code, Outcome, Action, pure, gets, or_refuse, ◌>>=◌, ◌>>◌, continue, refuse_when,
}
use etemsg_server.Handlers.Access.{
  active_group, signed, load_active_group, load_active_group_member,
}

-- No active group has this id.
abbrev pub IsInactive : String → Groups → Type 0
IsInactive gid db = (g : Group) → get_group db gid ≡ ok g → is_active g.state ≡ false

pub record IsFrozen {A : Type 0} (gid : String) (m : Action A) : Type 0 where
  pub at : (s : Server) → IsInactive gid s.groups → (m s).1.groups ≡ s.groups

module _ {A : Type 0} where
  pub pure-IsFrozen : (gid : String) (a : A) → IsFrozen gid (pure a)
  unfolding pure
  pure-IsFrozen gid a = record { at = λ s h. refl }

  pub or_refuse-IsFrozen : (gid : String) (o : Option A) (c : Code) → IsFrozen gid (or_refuse o c)
  unfolding or_refuse
  or_refuse-IsFrozen gid o c = record { at = λ s h. refl }

  pub gets-IsFrozen : (gid : String) (f : Server → A) → IsFrozen gid (gets f)
  unfolding gets
  gets-IsFrozen gid f = record { at = λ s h. refl }

pub refuse_when-IsFrozen : (gid : String) (b : Bool) (c : Code) → IsFrozen gid (refuse_when b c)
unfolding refuse_when
refuse_when-IsFrozen gid b c = record { at = λ s h. refl }

pub signed-IsFrozen :
    (gid : String) (env : Env) (user : String) (fields : List String) (timestamp : ℤ)
    (nonce signature : String)
    → IsFrozen gid (signed env user fields timestamp nonce signature)
unfolding signed
signed-IsFrozen gid env user fields timestamp nonce signature = record { at = λ s h. refl }

module _ {A B : Type 0} where
  continue_frozen :
      (gid : String) (s : Server) (r : Outcome A) (f : A → Action B)
      → ((a : A) → IsFrozen gid (f a))
      → IsInactive gid s.groups
      → (continue r f s).1.groups ≡ s.groups
  continue_frozen gid s (Outcome.done a) f rest h = (rest a).at s h
  continue_frozen gid s (Outcome.refused c) f rest h = refl
  continue_frozen gid s (Outcome.panicked p) f rest h = refl

  pub bind-IsFrozen :
      (gid : String) (m : Action A) (f : A → Action B)
      → IsFrozen gid m
      → ((a : A) → IsFrozen gid (f a))
      → IsFrozen gid (m >>= f)
  unfolding ◌>>=◌
  bind-IsFrozen gid m f first rest = record {
    at = λ s h.
        let same = first.at s h in
        let inactive : IsInactive gid (m s).1.groups = rw same h in
        continue_frozen gid (m s).1 (m s).0 f rest inactive ∙ same;
  }

active_group_refused :
    (db : Groups) (gid : String) → IsInactive gid db → (c : Code) × (active_group db gid ≡ err c)
active_group_refused db gid h = elim (Result-cases (get_group db gid)) [
  | inl (e, missing) ↦ (Code.group_not_found, rw (missing, active_group) refl)
  | inr (g, found) ↦ (Code.group_dissolved, ground (arith, h g found))
]

module _ {B : Type 0} where
  pub then-IsFrozen :
      (gid : String) (m : Action (Unit {0})) (k : Action B)
      → IsFrozen gid m
      → IsFrozen gid k
      → IsFrozen gid (m >> k)
  then-IsFrozen gid m k first rest = bind-IsFrozen gid m (λ _. k) first (λ _. rest)

  pub load_active_group-IsFrozen :
      (gid : String) (f : Group → Action B) → IsFrozen gid (load_active_group gid >>= f)
  unfolding ◌>>=◌ load_active_group
  load_active_group-IsFrozen gid f = record {
    at = λ s h. let (c, e) = active_group_refused s.groups gid h in rw e refl;
  }

  pub load_active_group_member-IsFrozen :
      (gid user : String) (f : Group × GroupMember → Action B)
      → IsFrozen gid (load_active_group_member gid user >>= f)
  unfolding ◌>>=◌ load_active_group load_active_group_member
  load_active_group_member-IsFrozen gid user f = record {
    at = λ s h. let (c, e) = active_group_refused s.groups gid h in rw e refl;
  }

pub ruleset frozen_steps = (
  load_active_group-IsFrozen, load_active_group_member-IsFrozen, pure-IsFrozen, or_refuse-IsFrozen,
  gets-IsFrozen, refuse_when-IsFrozen, signed-IsFrozen, then-IsFrozen, bind-IsFrozen,
)
