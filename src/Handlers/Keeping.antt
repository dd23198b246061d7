-- ===== src/Handlers/Keeping.antt =====
-- Properties of the group tables that the handlers' steps keep, whatever is answered.
use etemsg_server.Base.{
  ℤ, String, Bool, true, false, Option, List, [], ◌∷◌, Result, ok, err, ◌≡◌, refl, ◌==◌,
  if◌then◌else◌,
}
use etemsg_server.Errors.{Error}
use etemsg_server.Groups.State.{Role, Groups}
use etemsg_server.Handlers.Server.{
  Server, Env, Code, Outcome, Action, pure, refuse, gets, asks, or_refuse, ◌>>=◌, ◌>>◌, continue,
  refuse_when, store, written,
}
use etemsg_server.Handlers.Access.{
  signed, load_active_group, load_active_group_member, notify_user, notify_group, notify_holders,
  notify_group_roles, holds_role,
}
use etemsg_server.Handlers.Done.{IsNotice, notify_user-IsNotice, notify_group-IsNotice}

-- A statement keeps `P` of the tables it writes.
pub record IsStore {A : Type 0} (P : Groups → Type 0) (q : Groups → Result Error (Groups × A))
    : Type 0 where
  pub at : (db db' : Groups) (a : A) → q db ≡ ok (db', a) → P db → P db'

pub record IsKeeping {A : Type 0} (P : Groups → Type 0) (m : Action A) : Type 0 where
  pub at : (s : Server) → P s.groups → P (m s).1.groups

module _ {A : Type 0} (P : Groups → Type 0) where
  pub pure-IsKeeping : (a : A) → IsKeeping P (pure a)
  unfolding pure
  pure-IsKeeping a = record { at = λ s h. h }

  pub refuse-IsKeeping : (c : Code) → IsKeeping P (refuse {A = A} c)
  unfolding refuse
  refuse-IsKeeping c = record { at = λ s h. h }

  pub gets-IsKeeping : (f : Server → A) → IsKeeping P (gets f)
  unfolding gets
  gets-IsKeeping f = record { at = λ s h. h }

  pub asks-IsKeeping :
      (code : Error → Code) (f : Server → Result Error A) → IsKeeping P (asks code f)
  unfolding asks
  asks-IsKeeping code f = record { at = λ s h. h }

  pub or_refuse-IsKeeping : (o : Option A) (c : Code) → IsKeeping P (or_refuse o c)
  unfolding or_refuse
  or_refuse-IsKeeping o c = record { at = λ s h. h }

  written_keeps :
      (code : Error → Code) (r : Result Error (Groups × A)) (s : Server)
      → ((db : Groups) (a : A) → r ≡ ok (db, a) → P db)
      → P s.groups
      → P (written code r s).1.groups
  written_keeps code (ok (db, a)) s h old = h db a refl
  written_keeps code (err e) s h old = old

  pub store-IsKeeping :
      (code : Error → Code) (q : Groups → Result Error (Groups × A))
      → IsStore P q
      → IsKeeping P (store code q)
  unfolding store
  store-IsKeeping code q keeps = record {
    at = λ s h. written_keeps code (q s.groups) s (λ db a e. keeps.at s.groups db a e h) h;
  }

  pub if-IsKeeping :
      (b : Bool) (m n : Action A) → IsKeeping P m → IsKeeping P n → IsKeeping P (if b then m else n)
  if-IsKeeping true m n safe other = safe
  if-IsKeeping false m n safe other = other

module _ (P : Groups → Type 0) where
  pub refuse_when-IsKeeping : (b : Bool) (c : Code) → IsKeeping P (refuse_when b c)
  unfolding refuse_when
  refuse_when-IsKeeping b c = record { at = λ s h. h }

  pub signed-IsKeeping :
      (env : Env) (user : String) (fields : List String) (timestamp : ℤ) (nonce signature : String)
      → IsKeeping P (signed env user fields timestamp nonce signature)
  unfolding signed
  signed-IsKeeping env user fields timestamp nonce signature = record { at = λ s h. h }

  pub load_active_group-IsKeeping : (gid : String) → IsKeeping P (load_active_group gid)
  unfolding load_active_group
  load_active_group-IsKeeping gid = record { at = λ s h. h }

module _ {A B : Type 0} (P : Groups → Type 0) where
  continue_keeps :
      (r : Outcome A) (f : A → Action B) (s : Server)
      → ((a : A) → IsKeeping P (f a))
      → P s.groups
      → P (continue r f s).1.groups
  continue_keeps (Outcome.done a) f s rest h = (rest a).at s h
  continue_keeps (Outcome.refused c) f s rest h = h
  continue_keeps (Outcome.panicked p) f s rest h = h

  pub bind-IsKeeping :
      (m : Action A) (f : A → Action B)
      → IsKeeping P m
      → ((a : A) → IsKeeping P (f a))
      → IsKeeping P (m >>= f)
  unfolding ◌>>=◌
  bind-IsKeeping m f first rest = record {
    at = λ s h. continue_keeps (m s).0 f (m s).1 rest (first.at s h);
  }

module _ {B : Type 0} (P : Groups → Type 0) where
  pub then-IsKeeping :
      (m : Action (Unit {0})) (k : Action B) → IsKeeping P m → IsKeeping P k → IsKeeping P (m >> k)
  then-IsKeeping m k first rest = bind-IsKeeping P m (λ _. k) first (λ _. rest)

module _ (P : Groups → Type 0) where
  notice-IsKeeping : (m : Action (Unit {0})) → IsNotice m → IsKeeping P m
  notice-IsKeeping m notice = record { at = λ s h. rw ((notice.at s).1) h }

  pub notify_user-IsKeeping : (user gid reason : String) → IsKeeping P (notify_user user gid reason)
  notify_user-IsKeeping user gid reason =
      notice-IsKeeping (notify_user user gid reason) (notify_user-IsNotice user gid reason)

  pub notify_group-IsKeeping :
      (gid reason exclude : String) → IsKeeping P (notify_group gid reason exclude)
  notify_group-IsKeeping gid reason exclude =
      notice-IsKeeping (notify_group gid reason exclude) (notify_group-IsNotice gid reason exclude)

  pub load_active_group_member-IsKeeping :
      (gid user : String) → IsKeeping P (load_active_group_member gid user)
  unfolding load_active_group_member
  load_active_group_member-IsKeeping gid user =
      bind-IsKeeping P (load_active_group gid) _ (load_active_group-IsKeeping P gid)
        (λ g. bind-IsKeeping P (asks _ _) _ (asks-IsKeeping P _ _) (λ m. pure-IsKeeping P (g, m)))

  notify_holders-IsKeeping :
      (users : List String) (gid reason : String) (roles : List Role) (exclude : String)
      → IsKeeping P (notify_holders users gid reason roles exclude)
  unfolding notify_holders
  notify_holders-IsKeeping [] gid reason roles exclude = pure-IsKeeping P tt
  notify_holders-IsKeeping (user ∷ users) gid reason roles exclude =
      let rest = notify_holders-IsKeeping users gid reason roles exclude in
      let told =
        then-IsKeeping P (notify_user user gid reason)
          (notify_holders users gid reason roles exclude) (notify_user-IsKeeping user gid reason)
          rest in
      if-IsKeeping P (user == exclude) (notify_holders users gid reason roles exclude) _ rest (
        bind-IsKeeping P (gets (λ s. holds_role s.groups gid roles user)) _ (gets-IsKeeping P _)
          (λ held. if-IsKeeping P held _ _ told rest))

  pub notify_group_roles-IsKeeping :
      (gid reason : String) (roles : List Role) (exclude : String)
      → IsKeeping P (notify_group_roles gid reason roles exclude)
  unfolding notify_group_roles
  notify_group_roles-IsKeeping gid reason roles exclude =
      bind-IsKeeping P (gets _) _ (gets-IsKeeping P _)
        (λ users. notify_holders-IsKeeping users gid reason roles exclude)

pub ruleset keeping_steps = (
  pure-IsKeeping, refuse-IsKeeping, gets-IsKeeping, asks-IsKeeping, or_refuse-IsKeeping,
  store-IsKeeping, if-IsKeeping, refuse_when-IsKeeping, signed-IsKeeping,
  load_active_group-IsKeeping, load_active_group_member-IsKeeping, notify_user-IsKeeping,
  notify_group-IsKeeping, notify_group_roles-IsKeeping, bind-IsKeeping, then-IsKeeping,
)
