-- ===== src/Handlers/Safe.antt =====
-- The invariant of the handlers' actions: no panic, a valid session manager, the accounts untouched.
use etemsg_server.Base.{
  ℤ, String, Bool, true, false, Option, none, some, List, [], ◌∷◌, Result, ok, err, ◌≡◌, refl, ◌==◌,
  ◌∙◌, if◌then◌else◌,
}
use etemsg_server.Errors.{Error}
use etemsg_server.Groups.State.{Role, Groups}
use etemsg_server.Handlers.Wire.Pushes.{Push}
use etemsg_server.Session.Invariant.{IsValid}
use etemsg_server.Session.Queueing.{enqueue_message-IsValid}
use etemsg_server.Auth.Signed.{Verdict}
use etemsg_server.Handlers.Server.{
  Server, Env, Code, Outcome, Action, pure, refuse, gets, asks, or_refuse, ◌>>=◌, ◌>>◌, continue,
  refuse_when, store, answer, written,
}
use etemsg_server.Handlers.Access.{
  verdict_outcome, result_outcome, holds_role, signed, load_active_group, load_active_group_member,
  notify_user, notify_others, notify_group, notify_holders, notify_group_roles,
}

abbrev pub IsAnswered : {A : Type 0} → Outcome A → Type 0
IsAnswered (Outcome.done a) = Unit
IsAnswered (Outcome.refused c) = Unit
IsAnswered (Outcome.panicked p) = ⊥

-- A step's result, of a server that was valid before: an answer or a refusal, a valid session
-- manager, and the same accounts.
pub record IsFine {A : Type 0} (s : Server) (out : Outcome A × Server) : Type 0 where
  pub answered : IsAnswered out.0
  pub valid : IsValid out.1.session
  pub kept : out.1.accounts ≡ s.accounts

pub record IsSafe {A : Type 0} (m : Action A) : Type 0 where
  pub at : (s : Server) → IsValid s.session → IsFine s (m s)

module _ {A : Type 0} where
  pub pure-IsSafe : (a : A) → IsSafe (pure a)
  unfolding pure
  pure-IsSafe a = record { at = λ s v. record { answered = tt; valid = v; kept = refl } }

  pub refuse-IsSafe : (c : Code) → IsSafe (refuse {A = A} c)
  unfolding refuse
  refuse-IsSafe c = record { at = λ s v. record { answered = tt; valid = v; kept = refl } }

  pub gets-IsSafe : (f : Server → A) → IsSafe (gets f)
  unfolding gets
  gets-IsSafe f = record { at = λ s v. record { answered = tt; valid = v; kept = refl } }

  answer-IsAnswered : (code : Error → Code) (r : Result Error A) → IsAnswered (answer code r)
  answer-IsAnswered code (ok a) = tt
  answer-IsAnswered code (err e) = tt

  pub asks-IsSafe : (code : Error → Code) (f : Server → Result Error A) → IsSafe (asks code f)
  unfolding asks
  asks-IsSafe code f = record {
    at = λ s v. record { answered = answer-IsAnswered code (f s); valid = v; kept = refl };
  }

  pub or_refuse-IsSafe : (o : Option A) (c : Code) → IsSafe (or_refuse o c)
  unfolding or_refuse
  or_refuse-IsSafe none c = record { at = λ s v. record { answered = tt; valid = v; kept = refl } }
  or_refuse-IsSafe (some a) c = record {
    at = λ s v. record { answered = tt; valid = v; kept = refl };
  }

  written-IsFine :
      (code : Error → Code) (r : Result Error (Groups × A)) (s : Server)
      → IsValid s.session
      → IsFine s (written code r s)
  written-IsFine code (err e) s v = record { answered = tt; valid = v; kept = refl }
  written-IsFine code (ok (db, a)) s v = record { answered = tt; valid = v; kept = refl }

  pub store-IsSafe :
      (code : Error → Code) (f : Groups → Result Error (Groups × A)) → IsSafe (store code f)
  unfolding store
  store-IsSafe code f = record { at = λ s v. written-IsFine code (f s.groups) s v }

  pub if-IsSafe : (b : Bool) (m n : Action A) → IsSafe m → IsSafe n → IsSafe (if b then m else n)
  if-IsSafe true m n safe other = safe
  if-IsSafe false m n safe other = other

pub refuse_when-IsSafe : (b : Bool) (c : Code) → IsSafe (refuse_when b c)
unfolding refuse_when
refuse_when-IsSafe true c = record { at = λ s v. record { answered = tt; valid = v; kept = refl } }
refuse_when-IsSafe false c = record { at = λ s v. record { answered = tt; valid = v; kept = refl } }

module _ {A B : Type 0} where
  continue-IsFine :
      (s s' : Server) (r : Outcome A) (f : A → Action B)
      → IsFine s (r, s')
      → ((a : A) → IsSafe (f a))
      → IsFine s (continue r f s')
  continue-IsFine s s' (Outcome.done a) f fine rest =
      let next = (rest a).at s' fine.valid in
      record { answered = next.answered; valid = next.valid; kept = next.kept ∙ fine.kept }
  continue-IsFine s s' (Outcome.refused c) f fine rest = record {
    answered = tt;
    valid = fine.valid;
    kept = fine.kept;
  }
  continue-IsFine s s' (Outcome.panicked p) f fine rest = absurd fine.answered

  pub bind-IsSafe :
      (m : Action A) (f : A → Action B) → IsSafe m → ((a : A) → IsSafe (f a)) → IsSafe (m >>= f)
  unfolding ◌>>=◌
  bind-IsSafe m f first rest = record {
    at = λ s v. continue-IsFine s (m s).1 (m s).0 f (first.at s v) rest;
  }

module _ {B : Type 0} where
  pub then-IsSafe : (m : Action (Unit {0})) (k : Action B) → IsSafe m → IsSafe k → IsSafe (m >> k)
  then-IsSafe m k first rest = bind-IsSafe m (λ _. k) first (λ _. rest)

verdict-IsAnswered : (v : Verdict) → IsAnswered (verdict_outcome v)
verdict-IsAnswered Verdict.accepted = tt
verdict-IsAnswered Verdict.signature_required = tt
verdict-IsAnswered Verdict.user_not_registered = tt
verdict-IsAnswered Verdict.signature_invalid = tt
verdict-IsAnswered Verdict.duplicate_request = tt

pub signed-IsSafe :
    (env : Env) (user : String) (fields : List String) (timestamp : ℤ) (nonce signature : String)
    → IsSafe (signed env user fields timestamp nonce signature)
unfolding signed
signed-IsSafe env user fields timestamp nonce signature = record {
  at = λ s v. record { answered = verdict-IsAnswered _; valid = v; kept = refl };
}

result-IsAnswered : {A : Type 0} (r : Result Code A) → IsAnswered (result_outcome r)
result-IsAnswered (ok a) = tt
result-IsAnswered (err c) = tt

pub load_active_group-IsSafe : (gid : String) → IsSafe (load_active_group gid)
unfolding load_active_group
load_active_group-IsSafe gid = record {
  at = λ s v. record { answered = result-IsAnswered _; valid = v; kept = refl };
}

pub notify_user-IsSafe : (user gid reason : String) → IsSafe (notify_user user gid reason)
unfolding notify_user
notify_user-IsSafe user gid reason = record {
  at = λ s v.
      let (m, sent, e, _, kept) =
        enqueue_message-IsValid user
          (Push.group_notify (record { group_id = gid; reason = reason })) s.session v in
      rw e (record { answered = tt; valid = kept; kept = refl });
}

pub ruleset steps = (
  pure-IsSafe, refuse-IsSafe, gets-IsSafe, asks-IsSafe, or_refuse-IsSafe, store-IsSafe, if-IsSafe,
  refuse_when-IsSafe, bind-IsSafe, then-IsSafe, signed-IsSafe, load_active_group-IsSafe,
  notify_user-IsSafe,
)

pub load_active_group_member-IsSafe :
    (gid user : String) → IsSafe (load_active_group_member gid user)
unfolding load_active_group_member
load_active_group_member-IsSafe gid user = search steps

notify_others-IsSafe :
    (users : List String) (gid reason exclude : String)
    → IsSafe (notify_others users gid reason exclude)
unfolding notify_others
notify_others-IsSafe [] gid reason exclude = search steps
notify_others-IsSafe (user ∷ users) gid reason exclude =
    let rest = notify_others-IsSafe users gid reason exclude in
    if-IsSafe (user == exclude) (notify_others users gid reason exclude)
      (notify_user user gid reason >> notify_others users gid reason exclude) rest
      (then-IsSafe (notify_user user gid reason) (notify_others users gid reason exclude)
        (notify_user-IsSafe user gid reason) rest)

pub notify_group-IsSafe : (gid reason exclude : String) → IsSafe (notify_group gid reason exclude)
unfolding notify_group
notify_group-IsSafe gid reason exclude = search (steps, notify_others-IsSafe)

notify_holders-IsSafe :
    (users : List String) (gid reason : String) (roles : List Role) (exclude : String)
    → IsSafe (notify_holders users gid reason roles exclude)
unfolding notify_holders
notify_holders-IsSafe [] gid reason roles exclude = search steps
notify_holders-IsSafe (user ∷ users) gid reason roles exclude =
    let rest = notify_holders-IsSafe users gid reason roles exclude in
    let told =
      then-IsSafe (notify_user user gid reason) (notify_holders users gid reason roles exclude)
        (notify_user-IsSafe user gid reason) rest in
    if-IsSafe (user == exclude) (notify_holders users gid reason roles exclude) _ rest (
      bind-IsSafe (gets (λ s. holds_role s.groups gid roles user)) _ (gets-IsSafe _)
        (λ held. if-IsSafe held _ _ told rest))

pub notify_group_roles-IsSafe :
    (gid reason : String) (roles : List Role) (exclude : String)
    → IsSafe (notify_group_roles gid reason roles exclude)
unfolding notify_group_roles
notify_group_roles-IsSafe gid reason roles exclude = search (steps, notify_holders-IsSafe)

pub ruleset safe_steps =
    (steps, load_active_group_member-IsSafe, notify_group-IsSafe, notify_group_roles-IsSafe)
