-- ===== src/Handlers/Pushing.antt =====
-- Notifications: never refused, and they keep the tables and who is online.
use etemsg_server.Base.{
  String, Bool, true, false, List, [], ◌∷◌, Result, ok, err, ◌≡◌, refl, ◌∙◌, inl, inr, arith,
  Option-cases, Result-cases, ◌==◌, if◌then◌else◌,
}
use etemsg_server.Base.Map.{lookup}
use etemsg_server.Groups.Roster.{group_member_ids}
use etemsg_server.Session.Steps.{Manager, Panic, enqueue_message, try_send}
use etemsg_server.Handlers.Wire.Pushes.{Push}
use etemsg_server.Handlers.Server.{Server, Outcome, Action, pure, gets, ◌>>=◌, continue}
use etemsg_server.Handlers.Access.{notify_user, enqueued, notify_others, notify_group}
use etemsg_server.Handlers.Ends.{IsPush, IsUnrefused}

module _ {A : Type 0} where
  pub enqueue_message-users :
      (user : String) (msg : A) (m m' : Manager A) (sent : Bool)
      → enqueue_message user msg m ≡ ok (m', sent)
      → m'.users ≡ m.users
  unfolding enqueue_message
  enqueue_message-users user msg m m' sent h = elim (Option-cases (lookup user m.users)) [
    | inl e ↦ ground arith
    | inr (u, e) ↦ elim (Result-cases (try_send u.ch msg m.channels)) [
      | inl (p, bad) ↦ absurd (ground arith)
      | inr ((heap, ok_), good) ↦ ground arith
    ]
  ]

  pub pure-IsPush : (a : A) → IsPush (pure a)
  unfolding pure
  pure-IsPush a = record { unrefused = λ s. tt; tables = λ s. refl; online = λ s. refl }

  pub if-IsPush : (b : Bool) (m n : Action A) → IsPush m → IsPush n → IsPush (if b then m else n)
  if-IsPush true m n first other = first
  if-IsPush false m n first other = other

module _ {A B : Type 0} where
  continue-IsUnrefused :
      (r : Outcome A) (f : A → Action B) (s : Server)
      → IsUnrefused r
      → ((a : A) → IsPush (f a))
      → IsUnrefused (continue r f s).0
  continue-IsUnrefused (Outcome.done a) f s u rest = (rest a).unrefused s
  continue-IsUnrefused (Outcome.refused c) f s u rest = u
  continue-IsUnrefused (Outcome.panicked p) f s u rest = tt

  continue_tables :
      (r : Outcome A) (f : A → Action B) (s : Server)
      → ((a : A) → IsPush (f a))
      → (continue r f s).1.groups ≡ s.groups
  continue_tables (Outcome.done a) f s rest = (rest a).tables s
  continue_tables (Outcome.refused c) f s rest = refl
  continue_tables (Outcome.panicked p) f s rest = refl

  continue_online :
      (r : Outcome A) (f : A → Action B) (s : Server)
      → ((a : A) → IsPush (f a))
      → (continue r f s).1.session.users ≡ s.session.users
  continue_online (Outcome.done a) f s rest = (rest a).online s
  continue_online (Outcome.refused c) f s rest = refl
  continue_online (Outcome.panicked p) f s rest = refl

  pub bind-IsPush :
      (m : Action A) (f : A → Action B) → IsPush m → ((a : A) → IsPush (f a)) → IsPush (m >>= f)
  unfolding ◌>>=◌
  bind-IsPush m f first rest = record {
    unrefused = λ s. continue-IsUnrefused (m s).0 f (m s).1 (first.unrefused s) rest;
    tables = λ s. continue_tables (m s).0 f (m s).1 rest ∙ first.tables s;
    online = λ s. continue_online (m s).0 f (m s).1 rest ∙ first.online s;
  }

  pub gets-IsPush :
      (q : Server → A) (f : A → Action B) → ((a : A) → IsPush (f a)) → IsPush (gets q >>= f)
  unfolding ◌>>=◌ gets
  gets-IsPush q f rest = record {
    unrefused = λ s. (rest (q s)).unrefused s;
    tables = λ s. (rest (q s)).tables s;
    online = λ s. (rest (q s)).online s;
  }

pub notify_user-IsPush : (user gid reason : String) → IsPush (notify_user user gid reason)
unfolding notify_user
notify_user-IsPush user gid reason = record {
  unrefused = λ s. unrefused (enqueue_message user push s.session) s;
  tables = λ s. tables (enqueue_message user push s.session) s;
  online = λ s. online s (enqueue_message user push s.session) refl;
}
  where
    push : Push
    push = Push.group_notify (record { group_id = gid; reason = reason })

    unrefused : (r : Result Panic (Manager Push × Bool)) (s : Server) → IsUnrefused (enqueued s r).0
    unrefused (ok (m, sent)) s = tt
    unrefused (err p) s = tt

    tables :
        (r : Result Panic (Manager Push × Bool)) (s : Server) → (enqueued s r).1.groups ≡ s.groups
    tables (ok (m, sent)) s = refl
    tables (err p) s = refl

    online :
        (s : Server) (r : Result Panic (Manager Push × Bool))
        → enqueue_message user push s.session ≡ r
        → (enqueued s r).1.session.users ≡ s.session.users
    online s (ok (m, sent)) h = enqueue_message-users user push s.session m sent h
    online s (err p) h = refl

notify_others-IsPush :
    (users : List String) (gid reason exclude : String)
    → IsPush (notify_others users gid reason exclude)
unfolding notify_others
notify_others-IsPush [] gid reason exclude = pure-IsPush tt
notify_others-IsPush (user ∷ users) gid reason exclude =
    let rest = notify_others-IsPush users gid reason exclude in
    if-IsPush (user == exclude) (notify_others users gid reason exclude) _ rest
      (bind-IsPush (notify_user user gid reason) _ (notify_user-IsPush user gid reason) (λ _. rest))

pub notify_group-IsPush : (gid reason exclude : String) → IsPush (notify_group gid reason exclude)
unfolding notify_group
notify_group-IsPush gid reason exclude =
    gets-IsPush (λ s. group_member_ids s.groups gid) _
      (λ users. notify_others-IsPush users gid reason exclude)
