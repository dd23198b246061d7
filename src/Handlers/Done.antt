-- ===== src/Handlers/Done.antt =====
-- From the answer of a handler back to what its steps found: one rule for each kind of step.
use etemsg_server.Base.{
  ℕ, ℤ, String, Option, none, some, Bool, true, false, List, [], ◌∷◌, Result, ok, err, ◌≡◌, refl,
  ◌∙◌, ap, inl, inr, arith, Bool-cases, Result-cases, ◌==◌,
}
use etemsg_server.Base.Map.{Map}
use etemsg_server.Errors.{Error}
use etemsg_server.Groups.State.{Group, GroupMember, Groups, is_active}
use etemsg_server.Groups.Roster.{get_group, get_group_member, group_member_ids}
use etemsg_server.Session.Steps.{Manager, Panic, enqueue_message}
use etemsg_server.Handlers.Wire.Pushes.{Push}
use etemsg_server.Auth.Signed.{handle_signed_request}
use etemsg_server.Handlers.Server.{
  Server, Env, Code, Outcome, Action, pure, gets, asks, or_refuse, ◌>>=◌, ◌>>◌, continue,
  refuse_when, store, written, answer, no_value,
}
use etemsg_server.Handlers.Access.{
  signed, load_active_group, load_active_group_member, active_group, result_outcome, member_code,
  notify_user, enqueued, notify_others, notify_group,
}
use etemsg_server.Handlers.Guards.{IsSignedBy, accepted-IsSignedBy, verdict-cases, as_request}

module _ {A : Type 0} where
  written_done :
      (code : Error → Code) (r : Result Error (Groups × A)) (s : Server) (a : A)
      → (written code r s).0 ≡ Outcome.done a
      → (db : Groups) × (r ≡ ok (db, a)) × ((written code r s).1 ≡ record s { groups = db })
  written_done code (ok (db, x)) s a h = (db, cc, refl)
  written_done code (err e) s a h = cc

module _ {A B : Type 0} where
  continue_done :
      (r : Outcome A) (f : A → Action B) (s s' : Server) (b : B)
      → continue r f s ≡ (Outcome.done b, s')
      → (a : A) × (r ≡ Outcome.done a) × (f a s ≡ (Outcome.done b, s'))
  continue_done (Outcome.done a) f s s' b h = (a, refl, h)
  continue_done (Outcome.refused c) f s s' b h = cc
  continue_done (Outcome.panicked p) f s s' b h = cc

  pub bind_done :
      (m : Action A) (f : A → Action B) (s s' : Server) (b : B)
      → (m >>= f) s ≡ (Outcome.done b, s')
      → (a : A) × ((m s).0 ≡ Outcome.done a) × (f a (m s).1 ≡ (Outcome.done b, s'))
  unfolding ◌>>=◌
  bind_done m f s s' b h = continue_done (m s).0 f (m s).1 s' b h

  pub gets_done :
      (q : Server → A) (f : A → Action B) (s s' : Server) (b : B)
      → (gets q >>= f) s ≡ (Outcome.done b, s')
      → f (q s) s ≡ (Outcome.done b, s')
  unfolding ◌>>=◌ gets
  gets_done q f s s' b h = h

  pub store_done :
      (code : Error → Code) (q : Groups → Result Error (Groups × A)) (f : A → Action B)
      (s s' : Server) (b : B)
      → (store code q >>= f) s ≡ (Outcome.done b, s')
      → (a : A) × (db : Groups) × (q s.groups ≡ ok (db, a))
        × (f a (record s { groups = db }) ≡ (Outcome.done b, s'))
  unfolding store
  store_done code q f s s' b h =
      let (a, e, rest) = bind_done (store code q) f s s' b h in
      let (db, found, after) = written_done code (q s.groups) s a e in
      (a, db, found, rw (← after) rest)

module _ {A B : Type 0} where
  pub or_refuse_done :
      (o : Option A) (c : Code) (f : A → Action B) (s s' : Server) (b : B)
      → (or_refuse o c >>= f) s ≡ (Outcome.done b, s')
      → (a : A) × (o ≡ some a) × (f a s ≡ (Outcome.done b, s'))
  unfolding ◌>>=◌ or_refuse
  or_refuse_done (some a) c f s s' b h = (a, refl, h)
  or_refuse_done none c f s s' b h = cc

module _ {B : Type 0} where
  pub pure_done : (a b : B) (s s' : Server) → pure a s ≡ (Outcome.done b, s') → (a ≡ b) × (s ≡ s')
  unfolding pure
  pure_done a b s s' h = (cc, ap (λ p. p.1) h)

  pub refuse_when_done :
      (bad : Bool) (c : Code) (k : Action B) (s s' : Server) (b : B)
      → (refuse_when bad c >> k) s ≡ (Outcome.done b, s')
      → (bad ≡ false) × (k s ≡ (Outcome.done b, s'))
  unfolding ◌>>=◌ refuse_when
  refuse_when_done true c k s s' b h = cc
  refuse_when_done false c k s s' b h = (refl, h)

  pub signed_done :
      (env : Env) (user : String) (fields : List String) (timestamp : ℤ) (nonce signature : String)
      (k : Action B) (s s' : Server) (b : B)
      → (signed env user fields timestamp nonce signature >> k) s ≡ (Outcome.done b, s')
      → IsSignedBy env s user fields
        × ((seen : Map (Map ℕ)) × (k (record s { seen = seen }) ≡ (Outcome.done b, s')))
  unfolding ◌>>=◌ signed
  signed_done env user fields timestamp nonce signature k s s' b h =
      let out =
        handle_signed_request env.crypto env.pick env.now env.now_ms s.accounts s.seen
          (as_request user fields timestamp nonce signature) in
      elim (verdict-cases out.1) [
        | inl e ↦
            (accepted-IsSignedBy env s user fields timestamp nonce signature e, (out.0, cc (e, h)))
        | inr (c, e) ↦ absurd (cc (e, h))
      ]

pub active_group_ok :
    (db : Groups) (gid : String) (g : Group)
    → active_group db gid ≡ ok g
    → (get_group db gid ≡ ok g) × (is_active g.state ≡ true)
active_group_ok db gid g h = elim (Result-cases (get_group db gid)) [
  | inl (e, missing) ↦ absurd (cc (missing, h))
  | inr (found, e) ↦ elim (Bool-cases (is_active found.state)) [
    | inl a ↦ (ground arith, ground arith)
    | inr b ↦ absurd (ground arith)
  ]
]

pub result_outcome_done :
    {A : Type 0} (r : Result Code A) (a : A) → result_outcome r ≡ Outcome.done a → r ≡ ok a
result_outcome_done (ok x) a h = cc
result_outcome_done (err c) a h = cc

module _ {B : Type 0} where
  pub load_active_group_done :
      (gid : String) (f : Group → Action B) (s s' : Server) (b : B)
      → (load_active_group gid >>= f) s ≡ (Outcome.done b, s')
      → (g : Group) × (get_group s.groups gid ≡ ok g)
        × (is_active g.state ≡ true)
        × (f g s ≡ (Outcome.done b, s'))
  unfolding load_active_group
  load_active_group_done gid f s s' b h =
      let (g, e, rest) = bind_done (load_active_group gid) f s s' b h in
      let (found, active) =
        active_group_ok s.groups gid g (result_outcome_done (active_group s.groups gid) g e) in
      (g, found, active, rest)

pub answer_done :
    {A : Type 0} (code : Error → Code) (r : Result Error A) (a : A)
    → answer code r ≡ Outcome.done a
    → r ≡ ok a
answer_done code (ok x) a h = cc
answer_done code (err e) a h = cc

module _ {A B : Type 0} where
  pub asks_done :
      (code : Error → Code) (q : Server → Result Error A) (f : A → Action B) (s s' : Server) (b : B)
      → (asks code q >>= f) s ≡ (Outcome.done b, s')
      → (a : A) × (q s ≡ ok a) × (f a s ≡ (Outcome.done b, s'))
  unfolding asks
  asks_done code q f s s' b h =
      let (a, e, rest) = bind_done (asks code q) f s s' b h in (a, answer_done code (q s) a e, rest)

module _ {B : Type 0} where
  pub load_active_group_member_done :
      (gid user : String) (f : Group × GroupMember → Action B) (s s' : Server) (b : B)
      → (load_active_group_member gid user >>= f) s ≡ (Outcome.done b, s')
      → (g : Group) × (m : GroupMember) × (get_group s.groups gid ≡ ok g)
        × (is_active g.state ≡ true)
        × (get_group_member s.groups gid user ≡ ok m)
        × (f (g, m) s ≡ (Outcome.done b, s'))
  unfolding load_active_group_member
  load_active_group_member_done gid user f s s' b h =
      let (p, e, rest) = bind_done (load_active_group_member gid user) f s s' b h in
      let after = (load_active_group_member gid user s).1 in
      let whole : load_active_group_member gid user s ≡ (Outcome.done p, after) =
        ap (λ o. (o, after)) e in
      let (g, found, active, then_) = load_active_group_done gid _ s after p whole in
      let (m, is_there, last) = asks_done member_code _ _ s after p then_ in
      let (same, kept) = pure_done (g, m) p s after last in
      (g, m, found, active, is_there, ap (λ q. f q s) same ∙ ap (f p) kept ∙ rest)

-- Steps that change nothing but the sessions.
pub record IsNotice (m : Action (Unit {0})) : Type 0 where
  pub at : (s : Server) → (session : Manager Push) × ((m s).1 ≡ record s { session = session })

enqueued-session :
    (s : Server) (r : Result Panic (Manager Push × Bool))
    → (session : Manager Push) × ((enqueued s r).1 ≡ record s { session = session })
enqueued-session s (ok (session, sent)) = (session, refl)
enqueued-session s (err p) = (s.session, refl)

pub notify_user-IsNotice : (user gid reason : String) → IsNotice (notify_user user gid reason)
unfolding notify_user
notify_user-IsNotice user gid reason = record {
  at = λ s. enqueued-session s (
      enqueue_message user (Push.group_notify (record { group_id = gid; reason = reason }))
        s.session);
}

continue-session :
    (s : Server) (session : Manager Push) (r : Outcome (Unit {0})) (k : Action (Unit {0}))
    → IsNotice k
    → (later : Manager Push) × ((continue r (λ _. k) (record s { session = session })).1
        ≡ record s { session = later })
continue-session s session (Outcome.done _) k notice = notice.at (record s { session = session })
continue-session s session (Outcome.refused c) k notice = (session, refl)
continue-session s session (Outcome.panicked p) k notice = (session, refl)

then-IsNotice : (m k : Action (Unit {0})) → IsNotice m → IsNotice k → IsNotice (m >> k)
unfolding ◌>>=◌
then-IsNotice m k first rest = record {
  at = λ s. let (session, e) = first.at s in rw e (continue-session s session (m s).0 k rest);
}

notify_others-IsNotice :
    (users : List String) (gid reason exclude : String)
    → IsNotice (notify_others users gid reason exclude)
unfolding notify_others pure
notify_others-IsNotice [] gid reason exclude = record { at = λ s. (s.session, refl) }
notify_others-IsNotice (user ∷ users) gid reason exclude =
    let rest = notify_others-IsNotice users gid reason exclude in
    elim (Bool-cases (user == exclude)) [
      | inl same ↦ rw same rest
      | inr other ↦ rw other (
          then-IsNotice (notify_user user gid reason) _ (notify_user-IsNotice user gid reason) rest)
    ]

pub notify_group-IsNotice :
    (gid reason exclude : String) → IsNotice (notify_group gid reason exclude)
unfolding notify_group ◌>>=◌ gets
notify_group-IsNotice gid reason exclude = record {
  at = λ s. (notify_others-IsNotice (group_member_ids s.groups gid) gid reason exclude).at s;
}

module _ {B : Type 0} where
  pub notify_group_done :
      (gid reason exclude : String) (k : Action B) (s s' : Server) (b : B)
      → (notify_group gid reason exclude >> k) s ≡ (Outcome.done b, s')
      → (session : Manager Push) × (k (record s { session = session }) ≡ (Outcome.done b, s'))
  notify_group_done gid reason exclude k s s' b h =
      let (_, _, rest) = bind_done (notify_group gid reason exclude) (λ _. k) s s' b h in
      let (session, e) = (notify_group-IsNotice gid reason exclude).at s in (session, rw (← e) rest)

pub no_value_done :
    (r : Result Error Groups) (db : Groups) (a : Unit {0}) → no_value r ≡ ok (db, a) → r ≡ ok db
no_value_done (ok x) db a h = ground arith
no_value_done (err e) db a h = cc
