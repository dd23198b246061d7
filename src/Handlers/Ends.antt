-- ===== src/Handlers/Ends.antt =====
-- How a run of a handler ends, whichever way it does: one rule for each kind of step.
use etemsg_server.Base.{
  ℕ, ℤ, String, some, Bool, true, false, List, Result, ok, err, ◌≡◌, refl, sym, ◌∙◌, ap, subst, ◌⊎◌,
  inl, inr,
}
use etemsg_server.Base.Map.{Map}
use etemsg_server.Errors.{Error}
use etemsg_server.Groups.State.{Group, GroupMember, Groups, is_active}
use etemsg_server.Groups.Roster.{get_group, get_group_member}
use etemsg_server.Auth.Signed.{handle_signed_request}
use etemsg_server.Handlers.Server.{
  Server, Env, Code, Outcome, Action, pure, gets, asks, or_refuse, ◌>>=◌, ◌>>◌, continue,
  refuse_when, store, written, answer,
}
use etemsg_server.Handlers.Access.{
  signed, load_active_group, load_active_group_member, active_group, result_outcome, member_code,
}
use etemsg_server.Handlers.Guards.{
  IsAccepted, accepted-IsAccepted, verdict-cases, as_request, pure-IsQuiet, then_quiet,
}
use etemsg_server.Handlers.Done.{
  load_active_group_member_done, active_group_ok, result_outcome_done, answer_done,
}

-- The group is active and the user is a member of it.
pub record IsMemberOf (db : Groups) (gid user : String) (g : Group) (m : GroupMember) : Type 0 where
  pub found : get_group db gid ≡ ok g
  pub active : is_active g.state ≡ true
  pub joined : get_group_member db gid user ≡ ok m

-- What `view` shows of the server after a run. With an answer it is as `C` says of the answer; with
-- a refusal it is as it was before; a run that panics has not changed it, or has changed it as `C`
-- says of the answer that was to be given.
unfoldable pub Ends :
    {A X : Type 0} → X → (A → X → Type 0) → (Server → X) → Outcome A × Server → Type 0
Ends before C view (Outcome.done a, s) = C a (view s)
Ends before C view (Outcome.refused c, s) = view s ≡ before
Ends {A} before C view (Outcome.panicked p, s) = (view s ≡ before) ⊎ ((a : A) × C a (view s))

-- Steps that only push: they are never refused, and keep the tables and who is online.
abbrev pub IsUnrefused : {A : Type 0} → Outcome A → Type 0
IsUnrefused (Outcome.done a) = Unit
IsUnrefused (Outcome.refused c) = ⊥
IsUnrefused (Outcome.panicked p) = Unit

pub record IsPush {A : Type 0} (m : Action A) : Type 0 where
  pub unrefused : (s : Server) → IsUnrefused (m s).0
  pub tables : (s : Server) → (m s).1.groups ≡ s.groups
  pub online : (s : Server) → (m s).1.session.users ≡ s.session.users

module _ {A X : Type 0} (before : X) (C : A → X → Type 0) (view : Server → X) where
  -- What an answered run says.
  pub Ends-done :
      (r : Outcome A × Server) (a : A) (s' : Server)
      → r ≡ (Outcome.done a, s')
      → Ends before C view r
      → C a (view s')
  unfolding Ends
  Ends-done r a s' h e = subst (Ends before C view) h e

  pub pure-Ends : (a : A) (s : Server) → C a (view s) → Ends before C view (pure a s)
  unfolding pure Ends
  pure-Ends a s h = h

  pub refuse_when-Ends :
      (bad : Bool) (c : Code) (k : Action A) (s : Server)
      → view s ≡ before
      → (bad ≡ false → Ends before C view (k s))
      → Ends before C view ((refuse_when bad c >> k) s)
  unfolding ◌>>=◌ refuse_when Ends
  refuse_when-Ends true c k s same rest = same
  refuse_when-Ends false c k s same rest = rest refl

  pub told_by :
      (r : Outcome (Unit {0})) (s s' : Server) (a : A)
      → IsUnrefused r
      → view s' ≡ view s
      → C a (view s)
      → Ends before C view (continue r (λ _. pure a) s')
  unfolding pure Ends
  told_by (Outcome.done _) s s' a u same h = subst (C a) (sym same) h
  told_by (Outcome.refused c) s s' a u same h = absurd u
  told_by (Outcome.panicked p) s s' a u same h = inr (a, subst (C a) (sym same) h)

module _ {A B X : Type 0} (before : X) (C : A → X → Type 0) (view : Server → X) where
  query_by :
      (r : Outcome B) (f : B → Action A) (s : Server)
      → view s ≡ before
      → ((b : B) → r ≡ Outcome.done b → Ends before C view (f b s))
      → Ends before C view (continue r f s)
  unfolding Ends
  query_by (Outcome.done b) f s same rest = rest b refl
  query_by (Outcome.refused c) f s same rest = same
  query_by (Outcome.panicked p) f s same rest = inl same

  -- A step that changes nothing.
  pub query-Ends :
      (m : Action B) (f : B → Action A) (s : Server)
      → (m s).1 ≡ s
      → view s ≡ before
      → ((b : B) → (m s).0 ≡ Outcome.done b → Ends before C view (f b s))
      → Ends before C view ((m >>= f) s)
  unfolding ◌>>=◌
  query-Ends m f s quiet same rest = rw quiet (query_by (m s).0 f s same rest)

  pub gets-Ends :
      (q : Server → B) (f : B → Action A) (s : Server)
      → Ends before C view (f (q s) s)
      → Ends before C view ((gets q >>= f) s)
  unfolding ◌>>=◌ gets
  gets-Ends q f s rest = rest

  pub some-Ends :
      (b : B) (c : Code) (f : B → Action A) (s : Server)
      → Ends before C view (f b s)
      → Ends before C view ((or_refuse (some b) c >>= f) s)
  unfolding ◌>>=◌ or_refuse
  some-Ends b c f s rest = rest

  pub asks-Ends :
      (code : Error → Code) (q : Server → Result Error B) (f : B → Action A) (s : Server)
      → view s ≡ before
      → ((b : B) → q s ≡ ok b → Ends before C view (f b s))
      → Ends before C view ((asks code q >>= f) s)
  unfolding asks
  asks-Ends code q f s same rest =
      query-Ends (asks code q) f s refl same (λ b e. rest b (answer_done code (q s) b e))

load_quiet : (gid user : String) (s : Server) → (load_active_group_member gid user s).1 ≡ s
unfolding ◌>>=◌ load_active_group_member load_active_group asks
load_quiet gid user s = then_quiet s (result_outcome (active_group s.groups gid)) _ (λ g. record {
  at = λ z.
      then_quiet z (answer member_code (get_group_member z.groups gid user)) _
        (λ m. pure-IsQuiet (g, m));
})

load_answer :
    (gid user : String) (s : Server) (g : Group) (m : GroupMember)
    → (load_active_group_member gid user s).0 ≡ Outcome.done (g, m)
    → IsMemberOf s.groups gid user g m
unfolding ◌>>=◌ pure
load_answer gid user s g m e =
    let whole : (load_active_group_member gid user >>= pure) s ≡ (Outcome.done (g, m), s) =
      rw (e, load_quiet gid user s) refl in
    let (g', m', found, active, joined, same) =
      load_active_group_member_done gid user pure s s (g, m) whole in
    let is_g : g' ≡ g = cc same in
    let is_m : m' ≡ m = cc same in
    record {
      found = found ∙ ap ok is_g;
      active = ap (λ x. is_active x.state) (sym is_g) ∙ active;
      joined = joined ∙ ap ok is_m;
    }

module _ {A : Type 0} (before : Groups) (C : A → Groups → Type 0) where
  pub signed-Ends :
      (env : Env) (user : String) (fields : List String) (timestamp : ℤ) (nonce signature : String)
      (k : Action A) (s : Server)
      → s.groups ≡ before
      → (IsAccepted env s (as_request user fields timestamp nonce signature)
          → (seen : Map (Map ℕ)) → Ends before C (λ z. z.groups) (k (record s { seen = seen })))
      → Ends before C (λ z. z.groups) ((signed env user fields timestamp nonce signature >> k) s)
  unfolding ◌>>=◌ signed Ends
  signed-Ends env user fields timestamp nonce signature k s same rest =
      let out =
        handle_signed_request env.crypto env.pick env.now env.now_ms s.accounts s.seen
          (as_request user fields timestamp nonce signature) in
      elim (verdict-cases out.1) [
        | inl e ↦
            rw e (rest (accepted-IsAccepted env s user fields timestamp nonce signature e) out.0)
        | inr (c, e) ↦ rw e same
      ]

  pub load_active_group_member-Ends :
      (gid user : String) (f : Group × GroupMember → Action A) (s : Server)
      → s.groups ≡ before
      → ((g : Group) (m : GroupMember)
          → IsMemberOf s.groups gid user g m
          → Ends before C (λ z. z.groups) (f (g, m) s))
      → Ends before C (λ z. z.groups) ((load_active_group_member gid user >>= f) s)
  load_active_group_member-Ends gid user f s same rest =
      query-Ends before C (λ z. z.groups) (load_active_group_member gid user) f s
        (load_quiet gid user s) same (λ p e. rest p.0 p.1 (load_answer gid user s p.0 p.1 e))

  pub load_active_group-Ends :
      (gid : String) (f : Group → Action A) (s : Server)
      → s.groups ≡ before
      → ((g : Group) → get_group s.groups gid ≡ ok g → Ends before C (λ z. z.groups) (f g s))
      → Ends before C (λ z. z.groups) ((load_active_group gid >>= f) s)
  unfolding load_active_group
  load_active_group-Ends gid f s same rest =
      query-Ends before C (λ z. z.groups) (load_active_group gid) f s refl same
        (λ g e.
          rest g
            (active_group_ok s.groups gid g
              (result_outcome_done (active_group s.groups gid) g e)).0)

  pub told-Ends :
      (m : Action (Unit {0})) (a : A) (s : Server)
      → IsPush m
      → C a s.groups
      → Ends before C (λ z. z.groups) ((m >> pure a) s)
  unfolding ◌>>=◌
  told-Ends m a s push h =
      told_by before C (λ z. z.groups) (m s).0 s (m s).1 a (push.unrefused s) (push.tables s) h

module _ {A B : Type 0} (before : Groups) (C : A → Groups → Type 0) where
  store_by :
      (code : Error → Code) (r : Result Error (Groups × B)) (f : B → Action A) (s : Server)
      → s.groups ≡ before
      → ((b : B) (db : Groups)
          → r ≡ ok (db, b)
          → Ends before C (λ z. z.groups) (f b (record s { groups = db })))
      → Ends before C (λ z. z.groups) (continue (written code r s).0 f (written code r s).1)
  unfolding Ends
  store_by code (err e) f s same rest = same
  store_by code (ok (db, b)) f s same rest = rest b db refl

  pub store-Ends :
      (code : Error → Code) (q : Groups → Result Error (Groups × B)) (f : B → Action A) (s : Server)
      → s.groups ≡ before
      → ((b : B) (db : Groups)
          → q s.groups ≡ ok (db, b)
          → Ends before C (λ z. z.groups) (f b (record s { groups = db })))
      → Ends before C (λ z. z.groups) ((store code q >>= f) s)
  unfolding ◌>>=◌ store
  store-Ends code q f s same rest = store_by code (q s.groups) f s same rest
