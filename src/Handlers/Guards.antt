-- ===== src/Handlers/Guards.antt =====
-- What a signed request proves, and actions that leave the groups and the sessions alone unless one
-- was accepted.
use etemsg_server.Base.{
  ℕ, ℤ, String, Bool, true, false, Option, some, List, [], ◌∷◌, ◌++◌, ok, ◌≡◌, refl, ◌⊎◌, inl, inr,
  arith, Option-cases, Result-cases,
}
use etemsg_server.Base.Map.{lookup}
use etemsg_server.Accounts.Users.{get_public_key}
use etemsg_server.Auth.Nonces.{check_nonce, cleaned, is_recent}
use etemsg_server.Auth.Signed.{
  Verdict, SignedRequest, handle_signed_request, verify_signed_request, in_window, parse_int64,
  message_digest,
}
use etemsg_server.Handlers.Server.{
  Server, Env, Code, Outcome, Action, pure, refuse, or_refuse, ◌>>=◌, ◌>>◌, continue, refuse_when,
}
use etemsg_server.Handlers.Texts.{format_int}
use etemsg_server.Handlers.Access.{signed, verdict_outcome}

-- A registered user signed these fields, the timestamp and the nonce; the timestamp is in the window
-- and the nonce was not in use.
pub record IsSignedBy (env : Env) (s : Server) (user : String) (fields : List String) : Type 0 where
  pub timestamp : ℤ
  pub nonce : String
  pub signature : String
  pub key : String
  pub bits : ℕ
  pub registered : get_public_key s.accounts user ≡ ok key
  pub verified :
      env.crypto.is_signed key
        (message_digest env.crypto (fields ++ format_int timestamp ∷ nonce ∷ []))
        signature
      ≡ true
  pub parsed : parse_int64 (format_int timestamp) ≡ some bits
  pub timely : in_window env.now_ms bits ≡ true
  pub unused : is_recent env.now (lookup nonce (cleaned env.pick env.now s.seen user)) ≡ false

-- The request is signed by the key of the user that it names, over its fields, its timestamp and its
-- nonce; the timestamp is in the window and the nonce was not in use.
pub record IsAccepted (env : Env) (s : Server) (r : SignedRequest) : Type 0 where
  pub key : String
  pub bits : ℕ
  pub registered : get_public_key s.accounts r.user ≡ ok key
  pub verified :
      env.crypto.is_signed key
        (message_digest env.crypto (r.fields ++ r.timestamp ∷ r.nonce ∷ []))
        r.signature
      ≡ true
  pub parsed : parse_int64 r.timestamp ≡ some bits
  pub timely : in_window env.now_ms bits ≡ true
  pub unused : is_recent env.now (lookup r.nonce (cleaned env.pick env.now s.seen r.user)) ≡ false

verified_lem :
    (env : Env) (key : String) (fields : List String) (timestamp nonce signature : String)
    → verify_signed_request env.crypto env.now_ms key fields timestamp nonce signature ≡ ok tt
    → (bits : ℕ) × (parse_int64 timestamp ≡ some bits)
      × (in_window env.now_ms bits ≡ true)
      × (env.crypto.is_signed key
            (message_digest env.crypto (fields ++ timestamp ∷ nonce ∷ []))
            signature
          ≡ true)
unfolding verify_signed_request
verified_lem env key fields timestamp nonce signature h =
    elim (Option-cases (parse_int64 timestamp)) [
      | inl e ↦ absurd (ground arith)
      | inr (bits, e) ↦ (bits, e, ground arith, ground arith)
    ]

abbrev pub as_request : String → List String → ℤ → String → String → SignedRequest
as_request user fields timestamp nonce signature = record {
  user = user;
  fields = fields;
  timestamp = format_int timestamp;
  nonce = nonce;
  signature = signature;
}

pub accepted-IsAccepted :
    (env : Env) (s : Server) (user : String) (fields : List String) (timestamp : ℤ)
    (nonce signature : String)
    → (handle_signed_request env.crypto env.pick env.now env.now_ms s.accounts s.seen
        (as_request user fields timestamp nonce signature)).1
      ≡ Verdict.accepted
    → IsAccepted env s (as_request user fields timestamp nonce signature)
unfolding handle_signed_request check_nonce
accepted-IsAccepted env s user fields timestamp nonce signature h =
    elim (Result-cases (get_public_key s.accounts user)) [
      | inl (e, missing) ↦ absurd (ground arith)
      | inr (key, found) ↦
          elim (Result-cases (
            verify_signed_request env.crypto env.now_ms key fields (format_int timestamp) nonce
              signature)) [
                | inl (e, bad) ↦ absurd (ground arith)
                | inr (_, good) ↦
                    let (bits, parsed, timely, verified) =
                      verified_lem env key fields (format_int timestamp) nonce signature good in
                    record {
                      key = key;
                      bits = bits;
                      registered = found;
                      verified = verified;
                      parsed = parsed;
                      timely = timely;
                      unused = ground arith;
                    }
              ]
    ]

pub accepted-IsSignedBy :
    (env : Env) (s : Server) (user : String) (fields : List String) (timestamp : ℤ)
    (nonce signature : String)
    → (handle_signed_request env.crypto env.pick env.now env.now_ms s.accounts s.seen
        (as_request user fields timestamp nonce signature)).1
      ≡ Verdict.accepted
    → IsSignedBy env s user fields
accepted-IsSignedBy env s user fields timestamp nonce signature h =
    let a = accepted-IsAccepted env s user fields timestamp nonce signature h in
    record {
      timestamp = timestamp;
      nonce = nonce;
      signature = signature;
      key = a.key;
      bits = a.bits;
      registered = a.registered;
      verified = a.verified;
      parsed = a.parsed;
      timely = a.timely;
      unused = a.unused;
    }

pub verdict-cases :
    (v : Verdict) → (v ≡ Verdict.accepted) ⊎ ((c : Code) × (verdict_outcome v ≡ Outcome.refused c))
verdict-cases Verdict.accepted = inl refl
verdict-cases Verdict.signature_required = inr (Code.signature_required, refl)
verdict-cases Verdict.user_not_registered = inr (Code.user_not_found, refl)
verdict-cases Verdict.signature_invalid = inr (Code.signature_invalid, refl)
verdict-cases Verdict.duplicate_request = inr (Code.duplicate_request, refl)

-- The groups and the sessions are as they were.
abbrev pub IsKept : Server → Server → Type 0
IsKept s s' = (s'.groups ≡ s.groups) × (s'.session ≡ s.session)

pub record IsQuiet {A : Type 0} (m : Action A) : Type 0 where
  pub at : (s : Server) → (m s).1 ≡ s

-- Of the request with these signed parts, where it has them.
abbrev pub IsGuardedBy : Env → Option SignedRequest → Server → Server → Type 0
IsGuardedBy env c s s' = IsKept s s' ⊎ ((r : SignedRequest) × (c ≡ some r) × IsAccepted env s r)

pub record IsGuarded {A : Type 0} (env : Env) (c : Option SignedRequest) (m : Action A)
    : Type 0 where
  pub at : (s : Server) → IsGuardedBy env c s (m s).1

module _ {A : Type 0} where
  pub pure-IsQuiet : (a : A) → IsQuiet (pure a)
  unfolding pure
  pure-IsQuiet a = record { at = λ s. refl }

  pub or_refuse-IsQuiet : (o : Option A) (c : Code) → IsQuiet (or_refuse o c)
  unfolding or_refuse
  or_refuse-IsQuiet o c = record { at = λ s. refl }

  pub refuse-IsGuarded :
      (env : Env) (o : Option SignedRequest) (c : Code) → IsGuarded env o (refuse {A = A} c)
  unfolding refuse
  refuse-IsGuarded env o c = record { at = λ s. inl (refl, refl) }

pub refuse_when-IsQuiet : (b : Bool) (c : Code) → IsQuiet (refuse_when b c)
unfolding refuse_when
refuse_when-IsQuiet b c = record { at = λ s. refl }

module _ {A B : Type 0} where
  quiet_then :
      (env : Env) (o : Option SignedRequest) (s : Server) (r : Outcome A) (f : A → Action B)
      → ((a : A) → IsGuarded env o (f a))
      → IsGuardedBy env o s (continue r f s).1
  quiet_then env o s (Outcome.done a) f rest = (rest a).at s
  quiet_then env o s (Outcome.refused c) f rest = inl (refl, refl)
  quiet_then env o s (Outcome.panicked p) f rest = inl (refl, refl)

  pub bind-IsGuarded :
      (env : Env) (o : Option SignedRequest) (m : Action A) (f : A → Action B)
      → IsQuiet m
      → ((a : A) → IsGuarded env o (f a))
      → IsGuarded env o (m >>= f)
  unfolding ◌>>=◌
  bind-IsGuarded env o m f first rest = record {
    at = λ s. rw (first.at s) (quiet_then env o s (m s).0 f rest);
  }

  pub then_quiet :
      (s : Server) (r : Outcome A) (f : A → Action B)
      → ((a : A) → IsQuiet (f a))
      → (continue r f s).1 ≡ s
  then_quiet s (Outcome.done a) f rest = (rest a).at s
  then_quiet s (Outcome.refused c) f rest = refl
  then_quiet s (Outcome.panicked p) f rest = refl

  pub bind-IsGuarded_last :
      (env : Env) (o : Option SignedRequest) (m : Action A) (f : A → Action B)
      → IsGuarded env o m
      → ((a : A) → IsQuiet (f a))
      → IsGuarded env o (m >>= f)
  unfolding ◌>>=◌
  bind-IsGuarded_last env o m f first rest = record {
    at = λ s. rw (then_quiet (m s).1 (m s).0 f rest) (first.at s);
  }

module _ {B : Type 0} where
  pub then-IsGuarded :
      (env : Env) (o : Option SignedRequest) (m : Action (Unit {0})) (k : Action B)
      → IsQuiet m
      → IsGuarded env o k
      → IsGuarded env o (m >> k)
  then-IsGuarded env o m k first rest = bind-IsGuarded env o m (λ _. k) first (λ _. rest)

  pub signed-IsGuarded :
      (env : Env) (user : String) (fields : List String) (timestamp : ℤ) (nonce signature : String)
      (k : Action B)
      → IsGuarded env
          (some (as_request user fields timestamp nonce signature))
          (signed env user fields timestamp nonce signature >> k)
  unfolding ◌>>=◌ signed
  signed-IsGuarded env user fields timestamp nonce signature k = record {
    at = λ s.
        elim (verdict-cases
          (handle_signed_request env.crypto env.pick env.now env.now_ms s.accounts s.seen
            (as_request user fields timestamp nonce signature)).1) [
              | inl e ↦ inr (
                as_request user fields timestamp nonce signature,
                refl,
                accepted-IsAccepted env s user fields timestamp nonce signature e,
              )
              | inr (c, e) ↦ inl (rw e (refl, refl))
            ];
  }

pub ruleset guard_steps = (
  pure-IsQuiet, or_refuse-IsQuiet, refuse_when-IsQuiet, refuse-IsGuarded, signed-IsGuarded,
  then-IsGuarded, bind-IsGuarded,
)
