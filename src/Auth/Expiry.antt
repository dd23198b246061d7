-- ===== src/Auth/Expiry.antt =====
-- A nonce is forgotten 5 minutes after its use, and a timestamp may lie 5 minutes ahead
-- (handler/signed.go, auth/signed_request.go).
use etemsg_server.Base.{
  ℕ, ◌+◌, ◌≤◌, ◌≡◌, inl, inr, refl, String, true, false, some, [], ◌∷◌, length, leb, ◌=ℕ◌, ◌==◌,
  arith, ==_refl, Bool-cases, Result-cases, All, ok,
}
use etemsg_server.Base.Map.{Map, lookup, put, erase}
use etemsg_server.Accounts.State.{Accounts}
use etemsg_server.Accounts.Users.{get_public_key}
use etemsg_server.Auth.Nonces.{
  signed_request_window, nonce_max, nonce_max_per_user, Pick, is_stale, drop_stale, sweep, swept,
  trimmed, evict, nonces_of, is_recent, cleaned, check_nonce,
}
use etemsg_server.Auth.Signed.{
  Crypto, accepted, SignedRequest, handle_signed_request, verify_signed_request, in_window,
  parse_int64,
}
use etemsg_server.Auth.Replay.{nonces_of-put}

-- Every use of the nonce in the table is 5 minutes past.
abbrev pub IsExpired : ℕ → String → Map ℕ → Type 0
IsExpired now nonce m = All (λ p. p.0 ≡ nonce → p.1 + signed_request_window ≤ now) m

lookup-expired :
    (now : ℕ) (nonce : String) (m : Map ℕ)
    → IsExpired now nonce m
    → is_recent now (lookup nonce m) ≡ false
unfolding lookup
lookup-expired now nonce [] e = refl
lookup-expired now nonce ((n, t) ∷ m) (here, rest) =
    ground (arith, here, lookup-expired now nonce m rest)

erase-IsExpired :
    (now : ℕ) (nonce k : String) (m : Map ℕ)
    → IsExpired now nonce m
    → IsExpired now nonce (erase k m)
unfolding erase
erase-IsExpired now nonce k [] e = tt
erase-IsExpired now nonce k ((n, t) ∷ m) (here, rest) = elim (Bool-cases (n == k)) [
  | inl same ↦ rw same (erase-IsExpired now nonce k m rest)
  | inr other ↦ rw other (here, erase-IsExpired now nonce k m rest)
]

erase-IsExpired_self : (now : ℕ) (nonce : String) (m : Map ℕ) → IsExpired now nonce (erase nonce m)
unfolding erase
erase-IsExpired_self now nonce [] = tt
erase-IsExpired_self now nonce ((n, t) ∷ m) = elim (Bool-cases (n == nonce)) [
  | inl same ↦ rw same (erase-IsExpired_self now nonce m)
  | inr other ↦ rw other (λ p. ground arith, erase-IsExpired_self now nonce m)
]

drop_stale-IsExpired :
    (now : ℕ) (nonce : String) (m : Map ℕ)
    → IsExpired now nonce m
    → IsExpired now nonce (drop_stale now m)
drop_stale-IsExpired now nonce [] e = tt
drop_stale-IsExpired now nonce ((n, t) ∷ m) (here, rest) = elim (Bool-cases (is_stale now t)) [
  | inl old ↦ rw old (drop_stale-IsExpired now nonce m rest)
  | inr young ↦ rw young (here, drop_stale-IsExpired now nonce m rest)
]

evict-IsExpired :
    (pick : Pick) (now : ℕ) (nonce : String) (m : Map ℕ)
    → IsExpired now nonce m
    → IsExpired now nonce (evict pick m)
evict-IsExpired pick now nonce m e = elim (Bool-cases (leb nonce_max_per_user (length m))) [
  | inl full ↦ rw full (erase-IsExpired now nonce (pick m) m e)
  | inr free ↦ rw free e
]

trimmed-IsExpired :
    (pick : Pick) (now : ℕ) (nonce : String) (m : Map ℕ)
    → IsExpired now nonce m
    → IsExpired now nonce (evict pick (trimmed now m))
trimmed-IsExpired pick now nonce m e =
    evict-IsExpired pick now nonce (trimmed now m)
      (elim (Bool-cases (leb nonce_max_per_user (length m))) [
        | inl full ↦ rw full (drop_stale-IsExpired now nonce m e)
        | inr free ↦ rw free e
      ])

swept_away :
    (now : ℕ) (user : String) (seen : Map (Map ℕ))
    → nonces_of user (sweep now (erase user seen)) ≡ []
unfolding lookup erase
swept_away now user [] = refl
swept_away now user ((u, m) ∷ seen) = ground (arith, swept_away now user seen)

-- A table of users in which the given user comes first, as after a call.
swept-IsExpired :
    (now : ℕ) (user nonce : String) (m : Map ℕ) (seen : Map (Map ℕ))
    → IsExpired now nonce m
    → IsExpired now nonce (nonces_of user (swept now (put user m seen)))
swept-IsExpired now user nonce m seen e =
    elim (Bool-cases (leb nonce_max (length (put user m seen)))) [
      | inr few ↦ rw few (rw (nonces_of-put user user m seen, ==_refl user) e)
      | inl many ↦ rw many (elim (Bool-cases (length (drop_stale now m) =ℕ 0)) [
        | inl empty ↦
            let gone : nonces_of user (sweep now (put user m seen)) ≡ [] =
              unfold put in ground (arith, swept_away now user seen) in
            rw gone tt
        | inr some_left ↦
            let kept : nonces_of user (sweep now (put user m seen)) ≡ drop_stale now m =
              unfold put lookup in ground arith in
            rw kept (drop_stale-IsExpired now nonce m e)
      ])
    ]

-- Five minutes after its use a nonce is good again.
pub check_nonce_forgets :
    (pick : Pick) (now later : ℕ) (seen seen' : Map (Map ℕ)) (user nonce : String)
    → check_nonce pick now seen user nonce ≡ (seen', false)
    → now + signed_request_window ≤ later
    → (check_nonce pick later seen' user nonce).1 ≡ false
unfolding check_nonce
check_nonce_forgets pick now later seen seen' user nonce h old =
    let m = cleaned pick now seen user in
    elim (Bool-cases (is_recent now (lookup nonce m))) [
      | inl replay ↦ absurd (ground arith)
      | inr new ↦
          let after : seen' ≡ put user (put nonce now m) (swept now seen) = ground arith in
          let expired : IsExpired later nonce (put nonce now m) =
            unfold put in (λ p. old, erase-IsExpired_self later nonce m) in
          let free : is_recent later (lookup nonce (cleaned pick later seen' user)) ≡ false =
            rw after (
              lookup-expired later nonce _ (
                trimmed-IsExpired pick later nonce _
                  (swept-IsExpired later user nonce (put nonce now m) (swept now seen) expired))) in
          rw free refl
    ]

-- What an accepted request has passed.
passed :
    (crypto : Crypto) (pick : Pick) (now now_ms : ℕ) (db : Accounts) (seen seen' : Map (Map ℕ))
    (r : SignedRequest)
    → handle_signed_request crypto pick now now_ms db seen r ≡ (seen', accepted)
    → (key : String) × ((r.signature == "") ≡ false)
      × (get_public_key db r.user ≡ ok key)
      × (verify_signed_request crypto now_ms key r.fields r.timestamp r.nonce r.signature ≡ ok tt)
      × (check_nonce pick now seen r.user r.nonce ≡ (seen', false))
unfolding handle_signed_request
passed crypto pick now now_ms db seen seen' r h = elim (Result-cases (get_public_key db r.user)) [
  | inl (e, missing) ↦ absurd (ground arith)
  | inr (key, found) ↦
      elim (Result-cases
        (verify_signed_request crypto now_ms key r.fields r.timestamp r.nonce r.signature)) [
          | inl (e, bad) ↦ absurd (ground arith)
          | inr (u, good) ↦ (key, ground arith, found, good, ground arith)
        ]
]

-- The clock decides only about the window.
verified_later :
    (crypto : Crypto) (now_ms later_ms ts : ℕ) (key : String) (r : SignedRequest)
    → verify_signed_request crypto now_ms key r.fields r.timestamp r.nonce r.signature ≡ ok tt
    → parse_int64 r.timestamp ≡ some ts
    → in_window later_ms ts ≡ true
    → verify_signed_request crypto later_ms key r.fields r.timestamp r.nonce r.signature ≡ ok tt
unfolding verify_signed_request
verified_later crypto now_ms later_ms ts key r h e inside = ground arith

-- A signed request whose timestamp is still in the window 5 minutes after it was accepted, as one
-- from a clock that is ahead, is accepted a second time, unchanged.
pub handle_signed_request_replay :
    (crypto : Crypto) (pick : Pick) (now later now_ms later_ms : ℕ) (db : Accounts)
    (seen seen' : Map (Map ℕ)) (r : SignedRequest) (ts : ℕ)
    → handle_signed_request crypto pick now now_ms db seen r ≡ (seen', accepted)
    → now + signed_request_window ≤ later
    → parse_int64 r.timestamp ≡ some ts
    → in_window later_ms ts ≡ true
    → (handle_signed_request crypto pick later later_ms db seen' r).1 ≡ accepted
unfolding handle_signed_request
handle_signed_request_replay crypto pick now later now_ms later_ms db seen seen' r ts h old e
      inside =
    let (key, signed, found, good, used) = passed crypto pick now now_ms db seen seen' r h in
    let again = verified_later crypto now_ms later_ms ts key r good e inside in
    let free = check_nonce_forgets pick now later seen seen' r.user r.nonce used old in
    rw (signed, found) (rw again (rw free refl))
