-- ===== src/Auth/Replay.antt =====
-- Replays: what the table of nonces (auth/signed_request.go, CheckNonce) catches, and for how long.
use etemsg_server.Base.{
  ℕ, ◌+◌, ◌≤◌, ◌<◌, ◌≡◌, ◌≢◌, inl, inr, refl, String, true, false, some, List, [], ◌∷◌, length, leb,
  ◌==◌, if◌then◌else◌, arith, Bool-cases, All, dec_text,
}
use etemsg_server.Base.Map.{Map, lookup, put, erase, lookup-put}
use etemsg_server.Auth.Nonces.{
  signed_request_window, nonce_max, nonce_max_per_user, Pick, drop_stale, sweep, swept, trimmed,
  evict, nonces_of, is_recent, cleaned, check_nonce, NonceCall, run_checks,
}

abbrev pub Remembers : Map ℕ → String → ℕ → Type 0
Remembers m nonce t = lookup nonce m ≡ some t

keeps_recent :
    (now : ℕ) (m : Map ℕ) (nonce : String) (t : ℕ)
    → Remembers m nonce t
    → now < t + signed_request_window
    → Remembers (drop_stale now m) nonce t
unfolding lookup
keeps_recent now [] nonce t h w = cc
keeps_recent now ((n, s) ∷ m) nonce t h w = ground (arith, keeps_recent now m nonce t)

pub length-drop_stale : (now : ℕ) (m : Map ℕ) → length (drop_stale now m) ≤ length m
length-drop_stale now [] = omega arith
length-drop_stale now ((n, t) ∷ m) = ground (arith, length-drop_stale now m)

not_empty : (m : Map ℕ) (nonce : String) (t : ℕ) → Remembers m nonce t → length m ≢ 0
unfolding lookup
not_empty [] nonce t h = cc
not_empty ((n, s) ∷ m) nonce t h = λ e. omega arith

sweep_keeps :
    (now : ℕ) (seen : Map (Map ℕ)) (user nonce : String) (t : ℕ)
    → Remembers (nonces_of user seen) nonce t
    → now < t + signed_request_window
    → Remembers (nonces_of user (sweep now seen)) nonce t
      × (length (nonces_of user (sweep now seen)) ≤ length (nonces_of user seen))
unfolding lookup
sweep_keeps now [] user nonce t h w = (h, omega arith)
sweep_keeps now ((u, m) ∷ seen) user nonce t h w = elim (dec_text u user) [
  | yes p ↦
      let here : Remembers m nonce t = ground arith in
      let kept = keeps_recent now m nonce t here w in
      let some_left = not_empty (drop_stale now m) nonce t kept in
      (ground arith, ground (arith, length-drop_stale now m))
  | no n ↦
      let rest : Remembers (nonces_of user seen) nonce t = ground arith in
      let (kept, less) = sweep_keeps now seen user nonce t rest w in (ground arith, ground arith)
]

pub length-erase : (k : String) (m : Map ℕ) → length (erase k m) ≤ length m
unfolding erase
length-erase k [] = omega arith
length-erase k ((n, t) ∷ m) = ground (arith, length-erase k m)

pub length-put : (k : String) (v : ℕ) (m : Map ℕ) → length (put k v m) ≤ 1 + length m
unfolding put
length-put k v m = omega (arith, length-erase k m)

-- A user with room loses nothing to the cleanups of their own table.
no_cleanup :
    (pick : Pick) (now : ℕ) (m : Map ℕ)
    → length m < nonce_max_per_user
    → evict pick (trimmed now m) ≡ m
no_cleanup pick now m room = elim (Bool-cases (leb nonce_max_per_user (length m))) [
  | inl full ↦ absurd (ground arith)
  | inr free ↦ rw (free, free) refl
]

swept_keeps :
    (now : ℕ) (seen : Map (Map ℕ)) (user nonce : String) (t : ℕ)
    → Remembers (nonces_of user seen) nonce t
    → now < t + signed_request_window
    → Remembers (nonces_of user (swept now seen)) nonce t
      × (length (nonces_of user (swept now seen)) ≤ length (nonces_of user seen))
swept_keeps now seen user nonce t h w = elim (Bool-cases (leb nonce_max (length seen))) [
  | inl many ↦ rw many (sweep_keeps now seen user nonce t h w)
  | inr few ↦ rw few (h, omega arith)
]

pub nonces_of-put :
    (user u : String) (m : Map ℕ) (seen : Map (Map ℕ))
    → nonces_of u (put user m seen) ≡ (if user == u then m else nonces_of u seen)
nonces_of-put user u m seen = ground (arith, lookup-put user u m seen)

-- The tables after a call: that of its user has the nonce, the others are swept.
nonces_of-check_nonce :
    (pick : Pick) (now : ℕ) (seen : Map (Map ℕ)) (user nonce u : String)
    → let m = cleaned pick now seen user in
      nonces_of u (check_nonce pick now seen user nonce).0 ≡ (
        if user == u
        then (if is_recent now (lookup nonce m) then m else put nonce now m)
        else nonces_of u (swept now seen))
unfolding check_nonce
nonces_of-check_nonce pick now seen user nonce u =
    let m = cleaned pick now seen user in
    elim (Bool-cases (is_recent now (lookup nonce m))) [
      | inl replay ↦ rw replay (nonces_of-put user u m (swept now seen))
      | inr new ↦ rw new (nonces_of-put user u (put nonce now m) (swept now seen))
    ]

-- One call by anyone keeps a recent nonce, at its time, and adds at most one nonce to its user.
step_keeps :
    (pick : Pick) (seen : Map (Map ℕ)) (c : NonceCall) (user nonce : String) (t : ℕ)
    → Remembers (nonces_of user seen) nonce t
    → c.time < t + signed_request_window
    → length (nonces_of user seen) < nonce_max_per_user
    → let seen' = (check_nonce pick c.time seen c.user c.nonce).0 in
      Remembers (nonces_of user seen') nonce t
      × (length (nonces_of user seen') ≤ 1 + length (nonces_of user seen))
step_keeps pick seen c user nonce t h w room =
    let (kept, less) = swept_keeps c.time seen user nonce t h w in
    let m = nonces_of user (swept c.time seen) in
    rw (nonces_of-check_nonce pick c.time seen c.user c.nonce user) (elim (dec_text c.user user) [
      | no n ↦ (ground arith, ground arith)
      | yes p ↦
          let same : cleaned pick c.time seen c.user ≡ m =
            rw p (no_cleanup pick c.time m (omega arith)) in
          rw same (
            ground (arith, lookup-put c.nonce nonce c.time m),
            ground (arith, length-put c.nonce c.time m),
          )
    ])

run_keeps :
    (pick : Pick) (seen : Map (Map ℕ)) (cs : List NonceCall) (user nonce : String) (t : ℕ)
    → Remembers (nonces_of user seen) nonce t
    → All (λ c. c.time < t + signed_request_window) cs
    → length (nonces_of user seen) + length cs < nonce_max_per_user
    → Remembers (nonces_of user (run_checks pick seen cs)) nonce t
      × (length (nonces_of user (run_checks pick seen cs)) < nonce_max_per_user)
unfolding run_checks
run_keeps pick seen [] user nonce t h all room = (h, omega arith)
run_keeps pick seen (c ∷ cs) user nonce t h (now, all) room =
    let (kept, less) = step_keeps pick seen c user nonce t h now (omega arith) in
    run_keeps pick (check_nonce pick c.time seen c.user c.nonce).0 cs user nonce t kept all
      (omega (arith, less))

replay_found :
    (pick : Pick) (now : ℕ) (seen : Map (Map ℕ)) (user nonce : String) (t : ℕ)
    → Remembers (nonces_of user seen) nonce t
    → now < t + signed_request_window
    → length (nonces_of user seen) < nonce_max_per_user
    → (check_nonce pick now seen user nonce).1 ≡ true
unfolding check_nonce
replay_found pick now seen user nonce t h w room =
    let (kept, less) = swept_keeps now seen user nonce t h w in
    let same = no_cleanup pick now (nonces_of user (swept now seen)) (omega (arith, less)) in
    let recent : is_recent now (lookup nonce (cleaned pick now seen user)) ≡ true =
      rw (same, kept) (ground arith) in
    rw recent refl

pub recorded :
    (pick : Pick) (now : ℕ) (seen seen' : Map (Map ℕ)) (user nonce : String)
    → check_nonce pick now seen user nonce ≡ (seen', false)
    → Remembers (nonces_of user seen') nonce now
unfolding check_nonce
recorded pick now seen seen' user nonce h =
    let m = cleaned pick now seen user in
    elim (Bool-cases (is_recent now (lookup nonce m))) [
      | inl replay ↦ absurd (ground arith)
      | inr new ↦
          let after : seen' ≡ put user (put nonce now m) (swept now seen) = ground arith in
          rw after (rw nonces_of-put (ground (arith, lookup-put nonce nonce now m)))
    ]

-- A nonce that was used is refused for 5 minutes, whatever other requests come in between, as long
-- as they cannot fill the table of its user: the nonces that the user has and the calls make fewer
-- than 1000.
pub check_nonce_replay :
    (pick : Pick) (now later : ℕ) (seen seen' : Map (Map ℕ)) (user nonce : String)
    (cs : List NonceCall)
    → check_nonce pick now seen user nonce ≡ (seen', false)
    → All (λ c. c.time < now + signed_request_window) cs
    → later < now + signed_request_window
    → length (nonces_of user seen') + length cs < nonce_max_per_user
    → (check_nonce pick later (run_checks pick seen' cs) user nonce).1 ≡ true
check_nonce_replay pick now later seen seen' user nonce cs h all w room =
    let (kept, free) =
      run_keeps pick seen' cs user nonce now (recorded pick now seen seen' user nonce h) all room in
    replay_found pick later (run_checks pick seen' cs) user nonce now kept w free
