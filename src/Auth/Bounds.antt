-- ===== src/Auth/Bounds.antt =====
-- The size of the nonce tables (auth/signed_request.go, CheckNonce).
use etemsg_server.Base.{
  ℕ, ◌≤◌, ◌<◌, ◌≡◌, inl, inr, String, some, List, [], ◌∷◌, length, leb, ◌=ℕ◌, ◌==◌, arith,
  Bool-cases, All,
}
use etemsg_server.Base.Map.{Map, lookup, put, erase}
use etemsg_server.Auth.Nonces.{
  nonce_max, nonce_max_per_user, Pick, FindsKey, drop_stale, sweep, swept, trimmed, evict,
  nonces_of, is_recent, cleaned, check_nonce, NonceCall, run_checks,
}
use etemsg_server.Auth.Replay.{length-drop_stale, length-erase, length-put}

-- Every user's table has at most 1000 nonces.
abbrev pub IsBounded : Map (Map ℕ) → Type 0
IsBounded seen = All (λ p. length p.1 ≤ nonce_max_per_user) seen

nonces_of-bounded :
    (user : String) (seen : Map (Map ℕ))
    → IsBounded seen
    → length (nonces_of user seen) ≤ nonce_max_per_user
unfolding lookup
nonces_of-bounded user [] b = omega arith
nonces_of-bounded user ((u, m) ∷ seen) (here, rest) =
    ground (arith, nonces_of-bounded user seen rest)

sweep-IsBounded : (now : ℕ) (seen : Map (Map ℕ)) → IsBounded seen → IsBounded (sweep now seen)
sweep-IsBounded now [] b = tt
sweep-IsBounded now ((u, m) ∷ seen) (here, rest) =
    elim (Bool-cases (length (drop_stale now m) =ℕ 0)) [
      | inl empty ↦ rw empty (sweep-IsBounded now seen rest)
      | inr some_left ↦
          rw some_left (omega (arith, length-drop_stale now m), sweep-IsBounded now seen rest)
    ]

erase-IsBounded :
    (user : String) (seen : Map (Map ℕ)) → IsBounded seen → IsBounded (erase user seen)
unfolding erase
erase-IsBounded user [] b = tt
erase-IsBounded user ((u, m) ∷ seen) (here, rest) = elim (Bool-cases (u == user)) [
  | inl same ↦ rw same (erase-IsBounded user seen rest)
  | inr other ↦ rw other (here, erase-IsBounded user seen rest)
]

put-IsBounded :
    (user : String) (m : Map ℕ) (seen : Map (Map ℕ))
    → length m ≤ nonce_max_per_user
    → IsBounded seen
    → IsBounded (put user m seen)
unfolding put
put-IsBounded user m seen h b = (h, erase-IsBounded user seen b)

swept-IsBounded : (now : ℕ) (seen : Map (Map ℕ)) → IsBounded seen → IsBounded (swept now seen)
swept-IsBounded now seen b = elim (Bool-cases (leb nonce_max (length seen))) [
  | inl many ↦ rw many (sweep-IsBounded now seen b)
  | inr few ↦ rw few b
]

-- A key that is there makes the table smaller when it is deleted.
length-erase_there :
    (k : String) (m : Map ℕ) (t : ℕ) → lookup k m ≡ some t → length (erase k m) < length m
unfolding erase lookup
length-erase_there k [] t h = cc
length-erase_there k ((n, s) ∷ m) t h = ground (arith, length-erase k m, length-erase_there k m t)

length-trimmed : (now : ℕ) (m : Map ℕ) → length (trimmed now m) ≤ length m
length-trimmed now m = elim (Bool-cases (leb nonce_max_per_user (length m))) [
  | inl full ↦ rw full (length-drop_stale now m)
  | inr free ↦ rw free (omega arith)
]

-- The cleanups make room for one nonce.
room_after_evict :
    (pick : Pick) (m : Map ℕ)
    → FindsKey pick
    → length m ≤ nonce_max_per_user
    → length (evict pick m) < nonce_max_per_user
room_after_evict pick m finds h = elim (Bool-cases (leb nonce_max_per_user (length m))) [
  | inr free ↦ rw free (ground arith)
  | inl full ↦
      let (t, e) = finds m (λ z. ground arith) in
      rw full (omega (arith, length-erase_there (pick m) m t e))
]

check_nonce-IsBounded :
    (pick : Pick) (now : ℕ) (seen : Map (Map ℕ)) (user nonce : String)
    → FindsKey pick
    → IsBounded seen
    → IsBounded (check_nonce pick now seen user nonce).0
unfolding check_nonce
check_nonce-IsBounded pick now seen user nonce finds b =
    let seen' = swept now seen in
    let b' = swept-IsBounded now seen b in
    let m = cleaned pick now seen user in
    let room : length m < nonce_max_per_user =
      room_after_evict pick (trimmed now (nonces_of user seen')) finds (
        omega
          (arith, length-trimmed now (nonces_of user seen'), nonces_of-bounded user seen' b')) in
    elim (Bool-cases (is_recent now (lookup nonce m))) [
      | inl replay ↦ rw replay (put-IsBounded user m seen' (omega (arith, room)) b')
      | inr new ↦ rw new (
          put-IsBounded user (put nonce now m) seen' (omega (arith, room, length-put nonce now m))
            b')
    ]

run-IsBounded :
    (pick : Pick) (seen : Map (Map ℕ)) (cs : List NonceCall)
    → FindsKey pick
    → IsBounded seen
    → IsBounded (run_checks pick seen cs)
unfolding run_checks
run-IsBounded pick seen [] finds b = b
run-IsBounded pick seen (c ∷ cs) finds b =
    run-IsBounded pick (check_nonce pick c.time seen c.user c.nonce).0 cs finds
      (check_nonce-IsBounded pick c.time seen c.user c.nonce finds b)

-- From the empty table on, no history of calls lets a user hold more than 1000 nonces, where the
-- iteration over a map that is not empty finds a key of it.
pub run_checks-IsBounded :
    (pick : Pick) (cs : List NonceCall) → FindsKey pick → IsBounded (run_checks pick [] cs)
run_checks-IsBounded pick cs finds = run-IsBounded pick [] cs finds tt
