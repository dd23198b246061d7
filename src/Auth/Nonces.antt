-- ===== src/Auth/Nonces.antt =====
-- auth/signed_request.go, CheckNonce, and handler/ws.go, isReplay: the nonces that each user has used, and when. Times are nanoseconds of the
-- monotonic clock. Go iterates over a map in no fixed order: the key that `evict` deletes is the
-- argument `pick`.
use etemsg_server.Base.{
  ℕ, ◌+◌, ◌≢◌, ◌≡◌, String, Bool, true, false, Option, none, some, List, [], ◌∷◌, length, ltb, leb,
  ◌=ℕ◌, if◌then◌else◌,
}
use etemsg_server.Base.Map.{Map, lookup, put, erase}

-- 5 minutes
abbrev pub signed_request_window : ℕ
signed_request_window = 300000000000

abbrev pub nonce_max : ℕ
nonce_max = 1000

abbrev pub nonce_max_per_user : ℕ
nonce_max_per_user = 1000

-- A key of the map, for a map that is not empty.
abbrev pub Pick : Type 0
Pick = Map ℕ → String

abbrev pub FindsKey : Pick → Type 0
FindsKey pick = (m : Map ℕ) → length m ≢ 0 → (t : ℕ) × (lookup (pick m) m ≡ some t)

-- `now.Sub(t) > SignedRequestWindow`
abbrev pub is_stale : ℕ → ℕ → Bool
is_stale now t = ltb (t + signed_request_window) now

abbrev pub drop_stale : ℕ → Map ℕ → Map ℕ
drop_stale now [] = []
drop_stale now ((n, t) ∷ m) =
    let rest = drop_stale now m in if is_stale now t then rest else (n, t) ∷ rest

-- Users without a nonce left are deleted.
abbrev pub sweep : ℕ → Map (Map ℕ) → Map (Map ℕ)
sweep now [] = []
sweep now ((u, m) ∷ seen) =
    let rest = sweep now seen in
    if length (drop_stale now m) =ℕ 0 then rest else (u, drop_stale now m) ∷ rest

abbrev pub or_empty : Option (Map ℕ) → Map ℕ
or_empty none = []
or_empty (some m) = m

abbrev pub nonces_of : String → Map (Map ℕ) → Map ℕ
nonces_of user seen = or_empty (lookup user seen)

-- `t, dup := m[nonce]; dup && now.Sub(t) < SignedRequestWindow`
abbrev pub is_recent : ℕ → Option ℕ → Bool
is_recent now none = false
is_recent now (some t) = ltb now (t + signed_request_window)

abbrev pub swept : ℕ → Map (Map ℕ) → Map (Map ℕ)
swept now seen = if leb nonce_max (length seen) then sweep now seen else seen

abbrev pub trimmed : ℕ → Map ℕ → Map ℕ
trimmed now m = if leb nonce_max_per_user (length m) then drop_stale now m else m

abbrev pub evict : Pick → Map ℕ → Map ℕ
evict pick m = if leb nonce_max_per_user (length m) then erase (pick m) m else m

-- The table of a user as `CheckNonce` finds it after its cleanups.
abbrev pub cleaned : Pick → ℕ → Map (Map ℕ) → String → Map ℕ
cleaned pick now seen user = evict pick (trimmed now (nonces_of user (swept now seen)))

-- The result is `true` for a replay.
unfoldable pub check_nonce : Pick → ℕ → Map (Map ℕ) → String → String → Map (Map ℕ) × Bool
check_nonce pick now seen user nonce =
    let m = cleaned pick now seen user in
    if is_recent now (lookup nonce m)
    then (put user m (swept now seen), true)
    else (put user (put nonce now m) (swept now seen), false)

pub record NonceCall : Type 0 where
  pub time : ℕ
  pub user : String
  pub nonce : String

-- A history of calls, which the lock puts in an order.
unfoldable pub run_checks : Pick → Map (Map ℕ) → List NonceCall → Map (Map ℕ)
unfolding check_nonce
run_checks pick seen [] = seen
run_checks pick seen (c ∷ cs) = run_checks pick (check_nonce pick c.time seen c.user c.nonce).0 cs

-- handler/ws.go: the same over message ids, of which an entry counts however old it is.
unfoldable pub is_replay : Pick → ℕ → Map (Map ℕ) → String → String → Map (Map ℕ) × Bool
is_replay pick now seen sender msg_id =
    let m = cleaned pick now seen sender in
    elim (lookup msg_id m) [
      | none ↦ (put sender (put msg_id now m) (swept now seen), false)
      | some t ↦ (put sender m (swept now seen), true)
    ]
