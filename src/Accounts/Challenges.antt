-- ===== src/Accounts/Challenges.antt =====
-- A login challenge is good once, and for 300 seconds.
use etemsg_server.Base.{
  ltb, ℕ, ◌+◌, ◌≤◌, String, ◌≡◌, refl, List, [], ◌∷◌, ok, err, arith, ◌==◌, if◌then◌else◌, some,
  none,
}
use etemsg_server.Base.Table.{delete, first, insert}
use etemsg_server.Errors.{no_challenge}
use etemsg_server.Accounts.State.{Challenge, Accounts}
use etemsg_server.Accounts.Logins.{
  challenge_ttl, is_active, store_login_challenge, peek_login_challenge, consume_login_challenge,
}

-- Nothing that was inactive becomes active later.
first-active_later :
    (now later : ℕ) (user : String) (cs : List Challenge)
    → now ≤ later
    → first (is_active later user) (delete (is_active now user) cs) ≡ none
first-active_later now later user [] h = refl
first-active_later now later user (c ∷ cs) h = ground (arith, first-active_later now later user cs)

-- A challenge that was consumed cannot be consumed again, then or later, until a new one is stored.
pub consume_login_challenge_once :
    (now later : ℕ) (db db' : Accounts) (user : String) {challenge : String}
    → consume_login_challenge now db user ≡ ok (db', challenge)
    → now ≤ later
    → consume_login_challenge later db' user ≡ err no_challenge
unfolding consume_login_challenge
consume_login_challenge_once now later db db' user h le =
    ground (arith, first-active_later now later user db.login_challenges)

first-delete_user :
    (t : ℕ) (user u : String) (new : Challenge) (cs : List Challenge)
    → first (is_active t u) (insert new (delete (λ c. c.user_id == user) cs)) ≡ (
        if user == u
        then (if is_active t u new then some new else none)
        else first (is_active t u) (insert new cs))
first-delete_user t user u new [] = ground arith
first-delete_user t user u new (c ∷ cs) = ground (arith, first-delete_user t user u new cs)

-- A stored challenge can be read and consumed for 300 seconds, and not after; it replaces what was
-- stored for the same user before.
pub consume-store_login_challenge :
    (now later : ℕ) (db : Accounts) (user challenge : String)
    → let db' = store_login_challenge now db user challenge in
      let in_time = ltb later (now + 300) in
      (peek_login_challenge later db' user ≡ (if in_time then ok challenge else err no_challenge))
      × (consume_login_challenge later db' user ≡ (
          if in_time
          then ok (
            record db' { login_challenges = delete (is_active later user) db'.login_challenges },
            challenge,
          )
          else err no_challenge))
unfolding consume_login_challenge peek_login_challenge store_login_challenge
consume-store_login_challenge now later db user challenge =
    let new : Challenge = record {
      user_id = user;
      challenge = challenge;
      expires_at = now + challenge_ttl;
    } in
    let found = first-delete_user later user user new db.login_challenges in
    (ground (arith, found), ground (arith, found))
