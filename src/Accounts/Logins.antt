-- ===== src/Accounts/Logins.antt =====
-- store/store.go: login challenges, session tokens and the metadata of files.
use etemsg_server.Base.{
  ℕ, ◌+◌, String, Bool, ◌&&◌, List, map, Result, ok, ◌>>=◌, ◌>>◌, refuse_if, or_fail, ◌==◌, ltb,
}
use etemsg_server.Base.Table.{select, delete, any_where, first, insert}
use etemsg_server.Errors.{Error, no_challenge, token_not_found, file_not_found, unique_violation}
use etemsg_server.Accounts.State.{Challenge, FileMeta, Accounts}

-- seconds
abbrev pub challenge_ttl : ℕ
challenge_ttl = 300

-- INSERT OR REPLACE
unfoldable pub store_login_challenge : ℕ → Accounts → String → String → Accounts
store_login_challenge now db user challenge = record db {
  login_challenges =
      insert (record { user_id = user; challenge = challenge; expires_at = now + challenge_ttl })
        (delete (λ c. c.user_id == user) db.login_challenges);
}

abbrev pub is_active : ℕ → String → Challenge → Bool
is_active now user c = c.user_id == user && ltb now c.expires_at

unfoldable pub peek_login_challenge : ℕ → Accounts → String → Result Error String
peek_login_challenge now db user = do
  c ← or_fail (first (is_active now user) db.login_challenges) no_challenge
  ok c.challenge

-- DELETE ... RETURNING
unfoldable pub consume_login_challenge : ℕ → Accounts → String → Result Error (Accounts × String)
consume_login_challenge now db user = do
  c ← or_fail (first (is_active now user) db.login_challenges) no_challenge
  ok (record db { login_challenges = delete (is_active now user) db.login_challenges }, c.challenge)

unfoldable pub delete_login_challenge : Accounts → String → Accounts
delete_login_challenge db user = record db {
  login_challenges = delete (λ c. c.user_id == user) db.login_challenges;
}

unfoldable pub store_token : Accounts → String → String → ℕ → Accounts
store_token db user token expires_at = record db {
  auth_tokens =
      insert (record { user_id = user; token = token; expires_at = expires_at })
        (delete (λ t. t.user_id == user) db.auth_tokens);
}

unfoldable pub get_token : Accounts → String → Result Error (String × ℕ)
get_token db user = do
  t ← or_fail (first (λ t. t.user_id == user) db.auth_tokens) token_not_found
  ok (t.token, t.expires_at)

unfoldable pub save_file_meta : Accounts → FileMeta → Result Error Accounts
save_file_meta db m = do
  refuse_if (any_where (λ f. f.file_id == m.file_id) db.files) unique_violation
  ok (record db { files = insert m db.files })

unfoldable pub get_file_meta : Accounts → String → Result Error FileMeta
get_file_meta db id = or_fail (first (λ f. f.file_id == id) db.files) file_not_found

unfoldable pub delete_file_meta : Accounts → String → Accounts
delete_file_meta db id = record db { files = delete (λ f. f.file_id == id) db.files }

unfoldable pub list_expired_file_ids : Accounts → ℕ → List String
list_expired_file_ids db before =
    map (λ f. f.file_id) (select (λ f. ltb f.created_at before) db.files)
