-- ===== src/Accounts/Users.antt =====
-- store/store.go: users and their one-way contacts.
use etemsg_server.Base.{
  ℕ, String, Bool, ◌&&◌, ◌||◌, not, List, [], ◌∷◌, ◌++◌, map, Result, ok, ◌>>=◌, ◌>>◌, refuse_if,
  or_fail, ◌==◌, ◌=ℕ◌, if◌then◌else◌,
}
use etemsg_server.Base.Table.{select, count_where, any_where, first, insert, sort_by}
use etemsg_server.Errors.{Error, user_not_found, unique_violation}
use etemsg_server.Accounts.State.{User, Contact, Accounts, text_leb}

abbrev pub has_user : String → User → Bool
has_user id u = u.user_id == id

unfoldable pub user_exists : Accounts → String → Bool
user_exists db id = any_where (has_user id) db.users

-- `now` is `time.Now().Unix()`; the primary key refuses a second row.
unfoldable pub register_user : ℕ → Accounts → String → String → Result Error Accounts
register_user now db id key = do
  refuse_if (any_where (has_user id) db.users) unique_violation
  ok (record db {
    users = insert (record { user_id = id; public_key = key; created_at = now }) db.users;
  })

unfoldable pub get_public_key : Accounts → String → Result Error String
get_public_key db id = do u ← or_fail (first (has_user id) db.users) user_not_found; ok u.public_key

unfoldable pub get_contacts : Accounts → String → List String
get_contacts db id =
    sort_by text_leb (map (λ c. c.contact_id) (select (λ c. c.user_id == id) db.contacts))

-- SELECT DISTINCT
abbrev pub distinct : List String → List String
distinct [] = []
distinct (x ∷ xs) =
    let rest = distinct xs in if any_where (λ y. y == x) rest then rest else x ∷ rest

unfoldable pub contacts_of : Accounts → String → List String
contacts_of db id =
    sort_by text_leb
      (distinct (map (λ c. c.user_id) (select (λ c. c.contact_id == id) db.contacts)))

unfoldable pub get_user_info : Accounts → String → Result Error (String × List String)
unfolding get_public_key get_contacts
get_user_info db id = do key ← get_public_key db id; ok (key, get_contacts db id)

unfoldable pub contact_exists : Accounts → String → Bool
contact_exists db id = any_where (has_user id) db.users

abbrev pub is_contact : String → String → Contact → Bool
is_contact a b c = c.user_id == a && c.contact_id == b

-- The row a → b is in the table.
abbrev pub has_contact : Accounts → String → String → Bool
has_contact db a b = any_where (is_contact a b) db.contacts

-- INSERT OR IGNORE
unfoldable pub add_contact : Accounts → String → String → Result Error (Accounts × String)
add_contact db user contact = do
  u ← or_fail (first (has_user contact) db.users) user_not_found
  ok (
    if any_where (is_contact user contact) db.contacts then db else record db {
      contacts = insert (record { user_id = user; contact_id = contact }) db.contacts;
    },
    u.public_key,
  )

unfoldable pub pending_incoming_contacts : Accounts → String → List String
pending_incoming_contacts db id = sort_by text_leb (
    map (λ c. c.user_id)
      (select (λ c. c.contact_id == id && not (any_where (is_contact id c.user_id) db.contacts))
        db.contacts))

unfoldable pub is_mutual_contact : Accounts → String → String → Bool
is_mutual_contact db a b = count_where (λ c. is_contact a b c || is_contact b a c) db.contacts =ℕ 2

-- contacts c1 JOIN contacts c2 ON c2.user_id = c1.contact_id AND c2.contact_id = c1.user_id
abbrev pub join_reverse : List Contact → List Contact → List String
join_reverse [] contacts = []
join_reverse (c ∷ cs) contacts =
    map (λ r. c.contact_id) (select (is_contact c.contact_id c.user_id) contacts)
    ++ join_reverse cs contacts

-- The set is the list of its keys.
unfoldable pub mutual_contact_ids : Accounts → String → List String
mutual_contact_ids db id =
    sort_by text_leb (join_reverse (select (λ c. c.user_id == id) db.contacts) db.contacts)
