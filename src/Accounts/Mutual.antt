-- ===== src/Accounts/Mutual.antt =====
-- Contacts: who may message whom, who sees whose presence, and open contact requests.
use etemsg_server.Base.{
  ℕ, ◌+◌, ◌≤◌, ◌<◌, String, Bool, true, false, ◌&&◌, not, ◌≡◌, ◌≢◌, refl, sym, ◌∙◌, List, [], ◌∷◌,
  map, arith, ◌==◌, ◌=ℕ◌,
}
use etemsg_server.Base.Table.{select, count_where, any_where}
use etemsg_server.Base.Table.Rows.{
  any_where-append, any_where-select, any_where-sort_by, any_where-and, any_where_congr,
  any_where-map, count_where_pos_iff, count_where_zero,
}
use etemsg_server.Base.Table.Counts.{count_where-or}
use etemsg_server.Accounts.State.{Contact, Accounts, text_leb}
use etemsg_server.Accounts.Users.{
  is_contact, has_contact, is_mutual_contact, mutual_contact_ids, join_reverse,
  pending_incoming_contacts,
}

-- The primary key of `contacts`.
abbrev pub IsKeyed : Accounts → Type 0
IsKeyed db = (a b : String) → count_where (is_contact a b) db.contacts ≤ 1

abbrev pub lists : String → List String → Bool
lists id ids = any_where (λ x. x == id) ids

both_ways :
    (m n : ℕ) (a b : Bool)
    → m ≤ 1
    → n ≤ 1
    → (a ≡ true → 0 < m)
    → (a ≡ false → m ≡ 0)
    → (b ≡ true → 0 < n)
    → (b ≡ false → n ≡ 0)
    → ((m + n) =ℕ 2) ≡ (a && b)
both_ways m n a b h k p q r s = ground arith

is_contact_path :
    (a b : String) (c : Contact) → is_contact a b c ≡ true → (c.user_id ≡ a) × (c.contact_id ≡ b)
is_contact_path a b c e = ground arith

-- The count of the two rows is 2 exactly when each user has added the other.
pub is_mutual_contact-both :
    (db : Accounts) (a b : String)
    → IsKeyed db
    → a ≢ b
    → is_mutual_contact db a b ≡ (has_contact db a b && has_contact db b a)
unfolding is_mutual_contact
is_mutual_contact-both db a b keyed h =
    rw (count_where-or (is_contact a b) (is_contact b a) db.contacts (λ c e. ground arith)) (
      both_ways _ _ _ _ (keyed a b) (keyed b a) (count_where_pos_iff (is_contact a b) db.contacts)
        (count_where_zero (is_contact a b) db.contacts)
        (count_where_pos_iff (is_contact b a) db.contacts)
        (count_where_zero (is_contact b a) db.contacts))

any_where-join_reverse :
    (id : String) (cs all : List Contact)
    → lists id (join_reverse cs all)
      ≡ any_where (λ c. c.contact_id == id && any_where (is_contact c.contact_id c.user_id) all) cs
any_where-join_reverse id [] all = refl
any_where-join_reverse id (c ∷ cs) all =
    let reverse = is_contact c.contact_id c.user_id in
    ground (
      arith,
      any_where-append (λ x. x == id) (map (λ r. c.contact_id) (select reverse all))
          (join_reverse cs all),
      any_where-map (λ x. x == id) (λ (r : Contact). c.contact_id) (select reverse all),
      any_where-select (λ (r : Contact). c.contact_id == id) reverse all,
      any_where-and reverse (λ r. c.contact_id == id) (c.contact_id == id) all (λ r e. refl),
      any_where-join_reverse id cs all,
    )

-- The batch query lists those whom the user has added and who have added the user.
pub lists-mutual_contact_ids :
    (db : Accounts) (user id : String)
    → lists id (mutual_contact_ids db user) ≡ (has_contact db user id && has_contact db id user)
unfolding mutual_contact_ids
lists-mutual_contact_ids db user id =
    any_where-sort_by (λ x. x == id) text_leb _
    ∙ any_where-join_reverse id (select (λ c. c.user_id == user) db.contacts) db.contacts
    ∙ any_where-select
        (λ c. c.contact_id == id && any_where (is_contact c.contact_id c.user_id) db.contacts)
        (λ c. c.user_id == user) db.contacts
    ∙ any_where_congr
        (λ c.
          c.user_id == user
          && (c.contact_id == id && any_where (is_contact c.contact_id c.user_id) db.contacts))
        (λ c. is_contact user id c && any_where (is_contact c.contact_id c.user_id) db.contacts)
        db.contacts (λ c. ground arith)
    ∙ any_where-and (is_contact user id)
        (λ c. any_where (is_contact c.contact_id c.user_id) db.contacts) (has_contact db id user)
        db.contacts (λ c e. (let (p, q) = is_contact_path user id c e in rw (p, q)))

-- With at most one row for a user and a contact, the batch query lists another user exactly where the
-- single query calls the two mutual contacts.
pub mutual_contact_ids-is_mutual_contact :
    (db : Accounts) (user id : String)
    → IsKeyed db
    → user ≢ id
    → lists id (mutual_contact_ids db user) ≡ is_mutual_contact db user id
mutual_contact_ids-is_mutual_contact db user id keyed other =
    lists-mutual_contact_ids db user id ∙ sym (is_mutual_contact-both db user id keyed other)

-- A request is open for exactly those who added the user and whom the user has not added.
pub lists-pending_incoming_contacts :
    (db : Accounts) (user id : String)
    → lists id (pending_incoming_contacts db user)
      ≡ (has_contact db id user && not (has_contact db user id))
unfolding pending_incoming_contacts
lists-pending_incoming_contacts db user id =
    any_where-sort_by (λ x. x == id) text_leb _
    ∙ any_where-map (λ x. x == id) (λ c. c.user_id)
        (select
          (λ c. c.contact_id == user && not (any_where (is_contact user c.user_id) db.contacts))
          db.contacts)
    ∙ any_where-select (λ c. c.user_id == id)
        (λ c. c.contact_id == user && not (any_where (is_contact user c.user_id) db.contacts))
        db.contacts
    ∙ any_where_congr
        (λ c.
          (c.contact_id == user && not (any_where (is_contact user c.user_id) db.contacts))
          && c.user_id == id)
        (λ c. is_contact id user c && not (any_where (is_contact user c.user_id) db.contacts))
        db.contacts (λ c. ground arith)
    ∙ any_where-and (is_contact id user)
        (λ c. not (any_where (is_contact user c.user_id) db.contacts))
        (not (has_contact db user id)) db.contacts
        (λ c e. let (p, q) = is_contact_path id user c e in rw p)
