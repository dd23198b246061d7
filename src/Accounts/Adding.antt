-- ===== src/Accounts/Adding.antt =====
-- AddContact (store/store.go), and what it does to the queries on contacts.
use etemsg_server.Base.{
  String, Bool, true, false, ◌&&◌, ◌||◌, ◌≡◌, ◌≢◌, ap, dec_text, Bool-cases, inl, inr, List, [],
  ◌∷◌, ok, arith, ◌==◌,
}
use etemsg_server.Base.Table.{any_where, insert}
use etemsg_server.Base.Table.Rows.{any_where-append}
use etemsg_server.Base.Table.Counts.{count_where-insert_key}
use etemsg_server.Accounts.State.{Contact, Accounts}
use etemsg_server.Accounts.Users.{
  is_contact, has_contact, add_contact, is_mutual_contact, mutual_contact_ids,
  pending_incoming_contacts,
}
use etemsg_server.Accounts.Mutual.{
  IsKeyed, lists, is_mutual_contact-both, lists-mutual_contact_ids, lists-pending_incoming_contacts,
}

any_where-insert :
    (p : Contact → Bool) (c : Contact) (cs : List Contact)
    → any_where p (insert c cs) ≡ (any_where p cs || p c)
any_where-insert p c cs = ground (arith, any_where-append p cs (c ∷ []))

-- Adding a contact adds that one row and no other.
pub has_contact-add_contact :
    (db db' : Accounts) (user contact : String) {key : String}
    → add_contact db user contact ≡ ok (db', key)
    → (a b : String) → has_contact db' a b ≡ (has_contact db a b || (user == a && contact == b))
unfolding add_contact
has_contact-add_contact db db' user contact h a b = elim (dec_text user a) [
  | yes p ↦ elim (dec_text contact b) [
    | yes q ↦ ground (
      arith,
      any_where-insert (is_contact a b) (record { user_id = user; contact_id = contact })
          db.contacts,
      ap (λ u. any_where (is_contact u contact) db.contacts) p,
      ap (λ v. any_where (is_contact a v) db.contacts) q,
    )
    | no n ↦ ground (
      arith,
      any_where-insert (is_contact a b) (record { user_id = user; contact_id = contact })
          db.contacts,
    )
  ]
  | no n ↦ ground (
    arith,
    any_where-insert (is_contact a b) (record { user_id = user; contact_id = contact }) db.contacts,
  )
]

-- The primary key holds after it, since an existing row is not inserted again.
pub add_contact-IsKeyed :
    (db db' : Accounts) (user contact : String) {key : String}
    → add_contact db user contact ≡ ok (db', key)
    → IsKeyed db
    → IsKeyed db'
unfolding add_contact
add_contact-IsKeyed db db' user contact h keyed a b =
    elim (Bool-cases (any_where (is_contact user contact) db.contacts)) [
      | inl old ↦ ground (arith, keyed a b)
      | inr new ↦ ground (
        arith,
        count_where-insert_key (is_contact a b) (is_contact user contact)
            (record { user_id = user; contact_id = contact }) db.contacts new
            (λ h y k. ground arith) (keyed a b),
      )
    ]

-- When two different users have each added the other, whoever was first, they are mutual contacts
-- and neither has a request of the other open.
pub add_contact-both_ways :
    (db db₁ db₂ : Accounts) (a b : String) {ka kb : String}
    → IsKeyed db
    → a ≢ b
    → add_contact db a b ≡ ok (db₁, kb)
    → add_contact db₁ b a ≡ ok (db₂, ka)
    → (is_mutual_contact db₂ a b ≡ true)
      × (lists b (mutual_contact_ids db₂ a) ≡ true)
      × (lists a (pending_incoming_contacts db₂ b) ≡ false)
      × (lists b (pending_incoming_contacts db₂ a) ≡ false)
add_contact-both_ways db db₁ db₂ a b keyed n h k =
    let keyed₂ = add_contact-IsKeyed db₁ db₂ b a k (add_contact-IsKeyed db db₁ a b h keyed) in
    let there : has_contact db₂ a b ≡ true = ground (
      arith,
      has_contact-add_contact db₁ db₂ b a k a b,
      has_contact-add_contact db db₁ a b h a b,
    ) in
    let back : has_contact db₂ b a ≡ true =
      ground (arith, has_contact-add_contact db₁ db₂ b a k b a) in
    (
      rw (is_mutual_contact-both db₂ a b keyed₂ n) (rw (there, back)),
      rw lists-mutual_contact_ids (rw (there, back)),
      rw lists-pending_incoming_contacts (rw (there, back)),
      rw lists-pending_incoming_contacts (rw (there, back)),
    )
