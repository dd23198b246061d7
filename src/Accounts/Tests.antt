-- ===== src/Accounts/Tests.antt =====
-- Tests of the accounts part of the store: Ann and Bob, who add each other.
use etemsg_server.Base.{
  ◌+◌, ◌≤◌, String, false, ◌≡◌, ◌≢◌, refl, [], ◌∷◌, ◌++◌, ok, err, dec_text, ◌==◌, arith, length,
}
use etemsg_server.Errors.{no_challenge}
use etemsg_server.Accounts.State.{User, Contact, OfflineMessage, Accounts, no_accounts}
use etemsg_server.Accounts.Users.{add_contact, is_mutual_contact, mutual_contact_ids}
use etemsg_server.Accounts.Offline.{fetch_and_clear_offline_msgs}
use etemsg_server.Accounts.Logins.{consume_login_challenge}
use etemsg_server.Accounts.Mutual.{IsKeyed, lists, mutual_contact_ids-is_mutual_contact}
use etemsg_server.Accounts.Adding.{add_contact-IsKeyed}
use etemsg_server.Accounts.Queue.{queue, push_all, fetch-push_all}
use etemsg_server.Accounts.Challenges.{consume_login_challenge_once}

abbrev user : String → User
user id = record { user_id = id; public_key = "key"; created_at = 1 }

abbrev arrow : String → String → Contact
arrow a b = record { user_id = a; contact_id = b }

abbrev known : Accounts
known = record no_accounts { users = user "ann" ∷ user "bob" ∷ [] }

known-IsKeyed : IsKeyed known
known-IsKeyed a b = ground arith

ann_ne_bob : "ann" == "bob" ≡ false
unfolding dec_text
ann_ne_bob = refl

apart : ◌≢◌ {A = String} "ann" "bob"
apart = λ p. ground (arith, ann_ne_bob)

abbrev one_way : Accounts
one_way = record known { contacts = arrow "ann" "bob" ∷ [] }

abbrev both_added : Accounts
both_added = record known { contacts = arrow "ann" "bob" ∷ arrow "bob" "ann" ∷ [] }

ann_adds : add_contact known "ann" "bob" ≡ ok (one_way, "key")
unfolding add_contact dec_text
ann_adds = refl

bob_adds : add_contact one_way "bob" "ann" ≡ ok (both_added, "key")
unfolding add_contact dec_text
bob_adds = refl

both_added-IsKeyed : IsKeyed both_added
both_added-IsKeyed =
    add_contact-IsKeyed one_way both_added "bob" "ann" bob_adds
      (add_contact-IsKeyed known one_way "ann" "bob" ann_adds known-IsKeyed)

mutual_contact_ids-is_mutual_contact_example :
    lists "bob" (mutual_contact_ids both_added "ann") ≡ is_mutual_contact both_added "ann" "bob"
mutual_contact_ids-is_mutual_contact_example =
    mutual_contact_ids-is_mutual_contact both_added "ann" "bob" both_added-IsKeyed apart

abbrev note : String → OfflineMessage
note id = record {
  from = "ann";
  ciphertext = "c";
  iv = "i";
  tag = "t";
  msg_id = id;
  timestamp = 0;
  msg_type = "text";
  file_id = "";
  filename = "";
  size = 0;
  sha256 = "";
  wrapped_key = "w";
  signature = "s";
}

-- One message waits for Bob.
abbrev waiting : Accounts
waiting = record known {
  offline_messages = record { recipient = "bob"; message = note "m1"; created_at = 2 } ∷ [];
}

short_queue : length (queue waiting "bob") + 2 ≤ 1000
unfolding dec_text
short_queue = omega arith

fetch-push_all_example :
    (db' : Accounts) × (push_all 3 waiting "bob" (note "m2" ∷ note "m3" ∷ []) ≡ ok db')
    × ((fetch_and_clear_offline_msgs db' "bob").1
        ≡ queue waiting "bob" ++ note "m2" ∷ note "m3" ∷ [])
    × ((fetch_and_clear_offline_msgs (fetch_and_clear_offline_msgs db' "bob").0 "bob").1 ≡ [])
fetch-push_all_example = fetch-push_all 3 waiting "bob" (note "m2" ∷ note "m3" ∷ []) short_queue

abbrev challenged : Accounts
challenged = record known {
  login_challenges = record { user_id = "bob"; challenge = "x"; expires_at = 310 } ∷ [];
}

bob_answers : consume_login_challenge 20 challenged "bob" ≡ ok (known, "x")
unfolding consume_login_challenge dec_text
bob_answers = refl

consume_login_challenge_once_example : consume_login_challenge 21 known "bob" ≡ err no_challenge
consume_login_challenge_once_example =
    consume_login_challenge_once 20 21 challenged known "bob" {challenge = "x"} bob_answers
      (omega arith)
