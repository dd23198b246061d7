-- ===== src/Accounts/Queue.antt =====
-- The offline queue of each user: first in, first out, bounded, and fetched once.
use etemsg_server.Base.{
  ℕ, ◌+◌, ◌≤◌, ◌<◌, String, ◌≡◌, ◌≢◌, ◌⊎◌, refl, ◌∙◌, ap, List, [], ◌∷◌, ◌++◌, map, Result, ok, err,
  length, length-append, arith, ◌==◌, if◌then◌else◌, dec_text, leb, Bool-cases, inl, inr,
}
use etemsg_server.Base.Table.{select, count_where, insert}
use etemsg_server.Base.Table.Rows.{select-append, select-delete_disjoint, select-delete_self}
use etemsg_server.Base.Table.Counts.{length-select}
use mathlib.Core.List.{map-append, append-nil, append_assoc}
use etemsg_server.Errors.{Error, offline_queue_full}
use etemsg_server.Accounts.State.{OfflineMessage, OfflineRow, Accounts}
use etemsg_server.Accounts.Offline.{for_user, push_offline_msg, fetch_and_clear_offline_msgs}

-- The messages that wait for a user, oldest first.
abbrev pub queue : Accounts → String → List OfflineMessage
queue db user = map (λ r. r.message) (select (for_user user) db.offline_messages)

length-map-message : (rows : List OfflineRow) → length (map (λ r. r.message) rows) ≡ length rows
length-map-message [] = refl
length-map-message (r ∷ rows) = ap Prim.Native.Nat.suc (length-map-message rows)

length-queue :
    (db : Accounts) (user : String)
    → length (queue db user) ≡ count_where (for_user user) db.offline_messages
length-queue db user = length-map-message _ ∙ length-select (for_user user) db.offline_messages

queue-insert :
    (db : Accounts) (user u : String) (msg : OfflineMessage) (now : ℕ)
    → queue
        (record db {
          offline_messages =
              insert
                (record { recipient = user; message = msg; created_at = now })
                db.offline_messages;
        })
        u
      ≡ (if user == u then queue db u ++ msg ∷ [] else queue db u)
queue-insert db user u msg now =
    let row : OfflineRow = record { recipient = user; message = msg; created_at = now } in
    rw (select-append (for_user u) db.offline_messages (row ∷ [])) (elim (dec_text user u) [
      | yes p ↦ ground (
        arith,
        map-append {A = OfflineRow} (λ r. r.message) (select (for_user u) db.offline_messages)
            (row ∷ []),
      )
      | no n ↦ ground (arith, append-nil (select (for_user u) db.offline_messages))
    ])

-- A push is refused exactly when 1000 messages wait; otherwise the message stands last in its
-- recipient's queue, and every other queue is as it was.
pub push_offline_msg-queue :
    (now : ℕ) (db : Accounts) (user : String) (msg : OfflineMessage)
    → ((1000 ≤ length (queue db user))
        × (push_offline_msg now db user msg ≡ err offline_queue_full))
      ⊎ ((length (queue db user) < 1000)
          × ((db' : Accounts) × (push_offline_msg now db user msg ≡ ok db')
              × ((u : String)
                  → queue db' u ≡ (if user == u then queue db u ++ msg ∷ [] else queue db u))))
unfolding push_offline_msg
push_offline_msg-queue now db user msg =
    elim (Bool-cases (leb 1000 (count_where (for_user user) db.offline_messages))) [
      | inl full ↦ inl (ground (arith, length-queue db user), rw full)
      | inr room ↦ inr (
        ground (arith, length-queue db user),
        (
          record db {
            offline_messages =
                insert (record { recipient = user; message = msg; created_at = now })
                  db.offline_messages;
          },
          rw room,
          λ u. queue-insert db user u msg now,
        ),
      )
    ]

-- A fetch returns the whole queue in order, leaves it empty, and leaves every other queue alone.
pub fetch_and_clear_offline_msgs-queue :
    (db : Accounts) (user : String)
    → let (db', msgs) = fetch_and_clear_offline_msgs db user in
      (msgs ≡ queue db user)
      × (queue db' user ≡ [])
      × ((u : String) → user ≢ u → queue db' u ≡ queue db u)
unfolding fetch_and_clear_offline_msgs
fetch_and_clear_offline_msgs-queue db user = (
  refl,
  ap (map (λ r. r.message)) (select-delete_self (for_user user) db.offline_messages),
  λ u n. ap (map (λ r. r.message)) (
      select-delete_disjoint (for_user u) (for_user user) db.offline_messages
        (λ r e. ground arith)),
)

pub push_all : ℕ → Accounts → String → List OfflineMessage → Result Error Accounts
push_all now db user [] = ok db
push_all now db user (m ∷ ms) = elim (push_offline_msg now db user m) [
  | ok db' ↦ push_all now db' user ms
  | err e ↦ err e
]

-- Messages that fit into the queue are all accepted, and the next fetch returns what was waiting
-- and then those messages, in the order in which they were pushed; a second fetch returns nothing.
pub fetch-push_all :
    (now : ℕ) (db : Accounts) (user : String) (ms : List OfflineMessage)
    → length (queue db user) + length ms ≤ 1000
    → (db' : Accounts) × (push_all now db user ms ≡ ok db')
      × ((fetch_and_clear_offline_msgs db' user).1 ≡ queue db user ++ ms)
      × ((fetch_and_clear_offline_msgs (fetch_and_clear_offline_msgs db' user).0 user).1 ≡ [])
unfolding push_all fetch_and_clear_offline_msgs
fetch-push_all now db user [] h =
    (db, refl, rw append-nil, (fetch_and_clear_offline_msgs-queue db user).1)
fetch-push_all now db user (m ∷ ms) h = elim (push_offline_msg-queue now db user m) [
  | inl (full, e) ↦ absurd (omega arith)
  | inr (room, (db₁, e, queues)) ↦
      let q : queue db₁ user ≡ queue db user ++ m ∷ [] = ground (arith, queues user) in
      let (db', pushed, fetched, again) =
        fetch-push_all now db₁ user ms
          (omega (arith, ap length q, length-append (queue db user) (m ∷ []))) in
      (
        db',
        rw (e, push_all) pushed,
        fetched ∙ ap (λ x. x ++ ms) q ∙ append_assoc (queue db user) (m ∷ []) ms,
        again,
      )
]
