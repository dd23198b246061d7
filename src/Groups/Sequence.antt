-- ===== src/Groups/Sequence.antt =====
-- Sequence numbers of the group queue (store/group.go, AppendGroupMessage and ListGroupMessages).
use etemsg_server.Base.{
  ℕ, ◌≤◌, ◌<◌, String, Bool, true, false, ◌&&◌, ◌≡◌, ◌⊎◌, inl, inr, refl, sym, ◌∙◌, ap, List, [],
  ◌∷◌, ◌++◌, ok, err, arith, ◌==◌, dec_text, Bool-cases, All, subst, ltb, leb, ◌=ℕ◌, take, length,
  ℕ_discrete, zero, suc,
}
use etemsg_server.Base.Table.{select, count_where, any_where, insert, sort_by}
use etemsg_server.Base.Table.Rows.{select-append}
use etemsg_server.Base.Table.Counts.{count_where-append, count_where-insert_key}
use etemsg_server.Base.Table.Sorting.{sort_by-append_last}
use etemsg_server.Errors.{duplicate_group_msg, foreign_key_violation}
use etemsg_server.Groups.State.{GroupMessage, Groups}
use etemsg_server.Groups.Roster.{group_exists}
use etemsg_server.Groups.Log.{after_max}
use etemsg_server.Groups.Numbers.{below_after_max}
use etemsg_server.Groups.Messages.{
  in_queue, max_seq, append_group_message, by_seq, list_group_messages,
}

-- Every message of the group has a smaller number.
abbrev pub IsAbove : String → ℕ → List GroupMessage → Type 0
IsAbove gid seq messages = All (λ m. in_queue gid m ≡ true → m.seq < seq) messages

pub after_max-IsAbove :
    (db : Groups) (gid : String) → IsAbove gid (after_max (max_seq db gid)) db.messages
after_max-IsAbove db gid = below_after_max (in_queue gid) (λ m. m.seq) db.messages

-- The row that an accepted message becomes.
abbrev pub appended : ℕ → GroupMessage → ℕ → GroupMessage
appended now m seq = record m { seq = seq; created_at = now }

abbrev pub with_message : ℕ → Groups → GroupMessage → ℕ → Groups
with_message now db m seq = record db { messages = insert (appended now m seq) db.messages }

abbrev pub has_message : String → String → GroupMessage → Bool
has_message gid id n = n.group_id == gid && n.msg_id == id

abbrev pub has_seq : String → ℕ → GroupMessage → Bool
has_seq gid seq n = in_queue gid n && n.seq =ℕ seq

pub append_passed :
    (now : ℕ) (db db' : Groups) (m : GroupMessage) (seq : ℕ)
    → append_group_message now db m ≡ ok (db', seq)
    → (any_where (has_message m.group_id m.msg_id) db.messages ≡ false)
      × (group_exists db m.group_id ≡ true)
      × (seq ≡ after_max (max_seq db m.group_id))
      × (db' ≡ with_message now db m seq)
unfolding append_group_message
append_passed now db db' m seq h = (ground arith, ground arith, ground arith, ground arith)

-- A message is refused exactly when its group has a message of the same id, or when there is no
-- such group; otherwise it is stored last, under a number above that of every message of its group,
-- and nothing else changes.
pub append_group_message-IsAbove :
    (now : ℕ) (db : Groups) (m : GroupMessage)
    → ((any_where (has_message m.group_id m.msg_id) db.messages ≡ true)
        × (append_group_message now db m ≡ err duplicate_group_msg))
      ⊎ (((any_where (has_message m.group_id m.msg_id) db.messages ≡ false)
            × (group_exists db m.group_id ≡ false)
            × (append_group_message now db m ≡ err foreign_key_violation))
          ⊎ ((any_where (has_message m.group_id m.msg_id) db.messages ≡ false)
              × (group_exists db m.group_id ≡ true)
              × ((seq : ℕ) × (append_group_message now db m ≡ ok (with_message now db m seq, seq))
                  × IsAbove m.group_id seq db.messages)))
unfolding append_group_message
append_group_message-IsAbove now db m =
    elim (Bool-cases (any_where (has_message m.group_id m.msg_id) db.messages)) [
      | inl twice ↦ inl (twice, rw twice)
      | inr new ↦ elim (Bool-cases (group_exists db m.group_id)) [
        | inr lost ↦ inr (inl (new, lost, rw (new, lost)))
        | inl there ↦ inr (
            inr (
              new,
              there,
              (after_max (max_seq db m.group_id), rw (new, there), after_max-IsAbove db m.group_id),
            ))
      ]
    ]

-- Numbers and message ids are keys of a group's queue.
pub record IsKeyed (db : Groups) : Type 0 where
  pub by_number : (gid : String) (seq : ℕ) → count_where (has_seq gid seq) db.messages ≤ 1
  pub by_id : (gid id : String) → count_where (has_message gid id) db.messages ≤ 1

IsAbove-count :
    (gid : String) (seq : ℕ) (messages : List GroupMessage)
    → IsAbove gid seq messages
    → count_where (has_seq gid seq) messages ≡ 0
IsAbove-count gid seq [] h = refl
IsAbove-count gid seq (m ∷ ms) (here, rest) = ground (arith, here, IsAbove-count gid seq ms rest)

number_at_new :
    (gid : String) (n : ℕ) (messages : List GroupMessage) (row : GroupMessage)
    → IsAbove row.group_id row.seq messages
    → count_where (has_seq gid n) messages ≤ 1
    → count_where (has_seq gid n) (insert row messages) ≤ 1
number_at_new gid n messages row above h = elim (dec_text row.group_id gid) [
  | no p ↦ ground (arith, count_where-append (has_seq gid n) messages (row ∷ []))
  | yes p ↦
      let none_there : count_where (has_seq gid row.seq) messages ≡ 0 =
        IsAbove-count gid row.seq messages (subst (λ u. IsAbove u row.seq messages) p above) in
      elim (ℕ_discrete row.seq n) [
        | yes q ↦
            let fresh : count_where (has_seq gid n) messages ≡ 0 =
              subst (λ k. count_where (has_seq gid k) messages ≡ 0) q none_there in
            ground (arith, count_where-append (has_seq gid n) messages (row ∷ []))
        | no q ↦ ground (arith, count_where-append (has_seq gid n) messages (row ∷ []))
      ]
]

-- Both keys hold after an accepted message, if they held before.
pub append_group_message-IsKeyed :
    (now : ℕ) (db db' : Groups) (m : GroupMessage) (seq : ℕ)
    → append_group_message now db m ≡ ok (db', seq)
    → IsKeyed db
    → IsKeyed db'
append_group_message-IsKeyed now db db' m seq h keyed =
    let (new, there, at_seq, after) = append_passed now db db' m seq h in
    let row = appended now m seq in
    subst IsKeyed (sym after) (record {
      by_number = λ gid n.
          number_at_new gid n db.messages row
            (subst (λ k. IsAbove m.group_id k db.messages) (sym at_seq)
              (after_max-IsAbove db m.group_id))
            (keyed.by_number gid n);
      by_id = λ gid id.
          count_where-insert_key (has_message gid id) (has_message m.group_id m.msg_id) row
            db.messages new (λ a y b. ground arith) (keyed.by_id gid id);
    })

listed_last :
    (db : Groups) (gid : String) (since seq : ℕ) (messages : List GroupMessage)
    → IsAbove gid seq messages
    → All (λ n. leb n.seq seq ≡ true) (select (λ n. in_queue gid n && ltb since n.seq) messages)
listed_last db gid since seq [] h = tt
listed_last db gid since seq (m ∷ ms) (here, rest) =
    elim (Bool-cases (in_queue gid m && ltb since m.seq)) [
      | inl e ↦ rw e (ground (arith, here), listed_last db gid since seq ms rest)
      | inr e ↦ rw e (listed_last db gid since seq ms rest)
    ]

take-append_room :
    (n : ℕ) (xs : List GroupMessage) (x : GroupMessage)
    → length (take n xs) < n
    → take n (xs ++ x ∷ []) ≡ take n xs ++ x ∷ []
take-append_room zero xs x h = absurd (omega arith)
take-append_room (suc zero) [] x h = refl
take-append_room (suc (suc n)) [] x h = refl
take-append_room (suc n) (y ∷ ys) x h = ap (λ zs. y ∷ zs) (take-append_room n ys x (omega arith))

-- The list of a query without its LIMIT.
abbrev pub since_rows : Groups → String → ℕ → List GroupMessage
since_rows db gid since =
    sort_by by_seq (select (λ m. in_queue gid m && ltb since m.seq) db.messages)

-- A reader whose position is below the number of a new message finds it as the last of the
-- messages after that position, behind those that were there before, where the limit of the query
-- leaves room for it.
pub list-append_group_message :
    (now : ℕ) (db db' : Groups) (m : GroupMessage) (seq since limit : ℕ)
    → append_group_message now db m ≡ ok (db', seq)
    → since < seq
    → length (list_group_messages db m.group_id since limit) < limit
    → list_group_messages db' m.group_id since limit
      ≡ list_group_messages db m.group_id since limit ++ appended now m seq ∷ []
unfolding list_group_messages
list-append_group_message now db db' m seq since limit h old room =
    let (new, there, at_seq, after) = append_passed now db db' m seq h in
    let row = appended now m seq in
    let listed : GroupMessage → Bool = λ n. in_queue m.group_id n && ltb since n.seq in
    let above =
      subst (λ k. IsAbove m.group_id k db.messages) (sym at_seq)
        (after_max-IsAbove db m.group_id) in
    let found : select listed (row ∷ []) ≡ row ∷ [] = ground arith in
    ap (λ d. list_group_messages d m.group_id since limit) after
    ∙ ap (λ rows. take limit (sort_by by_seq rows))
        (select-append listed db.messages (row ∷ [])
          ∙ ap (λ rows. select listed db.messages ++ rows) found)
    ∙ ap (take limit) (
        sort_by-append_last by_seq (select listed db.messages) row
          (listed_last db m.group_id since seq db.messages above))
    ∙ take-append_room limit (since_rows db m.group_id since) row room
