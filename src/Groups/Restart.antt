-- ===== src/Groups/Restart.antt =====
-- AppendGroupMessage after ReclaimGroupMessages (store/group.go): numbers come from the rows that are
-- left, and a queue that was wholly acknowledged has none.
use etemsg_server.Base.{
  ℕ, ◌≤◌, String, Bool, false, ◌&&◌, ◌≡◌, refl, ◌∙◌, ap, none, some, List, [], ◌∷◌, ◌++◌, ok, arith,
  ltb, leb, Option-cases, inl, inr, take, zero, suc,
}
use etemsg_server.Base.Table.{
  select, delete, count_where, any_where, first, max_where, insert, sort_by,
}
use etemsg_server.Base.Table.Rows.{select-append, any_where-append, count_where_zero}
use etemsg_server.Base.Table.Counts.{count_where-append}
use etemsg_server.Groups.State.{GroupMessage, Groups, is_group, group_queue_max_messages}
use etemsg_server.Groups.Log.{after_max}
use etemsg_server.Groups.Messages.{
  in_queue, append_group_message, by_seq, list_group_messages, safe_seq, cursor_pass, delete_up_to,
  up_to, reclaim_group_messages, ReclaimResult,
}
use etemsg_server.Groups.Sequence.{appended, append_passed}
use etemsg_server.Groups.Retention.{kept_within_cap}

module _ {A : Type 0} where
  max_where-none :
      (p : A → Bool) (key : A → ℕ) (xs : List A)
      → any_where p xs ≡ false
      → max_where p key xs ≡ none
  max_where-none p key [] h = refl
  max_where-none p key (x ∷ xs) h = ground (arith, max_where-none p key xs)

  select_none :
      (p q : A → Bool) (xs : List A) → any_where p xs ≡ false → select (λ x. p x && q x) xs ≡ []
  select_none p q [] h = refl
  select_none p q (x ∷ xs) h = ground (arith, select_none p q xs)

  any_where-delete_and :
      (p q : A → Bool) (xs : List A)
      → any_where p xs ≡ false
      → any_where p (delete (λ x. p x && q x) xs) ≡ false
  any_where-delete_and p q [] h = refl
  any_where-delete_and p q (x ∷ xs) h = ground (arith, any_where-delete_and p q xs)

  delete-append : (p : A → Bool) (xs ys : List A) → delete p (xs ++ ys) ≡ delete p xs ++ delete p ys
  delete-append p [] ys = refl
  delete-append p (x ∷ xs) ys = ground (arith, delete-append p xs ys)

take_nil : (n : ℕ) (xs : List GroupMessage) → xs ≡ [] → take n xs ≡ []
take_nil zero xs h = refl
take_nil (suc n) [] h = refl
take_nil (suc n) (x ∷ xs) h = cc

swept :
    (gid : String) (safe floor : ℕ) (messages : List GroupMessage) (row : GroupMessage)
    → any_where (in_queue gid) messages ≡ false
    → row.group_id ≡ gid
    → row.seq ≡ 1
    → 1 ≤ safe
    → any_where (in_queue gid) (cursor_pass gid (some safe) (insert row messages) floor).kept
      ≡ false
unfolding cursor_pass delete_up_to
swept gid safe floor messages row empty here one le = ground (
  arith,
  delete-append (up_to gid safe) messages (row ∷ []),
  any_where-append (in_queue gid) (delete (up_to gid safe) messages)
      (delete (up_to gid safe) (row ∷ [])),
  any_where-delete_and (in_queue gid) (λ m. leb m.seq safe) messages empty,
)

-- When the queue of a group is empty, the next message has number 1, whatever was there before.
-- A reader at position 1 or later does not list it, and when every member's cursor is at 1 or later,
-- the next retention pass deletes it, before anyone has read it.
pub append_group_message_restarts :
    (now : ℕ) (db db' db'' : Groups) (m : GroupMessage) (seq since limit safe : ℕ)
    (r : ReclaimResult)
    → append_group_message now db m ≡ ok (db', seq)
    → any_where (in_queue m.group_id) db.messages ≡ false
    → 1 ≤ since
    → safe_seq db' m.group_id ≡ some safe
    → 1 ≤ safe
    → reclaim_group_messages db' m.group_id ≡ ok (db'', r)
    → (seq ≡ 1)
      × (list_group_messages db' m.group_id since limit ≡ [])
      × (any_where (in_queue m.group_id) db''.messages ≡ false)
unfolding list_group_messages
append_group_message_restarts now db db' db'' m seq since limit safe r h empty le at_safe acked
      runs =
    let gid = m.group_id in
    let (new, there, at_seq, after) = append_passed now db db' m seq h in
    let one : seq ≡ 1 = at_seq ∙ ap after_max (max_where-none (in_queue gid) _ db.messages empty) in
    let row = appended now m seq in
    let stored : db'.messages ≡ insert row db.messages = ap (λ d. d.messages) after in
    let listed : GroupMessage → Bool = λ n. in_queue gid n && ltb since n.seq in
    let nothing : select listed db'.messages ≡ [] = ground (
      arith,
      select-append listed db.messages (row ∷ []),
      select_none (in_queue gid) (λ n. ltb since n.seq) db.messages empty,
    ) in
    let few : count_where (in_queue gid) db'.messages ≤ group_queue_max_messages = ground (
      arith,
      count_where-append (in_queue gid) db.messages (row ∷ []),
      count_where_zero (in_queue gid) db.messages empty,
    ) in
    (
      one,
      take_nil limit _ (ap (sort_by by_seq) nothing),
      elim (Option-cases (first (is_group gid) db'.groups)) [
        | inl missing ↦ absurd (unfold reclaim_group_messages in ground arith)
        | inr (g, e) ↦
            rw (kept_within_cap db' db'' gid g e few runs)
              (rw (at_safe, stored) (swept gid safe g.min_seq db.messages row empty refl one acked))
      ],
    )
