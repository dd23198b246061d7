-- ===== src/Groups/Tests/Queue.antt =====
-- Tests of the group queue: messages, cursors and the retention pass on a group of two.
use etemsg_server.Base.{
  ℕ, String, true, false, ◌&&◌, ◌≡◌, ◌⊎◌, refl, some, [], ◌∷◌, ◌++◌, ok, err, dec_text, ◌==◌, ◌=ℕ◌,
  if◌then◌else◌, ltb, arith,
}
use etemsg_server.Base.Table.{select, any_where, first}
use etemsg_server.Errors.{duplicate_group_msg, foreign_key_violation}
use etemsg_server.Groups.State.{GroupMember, Groups, in_group, is_group, is_cursor}
use etemsg_server.Groups.Roster.{group_exists}
use etemsg_server.Groups.Messages.{
  in_queue, append_group_message, list_group_messages, get_group_cursor, upsert_group_cursor,
  safe_seq, cursor_pass, delete_up_to, cap_pass, reclaim_group_messages, ReclaimResult,
}
use etemsg_server.Groups.Sequence.{
  IsAbove, IsKeyed, has_message, with_message, appended, append_group_message-IsAbove,
  list-append_group_message,
}
use etemsg_server.Groups.Passes.{is_after}
use etemsg_server.Groups.Retention.{
  Reclaims, reclaim_group_messages-Reclaims, reclaim_group_messages_keeps_unread,
}
use etemsg_server.Groups.Restart.{append_group_message_restarts}
use etemsg_server.Groups.Cursors.{upsert_group_cursor_forward}
use etemsg_server.Groups.Tests.{team, pair, text, cursor}

-- Two messages, of which Ann has read both and Bob the first.
abbrev chat : Groups
chat = record pair {
  messages = text "a" 1 ∷ text "b" 2 ∷ [];
  cursors = cursor "ann" 2 ∷ cursor "bob" 1 ∷ [];
}

append_group_message-IsAbove_example :
    ((any_where (has_message "team" "c") chat.messages ≡ true)
      × (append_group_message 9 chat (text "c" 0) ≡ err duplicate_group_msg))
    ⊎ (((any_where (has_message "team" "c") chat.messages ≡ false)
          × (group_exists chat "team" ≡ false)
          × (append_group_message 9 chat (text "c" 0) ≡ err foreign_key_violation))
        ⊎ ((any_where (has_message "team" "c") chat.messages ≡ false)
            × (group_exists chat "team" ≡ true)
            × ((seq : ℕ) × (append_group_message 9 chat (text "c" 0)
                  ≡ ok (with_message 9 chat (text "c" 0) seq, seq))
                × IsAbove "team" seq chat.messages)))
append_group_message-IsAbove_example = append_group_message-IsAbove 9 chat (text "c" 0)

first_message :
    append_group_message 9 pair (text "a" 0) ≡ ok (with_message 9 pair (text "a" 0) 1, 1)
unfolding append_group_message dec_text
first_message = refl

pair-IsKeyed : IsKeyed pair
pair-IsKeyed = record { by_number = λ gid seq. omega arith; by_id = λ gid id. omega arith }

third_message :
    append_group_message 9 chat (text "c" 0) ≡ ok (with_message 9 chat (text "c" 0) 3, 3)
unfolding append_group_message dec_text
third_message = refl

room : list_group_messages chat "team" 1 5 ≡ text "b" 2 ∷ []
unfolding list_group_messages dec_text
room = refl

list-append_group_message_example :
    list_group_messages (with_message 9 chat (text "c" 0) 3) "team" 1 5
    ≡ list_group_messages chat "team" 1 5 ++ appended 9 (text "c" 0) 3 ∷ []
list-append_group_message_example =
    list-append_group_message 9 chat (with_message 9 chat (text "c" 0) 3) (text "c" 0) 3 1 5
      third_message (omega arith) (rw room (omega arith))

-- Ann's and Bob's queue after everything in it was acknowledged and deleted.
abbrev drained : Groups
drained = record pair { cursors = cursor "ann" 2 ∷ cursor "bob" 2 ∷ [] }

unseen_message :
    append_group_message 9 drained (text "c" 0) ≡ ok (with_message 9 drained (text "c" 0) 1, 1)
unfolding append_group_message dec_text
unseen_message = refl

abbrev refilled : Groups
refilled = with_message 9 drained (text "c" 0) 1

both_at_2 : safe_seq refilled "team" ≡ some 2
unfolding safe_seq get_group_cursor dec_text
both_at_2 = refl

abbrev deleted_unread : Groups
deleted_unread = record drained { groups = record team { min_seq = 2 } ∷ [] }

pass_deletes :
    reclaim_group_messages refilled "team"
    ≡ ok (deleted_unread, record { deleted_by_cursor = 1; deleted_by_cap = 0; min_seq = 2 })
unfolding reclaim_group_messages safe_seq get_group_cursor cursor_pass delete_up_to cap_pass
    dec_text
pass_deletes = refl

append_group_message_restarts_example :
    (◌≡◌ {A = ℕ} 1 1)
    × (list_group_messages refilled "team" 1 50 ≡ [])
    × (any_where (in_queue "team") deleted_unread.messages ≡ false)
append_group_message_restarts_example =
    append_group_message_restarts 9 drained refilled deleted_unread (text "c" 0) 1 1 50 2
      (record { deleted_by_cursor = 1; deleted_by_cap = 0; min_seq = 2 }) unseen_message refl
      (omega arith) both_at_2 (omega arith) pass_deletes

found : first (is_group "team") chat.groups ≡ some team
unfolding dec_text
found = refl

reclaim_group_messages-Reclaims_example :
    (db' : Groups) × (r : ReclaimResult) × (reclaim_group_messages chat "team" ≡ ok (db', r))
    × Reclaims chat "team" team db' r
reclaim_group_messages-Reclaims_example = reclaim_group_messages-Reclaims chat "team" team found

-- The pass deletes the message that both have read, and raises the floor to its number.
abbrev chat_after : Groups
chat_after = record chat { messages = text "b" 2 ∷ []; groups = record team { min_seq = 1 } ∷ [] }

abbrev one_read : ReclaimResult
one_read = record { deleted_by_cursor = 1; deleted_by_cap = 0; min_seq = 1 }

chat_reclaimed : reclaim_group_messages chat "team" ≡ ok (chat_after, one_read)
unfolding reclaim_group_messages safe_seq get_group_cursor cursor_pass delete_up_to cap_pass
    dec_text
chat_reclaimed = refl

bob_at_1 :
    any_where
      (λ (m : GroupMember). in_group "team" m && get_group_cursor chat m.user_id "team" =ℕ 1)
      chat.members
    ≡ true
unfolding get_group_cursor dec_text
bob_at_1 = refl

reclaim_group_messages_keeps_unread_example :
    select (is_after "team" 1) chat_after.messages ≡ select (is_after "team" 1) chat.messages
reclaim_group_messages_keeps_unread_example =
    reclaim_group_messages_keeps_unread chat chat_after "team" {r = one_read} 1 chat_reclaimed
      (ground arith) bob_at_1

upsert_group_cursor_forward_example :
    ((group_exists chat "team" ≡ false)
      × (any_where (is_cursor "bob" "team") chat.cursors ≡ false)
      × (upsert_group_cursor 9 chat "bob" "team" 2 ≡ err foreign_key_violation))
    ⊎ ((db' : Groups) × (upsert_group_cursor 9 chat "bob" "team" 2 ≡ ok db')
        × ((u g : String)
            → get_group_cursor db' u g ≡ (
                let old = get_group_cursor chat u g in
                if "bob" == u && "team" == g then (if ltb old 2 then 2 else old) else old)))
upsert_group_cursor_forward_example = upsert_group_cursor_forward 9 chat "bob" "team" 2
