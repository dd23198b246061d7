-- ===== src/Groups/Cursors.antt =====
-- UpsertGroupCursor and GetGroupCursor (store/group.go): acknowledgements only move forward.
use etemsg_server.Base.{
  ℕ, String, false, ◌&&◌, ◌≡◌, ◌⊎◌, inl, inr, refl, List, [], ◌∷◌, ok, err, arith, ◌==◌,
  if◌then◌else◌, ltb, Bool-cases,
}
use etemsg_server.Base.Table.{any_where, first, update, insert}
use etemsg_server.Errors.{foreign_key_violation}
use etemsg_server.Groups.State.{Cursor, Groups, is_cursor}
use etemsg_server.Groups.Roster.{group_exists}
use etemsg_server.Groups.Messages.{get_group_cursor, upsert_group_cursor, cursor_seq, advance}

cursor_moves :
    (now : ℕ) (user gid u g : String) (n : ℕ) (cs : List Cursor)
    → cursor_seq (first (is_cursor u g) (update (is_cursor user gid) (advance now n) cs)) ≡ (
        let old = cursor_seq (first (is_cursor u g) cs) in
        if any_where (is_cursor user gid) cs && (user == u && gid == g)
        then (if ltb old n then n else old)
        else old)
cursor_moves now user gid u g n [] = refl
cursor_moves now user gid u g n (c ∷ cs) = ground (arith, cursor_moves now user gid u g n cs)

cursor_inserted :
    (row : Cursor) (u g : String) (cs : List Cursor)
    → any_where (is_cursor row.user_id row.group_id) cs ≡ false
    → cursor_seq (first (is_cursor u g) (insert row cs)) ≡ (
        let old = cursor_seq (first (is_cursor u g) cs) in
        if row.user_id == u && row.group_id == g
        then (if ltb old row.last_seq then row.last_seq else old)
        else old)
cursor_inserted row u g [] h = ground arith
cursor_inserted row u g (c ∷ cs) h = ground (arith, cursor_inserted row u g cs)

-- An acknowledgement for a group that there is, or that has a cursor, is stored: the cursor of that
-- member in that group becomes the larger of the old and the new position, and no other changes.
pub upsert_group_cursor_forward :
    (now : ℕ) (db : Groups) (user gid : String) (n : ℕ)
    → ((group_exists db gid ≡ false)
        × (any_where (is_cursor user gid) db.cursors ≡ false)
        × (upsert_group_cursor now db user gid n ≡ err foreign_key_violation))
      ⊎ ((db' : Groups) × (upsert_group_cursor now db user gid n ≡ ok db')
          × ((u g : String)
              → get_group_cursor db' u g ≡ (
                  let old = get_group_cursor db u g in
                  if user == u && gid == g then (if ltb old n then n else old) else old)))
unfolding upsert_group_cursor get_group_cursor
upsert_group_cursor_forward now db user gid n =
    elim (Bool-cases (any_where (is_cursor user gid) db.cursors)) [
      | inl known ↦ inr (
        record db { cursors = update (is_cursor user gid) (advance now n) db.cursors },
        rw known,
        λ u g. ground (arith, cursor_moves now user gid u g n db.cursors),
      )
      | inr new ↦ elim (Bool-cases (group_exists db gid)) [
        | inr lost ↦ inl (lost, new, rw (new, lost))
        | inl there ↦
            let row : Cursor = record {
              user_id = user;
              group_id = gid;
              last_seq = n;
              updated_at = now;
            } in
            inr (
              record db { cursors = insert row db.cursors },
              rw (new, there),
              λ u g. cursor_inserted row u g db.cursors new,
            )
      ]
    ]
