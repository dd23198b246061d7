-- ===== src/Groups/Leaving.antt =====
-- LeaveGroup (store/group.go): who is gone, what becomes of the group, and what is left open.
use etemsg_server.Base.{
  ℕ, ◌+◌, String, Bool, true, false, ◌&&◌, not, ◌≡◌, ◌≢◌, ◌⊎◌, inl, inr, some, [], ◌∷◌, ok, err,
  arith, ◌==◌, dec_text, ℕ_discrete, Option-cases, Bool-cases, trim_space,
}
use etemsg_server.Base.Table.{select, count_where, any_where, first, delete}
use etemsg_server.Base.Table.Rows.{any_where-delete_self, select-delete_disjoint, first_missing}
use etemsg_server.Base.Table.Counts.{count_where-append}
use etemsg_server.Errors.{successor_required, invalid_successor}
use etemsg_server.Groups.State.{
  GroupMember, Groups, OwnerTransfer, TransferState, is_owner, is_group, is_member, is_cursor,
  is_open_transfer,
}
use etemsg_server.Groups.Roster.{remove_group_member, dissolve_group}
use etemsg_server.Groups.Ownership.{
  LeaveResult, nothing_left, insert_transfer, leave_as_owner, finish_leave, leave_group,
  book_removal,
}

-- The members of a group other than one.
abbrev pub is_someone_else : String → String → GroupMember → Bool
is_someone_else gid user m = m.group_id == gid && not (m.user_id == user)

-- The group and the role with which a leave starts.
abbrev pub LeavesFrom : Groups → String → String → GroupMember → Type 0
LeavesFrom db gid user m =
    (any_where (is_group gid) db.groups ≡ true) × (first (is_member gid user) db.members ≡ some m)

-- The membership and the cursor are gone, and no other member or cursor is.
pub record IsGone (db : Groups) (gid user : String) (db' : Groups) : Type 0 where
  pub member : any_where (is_member gid user) db'.members ≡ false
  pub cursor : any_where (is_cursor user gid) db'.cursors ≡ false
  pub other_members :
      (g u : String)
      → (gid ≡ g → user ≢ u)
      → select (is_member g u) db'.members ≡ select (is_member g u) db.members
  pub other_cursors :
      (g u : String)
      → (gid ≡ g → user ≢ u)
      → select (is_cursor u g) db'.cursors ≡ select (is_cursor u g) db.cursors

gone :
    (db db' : Groups) (gid user : String)
    → db'.members ≡ delete (is_member gid user) db.members
    → db'.cursors ≡ delete (is_cursor user gid) db.cursors
    → IsGone db gid user db'
gone db db' gid user m c = record {
  member = rw m (any_where-delete_self (is_member gid user) db.members);
  cursor = rw c (any_where-delete_self (is_cursor user gid) db.cursors);
  other_members = λ g u n. rw m (
      select-delete_disjoint (is_member g u) (is_member gid user) db.members
        (λ x e. ground (arith, n)));
  other_cursors = λ g u n. rw c (
      select-delete_disjoint (is_cursor u g) (is_cursor user gid) db.cursors
        (λ x e. ground (arith, n)));
}

leave_removes :
    (now : ℕ) (db db' : Groups) (gid user successor : String) (m : GroupMember) (res : LeaveResult)
    → LeavesFrom db gid user m
    → leave_group now db gid user successor ≡ ok (db', res)
    → (db'.members ≡ delete (is_member gid user) db.members)
      × (db'.cursors ≡ delete (is_cursor user gid) db.cursors)
unfolding leave_group leave_as_owner finish_leave remove_group_member dissolve_group
leave_removes now db db' gid user successor m res (there, in_it) h =
    elim (Option-cases (first (is_group gid) db.groups)) [
      | inl missing ↦ absurd (ground (arith, first_missing (is_group gid) db.groups missing))
      | inr (g, e) ↦ (ground arith, ground arith)
    ]

-- A member who leaves is gone with their cursor, in every case in which the leave succeeds.
pub leave_group-IsGone :
    (now : ℕ) (db db' : Groups) (gid user successor : String) (m : GroupMember) (res : LeaveResult)
    → LeavesFrom db gid user m
    → leave_group now db gid user successor ≡ ok (db', res)
    → IsGone db gid user db'
leave_group-IsGone now db db' gid user successor m res from h =
    let (members, cursors) = leave_removes now db db' gid user successor m res from h in
    gone db db' gid user members cursors

-- What a leave does beside removing the leaver, by the role and by who else is in the group.
-- A member who is no owner leaves a live group and is booked for removal.
-- The last one out, as owner, dissolves the group and is not booked.
-- An owner with others in the group has to name one of them, and not themselves: an empty name
-- is refused as missing and any other as invalid. Then the group stays, the leaver is
-- booked, and a transfer to the named member is opened.
pub leave_group_outcome :
    (now : ℕ) (db : Groups) (gid user successor : String) (m : GroupMember)
    → LeavesFrom db gid user m
    → let out = leave_group now db gid user successor in
      let others = count_where (is_someone_else gid user) db.members in
      let named = trim_space successor in
      ((is_owner m.role ≡ false)
        × (out
            ≡ ok (
              book_removal now gid user (remove_group_member db gid user),
              record nothing_left { pending_removal = true },
            )))
      ⊎ (((is_owner m.role ≡ true)
            × (others ≡ 0)
            × (out
                ≡ ok (
                  remove_group_member (dissolve_group db gid) gid user,
                  record nothing_left { dissolved = true },
                )))
          ⊎ (((is_owner m.role ≡ true)
                × (others ≢ 0)
                × (((named ≡ "") × (out ≡ err successor_required))
                    ⊎ ((named ≢ "")
                        × ((named ≡ user) ⊎ (count_where (is_member gid named) db.members ≡ 0))
                        × (out ≡ err invalid_successor))))
              ⊎ ((is_owner m.role ≡ true)
                  × (others ≢ 0)
                  × (named ≢ user)
                  × (count_where (is_member gid named) db.members ≢ 0)
                  × (out
                      ≡ ok (
                        book_removal now gid user
                            (remove_group_member (insert_transfer now gid user named db) gid user),
                        record nothing_left { successor = named; pending_removal = true },
                      )))))
unfolding leave_group leave_as_owner finish_leave remove_group_member dissolve_group
leave_group_outcome now db gid user successor m (there, in_it) =
    let others = count_where (is_someone_else gid user) db.members in
    let named = trim_space successor in
    elim (Option-cases (first (is_group gid) db.groups)) [
      | inl missing ↦ absurd (ground (arith, first_missing (is_group gid) db.groups missing))
      | inr (g, e) ↦ elim (Bool-cases (is_owner m.role)) [
        | inr plain ↦ inl (plain, ground arith)
        | inl owns ↦ elim (ℕ_discrete others 0) [
          | yes alone ↦ inr (inl (owns, alone, ground arith))
          | no some_left ↦ elim (dec_text named "") [
            | yes empty ↦ inr (inr (inl (owns, some_left, inl (empty, ground arith))))
            | no given ↦ elim (dec_text named user) [
              | yes self ↦ inr (inr (inl (owns, some_left, inr (given, inl self, ground arith))))
              | no other ↦ elim (ℕ_discrete (count_where (is_member gid named) db.members) 0) [
                | yes nobody ↦
                    inr (inr (inl (owns, some_left, inr (given, inr nobody, ground arith))))
                | no found ↦ inr (inr (inr (owns, some_left, other, found, ground arith)))
              ]
            ]
          ]
        ]
      ]
    ]

-- An owner who leaves to a successor opens one more transfer, whether or not the group had an open
-- one already: with one open before, two are open after.
pub leave_group_opens :
    (now : ℕ) (db db' : Groups) (gid user successor : String) (m : GroupMember) (res : LeaveResult)
    → LeavesFrom db gid user m
    → leave_group now db gid user successor ≡ ok (db', res)
    → res.successor ≢ ""
    → count_where (is_open_transfer gid) db'.transfers
      ≡ 1 + count_where (is_open_transfer gid) db.transfers
unfolding leave_group leave_as_owner finish_leave remove_group_member dissolve_group
leave_group_opens now db db' gid user successor m res (there, in_it) h named =
    elim (Option-cases (first (is_group gid) db.groups)) [
      | inl missing ↦ absurd (ground (arith, first_missing (is_group gid) db.groups missing))
      | inr (g, e) ↦
          let row : OwnerTransfer = record {
            id = db.next_transfer;
            group_id = gid;
            prev_owner = user;
            designee = trim_space successor;
            state = TransferState.waiting;
            created_at = now;
            decided_at = 0;
          } in
          ground (arith, count_where-append (is_open_transfer gid) db.transfers (row ∷ []))
    ]
