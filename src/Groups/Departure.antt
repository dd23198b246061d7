-- ===== src/Groups/Departure.antt =====
-- LeaveGroup (store/group.go): the tables after a leave, in each of its cases.
use etemsg_server.Base.{
  ℕ, String, true, false, ◌≡◌, refl, ◌≢◌, ◌⊎◌, inl, inr, [], ◌∷◌, ◌++◌, ok, err, arith, Bool-cases,
  trim_space,
}
use etemsg_server.Base.Table.{count_where, any_where, update}
use etemsg_server.Base.Table.Rows.{any_where-append}
use etemsg_server.Errors.{successor_required, invalid_successor}
use etemsg_server.Groups.State.{
  GroupState, GroupMember, Groups, Removal, TransferState, is_owner, is_group, is_member,
}
use etemsg_server.Groups.Roster.{is_removal, remove_group_member, dissolve_group}
use etemsg_server.Groups.Ownership.{insert_transfer, leave_group, book_removal}
use etemsg_server.Groups.Leaving.{
  is_someone_else, LeavesFrom, IsGone, leave_group-IsGone, leave_group_outcome,
}

-- The leaver is gone and waits to be removed from the ratchet tree; the groups are as they were.
pub record IsBookedOut (db : Groups) (gid user : String) (db' : Groups) : Type 0 where
  pub gone : IsGone db gid user db'
  pub booked : any_where (is_removal gid user) db'.pending_removals ≡ true
  pub groups : db'.groups ≡ db.groups

book_removal_lem :
    (now : ℕ) (gid user : String) (db : Groups)
    → let db' = book_removal now gid user (remove_group_member db gid user) in
      (any_where (is_removal gid user) db'.pending_removals ≡ true)
      × (db'.groups ≡ db.groups)
      × (db'.transfers ≡ db.transfers)
unfolding remove_group_member
book_removal_lem now gid user db =
    let row : Removal = record { group_id = gid; user_id = user; created_at = now } in
    elim (Bool-cases (any_where (is_removal gid user) db.pending_removals)) [
      | inl old ↦ (ground arith, ground arith, ground arith)
      | inr new ↦ (
        ground (arith, any_where-append (is_removal gid user) db.pending_removals (row ∷ [])),
        ground arith,
        ground arith,
      )
    ]

-- The four cases of a leave, by the role, by who else is in the group and by whom they name.
abbrev pub Departure : ℕ → Groups → String → String → String → GroupMember → Type 0
Departure now db gid user successor m =
    let out = leave_group now db gid user successor in
    let others = count_where (is_someone_else gid user) db.members in
    let named = trim_space successor in
    ((is_owner m.role ≡ false)
      × ((db' : Groups) × (out
            ≡ ok (db', record { dissolved = false; pending_removal = true; successor = "" }))
          × IsBookedOut db gid user db'
          × (db'.transfers ≡ db.transfers)))
    ⊎ (((is_owner m.role ≡ true)
          × (others ≡ 0)
          × ((db' : Groups) × (out
                ≡ ok (db', record { dissolved = true; pending_removal = false; successor = "" }))
              × IsGone db gid user db'
              × (db'.groups
                  ≡ update (is_group gid) (λ g. record g { state = GroupState.dissolved })
                      db.groups)
              × (db'.transfers ≡ db.transfers)
              × (db'.pending_removals ≡ db.pending_removals)))
        ⊎ (((is_owner m.role ≡ true)
              × (others ≢ 0)
              × (((named ≡ "") × (out ≡ err successor_required))
                  ⊎ ((named ≢ "")
                      × ((named ≡ user) ⊎ (count_where (is_member gid named) db.members ≡ 0))
                      × (out ≡ err invalid_successor))))
            ⊎ ((is_owner m.role ≡ true)
                × (others ≢ 0)
                × (named ≢ user)
                × (count_where (is_member gid named) db.members ≢ 0)
                × ((db' : Groups) × (out
                      ≡ ok (
                        db',
                        record { dissolved = false; pending_removal = true; successor = named },
                      ))
                    × IsBookedOut db gid user db'
                    × (db'.transfers
                        ≡ db.transfers
                          ++ record {
                            id = db.next_transfer;
                            group_id = gid;
                            prev_owner = user;
                            designee = named;
                            state = TransferState.waiting;
                            created_at = now;
                            decided_at = 0;
                          }
                            ∷ [])))))

-- What a member's leave answers and leaves in the tables.
-- A member who is no owner is gone, with their cursor, and booked for removal; groups and transfers are
-- as they were.
-- The last one out, as owner, is gone and not booked, and the group is dissolved.
-- An owner with others in the group who names nobody is refused as naming none, and one who names
-- themselves or someone who is no member is refused as naming a wrong successor.
-- An owner who names another member is gone and booked, the groups are as they were, and one transfer
-- from them to the named member is opened behind the others.
-- In no case does another member or another cursor go.
pub leave_group_tables :
    (now : ℕ) (db : Groups) (gid user successor : String) (m : GroupMember)
    → LeavesFrom db gid user m
    → Departure now db gid user successor m
unfolding remove_group_member dissolve_group
leave_group_tables now db gid user successor m from =
    elim (leave_group_outcome now db gid user successor m from) [
      | inl (plain, e) ↦
          let (booked, groups, transfers) = book_removal_lem now gid user db in
          inl (
            plain,
            (
              _,
              e,
              record {
                gone = leave_group-IsGone now db _ gid user successor m _ from e;
                booked = booked;
                groups = groups;
              },
              transfers,
            ),
          )
      | inr (inl (owns, alone, e)) ↦ inr (
          inl (
            owns,
            alone,
            (_, e, leave_group-IsGone now db _ gid user successor m _ from e, refl, refl, refl),
          ))
      | inr (inr (inl refused)) ↦ inr (inr (inl refused))
      | inr (inr (inr (owns, others, other, found, e))) ↦
          let (booked, groups, transfers) =
            book_removal_lem now gid user
              (insert_transfer now gid user (trim_space successor) db) in
          inr (
            inr (
              inr (
                owns,
                others,
                other,
                found,
                (
                  _,
                  e,
                  record {
                    gone = leave_group-IsGone now db _ gid user successor m _ from e;
                    booked = booked;
                    groups = groups;
                  },
                  transfers,
                ),
              )))
    ]
