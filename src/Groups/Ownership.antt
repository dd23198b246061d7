-- ===== src/Groups/Ownership.antt =====
-- store/group.go: leaving a group, and handing its ownership over.
use etemsg_server.Base.{
  ℕ, ◌+◌, String, Bool, true, false, ◌&&◌, ◌||◌, not, Option, none, some, List, Result, ok, ◌>>=◌,
  ◌>>◌, refuse_if, or_fail, ◌==◌, ◌=ℕ◌, ltb, head?, trim_space, if◌then◌else◌,
}
use etemsg_server.Base.Table.{select, count_where, any_where, first, update, insert, sort_by}
use etemsg_server.Errors.{
  Error, group_not_found, successor_required, invalid_successor, transfer_not_found,
  transfer_pending, not_designee, foreign_key_violation,
}
use etemsg_server.Groups.State.{
  Role, TransferState, GroupMember, OwnerTransfer, Groups, is_owner, is_group, is_member,
  is_group_owner, is_open_transfer,
}
use etemsg_server.Groups.Roster.{group_exists, is_removal, remove_group_member, dissolve_group}

pub record LeaveResult : Type 0 where
  pub dissolved : Bool
  pub pending_removal : Bool
  pub successor : String

abbrev pub nothing_left : LeaveResult
nothing_left = record { dissolved = false; pending_removal = false; successor = "" }

-- INSERT INTO group_owner_transfers
abbrev pub insert_transfer : ℕ → String → String → String → Groups → Groups
insert_transfer now gid prev_owner designee db = record db {
  transfers =
      insert
        (record {
          id = db.next_transfer;
          group_id = gid;
          prev_owner = prev_owner;
          designee = designee;
          state = TransferState.waiting;
          created_at = now;
          decided_at = 0;
        })
        db.transfers;
  next_transfer = db.next_transfer + 1;
}

-- The part of `LeaveGroup` for an owner.
unfoldable pub leave_as_owner :
    ℕ → Groups → String → String → String → Result Error (Groups × LeaveResult)
unfolding dissolve_group
leave_as_owner now db gid user successor =
    if count_where (λ m. m.group_id == gid && not (m.user_id == user)) db.members =ℕ 0
    then ok (dissolve_group db gid, record nothing_left { dissolved = true })
    else (do
      let named = trim_space successor
      refuse_if (named == "") successor_required
      refuse_if (named == user) invalid_successor
      refuse_if (count_where (is_member gid named) db.members =ℕ 0) invalid_successor
      ok (insert_transfer now gid user named db, record nothing_left { successor = named }))

-- ON CONFLICT DO NOTHING
abbrev pub book_removal : ℕ → String → String → Groups → Groups
book_removal now gid user db =
    if any_where (is_removal gid user) db.pending_removals then db else record db {
      pending_removals =
          insert (record { group_id = gid; user_id = user; created_at = now }) db.pending_removals;
    }

-- Dropping the leaver, who is booked for removal from the ratchet tree of a live group.
unfoldable pub finish_leave : ℕ → String → String → Groups → LeaveResult → Groups × LeaveResult
unfolding remove_group_member
finish_leave now gid user db res =
    let db' = remove_group_member db gid user in
    if res.dissolved
    then (db', res)
    else (book_removal now gid user db', record res { pending_removal = true })

unfoldable pub leave_group :
    ℕ → Groups → String → String → String → Result Error (Groups × LeaveResult)
unfolding leave_as_owner finish_leave
leave_group now db gid user successor = do
  g ← or_fail (first (is_group gid) db.groups) group_not_found
  elim (first (is_member gid user) db.members) [
    | none ↦ ok (db, nothing_left)
    | some m ↦ do
      (db', res) ←
          if is_owner m.role
          then leave_as_owner now db gid user successor
          else ok (db, nothing_left)
      ok (finish_leave now gid user db' res)
  ]

unfoldable pub create_owner_transfer : ℕ → Groups → String → String → String → Result Error Groups
create_owner_transfer now db gid prev_owner designee = do
  refuse_if (prev_owner == designee) invalid_successor
  refuse_if (any_where (is_open_transfer gid) db.transfers) transfer_pending
  refuse_if (count_where (is_member gid designee) db.members =ℕ 0) invalid_successor
  refuse_if (not (group_exists db gid)) foreign_key_violation
  ok (insert_transfer now gid prev_owner designee db)

-- ORDER BY created_at DESC, id DESC
abbrev pub newer : OwnerTransfer → OwnerTransfer → Bool
newer s t = ltb t.created_at s.created_at || (s.created_at =ℕ t.created_at && ltb t.id s.id)

unfoldable pub newest_transfer : Groups → String → Option OwnerTransfer
newest_transfer db gid = head? (sort_by newer (select (is_open_transfer gid) db.transfers))

unfoldable pub pending_owner_transfer : Groups → String → Result Error OwnerTransfer
unfolding newest_transfer
pending_owner_transfer db gid = or_fail (newest_transfer db gid) transfer_not_found

-- The two role updates of an accepted transfer: the previous owner first.
unfoldable pub hand_over : String → String → String → List GroupMember → List GroupMember
hand_over gid prev_owner designee members =
    update (is_member gid designee) (λ m. record m { role = Role.owner })
      (update (λ m. is_member gid prev_owner m && is_owner m.role)
        (λ m. record m { role = Role.member }) members)

-- `UPDATE group_owner_transfers ... WHERE id = ?`
abbrev pub close_transfer : ℕ → ℕ → TransferState → Groups → Groups
close_transfer id now state db = record db {
  transfers =
      update (λ t. t.id =ℕ id) (λ t. record t { state = state; decided_at = now }) db.transfers;
}

unfoldable pub accept_transfer :
    ℕ → Groups → String → OwnerTransfer → Result Error (Groups × OwnerTransfer)
unfolding hand_over
accept_transfer now db gid t = do
  refuse_if (count_where (is_member gid t.designee) db.members =ℕ 0) invalid_successor
  ok (
    close_transfer t.id now TransferState.accepted
        (record db { members = hand_over gid t.prev_owner t.designee db.members }),
    record t { state = TransferState.accepted; decided_at = now },
  )

-- A group that no owner is left in is dissolved.
unfoldable pub decline_transfer : ℕ → Groups → String → OwnerTransfer → Groups × OwnerTransfer
unfolding dissolve_group
decline_transfer now db gid t = (
  close_transfer t.id now TransferState.declined
      (if count_where (is_group_owner gid) db.members =ℕ 0 then dissolve_group db gid else db),
  record t { state = TransferState.declined; decided_at = now },
)

unfoldable pub decide_owner_transfer :
    ℕ → Groups → String → String → Bool → Result Error (Groups × OwnerTransfer)
unfolding newest_transfer accept_transfer decline_transfer
decide_owner_transfer now db gid designee accept = do
  t ← or_fail (newest_transfer db gid) transfer_not_found
  refuse_if (not (t.designee == designee)) not_designee
  if accept then accept_transfer now db gid t else ok (decline_transfer now db gid t)

unfoldable pub owns_join_request_backlog : Groups → String → String → ℕ → Bool
owns_join_request_backlog db gid user req_created_at = ltb 0 (
    count_where (λ t. t.group_id == gid && t.prev_owner == user && ltb req_created_at t.created_at)
      db.transfers)
