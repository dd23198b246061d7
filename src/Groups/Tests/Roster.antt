-- ===== src/Groups/Tests/Roster.antt =====
-- Tests of leaving and of ownership transfers in a group of two.
use etemsg_server.Base.{
  ◌+◌, ◌≤◌, true, false, ◌&&◌, ◌≡◌, ◌≢◌, refl, [], ◌∷◌, ok, dec_text, ◌==◌, arith, trim_space,
}
use etemsg_server.Base.Table.{count_where, any_where}
use etemsg_server.Groups.State.{
  Role, TransferState, Groups, OwnerTransfer, is_owner, is_member, is_group_owner, is_open_transfer,
}
use etemsg_server.Groups.Roster.{dissolve_group, remove_group_member}
use etemsg_server.Groups.Ownership.{
  create_owner_transfer, decide_owner_transfer, newest_transfer, accept_transfer, decline_transfer,
  hand_over, leave_group, leave_as_owner, finish_leave, LeaveResult,
}
use etemsg_server.Groups.Transfers.{
  IsSettled, create_owner_transfer-IsSettled, is_other_owner, decide_owner_transfer_owners,
}
use etemsg_server.Groups.Leaving.{LeavesFrom, leave_group_opens}
use etemsg_server.Groups.Departure.{Departure, leave_group_tables}
use etemsg_server.Groups.Tests.{seat, pair, transfer}

-- Ann has asked Bob to take the group over.
abbrev offered : Groups
offered = record pair {
  transfers = transfer 1 "ann" "bob" TransferState.waiting ∷ [];
  next_transfer = 2;
}

ann_offers : create_owner_transfer 4 pair "team" "ann" "bob" ≡ ok offered
unfolding create_owner_transfer dec_text
ann_offers = refl

pair-IsSettled : IsSettled pair
pair-IsSettled gid = omega arith

abbrev closed : TransferState → OwnerTransfer
closed state = record (transfer 1 "ann" "bob" state) { decided_at = 5 }

abbrev taken : Groups
taken = record offered {
  members = seat "ann" Role.member ∷ seat "bob" Role.owner ∷ [];
  transfers = closed TransferState.accepted ∷ [];
}

bob_accepts :
    decide_owner_transfer 5 offered "team" "bob" true ≡ ok (taken, closed TransferState.accepted)
unfolding decide_owner_transfer newest_transfer accept_transfer hand_over dec_text
bob_accepts = refl

offered-IsSettled : IsSettled offered
offered-IsSettled =
    create_owner_transfer-IsSettled 4 pair offered "team" "ann" "bob" ann_offers pair-IsSettled

bob_once : count_where (is_member "team" "bob") offered.members ≤ 1
unfolding dec_text
bob_once = omega arith

decide_owner_transfer_owners_example :
    (count_where (is_group_owner "team") taken.members
      ≡ 1 + count_where (is_other_owner "team" "ann" "bob") offered.members)
    × (any_where (λ m. is_member "team" "bob" m && is_owner m.role) taken.members ≡ true)
decide_owner_transfer_owners_example =
    decide_owner_transfer_owners 5 offered taken "team" "bob" (closed TransferState.accepted)
      bob_accepts bob_once

abbrev turned_down : Groups
turned_down = record offered { transfers = closed TransferState.declined ∷ [] }

bob_declines :
    decide_owner_transfer 5 offered "team" "bob" false
    ≡ ok (turned_down, closed TransferState.declined)
unfolding decide_owner_transfer newest_transfer decline_transfer dissolve_group dec_text
bob_declines = refl

-- Ann leaves to Bob while her first offer to him is still open.
abbrev left_twice : Groups
left_twice = record offered {
  members = seat "bob" Role.member ∷ [];
  transfers =
      transfer 1 "ann" "bob" TransferState.waiting
      ∷ record (transfer 2 "ann" "bob" TransferState.waiting) { created_at = 6 }
      ∷ [];
  next_transfer = 3;
  pending_removals = record { group_id = "team"; user_id = "ann"; created_at = 6 } ∷ [];
}

abbrev to_bob : LeaveResult
to_bob = record { dissolved = false; pending_removal = true; successor = "bob" }

ann_in_team : LeavesFrom offered "team" "ann" (seat "ann" Role.owner)
unfolding dec_text
ann_in_team = (refl, refl)

ann_leaves : leave_group 6 offered "team" "ann" " bob " ≡ ok (left_twice, to_bob)
unfolding leave_group leave_as_owner finish_leave remove_group_member trim_space dec_text
ann_leaves = refl

bob_differs : "bob" == "" ≡ false
unfolding dec_text
bob_differs = refl

bob_ne_empty : to_bob.successor ≢ ""
bob_ne_empty = λ p. ground (arith, bob_differs)

leave_group_opens_example :
    count_where (is_open_transfer "team") left_twice.transfers
    ≡ 1 + count_where (is_open_transfer "team") offered.transfers
leave_group_opens_example =
    leave_group_opens 6 offered left_twice "team" "ann" " bob " (seat "ann" Role.owner) to_bob
      ann_in_team ann_leaves bob_ne_empty

leave_group_tables_example : Departure 6 offered "team" "ann" " bob " (seat "ann" Role.owner)
leave_group_tables_example =
    leave_group_tables 6 offered "team" "ann" " bob " (seat "ann" Role.owner) ann_in_team
