-- ===== src/Groups/Transfers.antt =====
-- CreateOwnerTransfer and DecideOwnerTransfer (store/group.go): open transfers, and how many owners
-- a group has after one is accepted.
use etemsg_server.Base.{
  ℕ, ◌+◌, ◌≤◌, String, Bool, true, false, ◌&&◌, not, ◌≡◌, ◌≢◌, inl, inr, refl, sym, ◌∙◌, some, List,
  [], ◌∷◌, ok, arith, ◌==◌, ◌=ℕ◌, head?, if◌then◌else◌, Option-cases, Bool-cases,
}
use etemsg_server.Base.Table.{select, count_where, any_where, update}
use etemsg_server.Base.Table.Rows.{
  any_where-sort_by, any_where-select, count_where_pos_iff, count_where_zero,
}
use etemsg_server.Base.Table.Counts.{count_where-insert_key}
use etemsg_server.Groups.State.{
  TransferState, GroupMember, OwnerTransfer, Groups, is_owner, is_waiting, is_member,
  is_group_owner, is_open_transfer,
}
use etemsg_server.Groups.Roster.{dissolve_group}
use etemsg_server.Groups.Ownership.{
  create_owner_transfer, newer, newest_transfer, hand_over, accept_transfer, decline_transfer,
  decide_owner_transfer, close_transfer,
}

-- Each group has at most one open transfer.
abbrev pub IsSettled : Groups → Type 0
IsSettled db = (gid : String) → count_where (is_open_transfer gid) db.transfers ≤ 1

-- A transfer that is created on its own is the only open one of its group.
pub create_owner_transfer-IsSettled :
    (now : ℕ) (db db' : Groups) (gid prev_owner designee : String)
    → create_owner_transfer now db gid prev_owner designee ≡ ok db'
    → IsSettled db
    → IsSettled db'
unfolding create_owner_transfer
create_owner_transfer-IsSettled now db db' gid prev_owner designee h settled g =
    let fresh : any_where (is_open_transfer gid) db.transfers ≡ false = ground arith in
    ground (
      arith,
      count_where-insert_key (is_open_transfer g) (is_open_transfer gid)
          (record {
            id = db.next_transfer;
            group_id = gid;
            prev_owner = prev_owner;
            designee = designee;
            state = TransferState.waiting;
            created_at = now;
            decided_at = 0;
          })
          db.transfers fresh (λ h y k. ground arith) (settled g),
    )

any_where-head? :
    (p : OwnerTransfer → Bool) (ts : List OwnerTransfer) {t : OwnerTransfer}
    → head? ts ≡ some t
    → p t ≡ true
    → any_where p ts ≡ true
any_where-head? p [] h e = cc
any_where-head? p (x ∷ xs) {t} h e = ground arith

-- The transfer to decide is a row of the table.
newest_transfer_there :
    (db : Groups) (gid : String) {t : OwnerTransfer}
    → newest_transfer db gid ≡ some t
    → any_where (λ s. is_open_transfer gid s && s.id =ℕ t.id) db.transfers ≡ true
unfolding newest_transfer
newest_transfer_there db gid {t} h =
    let same : OwnerTransfer → Bool = λ s. s.id =ℕ t.id in
    sym (any_where-select same (is_open_transfer gid) db.transfers)
    ∙ sym (any_where-sort_by same newer (select (is_open_transfer gid) db.transfers))
    ∙ any_where-head? same _ h (ground arith)

closes :
    (gid : String) (id now : ℕ) (state : TransferState) (ts : List OwnerTransfer)
    → is_waiting state ≡ false
    → count_where
          (is_open_transfer gid)
          (update (λ t. t.id =ℕ id) (λ t. record t { state = state; decided_at = now }) ts)
        + count_where (λ s. is_open_transfer gid s && s.id =ℕ id) ts
      ≡ count_where (is_open_transfer gid) ts
closes gid id now state [] h = refl
closes gid id now state (t ∷ ts) h = ground (arith, closes gid id now state ts h)

-- What a decision does to the table of transfers, either way.
decided :
    (now : ℕ) (db db' : Groups) (gid designee : String) (accept : Bool) (t : OwnerTransfer)
    → decide_owner_transfer now db gid designee accept ≡ ok (db', t)
    → (s : OwnerTransfer) × (newest_transfer db gid ≡ some s)
      × (s.designee ≡ designee)
      × (t.prev_owner ≡ s.prev_owner)
      × (t.state ≡ (if accept then TransferState.accepted else TransferState.declined))
      × (db'.transfers ≡ (close_transfer s.id now t.state db).transfers)
unfolding decide_owner_transfer accept_transfer decline_transfer dissolve_group
decided now db db' gid designee accept t h = elim (Option-cases (newest_transfer db gid)) [
  | inl missing ↦ absurd (ground arith)
  | inr (s, e) ↦ (s, e, ground arith, ground arith, ground arith, ground arith)
]

-- A decision closes the transfer: after it the group has no open one, if it had at most one, and
-- the table is settled if it was.
pub decide_owner_transfer-IsSettled :
    (now : ℕ) (db db' : Groups) (gid designee : String) (accept : Bool) (t : OwnerTransfer)
    → decide_owner_transfer now db gid designee accept ≡ ok (db', t)
    → IsSettled db
    → IsSettled db' × (count_where (is_open_transfer gid) db'.transfers ≡ 0)
decide_owner_transfer-IsSettled now db db' gid designee accept t h settled =
    let (s, e, to, from, state, after) = decided now db db' gid designee accept t h in
    let shut : is_waiting t.state ≡ false = ground arith in
    let there = newest_transfer_there db gid e in
    (
      λ g. rw after (omega (arith, closes g s.id now t.state db.transfers shut, settled g)),
      rw after (
          omega (
            arith,
            closes gid s.id now t.state db.transfers shut,
            settled gid,
            count_where_pos_iff (λ r. is_open_transfer gid r && r.id =ℕ s.id) db.transfers there,
          )),
    )

-- The owners of a group other than two given users.
abbrev pub is_other_owner : String → String → String → GroupMember → Bool
is_other_owner gid prev designee m =
    is_group_owner gid m && not (m.user_id == prev) && not (m.user_id == designee)

owners-hand_over :
    (gid prev designee : String) (ms : List GroupMember)
    → count_where (is_group_owner gid) (hand_over gid prev designee ms)
      ≡ count_where (is_member gid designee) ms + count_where (is_other_owner gid prev designee) ms
unfolding hand_over
owners-hand_over gid prev designee [] = refl
owners-hand_over gid prev designee (m ∷ ms) = ground (arith, owners-hand_over gid prev designee ms)

designee_owns :
    (gid prev designee : String) (ms : List GroupMember)
    → any_where (is_member gid designee) ms ≡ true
    → any_where (λ m. is_member gid designee m && is_owner m.role) (hand_over gid prev designee ms)
      ≡ true
unfolding hand_over
designee_owns gid prev designee [] h = cc
designee_owns gid prev designee (m ∷ ms) h = ground (arith, designee_owns gid prev designee ms)

there_of_count :
    (p : GroupMember → Bool) (ms : List GroupMember) → count_where p ms ≢ 0 → any_where p ms ≡ true
there_of_count p ms h = elim (Bool-cases (any_where p ms)) [
  | inl e ↦ e
  | inr e ↦ absurd (h (count_where_zero p ms e))
]

accept_passed :
    (now : ℕ) (db db' : Groups) (gid designee : String) (t : OwnerTransfer)
    → decide_owner_transfer now db gid designee true ≡ ok (db', t)
    → (any_where (is_member gid designee) db.members ≡ true)
      × (db'.members ≡ hand_over gid t.prev_owner designee db.members)
unfolding decide_owner_transfer accept_transfer
accept_passed now db db' gid designee t h = elim (Option-cases (newest_transfer db gid)) [
  | inl missing ↦ absurd (ground arith)
  | inr (s, e) ↦ (there_of_count (is_member gid designee) db.members (ground arith), ground arith)
]

-- An accepted transfer makes the designee an owner and takes the role from the previous owner that
-- it names, but from nobody else: the group has one owner more than it had others. So it has just
-- one owner if the transfer's previous owner was the only one, and two if the transfer is stale.
pub decide_owner_transfer_owners :
    (now : ℕ) (db db' : Groups) (gid designee : String) (t : OwnerTransfer)
    → decide_owner_transfer now db gid designee true ≡ ok (db', t)
    → count_where (is_member gid designee) db.members ≤ 1
    → (count_where (is_group_owner gid) db'.members
        ≡ 1 + count_where (is_other_owner gid t.prev_owner designee) db.members)
      × (any_where (λ m. is_member gid designee m && is_owner m.role) db'.members ≡ true)
decide_owner_transfer_owners now db db' gid designee t h once =
    let (there, after) = accept_passed now db db' gid designee t h in
    let one = count_where_pos_iff (is_member gid designee) db.members there in
    (
      rw after (omega (arith, owners-hand_over gid t.prev_owner designee db.members, one, once)),
      rw after (designee_owns gid t.prev_owner designee db.members there),
    )

-- A declined transfer changes no role; it dissolves the group exactly when no owner is left in it.
pub decide_owner_transfer_declined :
    (now : ℕ) (db db' : Groups) (gid designee : String) (t : OwnerTransfer)
    → decide_owner_transfer now db gid designee false ≡ ok (db', t)
    → (db'.members ≡ db.members)
      × (db'.groups ≡ (
          if any_where (is_group_owner gid) db.members
          then db.groups
          else (dissolve_group db gid).groups))
unfolding decide_owner_transfer decline_transfer dissolve_group
decide_owner_transfer_declined now db db' gid designee t h =
    elim (Option-cases (newest_transfer db gid)) [
      | inl missing ↦ absurd (ground arith)
      | inr (s, e) ↦ elim (Bool-cases (any_where (is_group_owner gid) db.members)) [
        | inl owned ↦ (
          ground arith,
          ground (arith, count_where_pos_iff (is_group_owner gid) db.members owned),
        )
        | inr none_left ↦ (
          ground arith,
          ground (arith, count_where_zero (is_group_owner gid) db.members none_left),
        )
      ]
    ]
