-- ===== src/Groups/Roster.antt =====
-- store/group.go: groups, their members, and the removals that wait for an MLS commit.
use etemsg_server.Base.{
  ℕ, ℤ, String, Bool, true, false, ◌&&◌, ◌||◌, not, List, [], ◌∷◌, ◌++◌, map, Result, ok, err, ◌>>◌,
  refuse_if, or_fail, ◌==◌, ◌=ℕ◌, ltb, take, drop, if◌then◌else◌,
}
use etemsg_server.Base.Table.{
  select, delete, count_where, any_where, first, update, insert, sort_by,
}
use etemsg_server.Errors.{
  Error, duplicate_group, group_not_found, group_member_not_found, foreign_key_violation,
}
use etemsg_server.Accounts.State.{text_leb}
use etemsg_server.Groups.State.{
  Role, GroupState, Group, GroupMember, Removal, Groups, is_active, is_group, in_group, is_member,
  is_group_owner, is_cursor,
}

-- The foreign key on `group_id`.
abbrev pub group_exists : Groups → String → Bool
group_exists db gid = any_where (is_group gid) db.groups

-- ORDER BY a number and then a text
abbrev pub by_time : ℕ → String → ℕ → String → Bool
by_time s a t b = ltb s t || (s =ℕ t && text_leb a b)

-- The row `g` brings its id, name, creator, epoch and queue floor. By the foreign key a group that is
-- not there has no members, so that the key of the owner's row is free.
unfoldable pub create_group : ℕ → Groups → Group → Result Error Groups
create_group now db g = do
  refuse_if (group_exists db g.group_id) duplicate_group
  ok (record db {
    groups = insert (record g { state = GroupState.active; created_at = now }) db.groups;
    members =
        insert
          (record {
            group_id = g.group_id;
            user_id = g.creator;
            role = Role.owner;
            joined_epoch = g.current_epoch;
            joined_at = now;
          })
          db.members;
  })

unfoldable pub get_group : Groups → String → Result Error Group
get_group db gid = or_fail (first (is_group gid) db.groups) group_not_found

pub record GroupSummary : Type 0 where
  pub group_id : String
  pub name_enc : List ℕ
  pub my_role : Role
  pub current_epoch : ℤ
  pub min_seq : ℕ

-- group_members m JOIN groups g ON g.group_id = m.group_id
abbrev pub join_groups : List GroupMember → List Group → List (GroupMember × Group)
join_groups [] gs = []
join_groups (m ∷ ms) gs = map (λ g. (m, g)) (select (is_group m.group_id) gs) ++ join_groups ms gs

abbrev pub summary : GroupMember × Group → GroupSummary
summary (m, g) = record {
  group_id = g.group_id;
  name_enc = g.name_enc;
  my_role = m.role;
  current_epoch = g.current_epoch;
  min_seq = g.min_seq;
}

unfoldable pub list_groups_for_user : Groups → String → List GroupSummary
list_groups_for_user db user = map summary (
    sort_by (λ p q. by_time p.1.created_at p.1.group_id q.1.created_at q.1.group_id)
      (select (λ p. p.0.user_id == user && is_active p.1.state) (join_groups db.members db.groups)))

unfoldable pub list_active_group_ids : Groups → List String
list_active_group_ids db =
    sort_by text_leb (map (λ g. g.group_id) (select (λ g. is_active g.state) db.groups))

-- A limit or an offset below 0 reads as 0 here: the code returns no rows, or takes 0.
unfoldable pub list_active_group_ids_page : Groups → ℕ → ℕ → List String
unfolding list_active_group_ids
list_active_group_ids_page db limit offset = take limit (drop offset (list_active_group_ids db))

unfoldable pub dissolve_group : Groups → String → Groups
dissolve_group db gid = record db {
  groups = update (is_group gid) (λ g. record g { state = GroupState.dissolved }) db.groups;
}

unfoldable pub get_group_member : Groups → String → String → Result Error GroupMember
get_group_member db gid user =
    or_fail (first (is_member gid user) db.members) group_member_not_found

unfoldable pub is_group_member : Groups → String → String → Bool
unfolding get_group_member
is_group_member db gid user = elim (get_group_member db gid user) [ ok m ↦ true | err e ↦ false ]

unfoldable pub list_group_members : Groups → String → List GroupMember
list_group_members db gid =
    sort_by (λ m n. by_time m.joined_at m.user_id n.joined_at n.user_id)
      (select (in_group gid) db.members)

unfoldable pub group_member_ids : Groups → String → List String
group_member_ids db gid = map (λ m. m.user_id) (select (in_group gid) db.members)

-- INSERT OR IGNORE: the primary key is ignored, the foreign key is not.
unfoldable pub add_group_member : ℕ → Groups → String → String → Role → ℤ → Result Error Groups
add_group_member now db gid user role joined_epoch =
    if any_where (is_member gid user) db.members then ok db else do
      refuse_if (not (group_exists db gid)) foreign_key_violation
      ok (record db {
        members =
            insert
              (record {
                group_id = gid;
                user_id = user;
                role = role;
                joined_epoch = joined_epoch;
                joined_at = now;
              })
              db.members;
      })

-- The membership row and the ack cursor, which `LeaveGroup` deletes by the same statements.
unfoldable pub remove_group_member : Groups → String → String → Groups
remove_group_member db gid user = record db {
  members = delete (is_member gid user) db.members;
  cursors = delete (is_cursor user gid) db.cursors;
}

abbrev pub is_removal : String → String → Removal → Bool
is_removal gid user r = r.group_id == gid && r.user_id == user

unfoldable pub pending_removal_ids : Groups → String → List String
pending_removal_ids db gid =
    map (λ r. r.user_id)
      (sort_by (λ r s. by_time r.created_at r.user_id s.created_at s.user_id)
        (select (λ r. r.group_id == gid) db.pending_removals))

unfoldable pub clear_pending_removals : Groups → String → Groups
clear_pending_removals db gid = record db {
  pending_removals = delete (λ r. r.group_id == gid) db.pending_removals;
}

unfoldable pub group_has_owner : Groups → String → Bool
group_has_owner db gid = ltb 0 (count_where (is_group_owner gid) db.members)

-- "" where there is none
unfoldable pub group_owner_id : Groups → String → String
group_owner_id db gid =
    elim (sort_by (λ m n. by_time m.joined_at m.user_id n.joined_at n.user_id)
      (select (is_group_owner gid) db.members)) [ [] ↦ "" | m ∷ _ ↦ m.user_id ]
