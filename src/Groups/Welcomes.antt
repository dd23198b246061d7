-- ===== src/Groups/Welcomes.antt =====
-- AppendWelcome (store/group.go): a Welcome makes its target a member, within the size of a group.
use etemsg_server.Base.{
  ℕ, ◌≤◌, ◌<◌, String, Bool, true, false, ◌&&◌, ◌≡◌, ◌⊎◌, inl, inr, ◌∙◌, ap, List, [], ◌∷◌, ◌++◌,
  ok, err, arith, ◌==◌, leb, if◌then◌else◌, dec_text, Option-cases, Bool-cases, All, subst,
}
use etemsg_server.Base.Table.{select, count_where, any_where, first, insert, sort_by}
use etemsg_server.Base.Table.Rows.{any_where-append, select-append, first_missing}
use etemsg_server.Base.Table.Counts.{count_where-append, count_where-insert_key}
use etemsg_server.Base.Table.Sorting.{sort_by-append_last}
use etemsg_server.Errors.{group_not_found, group_full}
use etemsg_server.Groups.State.{
  Role, GroupMember, LogEntry, Groups, is_group, in_group, is_member, max_group_members,
}
use etemsg_server.Groups.Numbers.{below_after_max}
use etemsg_server.Groups.Log.{next_mls_seq, append_welcome, welcome_member, list_welcomes_for}

abbrev pub welcome_row : ℕ → LogEntry → ℕ → LogEntry
welcome_row now e seq = record e { seq = seq; kind = "welcome"; created_at = now }

-- The membership that a Welcome grants.
abbrev pub granted : ℕ → LogEntry → GroupMember
granted now e = record {
  group_id = e.group_id;
  user_id = e.target;
  role = Role.member;
  joined_epoch = e.epoch;
  joined_at = now;
}

-- What an accepted Welcome does to the roster.
abbrev pub welcomed : ℕ → LogEntry → List GroupMember → List GroupMember
welcomed now e members =
    if any_where (is_member e.group_id e.target) members
    then members
    else insert (granted now e) members

-- A Welcome is refused exactly for a group that there is not, and for a newcomer to a group of 1000
-- members. Otherwise it is logged under a number above all others of the group, and its target
-- becomes an ordinary member at its epoch, or stays the member that they are.
pub append_welcome_lem :
    (now : ℕ) (db : Groups) (e : LogEntry)
    → let seq = next_mls_seq db e.group_id in
      ((any_where (is_group e.group_id) db.groups ≡ false)
        × (append_welcome now db e ≡ err group_not_found))
      ⊎ (((any_where (is_member e.group_id e.target) db.members ≡ false)
            × (max_group_members ≤ count_where (in_group e.group_id) db.members)
            × (append_welcome now db e ≡ err group_full))
          ⊎ (append_welcome now db e
              ≡ ok (
                record db {
                  mls_log = insert (welcome_row now e seq) db.mls_log;
                  members = welcomed now e db.members;
                },
                seq,
              )))
unfolding append_welcome
append_welcome_lem now db e = elim (Option-cases (first (is_group e.group_id) db.groups)) [
  | inl missing ↦ inl (first_missing (is_group e.group_id) db.groups missing, ground arith)
  | inr (g, there) ↦ elim (Bool-cases (any_where (is_member e.group_id e.target) db.members)) [
    | inl old ↦ inr (inr (ground arith))
    | inr new ↦
        let count = count_where (in_group e.group_id) db.members in
        elim (Bool-cases (leb max_group_members count)) [
          | inl full ↦ inr (inl (new, ground arith, ground arith))
          | inr room ↦ inr (inr (ground arith))
        ]
  ]
]

-- An accepted Welcome in the same terms, with the room that it found.
accepted :
    (now : ℕ) (db db' : Groups) (e : LogEntry) (seq : ℕ)
    → append_welcome now db e ≡ ok (db', seq)
    → (seq ≡ next_mls_seq db e.group_id)
      × (db'.mls_log ≡ insert (welcome_row now e seq) db.mls_log)
      × (db'.members ≡ welcomed now e db.members)
      × ((any_where (is_member e.group_id e.target) db.members ≡ true)
          ⊎ (count_where (in_group e.group_id) db.members < max_group_members))
unfolding append_welcome welcome_member
accepted now db db' e seq h = (ground arith, ground arith, ground arith, ground arith)

member_once :
    (now : ℕ) (e : LogEntry) (gid user : String) (members : List GroupMember)
    → count_where (is_member gid user) members ≤ 1
    → count_where (is_member gid user) (welcomed now e members) ≤ 1
member_once now e gid user members h =
    elim (Bool-cases (any_where (is_member e.group_id e.target) members)) [
      | inl old ↦ rw old h
      | inr new ↦ rw new (
          count_where-insert_key (is_member gid user) (is_member e.group_id e.target)
            (granted now e) members new (λ a y b. ground arith) h)
    ]

group_limited :
    (now : ℕ) (e : LogEntry) (gid : String) (members : List GroupMember)
    → count_where (in_group gid) members ≤ max_group_members
    → (any_where (is_member e.group_id e.target) members ≡ true)
      ⊎ (count_where (in_group e.group_id) members < max_group_members)
    → count_where (in_group gid) (welcomed now e members) ≤ max_group_members
group_limited now e gid members h room =
    elim (Bool-cases (any_where (is_member e.group_id e.target) members)) [
      | inl old ↦ rw old h
      | inr new ↦ elim (dec_text e.group_id gid) [
        | no n ↦
            rw new (ground (arith, count_where-append (in_group gid) members (granted now e ∷ [])))
        | yes q ↦
            let fits : count_where (in_group gid) members < max_group_members =
              subst (λ u. count_where (in_group u) members < max_group_members) q (ground arith) in
            rw new (ground (arith, count_where-append (in_group gid) members (granted now e ∷ [])))
      ]
    ]

welcomed_there :
    (now : ℕ) (e : LogEntry) (members : List GroupMember)
    → any_where (is_member e.group_id e.target) (welcomed now e members) ≡ true
welcomed_there now e members =
    ground (arith, any_where-append (is_member e.group_id e.target) members (granted now e ∷ []))

-- Each user is in a group once, and no group has more than 1000 members.
pub record IsRoster (db : Groups) : Type 0 where
  pub once : (gid user : String) → count_where (is_member gid user) db.members ≤ 1
  pub limited : (gid : String) → count_where (in_group gid) db.members ≤ max_group_members

-- An accepted Welcome keeps both, and its target is a member.
pub append_welcome-IsRoster :
    (now : ℕ) (db db' : Groups) (e : LogEntry) (seq : ℕ)
    → append_welcome now db e ≡ ok (db', seq)
    → IsRoster db
    → IsRoster db' × (any_where (is_member e.group_id e.target) db'.members ≡ true)
append_welcome-IsRoster now db db' e seq h r =
    let (at_seq, logged, roster, room) = accepted now db db' e seq h in
    (
      record {
        once = λ gid user. rw roster (member_once now e gid user db.members (r.once gid user));
        limited = λ gid. rw roster (group_limited now e gid db.members (r.limited gid) room);
      },
      rw roster (welcomed_there now e db.members),
    )

earlier :
    (gid target : String) (seq : ℕ) (log : List LogEntry)
    → All (λ d. d.group_id == gid ≡ true → d.seq < seq) log
    → All
        (λ d. leb d.seq seq ≡ true)
        (select (λ d. d.group_id == gid && d.kind == "welcome" && d.target == target) log)
earlier gid target seq [] h = tt
earlier gid target seq (d ∷ log) (here, rest) =
    elim (Bool-cases (d.group_id == gid && d.kind == "welcome" && d.target == target)) [
      | inl e ↦ rw e (ground (arith, here), earlier gid target seq log rest)
      | inr e ↦ rw e (earlier gid target seq log rest)
    ]

-- The target finds an accepted Welcome as the last of the Welcomes for them.
pub list-append_welcome :
    (now : ℕ) (db db' : Groups) (e : LogEntry) (seq : ℕ)
    → append_welcome now db e ≡ ok (db', seq)
    → list_welcomes_for db' e.group_id e.target
      ≡ list_welcomes_for db e.group_id e.target ++ welcome_row now e seq ∷ []
unfolding list_welcomes_for
list-append_welcome now db db' e seq h =
    let (at_seq, logged, roster, room) = accepted now db db' e seq h in
    let gid = e.group_id in
    let row = welcome_row now e seq in
    let for_target : LogEntry → Bool =
      λ d. d.group_id == gid && d.kind == "welcome" && d.target == e.target in
    let found : select for_target (row ∷ []) ≡ row ∷ [] = ground arith in
    let last : All (λ d. d.group_id == gid ≡ true → d.seq < seq) db.mls_log =
      rw at_seq
        (unfold next_mls_seq in below_after_max (λ d. d.group_id == gid) (λ d. d.seq) db.mls_log) in
    ap (λ rows. sort_by (λ d c. leb d.seq c.seq) (select for_target rows)) logged
    ∙ ap (sort_by (λ d c. leb d.seq c.seq)) (
        select-append for_target db.mls_log (row ∷ [])
        ∙ ap (λ rows. select for_target db.mls_log ++ rows) found)
    ∙ sort_by-append_last (λ d c. leb d.seq c.seq) (select for_target db.mls_log) row
        (earlier gid e.target seq db.mls_log last)
