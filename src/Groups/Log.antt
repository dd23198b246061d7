-- ===== src/Groups/Log.antt =====
-- store/group.go: the log of opaque MLS objects. A Commit advances the epoch of its group, and a
-- Welcome makes its target a member.
use etemsg_server.Base.{
  ℕ, ◌+◌, ℤ, String, Bool, ◌&&◌, ◌||◌, not, Option, none, some, List, Result, ok, ◌>>=◌, ◌>>◌,
  refuse_if, or_fail, ◌==◌, leb, int_ltb, int_leb, int_eq, if◌then◌else◌,
}
use etemsg_server.Base.Table.{
  select, count_where, any_where, first, update, insert, sort_by, max_where,
}
use etemsg_server.Errors.{
  Error, group_not_found, group_full, duplicate_commit_epoch, epoch_parent_mismatch,
  epoch_not_monotonic,
}
use etemsg_server.Groups.State.{
  Role, LogEntry, Groups, is_group, in_group, is_member, max_group_members,
}

-- A row of the group in the log that is no Welcome.
abbrev pub is_commit : String → LogEntry → Bool
is_commit gid e = e.group_id == gid && not (e.kind == "welcome")

abbrev pub is_commit_at : String → ℤ → LogEntry → Bool
is_commit_at gid epoch e = is_commit gid e && int_eq e.epoch epoch

abbrev pub after_max : Option ℕ → ℕ
after_max none = 1
after_max (some n) = n + 1

unfoldable pub next_mls_seq : Groups → String → ℕ
next_mls_seq db gid = after_max (max_where (λ e. e.group_id == gid) (λ e. e.seq) db.mls_log)

-- The row `e` brings its group, epoch, kind, sender, target and data; the result has the seq.
unfoldable pub append_group_commit : ℕ → Groups → LogEntry → ℤ → Result Error (Groups × ℕ)
unfolding next_mls_seq
append_group_commit now db e parent_epoch = do
  g ← or_fail (first (is_group e.group_id) db.groups) group_not_found
  refuse_if (any_where (is_commit_at e.group_id e.epoch) db.mls_log) duplicate_commit_epoch
  refuse_if (not (int_eq parent_epoch g.current_epoch)) epoch_parent_mismatch
  refuse_if (int_leb e.epoch g.current_epoch) epoch_not_monotonic
  let seq = next_mls_seq db e.group_id
  ok (
    record db {
      mls_log = insert (record e { seq = seq; created_at = now }) db.mls_log;
      groups = update (is_group e.group_id) (λ g. record g { current_epoch = e.epoch }) db.groups;
    },
    seq,
  )

-- The membership of a Welcome's target: a member stays as they are, also in a full group.
unfoldable pub welcome_member : ℕ → LogEntry → Groups → Result Error Groups
welcome_member now e db =
    if any_where (is_member e.group_id e.target) db.members then ok db else (do
      refuse_if (leb max_group_members (count_where (in_group e.group_id) db.members)) group_full
      ok (record db {
        members =
            insert
              (record {
                group_id = e.group_id;
                user_id = e.target;
                role = Role.member;
                joined_epoch = e.epoch;
                joined_at = now;
              })
              db.members;
      }))

-- The kind of the row is written as 'welcome', whatever `e` says.
unfoldable pub append_welcome : ℕ → Groups → LogEntry → Result Error (Groups × ℕ)
unfolding next_mls_seq welcome_member
append_welcome now db e = do
  g ← or_fail (first (is_group e.group_id) db.groups) group_not_found
  let seq = next_mls_seq db e.group_id
  let row : LogEntry = record e { seq = seq; kind = "welcome"; created_at = now }
  db' ← welcome_member now e (record db { mls_log = insert row db.mls_log })
  ok (db', seq)

abbrev pub by_epoch_seq : LogEntry → LogEntry → Bool
by_epoch_seq d e = int_ltb d.epoch e.epoch || (int_eq d.epoch e.epoch && leb d.seq e.seq)

unfoldable pub list_mls_log_since : Groups → String → ℤ → List LogEntry
list_mls_log_since db gid since_epoch =
    sort_by by_epoch_seq (select (λ e. is_commit gid e && int_ltb since_epoch e.epoch) db.mls_log)

unfoldable pub list_welcomes_for : Groups → String → String → List LogEntry
list_welcomes_for db gid target =
    sort_by (λ d e. leb d.seq e.seq)
      (select (λ e. e.group_id == gid && e.kind == "welcome" && e.target == target) db.mls_log)
