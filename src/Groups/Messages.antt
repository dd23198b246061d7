-- ===== src/Groups/Messages.antt =====
-- store/group.go: the single message queue of each group, the members' ack cursors, and the
-- retention pass.
use etemsg_server.Base.{
  ℕ, ◌-◌, String, Bool, ◌&&◌, not, Option, none, some, List, Result, ok, ◌>>=◌, ◌>>◌, refuse_if,
  or_fail, ◌==◌, ◌=ℕ◌, ltb, leb, take, get_elem?, if◌then◌else◌,
}
use etemsg_server.Base.Table.{
  select, delete, count_where, any_where, first, update, insert, sort_by, max_where, min_where,
}
use etemsg_server.Errors.{
  Error, group_not_found, duplicate_group_msg, no_rows, foreign_key_violation,
}
use etemsg_server.Groups.State.{
  Group, GroupMessage, Cursor, Groups, is_group, in_group, is_cursor, group_queue_max_messages,
}
use etemsg_server.Groups.Roster.{group_exists}
use etemsg_server.Groups.Log.{after_max}

abbrev pub in_queue : String → GroupMessage → Bool
in_queue gid m = m.group_id == gid

-- MAX(seq), NULL for an empty queue
abbrev pub max_seq : Groups → String → Option ℕ
max_seq db gid = max_where (in_queue gid) (λ m. m.seq) db.messages

unfoldable pub append_group_message : ℕ → Groups → GroupMessage → Result Error (Groups × ℕ)
append_group_message now db m = do
  refuse_if (any_where (λ n. n.group_id == m.group_id && n.msg_id == m.msg_id) db.messages)
      duplicate_group_msg
  let seq = after_max (max_seq db m.group_id)
  refuse_if (not (group_exists db m.group_id)) foreign_key_violation
  ok (record db { messages = insert (record m { seq = seq; created_at = now }) db.messages }, seq)

abbrev pub by_seq : GroupMessage → GroupMessage → Bool
by_seq m n = leb m.seq n.seq

unfoldable pub list_group_messages : Groups → String → ℕ → ℕ → List GroupMessage
list_group_messages db gid since_seq limit =
    take limit (sort_by by_seq (select (λ m. in_queue gid m && ltb since_seq m.seq) db.messages))

abbrev pub or_zero : Option ℕ → ℕ
or_zero none = 0
or_zero (some n) = n

unfoldable pub max_group_message_seq : Groups → String → ℕ
max_group_message_seq db gid = or_zero (max_seq db gid)

abbrev pub cursor_seq : Option Cursor → ℕ
cursor_seq none = 0
cursor_seq (some c) = c.last_seq

-- 0 where there is no row, as in COALESCE(c.last_seq, 0) too
unfoldable pub get_group_cursor : Groups → String → String → ℕ
get_group_cursor db user gid = cursor_seq (first (is_cursor user gid) db.cursors)

abbrev pub advance : ℕ → ℕ → Cursor → Cursor
advance now last_seq c = record c {
  last_seq = if ltb c.last_seq last_seq then last_seq else c.last_seq;
  updated_at = now;
}

unfoldable pub upsert_group_cursor : ℕ → Groups → String → String → ℕ → Result Error Groups
upsert_group_cursor now db user gid last_seq =
    if any_where (is_cursor user gid) db.cursors
    then ok (record db { cursors = update (is_cursor user gid) (advance now last_seq) db.cursors })
    else (do
      refuse_if (not (group_exists db gid)) foreign_key_violation
      ok (record db {
        cursors =
            insert
              (record { user_id = user; group_id = gid; last_seq = last_seq; updated_at = now })
              db.cursors;
      }))

-- MIN(COALESCE(c.last_seq, 0)) over the members LEFT JOIN their cursors; NULL with no members.
unfoldable pub safe_seq : Groups → String → Option ℕ
unfolding get_group_cursor
safe_seq db gid = min_where (in_group gid) (λ m. get_group_cursor db m.user_id gid) db.members

pub record ReclaimResult : Type 0 where
  pub deleted_by_cursor : ℕ
  pub deleted_by_cap : ℕ
  pub min_seq : ℕ

-- One DELETE ... AND seq <= cutoff, with the number of rows and the raised floor.
pub record Pass : Type 0 where
  pub kept : List GroupMessage
  pub deleted : ℕ
  pub floor : ℕ

abbrev pub up_to : String → ℕ → GroupMessage → Bool
up_to gid cutoff m = in_queue gid m && leb m.seq cutoff

unfoldable pub delete_up_to : String → ℕ → List GroupMessage → ℕ → Pass
delete_up_to gid cutoff messages floor = record {
  kept = delete (up_to gid cutoff) messages;
  deleted = count_where (up_to gid cutoff) messages;
  floor = if ltb floor cutoff then cutoff else floor;
}

abbrev pub no_pass : List GroupMessage → ℕ → Pass
no_pass messages floor = record { kept = messages; deleted = 0; floor = floor }

unfoldable pub cursor_pass : String → Option ℕ → List GroupMessage → ℕ → Pass
unfolding delete_up_to
cursor_pass gid none messages floor = no_pass messages floor
cursor_pass gid (some safe) messages floor =
    if ltb 0 safe then delete_up_to gid safe messages floor else no_pass messages floor

-- ORDER BY seq ASC LIMIT 1 OFFSET offset
unfoldable pub seq_at : String → ℕ → List GroupMessage → Option ℕ
seq_at gid offset messages =
    elim (get_elem? (sort_by by_seq (select (in_queue gid) messages)) offset) [
      | none ↦ none
      | some m ↦ some m.seq
    ]

-- The queue over its limit loses its oldest rows.
unfoldable pub cap_pass : String → List GroupMessage → ℕ → Result Error Pass
unfolding delete_up_to seq_at
cap_pass gid messages floor =
    let count = count_where (in_queue gid) messages in
    if ltb group_queue_max_messages count
    then (do
      cutoff ← or_fail (seq_at gid (count - group_queue_max_messages - 1) messages) no_rows
      ok (delete_up_to gid cutoff messages floor))
    else ok (no_pass messages floor)

-- UPDATE groups SET min_seq = ? ... AND min_seq < ?
abbrev pub raise_floor : String → ℕ → List Group → List Group
raise_floor gid floor groups =
    if floor =ℕ 0
    then groups
    else update (λ g. is_group gid g && ltb g.min_seq floor) (λ g. record g { min_seq = floor })
        groups

unfoldable pub reclaim_group_messages : Groups → String → Result Error (Groups × ReclaimResult)
unfolding safe_seq cursor_pass cap_pass
reclaim_group_messages db gid = do
  g ← or_fail (first (is_group gid) db.groups) group_not_found
  let acked = cursor_pass gid (safe_seq db gid) db.messages g.min_seq
  capped ← cap_pass gid acked.kept acked.floor
  ok (
    record db { messages = capped.kept; groups = raise_floor gid capped.floor db.groups },
    record {
      deleted_by_cursor = acked.deleted;
      deleted_by_cap = capped.deleted;
      min_seq = capped.floor;
    },
  )
