-- ===== src/Groups/Epochs.antt =====
-- Commits: the epoch of a group only grows, and no two commits share an epoch.
use etemsg_server.Base.{
  ℕ, ◌≤◌, ℤ, String, Bool, true, false, ◌&&◌, ◌≡◌, ◌≢◌, ◌⊎◌, inl, inr, refl, sym, ◌∙◌, ap, Option,
  none, some, List, [], ◌∷◌, ◌++◌, ok, err, arith, ◌<ℤ◌, int_leb, int_eq, int_ltb, int_eq_path,
  int_eq_refl, int_eq_ne, leb_false-<ℤ, Option-cases, Bool-cases,
}
use etemsg_server.Base.Table.{select, count_where, any_where, first, update, insert, sort_by}
use etemsg_server.Base.Table.Rows.{first-update, select-update_disjoint, first_found, select-append}
use etemsg_server.Base.Table.Counts.{count_where-insert_key}
use mathlib.Core.List.{append-nil}
use etemsg_server.Errors.{duplicate_commit_epoch, epoch_parent_mismatch}
use etemsg_server.Groups.State.{Group, LogEntry, Groups, is_group}
use etemsg_server.Groups.Log.{
  is_commit, is_commit_at, append_group_commit, next_mls_seq, list_mls_log_since, by_epoch_seq,
}

abbrev pub epoch_row : Option Group → Option ℤ
epoch_row none = none
epoch_row (some g) = some g.current_epoch

-- The epoch of a group, where the group exists.
abbrev pub epoch_of : Groups → String → Option ℤ
epoch_of db gid = epoch_row (first (is_group gid) db.groups)

-- What an accepted commit has passed, and what it does.
pub record Commits (now : ℕ) (db : Groups) (e : LogEntry) (parent : ℤ) (db' : Groups) (seq : ℕ)
    : Type 0 where
  pub at_parent : epoch_of db e.group_id ≡ some parent
  pub later : parent <ℤ e.epoch
  pub no_fork : any_where (is_commit_at e.group_id e.epoch) db.mls_log ≡ false
  pub advanced : epoch_of db' e.group_id ≡ some e.epoch
  pub logged : db'.mls_log ≡ db.mls_log ++ record e { seq = seq; created_at = now } ∷ []
  pub others :
      (gid : String)
      → e.group_id ≢ gid
      → select (is_group gid) db'.groups ≡ select (is_group gid) db.groups

abbrev committed : ℕ → Groups → LogEntry → ℕ → Groups
committed now db e seq = record db {
  mls_log = insert (record e { seq = seq; created_at = now }) db.mls_log;
  groups = update (is_group e.group_id) (λ g. record g { current_epoch = e.epoch }) db.groups;
}

commit_passed :
    (now : ℕ) (db db' : Groups) (e : LogEntry) (parent : ℤ) (seq : ℕ) (g : Group)
    → first (is_group e.group_id) db.groups ≡ some g
    → append_group_commit now db e parent ≡ ok (db', seq)
    → (any_where (is_commit_at e.group_id e.epoch) db.mls_log ≡ false)
      × (int_eq parent g.current_epoch ≡ true)
      × (int_leb e.epoch g.current_epoch ≡ false)
      × (seq ≡ next_mls_seq db e.group_id)
      × (db' ≡ committed now db e seq)
unfolding append_group_commit
commit_passed now db db' e parent seq g eg h =
    (ground arith, ground arith, ground arith, ground arith, ground arith)

epoch_moves :
    (gid : String) (epoch : ℤ) (groups : List Group) (g : Group)
    → first (is_group gid) groups ≡ some g
    → first (is_group gid) (update (is_group gid) (λ g. record g { current_epoch = epoch }) groups)
      ≡ some (record g { current_epoch = epoch })
epoch_moves gid epoch groups g eg = ground (
  arith,
  first-update (is_group gid) (is_group gid) (λ g. record g { current_epoch = epoch }) groups
      {x = g} (λ g. refl),
  first_found (is_group gid) groups {x = g},
)

-- A commit is accepted only on the current epoch of its group, for a later epoch that no commit of
-- the group has; it becomes the last row of the log, the group moves to its epoch, and no other
-- group changes.
pub append_group_commit-Commits :
    (now : ℕ) (db db' : Groups) (e : LogEntry) (parent : ℤ) (seq : ℕ)
    → append_group_commit now db e parent ≡ ok (db', seq)
    → Commits now db e parent db' seq
append_group_commit-Commits now db db' e parent seq h =
    elim (Option-cases (first (is_group e.group_id) db.groups)) [
      | inl missing ↦ absurd (unfold append_group_commit in ground arith)
      | inr (g, eg) ↦
          let (no_fork, at_parent, behind, at_seq, after) =
            commit_passed now db db' e parent seq g eg h in
          let same = int_eq_path parent g.current_epoch at_parent in
          record {
            at_parent = ap epoch_row eg ∙ ap some (sym same);
            later = rw same (leb_false-<ℤ e.epoch g.current_epoch behind);
            no_fork = no_fork;
            advanced =
                ap (λ d. epoch_of d e.group_id) after
                ∙ ap epoch_row (epoch_moves e.group_id e.epoch db.groups g eg);
            logged = ap (λ d. d.mls_log) after;
            others = λ gid n.
                ap (λ d. select (is_group gid) d.groups) after
                ∙ select-update_disjoint (is_group gid) (is_group e.group_id) _ db.groups
                    (λ g p. ground arith) (λ g p. ground arith);
          }
    ]

-- Every epoch of a group has at most one commit.
abbrev pub IsForkFree : Groups → Type 0
IsForkFree db = (gid : String) (epoch : ℤ) → count_where (is_commit_at gid epoch) db.mls_log ≤ 1

-- No accepted commit makes a fork: if every epoch of every group had at most one commit before,
-- so it is after.
pub append_group_commit-IsForkFree :
    (now : ℕ) (db db' : Groups) (e : LogEntry) (parent : ℤ) (seq : ℕ)
    → append_group_commit now db e parent ≡ ok (db', seq)
    → IsForkFree db
    → IsForkFree db'
append_group_commit-IsForkFree now db db' e parent seq h free gid epoch =
    let c = append_group_commit-Commits now db db' e parent seq h in
    rw c.logged (
      count_where-insert_key (is_commit_at gid epoch) (is_commit_at e.group_id e.epoch)
        (record e { seq = seq; created_at = now }) db.mls_log c.no_fork
        (λ a y b.
          ground (arith, int_eq_path e.epoch epoch, int_eq_path y.epoch epoch, int_eq_refl e.epoch))
        (free gid epoch))

-- Two commits that race on one parent epoch: once the first is accepted, any other on the same
-- group and parent is refused, as a fork or as built on an epoch that is past.
pub append_group_commit_race :
    (now later : ℕ) (db db' : Groups) (e e' : LogEntry) (parent : ℤ) (seq : ℕ)
    → append_group_commit now db e parent ≡ ok (db', seq)
    → e'.group_id ≡ e.group_id
    → (append_group_commit later db' e' parent ≡ err duplicate_commit_epoch)
      ⊎ (append_group_commit later db' e' parent ≡ err epoch_parent_mismatch)
unfolding append_group_commit
append_group_commit_race now later db db' e e' parent seq h same =
    let c = append_group_commit-Commits now db db' e parent seq h in
    let at_new : epoch_of db' e'.group_id ≡ some e.epoch = ap (epoch_of db') same ∙ c.advanced in
    let moved : int_eq parent e.epoch ≡ false = int_eq_ne parent e.epoch c.later in
    elim (Option-cases (first (is_group e'.group_id) db'.groups)) [
      | inl missing ↦ absurd (ground (arith, ap epoch_row missing))
      | inr (g, eg) ↦
          let there : g.current_epoch ≡ e.epoch = ground (arith, ap epoch_row eg) in
          let past : int_eq parent g.current_epoch ≡ false = rw there moved in
          elim (Bool-cases (any_where (is_commit_at e'.group_id e'.epoch) db'.mls_log)) [
            | inl fork ↦ inl (ground arith)
            | inr free ↦ inr (ground arith)
          ]
    ]

-- A commit that a client names "welcome" advances the epoch, and yet no member can list it: for
-- every starting epoch the list of commits is as it was before.
pub append_group_commit_hidden :
    (now : ℕ) (db db' : Groups) (e : LogEntry) (parent : ℤ) (seq : ℕ)
    → append_group_commit now db e parent ≡ ok (db', seq)
    → e.kind ≡ "welcome"
    → (epoch_of db' e.group_id ≡ some e.epoch)
      × ((gid : String) (since : ℤ)
          → list_mls_log_since db' gid since ≡ list_mls_log_since db gid since)
unfolding list_mls_log_since
append_group_commit_hidden now db db' e parent seq h kind =
    let c = append_group_commit-Commits now db db' e parent seq h in
    (
      c.advanced,
      λ gid since.
          let row : LogEntry = record e { seq = seq; created_at = now } in
          let listed : LogEntry → Bool = λ r. is_commit gid r && int_ltb since r.epoch in
          let unlisted : select listed db.mls_log ++ select listed (row ∷ [])
              ≡ select listed db.mls_log =
            ground (arith, kind, append-nil (select listed db.mls_log)) in
          ap (sort_by by_epoch_seq)
            (ap (select listed) c.logged ∙ select-append listed db.mls_log (row ∷ []) ∙ unlisted),
    )
