-- ===== src/Handlers/Statements.antt =====
-- The statements that the handlers of http_groups.go run keep the keys of the group tables.
use etemsg_server.Base.{
  ℕ, ℤ, String, Bool, false, [], ◌∷◌, ok, ◌≡◌, refl, arith, Option-cases, inl, inr,
}
use etemsg_server.Base.Table.{first, insert}
use etemsg_server.Base.Table.Counts.{count_where-append}
use etemsg_server.Groups.State.{
  JoinStatus, Group, KeyPackage, JoinRequest, LogEntry, GroupMessage, OwnerTransfer, Groups,
  is_member, is_pending,
}
use etemsg_server.Groups.Roster.{
  create_group, dissolve_group, remove_group_member, clear_pending_removals,
}
use etemsg_server.Groups.Ownership.{
  LeaveResult, leave_group, leave_as_owner, finish_leave, create_owner_transfer,
  decide_owner_transfer, accept_transfer, decline_transfer, newest_transfer,
}
use etemsg_server.Groups.Joining.{create_key_package, create_join_request, decide_join_request}
use etemsg_server.Groups.Log.{append_group_commit, append_welcome, is_commit_at, welcome_member}
use etemsg_server.Groups.Messages.{append_group_message, upsert_group_cursor}
use etemsg_server.Groups.Epochs.{IsForkFree, append_group_commit-IsForkFree}
use etemsg_server.Groups.Sequence as Sequence
use etemsg_server.Groups.Requests as Requests
use etemsg_server.Handlers.Server.{no_value}
use etemsg_server.Handlers.Joining.{status_of}
use etemsg_server.Handlers.Done.{no_value_done}
use etemsg_server.Handlers.Keeping.{IsStore}

-- No epoch has two commits, messages have one number and one id each, and requests one id each and
-- one open request per applicant.
pub record IsConsistent (db : Groups) : Type 0 where
  pub commits : IsForkFree db
  pub messages : Sequence.IsKeyed db
  pub requests : Requests.IsKeyed db

-- The rows that these keys are about.
abbrev IsUntouched : Groups → Groups → Type 0
IsUntouched db db' =
    (db'.mls_log ≡ db.mls_log)
    × (db'.messages ≡ db.messages)
    × (db'.join_requests ≡ db.join_requests)

untouched-IsConsistent : (db db' : Groups) → IsUntouched db db' → IsConsistent db → IsConsistent db'
untouched-IsConsistent db db' (log, messages, requests) c = record {
  commits = rw log c.commits;
  messages = record {
    by_number = rw messages c.messages.by_number;
    by_id = rw messages c.messages.by_id;
  };
  requests = record {
    by_id = rw requests c.requests.by_id;
    undecided = rw requests c.requests.undecided;
  };
}

pub create_group-IsStore :
    (now : ℕ) (g : Group) → IsStore IsConsistent (λ db. no_value (create_group now db g))
create_group-IsStore now g = record {
  at = λ db db' a h c.
      untouched-IsConsistent db db'
        (unfold create_group in (ground arith, ground arith, ground arith)) c;
}

pub dissolve_group-IsStore :
    (gid : String) → IsStore IsConsistent (λ db. ok (dissolve_group db gid, tt))
dissolve_group-IsStore gid = record {
  at = λ db db' a h c.
      untouched-IsConsistent db db'
        (unfold dissolve_group in (ground arith, ground arith, ground arith)) c;
}

pub create_key_package-IsStore :
    (now : ℕ) (kp : KeyPackage)
    → IsStore IsConsistent (λ db. no_value (create_key_package now db kp))
create_key_package-IsStore now kp = record {
  at = λ db db' a h c.
      untouched-IsConsistent db db'
        (unfold create_key_package in (ground arith, ground arith, ground arith)) c;
}

pub clear_pending_removals-IsStore :
    (gid : String) → IsStore IsConsistent (λ db. ok (clear_pending_removals db gid, tt))
clear_pending_removals-IsStore gid = record {
  at = λ db db' a h c.
      untouched-IsConsistent db db'
        (unfold clear_pending_removals in (ground arith, ground arith, ground arith)) c;
}

pub remove_group_member-IsStore :
    (gid user : String) → IsStore IsConsistent (λ db. ok (remove_group_member db gid user, tt))
remove_group_member-IsStore gid user = record {
  at = λ db db' a h c.
      untouched-IsConsistent db db'
        (unfold remove_group_member in (ground arith, ground arith, ground arith)) c;
}

pub upsert_group_cursor-IsStore :
    (now : ℕ) (user gid : String) (n : ℕ)
    → IsStore IsConsistent (λ db. no_value (upsert_group_cursor now db user gid n))
upsert_group_cursor-IsStore now user gid n = record {
  at = λ db db' a h c.
      untouched-IsConsistent db db'
        (unfold upsert_group_cursor in (ground arith, ground arith, ground arith)) c;
}

pub create_owner_transfer-IsStore :
    (now : ℕ) (gid prev designee : String)
    → IsStore IsConsistent (λ db. no_value (create_owner_transfer now db gid prev designee))
create_owner_transfer-IsStore now gid prev designee = record {
  at = λ db db' a h c.
      untouched-IsConsistent db db'
        (unfold create_owner_transfer in (ground arith, ground arith, ground arith)) c;
}

decide_owner_transfer-IsUntouched :
    (now : ℕ) (db db' : Groups) (gid user : String) (accept : Bool) (t : OwnerTransfer)
    → decide_owner_transfer now db gid user accept ≡ ok (db', t)
    → IsUntouched db db'
unfolding decide_owner_transfer accept_transfer decline_transfer dissolve_group
decide_owner_transfer-IsUntouched now db db' gid user accept t h =
    elim (Option-cases (newest_transfer db gid)) [
      | inl missing ↦ absurd (ground arith)
      | inr (s, e) ↦ (ground arith, ground arith, ground arith)
    ]

pub decide_owner_transfer-IsStore :
    (now : ℕ) (gid user : String) (accept : Bool)
    → IsStore IsConsistent (λ db. decide_owner_transfer now db gid user accept)
decide_owner_transfer-IsStore now gid user accept = record {
  at = λ db db' t h c.
      untouched-IsConsistent db db'
        (decide_owner_transfer-IsUntouched now db db' gid user accept t h) c;
}

leave_group-IsUntouched :
    (now : ℕ) (db db' : Groups) (gid user successor : String) (res : LeaveResult)
    → leave_group now db gid user successor ≡ ok (db', res)
    → IsUntouched db db'
unfolding leave_group leave_as_owner finish_leave dissolve_group remove_group_member
leave_group-IsUntouched now db db' gid user successor res h =
    elim (Option-cases (first (is_member gid user) db.members)) [
      | inl missing ↦ (ground arith, ground arith, ground arith)
      | inr (s, e) ↦ (ground arith, ground arith, ground arith)
    ]

pub leave_group-IsStore :
    (now : ℕ) (gid user successor : String)
    → IsStore IsConsistent (λ db. leave_group now db gid user successor)
leave_group-IsStore now gid user successor = record {
  at = λ db db' t h c.
      untouched-IsConsistent db db' (leave_group-IsUntouched now db db' gid user successor t h) c;
}

pub append_group_commit-IsStore :
    (now : ℕ) (e : LogEntry) (parent : ℤ)
    → IsStore IsConsistent (λ db. append_group_commit now db e parent)
append_group_commit-IsStore now e parent = record {
  at = λ db db' seq h c.
      let (messages, requests) : (db'.messages ≡ db.messages)
          × (db'.join_requests ≡ db.join_requests) =
        unfold append_group_commit in (ground arith, ground arith) in
      record {
        commits = append_group_commit-IsForkFree now db db' e parent seq h c.commits;
        messages = record {
          by_number = rw messages c.messages.by_number;
          by_id = rw messages c.messages.by_id;
        };
        requests = record {
          by_id = rw requests c.requests.by_id;
          undecided = rw requests c.requests.undecided;
        };
      };
}

welcomed :
    (now : ℕ) (db db' : Groups) (e : LogEntry) (seq : ℕ)
    → append_welcome now db e ≡ ok (db', seq)
    → (db'.mls_log ≡ insert (record e { seq = seq; kind = "welcome"; created_at = now }) db.mls_log)
      × (db'.messages ≡ db.messages)
      × (db'.join_requests ≡ db.join_requests)
unfolding append_welcome welcome_member
welcomed now db db' e seq h = (ground arith, ground arith, ground arith)

welcome_no_commit :
    (gid : String) (epoch : ℤ) (e : LogEntry)
    → e.kind ≡ "welcome"
    → is_commit_at gid epoch e ≡ false
welcome_no_commit gid epoch e h = ground arith

pub append_welcome-IsStore :
    (now : ℕ) (e : LogEntry) → IsStore IsConsistent (λ db. append_welcome now db e)
append_welcome-IsStore now e = record {
  at = λ db db' seq h c.
      let (log, messages, requests) = welcomed now db db' e seq h in
      let row : LogEntry = record e { seq = seq; kind = "welcome"; created_at = now } in
      record {
        commits = λ gid epoch. rw log (
            ground (
              arith,
              count_where-append (is_commit_at gid epoch) db.mls_log (row ∷ []),
              welcome_no_commit gid epoch row refl,
              c.commits gid epoch,
            ));
        messages = record {
          by_number = rw messages c.messages.by_number;
          by_id = rw messages c.messages.by_id;
        };
        requests = record {
          by_id = rw requests c.requests.by_id;
          undecided = rw requests c.requests.undecided;
        };
      };
}

pub append_group_message-IsStore :
    (now : ℕ) (m : GroupMessage) → IsStore IsConsistent (λ db. append_group_message now db m)
append_group_message-IsStore now m = record {
  at = λ db db' seq h c.
      let (log, requests) : (db'.mls_log ≡ db.mls_log) × (db'.join_requests ≡ db.join_requests) =
        unfold append_group_message in (ground arith, ground arith) in
      record {
        commits = rw log c.commits;
        messages = Sequence.append_group_message-IsKeyed now db db' m seq h c.messages;
        requests = record {
          by_id = rw requests c.requests.by_id;
          undecided = rw requests c.requests.undecided;
        };
      };
}

-- The tables of Commits and of messages are as they were.
kept_logs :
    (db db' : Groups)
    → db'.mls_log ≡ db.mls_log
    → db'.messages ≡ db.messages
    → IsConsistent db
    → Requests.IsKeyed db'
    → IsConsistent db'
kept_logs db db' log messages c keyed = record {
  commits = rw log c.commits;
  messages = record {
    by_number = rw messages c.messages.by_number;
    by_id = rw messages c.messages.by_id;
  };
  requests = keyed;
}

pub create_join_request-IsStore :
    (now : ℕ) (r : JoinRequest)
    → IsStore IsConsistent (λ db. no_value (create_join_request now db r))
create_join_request-IsStore now r = record {
  at = λ db db' a h c.
      let made = no_value_done (create_join_request now db r) db' a h in
      kept_logs db db' (unfold create_join_request in ground arith)
        (unfold create_join_request in ground arith) c
        (Requests.create_join_request-IsKeyed now db db' r made c.requests).0;
}

status_of_final : (decision : String) → is_pending (status_of decision) ≡ false
status_of_final decision = ground arith

decided_logs :
    (now : ℕ) (db db' : Groups) (gid id user : String) (status : JoinStatus)
    → decide_join_request now db gid id status user ≡ ok db'
    → (db'.mls_log ≡ db.mls_log) × (db'.messages ≡ db.messages)
unfolding decide_join_request
decided_logs now db db' gid id user status h = (ground arith, ground arith)

pub decide_join_request-IsStore :
    (now : ℕ) (gid id decision user : String)
    → IsStore IsConsistent
        (λ db. no_value (decide_join_request now db gid id (status_of decision) user))
decide_join_request-IsStore now gid id decision user = record {
  at = λ db db' a h c.
      let made =
        no_value_done (decide_join_request now db gid id (status_of decision) user) db' a h in
      let (log, messages) = decided_logs now db db' gid id user (status_of decision) made in
      kept_logs db db' log messages c (
        Requests.decide_join_request-IsKeyed now db db' gid id user (status_of decision) made
          (status_of_final decision) c.requests);
}

pub ruleset statement_rules = (
  create_group-IsStore, dissolve_group-IsStore, create_key_package-IsStore,
  clear_pending_removals-IsStore, remove_group_member-IsStore, upsert_group_cursor-IsStore,
  create_owner_transfer-IsStore, decide_owner_transfer-IsStore, leave_group-IsStore,
  append_group_commit-IsStore, append_welcome-IsStore, append_group_message-IsStore,
  create_join_request-IsStore, decide_join_request-IsStore,
)
