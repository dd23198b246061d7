-- ===== src/Groups/Tests/Log.antt =====
-- Tests of the MLS log: commits and Welcomes on a group of two.
use etemsg_server.Base.{ℕ, true, false, pos, ◌≡◌, refl, [], ◌∷◌, ok, dec_text, ◌==◌, arith}
use etemsg_server.Base.Table.{any_where}
use etemsg_server.Groups.State.{LogEntry, Groups, Role, is_member}
use etemsg_server.Groups.Log.{append_group_commit, next_mls_seq, append_welcome, welcome_member}
use etemsg_server.Groups.Epochs.{
  Commits, IsForkFree, append_group_commit-Commits, append_group_commit-IsForkFree,
}
use etemsg_server.Groups.Welcomes.{IsRoster, welcome_row, append_welcome-IsRoster}
use etemsg_server.Groups.Tests.{team, seat, pair, entry}

abbrev pub row : LogEntry → ℕ → ℕ → LogEntry
row e seq now = record e { seq = seq; created_at = now }

-- The group after a commit to epoch 1 at time 9.
abbrev pub pair_at_1 : LogEntry → Groups
pair_at_1 e = record pair {
  groups = record team { current_epoch = pos 1 } ∷ [];
  mls_log = row e 1 9 ∷ [];
}

first_commit :
    append_group_commit 9 pair (entry "commit" "" 1) (pos 0)
    ≡ ok (pair_at_1 (entry "commit" "" 1), 1)
unfolding append_group_commit next_mls_seq dec_text
first_commit = refl

append_group_commit-Commits_example :
    Commits 9 pair (entry "commit" "" 1) (pos 0) (pair_at_1 (entry "commit" "" 1)) 1
append_group_commit-Commits_example =
    append_group_commit-Commits 9 pair (pair_at_1 (entry "commit" "" 1)) (entry "commit" "" 1)
      (pos 0) 1 first_commit

pair-IsForkFree : IsForkFree pair
pair-IsForkFree gid epoch = omega arith

append_group_commit-IsForkFree_example : IsForkFree (pair_at_1 (entry "commit" "" 1))
append_group_commit-IsForkFree_example =
    append_group_commit-IsForkFree 9 pair (pair_at_1 (entry "commit" "" 1)) (entry "commit" "" 1)
      (pos 0) 1 first_commit pair-IsForkFree

hidden_commit :
    append_group_commit 9 pair (entry "welcome" "" 1) (pos 0)
    ≡ ok (pair_at_1 (entry "welcome" "" 1), 1)
unfolding append_group_commit next_mls_seq dec_text
hidden_commit = refl

-- The group after Cat was welcomed.
abbrev trio : Groups
trio = record pair {
  members =
      seat "ann" Role.owner
      ∷ seat "bob" Role.member
      ∷ record (seat "cat" Role.member) { joined_at = 9 }
      ∷ [];
  mls_log = welcome_row 9 (entry "welcome" "cat" 0) 1 ∷ [];
}

welcome_cat : append_welcome 9 pair (entry "welcome" "cat" 0) ≡ ok (trio, 1)
unfolding append_welcome welcome_member next_mls_seq dec_text
welcome_cat = refl

ann_ne_bob : "ann" == "bob" ≡ false
unfolding dec_text
ann_ne_bob = refl

pair-IsRoster : IsRoster pair
pair-IsRoster = record {
  once = λ gid user. ground (arith, ann_ne_bob);
  limited = λ gid. ground arith;
}

append_welcome-IsRoster_example :
    IsRoster trio × (any_where (is_member "team" "cat") trio.members ≡ true)
append_welcome-IsRoster_example =
    append_welcome-IsRoster 9 pair trio (entry "welcome" "cat" 0) 1 welcome_cat pair-IsRoster
