-- ===== src/Groups/Passes.antt =====
-- The two passes of ReclaimGroupMessages (store/group.go) over one table of messages.
use etemsg_server.Base.{
  ℕ, ◌+◌, ◌-◌, ◌≤◌, ◌<◌, String, Bool, ◌&&◌, ◌≡◌, ◌≢◌, refl, Option, none, some, List, [], ◌∷◌, ok,
  arith, Bool-cases, inl, inr, ltb, leb, length,
}
use etemsg_server.Base.Table.{select, delete, count_where, sort_by}
use etemsg_server.Base.Table.Rows.{select-delete_disjoint}
use etemsg_server.Base.Table.Counts.{length-select}
use etemsg_server.Base.Table.Sorting.{
  count_where-sort_by, count_where-select, length-sort_by, sort_by-IsSorted, count_up_to,
  get_elem?-of_lt,
}
use etemsg_server.Groups.State.{GroupMessage, group_queue_max_messages}
use etemsg_server.Groups.Messages.{
  in_queue, by_seq, Pass, up_to, delete_up_to, no_pass, cursor_pass, seq_at, cap_pass,
}

-- The messages of a group after a position.
abbrev pub is_after : String → ℕ → GroupMessage → Bool
is_after gid n m = in_queue gid m && ltb n m.seq

-- What a pass leaves alone, and what it counts.
pub record Spares (gid : String) (messages : List GroupMessage) (floor : ℕ) (p : Pass)
    : Type 0 where
  pub others :
      (other : String)
      → gid ≢ other
      → select (in_queue other) p.kept ≡ select (in_queue other) messages
  pub above :
      (n : ℕ) → p.floor ≤ n → select (is_after gid n) p.kept ≡ select (is_after gid n) messages
  pub raised : floor ≤ p.floor
  pub counted : count_where (in_queue gid) p.kept + p.deleted ≡ count_where (in_queue gid) messages

count_where-delete-up_to :
    (gid : String) (cutoff : ℕ) (messages : List GroupMessage)
    → count_where (in_queue gid) (delete (up_to gid cutoff) messages)
        + count_where (up_to gid cutoff) messages
      ≡ count_where (in_queue gid) messages
count_where-delete-up_to gid cutoff [] = refl
count_where-delete-up_to gid cutoff (m ∷ ms) =
    ground (arith, count_where-delete-up_to gid cutoff ms)

delete_up_to-Spares :
    (gid : String) (cutoff : ℕ) (messages : List GroupMessage) (floor : ℕ)
    → Spares gid messages floor (delete_up_to gid cutoff messages floor)
unfolding delete_up_to
delete_up_to-Spares gid cutoff messages floor = record {
  others = λ other n.
      select-delete_disjoint (in_queue other) (up_to gid cutoff) messages (λ m e. ground arith);
  above = λ n h.
      select-delete_disjoint (is_after gid n) (up_to gid cutoff) messages
        (λ m e. ground (arith, h));
  raised = ground arith;
  counted = count_where-delete-up_to gid cutoff messages;
}

no_pass-Spares :
    (gid : String) (messages : List GroupMessage) (floor : ℕ)
    → Spares gid messages floor (no_pass messages floor)
no_pass-Spares gid messages floor = record {
  others = λ other n. refl;
  above = λ n h. refl;
  raised = omega arith;
  counted = omega arith;
}

pub cursor_pass-Spares :
    (gid : String) (safe : Option ℕ) (messages : List GroupMessage) (floor : ℕ)
    → Spares gid messages floor (cursor_pass gid safe messages floor)
unfolding cursor_pass
cursor_pass-Spares gid none messages floor = no_pass-Spares gid messages floor
cursor_pass-Spares gid (some safe) messages floor = elim (Bool-cases (ltb 0 safe)) [
  | inl e ↦ rw e (delete_up_to-Spares gid safe messages floor)
  | inr e ↦ rw e (no_pass-Spares gid messages floor)
]

-- The row at an offset inside the queue, with how many rows a delete up to it takes away.
pub seq_at-of_lt :
    (gid : String) (offset : ℕ) (messages : List GroupMessage)
    → offset < count_where (in_queue gid) messages
    → (cutoff : ℕ) × (seq_at gid offset messages ≡ some cutoff)
      × (offset < count_where (up_to gid cutoff) messages)
unfolding seq_at
seq_at-of_lt gid offset messages h =
    let queue = select (in_queue gid) messages in
    let sorted = sort_by by_seq queue in
    let long : offset < length sorted =
      omega (arith, length-sort_by by_seq queue, length-select (in_queue gid) messages) in
    let (m, e) = get_elem?-of_lt sorted offset long in
    let upto : GroupMessage → Bool = λ n. leb n.seq m.seq in
    let many = count_up_to (λ n. n.seq) sorted offset (sort_by-IsSorted (λ n. n.seq) queue) e in
    (
      m.seq,
      rw (seq_at, e),
      omega (
        arith,
        many,
        count_where-sort_by upto by_seq queue,
        count_where-select upto (in_queue gid) messages,
      ),
    )

-- The cap pass always finds its cutoff, and leaves no more than the cap.
pub cap_pass-Spares :
    (gid : String) (messages : List GroupMessage) (floor : ℕ)
    → (p : Pass) × (cap_pass gid messages floor ≡ ok p)
      × Spares gid messages floor p
      × (count_where (in_queue gid) p.kept ≤ group_queue_max_messages)
unfolding cap_pass
cap_pass-Spares gid messages floor =
    elim (Bool-cases (ltb group_queue_max_messages (count_where (in_queue gid) messages))) [
      | inr small ↦
          (no_pass messages floor, rw small, no_pass-Spares gid messages floor, ground arith)
      | inl large ↦
          let over : group_queue_max_messages < count_where (in_queue gid) messages =
            ground arith in
          let offset = count_where (in_queue gid) messages - group_queue_max_messages - 1 in
          let (cutoff, e, many) = seq_at-of_lt gid offset messages (ground arith) in
          let p = delete_up_to gid cutoff messages floor in
          let spares = delete_up_to-Spares gid cutoff messages floor in
          (p, rw (large, e), spares, omega (arith, spares.counted, many, over))
    ]

-- With few enough messages the cap pass does nothing.
pub cap_pass_small :
    (gid : String) (messages : List GroupMessage) (floor : ℕ)
    → count_where (in_queue gid) messages ≤ group_queue_max_messages
    → cap_pass gid messages floor ≡ ok (no_pass messages floor)
unfolding cap_pass
cap_pass_small gid messages floor h =
    elim (Bool-cases (ltb group_queue_max_messages (count_where (in_queue gid) messages))) [
      | inl large ↦ absurd (ground arith)
      | inr small ↦ rw small
    ]
