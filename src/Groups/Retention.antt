-- ===== src/Groups/Retention.antt =====
-- ReclaimGroupMessages (store/group.go): what the retention pass deletes, and what it must keep.
use etemsg_server.Base.{
  ℕ, ◌+◌, ◌≤◌, String, Bool, true, ◌&&◌, ◌≡◌, ◌≢◌, ◌⊎◌, refl, ◌∙◌, ap, Option, none, some, List, [],
  ◌∷◌, ok, arith, Bool-cases, Option-cases, inl, inr, ltb, ◌=ℕ◌,
}
use etemsg_server.Base.Table.{select, count_where, any_where, first, min_where, smaller}
use etemsg_server.Base.Table.Rows.{first-update, first_found, select-delete_disjoint}
use etemsg_server.Groups.State.{
  Group, GroupMember, GroupMessage, Groups, is_group, in_group, group_queue_max_messages,
}
use etemsg_server.Groups.Messages.{
  in_queue, Pass, ReclaimResult, safe_seq, cursor_pass, cap_pass, raise_floor, get_group_cursor,
  reclaim_group_messages, delete_up_to, up_to,
}
use etemsg_server.Groups.Passes.{
  Spares, is_after, cursor_pass-Spares, cap_pass-Spares, cap_pass_small,
}

-- What a pass over the queue of a group promises, from the row `g` of the group.
pub record Reclaims (db : Groups) (gid : String) (g : Group) (db' : Groups) (r : ReclaimResult)
    : Type 0 where
  -- the messages of other groups, and what is above the new floor, stay
  pub others :
      (other : String)
      → gid ≢ other
      → select (in_queue other) db'.messages ≡ select (in_queue other) db.messages
  pub above :
      (n : ℕ)
      → r.min_seq ≤ n
      → select (is_after gid n) db'.messages ≡ select (is_after gid n) db.messages
  -- the floor never sinks, and the group's row has it
  pub raised : g.min_seq ≤ r.min_seq
  pub stored : first (is_group gid) db'.groups ≡ some (record g { min_seq = r.min_seq })
  -- the counters are right, and the cap holds
  pub counted :
      count_where (in_queue gid) db'.messages + r.deleted_by_cursor + r.deleted_by_cap
      ≡ count_where (in_queue gid) db.messages
  pub capped : count_where (in_queue gid) db'.messages ≤ group_queue_max_messages
  pub members : db'.members ≡ db.members
  pub cursors : db'.cursors ≡ db.cursors

first-raise_floor :
    (gid : String) (floor : ℕ) (groups : List Group) (g : Group)
    → first (is_group gid) groups ≡ some g
    → g.min_seq ≤ floor
    → first (is_group gid) (raise_floor gid floor groups) ≡ some (record g { min_seq = floor })
first-raise_floor gid floor groups g e h = ground (
  arith,
  first-update (is_group gid) (λ g. is_group gid g && ltb g.min_seq floor)
      (λ g. record g { min_seq = floor }) groups {x = g} (λ g. refl),
  first_found (is_group gid) groups {x = g},
)

-- Acknowledged messages up to `safe`, then the oldest over the cap.
pub reclaim_runs :
    (db : Groups) (gid : String) (g : Group)
    → first (is_group gid) db.groups ≡ some g
    → (capped : Pass) × (let acked = cursor_pass gid (safe_seq db gid) db.messages g.min_seq in
        (cap_pass gid acked.kept acked.floor ≡ ok capped)
        × Spares gid acked.kept acked.floor capped
        × (count_where (in_queue gid) capped.kept ≤ group_queue_max_messages)
        × (reclaim_group_messages db gid
            ≡ ok (
              record db { messages = capped.kept; groups = raise_floor gid capped.floor db.groups },
              record {
                deleted_by_cursor = acked.deleted;
                deleted_by_cap = capped.deleted;
                min_seq = capped.floor;
              },
            )))
unfolding reclaim_group_messages
reclaim_runs db gid g e =
    let acked = cursor_pass gid (safe_seq db gid) db.messages g.min_seq in
    let (capped, f, spares, few) = cap_pass-Spares gid acked.kept acked.floor in
    (capped, (f, spares, few, rw (reclaim_group_messages, e, f)))

-- A retention pass succeeds for every group that there is. It takes no message of another group
-- and none above the new floor, raises the floor of the group's row or leaves it, counts what it
-- deleted, and leaves at most 10000 messages.
pub reclaim_group_messages-Reclaims :
    (db : Groups) (gid : String) (g : Group)
    → first (is_group gid) db.groups ≡ some g
    → (db' : Groups) × (r : ReclaimResult) × (reclaim_group_messages db gid ≡ ok (db', r))
      × Reclaims db gid g db' r
reclaim_group_messages-Reclaims db gid g e =
    let acked = cursor_pass gid (safe_seq db gid) db.messages g.min_seq in
    let before = cursor_pass-Spares gid (safe_seq db gid) db.messages g.min_seq in
    let (capped, (f, after, few, runs)) = reclaim_runs db gid g e in
    (
      record db { messages = capped.kept; groups = raise_floor gid capped.floor db.groups },
      record {
        deleted_by_cursor = acked.deleted;
        deleted_by_cap = capped.deleted;
        min_seq = capped.floor;
      },
      runs,
      record {
        others = λ other n. after.others other n ∙ before.others other n;
        above = λ n h. after.above n h ∙ before.above n (omega (arith, after.raised));
        raised = omega (arith, before.raised, after.raised);
        stored =
            first-raise_floor gid capped.floor db.groups g e
              (omega (arith, before.raised, after.raised));
        counted = omega (arith, before.counted, after.counted);
        capped = few;
        members = refl;
        cursors = refl;
      },
    )

minimum_with :
    (k n : ℕ) (o : Option ℕ)
    → (k ≤ n) ⊎ ((s : ℕ) × (o ≡ some s) × (s ≤ n))
    → (s : ℕ) × (smaller k o ≡ some s) × (s ≤ n)
minimum_with k n none (inl h) = (k, refl, h)
minimum_with k n none (inr (s, e, h)) = cc
minimum_with k n (some m) (inl h) = (Prim.Native.Nat.min k m, refl, omega arith)
minimum_with k n (some m) (inr (s, e, h)) = (Prim.Native.Nat.min k m, refl, ground arith)

-- No row's key is below the minimum.
minimum_below :
    (p : GroupMember → Bool) (key : GroupMember → ℕ) (n : ℕ) (ms : List GroupMember)
    → any_where (λ m. p m && key m =ℕ n) ms ≡ true
    → (s : ℕ) × (min_where p key ms ≡ some s) × (s ≤ n)
minimum_below p key n [] h = cc
minimum_below p key n (m ∷ ms) h = elim (Bool-cases (p m)) [
  | inr miss ↦ let (s, e, le) = minimum_below p key n ms (ground arith) in (s, rw miss e, le)
  | inl hit ↦ elim (Bool-cases (key m =ℕ n)) [
    | inl here ↦
        let (s, e, le) = minimum_with (key m) n (min_where p key ms) (inl (ground arith)) in
        (s, rw hit e, le)
    | inr later ↦
        let (s, e, le) =
          minimum_with (key m) n (min_where p key ms)
            (inr (minimum_below p key n ms (ground arith))) in
        (s, rw hit e, le)
  ]
]

cursor_pass_after :
    (gid : String) (safe n : ℕ) (messages : List GroupMessage) (floor : ℕ)
    → safe ≤ n
    → select (is_after gid n) (cursor_pass gid (some safe) messages floor).kept
      ≡ select (is_after gid n) messages
unfolding cursor_pass delete_up_to
cursor_pass_after gid safe n messages floor h = elim (Bool-cases (ltb 0 safe)) [
  | inl e ↦
      rw e (select-delete_disjoint (is_after gid n) (up_to gid safe) messages (λ m a. ground arith))
  | inr e ↦ rw e refl
]

-- Within the cap, the messages that stay are those of the cursor pass.
pub kept_within_cap :
    (db db' : Groups) (gid : String) (g : Group) {r : ReclaimResult}
    → first (is_group gid) db.groups ≡ some g
    → count_where (in_queue gid) db.messages ≤ group_queue_max_messages
    → reclaim_group_messages db gid ≡ ok (db', r)
    → db'.messages ≡ (cursor_pass gid (safe_seq db gid) db.messages g.min_seq).kept
unfolding reclaim_group_messages
kept_within_cap db db' gid g e few h =
    let acked = cursor_pass gid (safe_seq db gid) db.messages g.min_seq in
    let before = cursor_pass-Spares gid (safe_seq db gid) db.messages g.min_seq in
    let small = cap_pass_small gid acked.kept acked.floor (omega (arith, before.counted, few)) in
    ground arith

-- While the queue is within its cap, a pass keeps every message that some member has not yet
-- acknowledged: all of the group's that are above the lowest cursor of a member.
pub reclaim_group_messages_keeps_unread :
    (db db' : Groups) (gid : String) {r : ReclaimResult} (n : ℕ)
    → reclaim_group_messages db gid ≡ ok (db', r)
    → count_where (in_queue gid) db.messages ≤ group_queue_max_messages
    → any_where (λ m. in_group gid m && get_group_cursor db m.user_id gid =ℕ n) db.members ≡ true
    → select (is_after gid n) db'.messages ≡ select (is_after gid n) db.messages
unfolding safe_seq
reclaim_group_messages_keeps_unread db db' gid {r} n h few unread =
    elim (Option-cases (first (is_group gid) db.groups)) [
      | inl missing ↦ absurd (unfold reclaim_group_messages in ground arith)
      | inr (g, e) ↦
          let (s, f, le) =
            minimum_below (in_group gid) (λ m. get_group_cursor db m.user_id gid) n db.members
              unread in
          ap (select (is_after gid n)) (kept_within_cap db db' gid g e few h)
          ∙ ap (λ safe. select (is_after gid n) (cursor_pass gid safe db.messages g.min_seq).kept) f
          ∙ cursor_pass_after gid s n db.messages g.min_seq le
    ]
