-- ===== src/Session/Delivery.antt =====
-- What the calls of session/session.go do for their callers: stale connections, delivery in order,
-- and whole histories of calls.
use etemsg_server.Base.{
  ℕ, ◌+◌, ◌^◌, ◌≤◌, ◌<◌, String, true, false, some, List, [], ◌∷◌, ◌++◌, ◌≡◌, refl, arith, Result,
  ok, err, ◌>>=◌, length, get_elem?, set, ltb, ◌≢◌, if◌then◌else◌, inl, inr, Bool-cases,
  get_elem?-set_self, get_elem?-set_ne, get_elem?-lt_length,
}
use etemsg_server.Base.Map.{lookup}
use etemsg_server.Session.Steps.{
  Panic, Channel, UserState, Manager, queue_buffer_size, new_manager, try_send, set_online,
  set_offline, is_online, enqueue_message,
}
use etemsg_server.Session.Invariant.{IsValid, new_manager-IsValid}
use etemsg_server.Session.Connecting.{
  set_online-IsValid, set_offline-IsValid, set_offline_own, set_offline_other,
}
use etemsg_server.Session.Queueing.{
  enqueue_message-IsValid, after_receive, after_receive-IsValid, sequence-after_receive,
}

-- What connections, senders and writers ask of the manager, in the order in which the lock or the
-- channel serves them.
pub data Call (A : Type 0) : Type 0 where
  connect : String → Call A
  disconnect : String → ℕ → Call A
  send : String → A → Call A
  writer : ℕ → Call A

module _ {A : Type 0} where
  unfoldable pub step : Manager A → Call A → Result Panic (Manager A)
  step m (connect user) = do (m', ch, gen) ← set_online user m; ok m'
  step m (disconnect user gen) = do (m', gone) ← set_offline user gen m; ok m'
  step m (send user msg) = do (m', sent) ← enqueue_message user msg m; ok m'
  step m (writer ch) = ok (after_receive ch m)

  unfoldable pub run : Manager A → List (Call A) → Result Panic (Manager A)
  run m [] = ok m
  run m (c ∷ cs) = elim (step m c) [ ok m' ↦ run m' cs | err p ↦ err p ]

  step-IsValid :
      (m : Manager A) (c : Call A)
      → IsValid m
      → m.sequence + 1 < 2 ^ 64
      → (m' : Manager A) × (step m c ≡ ok m') × (m'.sequence ≤ m.sequence + 1) × IsValid m'
  unfolding step
  step-IsValid m (connect user) v h =
      let (m', ch, e, at_user, s, v') = set_online-IsValid user m v h in
      (m', rw (e, step), omega arith, v')
  step-IsValid m (disconnect user gen) v h =
      let (m', gone, e, s, v') = set_offline-IsValid user gen m v in
      (m', rw (e, step), omega arith, v')
  step-IsValid m (send user msg) v h =
      let (m', sent, e, s, v') = enqueue_message-IsValid user msg m v in
      (m', rw (e, step), omega arith, v')
  step-IsValid m (writer ch) v h = (
    after_receive ch m,
    refl,
    omega (arith, sequence-after_receive ch m),
    after_receive-IsValid ch m v,
  )

  run-IsValid :
      (m : Manager A) (cs : List (Call A))
      → IsValid m
      → m.sequence + length cs < 2 ^ 64
      → (m' : Manager A) × (run m cs ≡ ok m') × IsValid m'
  unfolding run
  run-IsValid m [] v h = (m, refl, v)
  run-IsValid m (c ∷ cs) v h =
      let (m₁, e, s, v₁) = step-IsValid m c v (omega arith) in
      let (m', f, v') = run-IsValid m₁ cs v₁ (omega arith) in (m', rw (e, run) f, v')

  -- From an empty manager, fewer than 2 ^ 64 calls in any order never panic (no channel is closed
  -- twice, and none is sent on after its close), and they end in a valid manager: every online
  -- user has an open channel of their own and no queue is longer than 256.
  pub run-never_panics :
      (cs : List (Call A))
      → length cs < 2 ^ 64
      → (m : Manager A) × (run new_manager cs ≡ ok m) × IsValid m
  unfolding new_manager
  run-never_panics cs h = run-IsValid new_manager cs new_manager-IsValid (omega arith)

  -- After a user has reconnected, the cleanup of any earlier connection, with whatever generation
  -- was handed out before, reports `false` and changes nothing; the cleanup of the new one
  -- reports `true` and takes the user offline.
  pub set_offline-set_online :
      (user : String) (stale : ℕ) (m : Manager A)
      → IsValid m
      → m.sequence + 1 < 2 ^ 64
      → stale ≤ m.sequence
      → (m' : Manager A) × (ch : ℕ) × (generation : ℕ) × (set_online user m
          ≡ ok (m', ch, generation))
        × (is_online user m' ≡ true)
        × (set_offline user stale m' ≡ ok (m', false))
        × ((m'' : Manager A) × (set_offline user generation m' ≡ ok (m'', true))
            × (is_online user m'' ≡ false))
  unfolding is_online
  set_offline-set_online user stale m v h old =
      let (m', ch, e, at_user, s, v') = set_online-IsValid user m v h in
      let (m'', own, gone) = set_offline_own user _ m' v' at_user in
      (
        m',
        ch,
        m.sequence + 1,
        e,
        rw (at_user, is_online),
        set_offline_other user stale _ m' at_user (ground arith),
        (m'', own, rw (gone, is_online)),
      )

  -- A message to an online user is accepted exactly when their queue holds fewer than 256: then it
  -- stands at the end of the queue, else the queue is as it was. No other queue changes, and
  -- nobody goes on- or offline.
  pub enqueue_message_delivers :
      (user : String) (msg : A) (u : UserState) (m : Manager A)
      → IsValid m
      → lookup user m.users ≡ some u
      → (c : Channel A) × (m' : Manager A) × (get_elem? m.channels u.ch ≡ some c)
        × (enqueue_message user msg m ≡ ok (m', ltb (length c.buffer) queue_buffer_size))
        × (get_elem? m'.channels u.ch
            ≡ some (record c {
              buffer =
                  if ltb (length c.buffer) queue_buffer_size
                  then c.buffer ++ msg ∷ []
                  else c.buffer;
            }))
        × ((ch : ℕ) → u.ch ≢ ch → get_elem? m'.channels ch ≡ get_elem? m.channels ch)
        × (m'.users ≡ m.users)
  unfolding enqueue_message try_send
  enqueue_message_delivers user msg u m v e =
      let (c, at_ch, is_open) = v.opened user u e in
      let added : Channel A = record c { buffer = c.buffer ++ msg ∷ [] } in
      elim (Bool-cases (ltb (length c.buffer) queue_buffer_size)) [
        | inl room ↦ (
          c,
          record m { channels = set m.channels u.ch added },
          at_ch,
          rw (e, enqueue_message) (rw (at_ch, try_send) (rw (is_open, room))),
          rw room (
              get_elem?-set_self m.channels u.ch added (get_elem?-lt_length m.channels u.ch at_ch)),
          λ ch n. get_elem?-set_ne m.channels u.ch ch added n,
          refl,
        )
        | inr full ↦ (
          c,
          m,
          at_ch,
          rw (e, enqueue_message) (rw (at_ch, try_send) (rw (is_open, full))),
          rw full at_ch,
          λ ch n. refl,
          refl,
        )
      ]
