-- ===== src/Session/Queueing.antt =====
-- EnqueueMessage of session/session.go and the receive of a writer: neither panics, and both keep the
-- invariant.
use etemsg_server.Base.{
  ℕ, ◌≤◌, String, Bool, true, false, none, some, List, [], ◌∷◌, ◌++◌, ok, length, get_elem?, set,
  ltb, ◌≡◌, refl, ap, arith, Option-cases, Bool-cases, inl, inr, length-append, get_elem?-set_self,
  get_elem?-lt_length, ℕ_discrete,
}
use etemsg_server.Base.Map.{lookup}
use etemsg_server.Session.Steps.{
  Channel, Manager, queue_buffer_size, try_send, enqueue_message, receive,
}
use etemsg_server.Session.Invariant.{IsValid, IsOpen-set_ne, IsBounded-set}

module _ {A : Type 0} where
  -- Replacing an open channel by an open one within its size keeps the manager valid.
  set-IsValid :
      (ch : ℕ) (c c' : Channel A) (m : Manager A)
      → IsValid m
      → get_elem? m.channels ch ≡ some c
      → c'.closed ≡ c.closed
      → length c'.buffer ≤ queue_buffer_size
      → IsValid (record m { channels = set m.channels ch c' })
  set-IsValid ch c c' m v e closed room = record {
    opened = λ a u f. elim (ℕ_discrete ch u.ch) [
      | yes p ↦
          let (d, at_d, open_d) = v.opened a u f in
          (
            c',
            rw (← p) (get_elem?-set_self m.channels ch c' (get_elem?-lt_length m.channels ch e)),
            cc (p, e, at_d, open_d, closed),
          )
      | no n ↦ IsOpen-set_ne m.channels ch u.ch c' n (v.opened a u f)
    ];
    unshared = v.unshared;
    issued = v.issued;
    bounded = IsBounded-set m.channels ch c' room v.bounded;
  }

  -- `EnqueueMessage` never sends on a closed channel.
  pub enqueue_message-IsValid :
      (user : String) (msg : A) (m : Manager A)
      → IsValid m
      → (m' : Manager A) × (sent : Bool) × (enqueue_message user msg m ≡ ok (m', sent))
        × (m'.sequence ≡ m.sequence)
        × IsValid m'
  unfolding enqueue_message try_send
  enqueue_message-IsValid user msg m v = elim (Option-cases (lookup user m.users)) [
    | inl e ↦ (m, false, rw (e, enqueue_message), refl, v)
    | inr (u, e) ↦
        let (c, at_ch, is_open) = v.opened user u e in
        elim (Bool-cases (ltb (length c.buffer) queue_buffer_size)) [
          | inl room ↦ (
            record m {
              channels = set m.channels u.ch (record c { buffer = c.buffer ++ msg ∷ [] });
            },
            true,
            rw (e, enqueue_message) (rw (at_ch, try_send) (rw (is_open, room))),
            refl,
            set-IsValid u.ch c _ m v at_ch refl (ground (arith, length-append c.buffer (msg ∷ []))),
          )
          | inr full ↦ (
            m,
            false,
            rw (e, enqueue_message) (rw (at_ch, try_send) (rw (is_open, full))),
            refl,
            v,
          )
        ]
  ]

  -- The manager after a writer tried to receive.
  unfoldable pub after_receive : ℕ → Manager A → Manager A
  unfolding receive
  after_receive ch m = elim (receive ch m) [ none ↦ m | some (m', msg) ↦ m' ]

  receive_from-IsValid :
      (ch : ℕ) (m : Manager A) (c : Channel A) (buffer : List A)
      → IsValid m
      → get_elem? m.channels ch ≡ some c
      → c.buffer ≡ buffer
      → IsValid (after_receive ch m)
  unfolding after_receive
  receive_from-IsValid ch m c [] v e b = rw (e, after_receive) (rw (b, after_receive) v)
  receive_from-IsValid ch m c (msg ∷ rest) v e b =
      rw (e, after_receive)
        (rw (b, after_receive)
          (set-IsValid ch c (record c { buffer = rest }) m v e refl
            (omega (arith, v.bounded ch c e, ap length b))))

  -- A receive takes the oldest message of a channel, and keeps the manager valid.
  pub after_receive-IsValid : (ch : ℕ) (m : Manager A) → IsValid m → IsValid (after_receive ch m)
  unfolding after_receive
  after_receive-IsValid ch m v = elim (Option-cases (get_elem? m.channels ch)) [
    | inl e ↦ rw (e, after_receive) v
    | inr (c, e) ↦ receive_from-IsValid ch m c c.buffer v e refl
  ]

  pub sequence-after_receive : (ch : ℕ) (m : Manager A) → (after_receive ch m).sequence ≡ m.sequence
  unfolding after_receive
  sequence-after_receive ch m = ground arith
