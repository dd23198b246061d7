-- ===== src/Session/Connecting.antt =====
-- SetOnline and SetOffline of session/session.go: neither panics, and both keep the invariant.
use etemsg_server.Base.{
  ℕ, ◌+◌, ◌%◌, ◌^◌, ◌≤◌, ◌<◌, String, Bool, true, false, none, some, List, [], ◌∷◌, ◌++◌, ok,
  length, set, ◌≡◌, refl, sym, ap, arith, Option-cases, Bool-cases, inl, inr, ◌≢◌,
  get_elem?-append_new, get_elem?-append_cases, ◌=ℕ◌,
}
use etemsg_server.Base.Map.{
  lookup, put, erase, lookup-put_self, lookup-put_cases, lookup-erase_cases, lookup-erase_self,
}
use etemsg_server.Session.Steps.{
  Channel, UserState, Manager, close, close_old, set_online, set_offline,
}
use etemsg_server.Session.Invariant.{
  IsOpen, IsBounded, IsValid, IsOpen-set_ne, IsBounded-set, IsOpen-append, IsOpen-lt_length,
}

no_wrap : (n : ℕ) → n + 1 < 2 ^ 64 → (n + 1) % 2 ^ 64 ≡ n + 1
no_wrap n h = omega arith

module _ {A : Type 0} where
  -- Closing the channel of `user` leaves the invariant for everybody else.
  record IsValidBut (user : String) (m : Manager A) : Type 0 where
    opened :
        (a : String) (u : UserState) → a ≢ user → lookup a m.users ≡ some u → IsOpen m.channels u.ch
    unshared :
        (a b : String) (u v : UserState)
        → lookup a m.users ≡ some u
        → lookup b m.users ≡ some v
        → u.ch ≡ v.ch
        → a ≡ b
    issued : (a : String) (u : UserState) → lookup a m.users ≡ some u → u.generation ≤ m.sequence
    bounded : IsBounded m.channels

  close-IsValidBut :
      (user : String) (u : UserState) (m : Manager A)
      → IsValid m
      → lookup user m.users ≡ some u
      → (heap : List (Channel A)) × (close u.ch m.channels ≡ ok heap)
        × IsValidBut user (record m { channels = heap })
  unfolding close
  close-IsValidBut user u m v e =
      let (c, at_ch, is_open) = v.opened user u e in
      let closed_c : Channel A = record c { closed = true } in
      (
        set m.channels u.ch closed_c,
        rw (at_ch, close) (rw is_open),
        record {
          opened = λ a w n f.
              IsOpen-set_ne m.channels u.ch w.ch closed_c
                (λ p. n (sym (v.unshared user a u w e f p))) (v.opened a w f);
          unshared = v.unshared;
          issued = v.issued;
          bounded = IsBounded-set m.channels u.ch closed_c (v.bounded u.ch c at_ch) v.bounded;
        },
      )

  -- The entry of `user` may be dropped, or replaced by one with a new channel.
  erase-IsValid :
      (user : String) (m : Manager A)
      → IsValidBut user m
      → IsValid (record m { users = erase user m.users })
  erase-IsValid user m v = record {
    opened = λ a u e.
        let (n, f) = lookup-erase_cases user a m.users e in v.opened a u (λ p. n (sym p)) f;
    unshared = λ a b u w e f.
        v.unshared a b u w (lookup-erase_cases user a m.users e).1
          (lookup-erase_cases user b m.users f).1;
    issued = λ a u e. v.issued a u (lookup-erase_cases user a m.users e).1;
    bounded = v.bounded;
  }

  module _ (user : String) (m : Manager A) (v : IsValidBut user m) (sequence : ℕ) where
    abbrev fresh_state : UserState
    fresh_state = record { generation = sequence; ch = length m.channels }

    abbrev fresh_channel : Channel A
    fresh_channel = record { buffer = []; closed = false }

    abbrev attached : Manager A
    attached = record {
      users = put user fresh_state m.users;
      sequence = sequence;
      channels = m.channels ++ fresh_channel ∷ [];
    }

    attached_opened :
        (a : String) (u : UserState)
        → lookup a attached.users ≡ some u
        → IsOpen attached.channels u.ch
    attached_opened a u e = elim (lookup-put_cases user a fresh_state m.users e) [
      | inl (p, q) ↦ rw q (fresh_channel, get_elem?-append_new m.channels fresh_channel, refl)
      | inr (n, f) ↦ IsOpen-append m.channels fresh_channel u.ch (v.opened a u (λ p. n (sym p)) f)
    ]

    old_ch :
        (a : String) (u : UserState)
        → user ≢ a
        → lookup a m.users ≡ some u
        → u.ch < length m.channels
    old_ch a u n e = IsOpen-lt_length m.channels u.ch (v.opened a u (λ p. n (sym p)) e)

    attached_unshared :
        (a b : String) (u w : UserState)
        → lookup a attached.users ≡ some u
        → lookup b attached.users ≡ some w
        → u.ch ≡ w.ch
        → a ≡ b
    attached_unshared a b u w e f p = elim (lookup-put_cases user a fresh_state m.users e) [
      | inl (pa, qa) ↦ elim (lookup-put_cases user b fresh_state m.users f) [
        | inl (pb, qb) ↦ cc
        | inr (nb, gb) ↦ absurd (omega (arith, old_ch b w nb gb, ap (λ s. s.ch) qa))
      ]
      | inr (na, ga) ↦ elim (lookup-put_cases user b fresh_state m.users f) [
        | inl (pb, qb) ↦ absurd (omega (arith, old_ch a u na ga, ap (λ s. s.ch) qb))
        | inr (nb, gb) ↦ v.unshared a b u w ga gb p
      ]
    ]

    attached-IsValid : m.sequence ≤ sequence → IsValid attached
    attached-IsValid h = record {
      opened = attached_opened;
      unshared = attached_unshared;
      issued = λ a u e. elim (lookup-put_cases user a fresh_state m.users e) [
        | inl (p, q) ↦ omega (arith, ap (λ s. s.generation) q)
        | inr (n, f) ↦ omega (arith, v.issued a u f)
      ];
      bounded = λ ch c e. elim (get_elem?-append_cases m.channels fresh_channel ch e) [
        | inl (p, q) ↦ rw q (omega arith)
        | inr old ↦ v.bounded ch c old
      ];
    }

  IsValidBut-of_IsValid : (user : String) (m : Manager A) → IsValid m → IsValidBut user m
  IsValidBut-of_IsValid user m v = record {
    opened = λ a u _. v.opened a u;
    unshared = v.unshared;
    issued = v.issued;
    bounded = v.bounded;
  }

  -- `SetOnline` never closes a closed channel, and the manager stays valid.
  pub set_online-IsValid :
      (user : String) (m : Manager A)
      → IsValid m
      → m.sequence + 1 < 2 ^ 64
      → (m' : Manager A) × (ch : ℕ) × (set_online user m ≡ ok (m', ch, m.sequence + 1))
        × (lookup user m'.users ≡ some (record { generation = m.sequence + 1; ch = ch }))
        × (m'.sequence ≡ m.sequence + 1)
        × IsValid m'
  unfolding set_online close_old
  set_online-IsValid user m v h = elim (Option-cases (lookup user m.users)) [
    | inl e ↦
        let but = IsValidBut-of_IsValid user m v in
        (
          attached user m but (m.sequence + 1),
          length m.channels,
          rw (e, set_online) (rw (no_wrap m.sequence h)),
          lookup-put_self _ _ _,
          refl,
          attached-IsValid user m but (m.sequence + 1) (omega arith),
        )
    | inr (u, e) ↦
        let (heap, closing, but) = close-IsValidBut user u m v e in
        let m₁ : Manager A = record m { channels = heap } in
        (
          attached user m₁ but (m.sequence + 1),
          length heap,
          rw (e, set_online) (rw (closing, set_online) (rw (no_wrap m.sequence h))),
          lookup-put_self _ _ _,
          refl,
          attached-IsValid user m₁ but (m.sequence + 1) (omega arith),
        )
  ]

  -- `SetOffline` never panics either: it drops the user if the generation is theirs, and changes
  -- nothing otherwise.
  pub set_offline-IsValid :
      (user : String) (generation : ℕ) (m : Manager A)
      → IsValid m
      → (m' : Manager A) × (gone : Bool) × (set_offline user generation m ≡ ok (m', gone))
        × (m'.sequence ≡ m.sequence)
        × IsValid m'
  unfolding set_offline
  set_offline-IsValid user generation m v = elim (Option-cases (lookup user m.users)) [
    | inl e ↦ (m, false, rw (e, set_offline), refl, v)
    | inr (u, e) ↦ elim (Bool-cases (u.generation =ℕ generation)) [
      | inl same ↦
          let (heap, closing, but) = close-IsValidBut user u m v e in
          (
            record { users = erase user m.users; sequence = m.sequence; channels = heap },
            true,
            rw (e, set_offline) (rw same (rw (closing, set_offline))),
            refl,
            erase-IsValid user (record m { channels = heap }) but,
          )
      | inr other ↦ (m, false, rw (e, set_offline) (rw other), refl, v)
    ]
  ]

  -- A generation that is not the user's.
  pub set_offline_other :
      (user : String) (generation : ℕ) (u : UserState) (m : Manager A)
      → lookup user m.users ≡ some u
      → (u.generation =ℕ generation) ≡ false
      → set_offline user generation m ≡ ok (m, false)
  unfolding set_offline
  set_offline_other user generation u m e other = rw (e, set_offline) (rw other)

  -- The user's own generation.
  pub set_offline_own :
      (user : String) (u : UserState) (m : Manager A)
      → IsValid m
      → lookup user m.users ≡ some u
      → (m' : Manager A) × (set_offline user u.generation m ≡ ok (m', true))
        × (lookup user m'.users ≡ none)
  unfolding set_offline
  set_offline_own user u m v e =
      let (heap, closing, but) = close-IsValidBut user u m v e in
      let same : (u.generation =ℕ u.generation) ≡ true = ground arith in
      (
        record { users = erase user m.users; sequence = m.sequence; channels = heap },
        rw (e, set_offline) (rw same (rw (closing, set_offline))),
        lookup-erase_self user m.users,
      )
