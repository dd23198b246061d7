-- ===== src/Session/Invariant.antt =====
-- What holds of the manager of session/session.go between two calls.
use etemsg_server.Base.{
  ℕ, ◌≤◌, ◌<◌, String, false, some, List, [], ◌∷◌, ◌++◌, length, get_elem?, set, ◌≡◌, inl, inr, ◌≢◌,
  get_elem?-set_ne, get_elem?-lt_length, get_elem?-append_old, get_elem?-set_cases,
}
use etemsg_server.Base.Map.{lookup}
use etemsg_server.Session.Steps.{Channel, UserState, Manager, queue_buffer_size, new_manager}

module _ {A : Type 0} where
  -- The channel at an address is there and open.
  abbrev pub IsOpen : List (Channel A) → ℕ → Type 0
  IsOpen heap ch = (c : Channel A) × (get_elem? heap ch ≡ some c) × (c.closed ≡ false)

  abbrev pub IsBounded : List (Channel A) → Type 0
  IsBounded heap =
      (ch : ℕ) (c : Channel A) → get_elem? heap ch ≡ some c → length c.buffer ≤ queue_buffer_size

  pub record IsValid (m : Manager A) : Type 0 where
    -- the channel of every online user is open
    pub opened :
        (user : String) (u : UserState) → lookup user m.users ≡ some u → IsOpen m.channels u.ch
    -- no two users share a channel
    pub unshared :
        (a b : String) (u v : UserState)
        → lookup a m.users ≡ some u
        → lookup b m.users ≡ some v
        → u.ch ≡ v.ch
        → a ≡ b
    -- generations were handed out by the counter
    pub issued :
        (user : String) (u : UserState) → lookup user m.users ≡ some u → u.generation ≤ m.sequence
    pub bounded : IsBounded m.channels

  pub IsOpen-set_ne :
      (heap : List (Channel A)) (ch i : ℕ) (c : Channel A)
      → ch ≢ i
      → IsOpen heap i
      → IsOpen (set heap ch c) i
  IsOpen-set_ne heap ch i c h (d, e, o) = (d, rw (get_elem?-set_ne heap ch i c h) e, o)

  pub IsBounded-set :
      (heap : List (Channel A)) (ch : ℕ) (c : Channel A)
      → length c.buffer ≤ queue_buffer_size
      → IsBounded heap
      → IsBounded (set heap ch c)
  IsBounded-set heap ch c h b i d e = elim (get_elem?-set_cases heap ch i c e) [
    | inl (p, q) ↦ rw q h
    | inr old ↦ b i d old
  ]

  pub IsOpen-append :
      (heap : List (Channel A)) (c : Channel A) (i : ℕ) → IsOpen heap i → IsOpen (heap ++ c ∷ []) i
  IsOpen-append heap c i (d, e, o) =
      (d, rw (get_elem?-append_old heap c i (get_elem?-lt_length heap i e)) e, o)

  pub IsOpen-lt_length : (heap : List (Channel A)) (i : ℕ) → IsOpen heap i → i < length heap
  IsOpen-lt_length heap i (d, e, o) = get_elem?-lt_length heap i e

  pub new_manager-IsValid : IsValid (new_manager {A = A})
  unfolding new_manager lookup
  new_manager-IsValid = record {
    opened = λ a u e. cc;
    unshared = λ a b u w e f p. cc;
    issued = λ a u e. cc;
    bounded = λ ch c e. cc;
  }
