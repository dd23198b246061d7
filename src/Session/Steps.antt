-- ===== src/Session/Steps.antt =====
-- session/session.go: the state of the manager and its operations.
use etemsg_server.Base.{
  ℕ, ◌+◌, ◌%◌, ◌^◌, String, Bool, true, false, Option, none, some, List, [], ◌∷◌, ◌++◌, Result, ok,
  err, ◌>>=◌, length, get_elem?, set, ltb, ◌=ℕ◌, if◌then◌else◌,
}
use etemsg_server.Base.Map.{Map, lookup, put, erase}

-- Run-time panics of Go.
pub data Panic : Type 0 where
  close_of_closed_channel close_of_nil_channel send_on_closed_channel : Panic

abbrev pub queue_buffer_size : ℕ
queue_buffer_size = 256

pub record Channel (A : Type 0) : Type 0 where
  pub buffer : List A
  pub closed : Bool

pub record UserState : Type 0 where
  pub generation : ℕ  -- uint64
  pub ch : ℕ  -- the address of the channel

pub record Manager (A : Type 0) : Type 0 where
  pub users : Map UserState
  pub sequence : ℕ  -- uint64
  pub channels : List (Channel A)

unfoldable pub new_manager : {A : Type 0} → Manager A
new_manager = record { users = []; sequence = 0; channels = [] }

module _ {A : Type 0} where
  -- `close(ch)`
  unfoldable pub close : ℕ → List (Channel A) → Result Panic (List (Channel A))
  close ch heap = elim (get_elem? heap ch) [
    | none ↦ err close_of_nil_channel
    | some c ↦
        if c.closed
        then err close_of_closed_channel
        else ok (set heap ch (record c { closed = true }))
  ]

  -- `select { case ch <- msg: true; default: false }`
  unfoldable pub try_send : ℕ → A → List (Channel A) → Result Panic (List (Channel A) × Bool)
  try_send ch msg heap = elim (get_elem? heap ch) [
    | none ↦ ok (heap, false)
    | some c ↦
        if c.closed
        then err send_on_closed_channel
        else if ltb (length c.buffer) queue_buffer_size
        then ok (set heap ch (record c { buffer = c.buffer ++ msg ∷ [] }), true)
        else ok (heap, false)
  ]

  -- the first step of `SetOnline`: the channel of a user who is online already is closed
  unfoldable pub close_old : Option UserState → List (Channel A) → Result Panic (List (Channel A))
  close_old none heap = ok heap
  close_old (some old) heap = close old.ch heap

  -- The new manager, the channel and its generation token.
  unfoldable pub set_online : String → Manager A → Result Panic (Manager A × ℕ × ℕ)
  set_online user m = do
    heap ← close_old (lookup user m.users) m.channels
    let sequence = (m.sequence + 1) % 2 ^ 64
    let ch = length heap
    ok (
      record {
        users = put user (record { generation = sequence; ch = ch }) m.users;
        sequence = sequence;
        channels = heap ++ record { buffer = []; closed = false } ∷ [];
      },
      ch,
      sequence,
    )

  unfoldable pub set_offline : String → ℕ → Manager A → Result Panic (Manager A × Bool)
  set_offline user generation m = elim (lookup user m.users) [
    | none ↦ ok (m, false)
    | some u ↦
        if u.generation =ℕ generation
        then (do
          heap ← close u.ch m.channels
          ok (record m { users = erase user m.users; channels = heap }, true))
        else ok (m, false)
  ]

  unfoldable pub is_online : String → Manager A → Bool
  is_online user m = elim (lookup user m.users) [ none ↦ false | some u ↦ true ]

  -- The set is a list with an entry for each candidate that is online.
  unfoldable pub online_ids : List String → Manager A → List String
  unfolding is_online
  online_ids [] m = []
  online_ids (id ∷ candidates) m =
      let rest = online_ids candidates m in if is_online id m then id ∷ rest else rest

  unfoldable pub online_set : Manager A → List String
  online_set m = keys m.users
    where
      keys : Map UserState → List String
      keys [] = []
      keys ((id, u) ∷ users) = id ∷ keys users

  unfoldable pub enqueue_message : String → A → Manager A → Result Panic (Manager A × Bool)
  enqueue_message user msg m = elim (lookup user m.users) [
    | none ↦ ok (m, false)
    | some u ↦ do
      (heap, sent) ← try_send u.ch msg m.channels
      ok (record m { channels = heap }, sent)
  ]

  -- `msg, ok := <-msgCh` of a connection's writer, which keeps the address of its channel: what
  -- was buffered before the close is still received. `none` is a channel with nothing to receive.
  unfoldable pub receive : ℕ → Manager A → Option (Manager A × A)
  receive ch m = elim (get_elem? m.channels ch) [
    | none ↦ none
    | some c ↦ elim c.buffer [
      | [] ↦ none
      | msg ∷ rest ↦
          some (record m { channels = set m.channels ch (record c { buffer = rest }) }, msg)
    ]
  ]
