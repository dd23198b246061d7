-- ===== src/Session/Tests.antt =====
-- Tests of the session manager: two connections of Ann, and a message to her.
use etemsg_server.Base.{
  ℕ, String, true, false, some, List, [], ◌∷◌, ◌++◌, ◌≡◌, ◌≢◌, refl, arith, ok, length, get_elem?,
  ltb, zero, suc, ◌∙◌, sym, ap, dec_text, if◌then◌else◌,
}
use etemsg_server.Base.Map.{lookup}
use etemsg_server.Session.Steps.{
  Channel, UserState, Manager, queue_buffer_size, new_manager, set_online, set_offline, is_online,
  enqueue_message,
}
use etemsg_server.Session.Invariant.{IsValid, new_manager-IsValid}
use etemsg_server.Session.Delivery.{
  Call, connect, disconnect, send, writer, run, run-never_panics, set_offline-set_online,
  enqueue_message_delivers,
}

abbrev calls : List (Call ℕ)
calls = connect "ann" ∷ connect "ann" ∷ disconnect "ann" 1 ∷ send "ann" 7 ∷ writer 1 ∷ []

run-never_panics_example : (m : Manager ℕ) × (run new_manager calls ≡ ok m) × IsValid m
run-never_panics_example = run-never_panics calls (omega arith)

abbrev nobody : Manager ℕ
nobody = record { users = []; sequence = 0; channels = [] }

nobody-IsValid : IsValid nobody
unfolding new_manager
nobody-IsValid = new_manager-IsValid

set_offline-set_online_example :
    (m' : Manager ℕ) × (ch : ℕ) × (generation : ℕ) × (set_online "ann" nobody
      ≡ ok (m', ch, generation))
    × (is_online "ann" m' ≡ true)
    × (set_offline "ann" 0 m' ≡ ok (m', false))
    × ((m'' : Manager ℕ) × (set_offline "ann" generation m' ≡ ok (m'', true))
        × (is_online "ann" m'' ≡ false))
set_offline-set_online_example =
    set_offline-set_online "ann" 0 nobody nobody-IsValid (omega arith) (omega arith)

abbrev queued : Channel ℕ
queued = record { buffer = 3 ∷ []; closed = false }

-- Ann is online with one message in her queue.
abbrev ann_online : Manager ℕ
ann_online = record {
  users = ("ann", record { generation = 1; ch = 0 }) ∷ [];
  sequence = 1;
  channels = queued ∷ [];
}

at_zero : (ch : ℕ) (c : Channel ℕ) → get_elem? ann_online.channels ch ≡ some c → c ≡ queued
at_zero zero c e = ground arith
at_zero (suc ch) c e = cc

only_ann :
    (user : String) (u : UserState)
    → lookup user ann_online.users ≡ some u
    → (user ≡ "ann") × (u.ch ≡ 0) × (u.generation ≡ 1)
unfolding lookup
only_ann user u e = ground arith

there : lookup "ann" ann_online.users ≡ some (record { generation = 1; ch = 0 })
unfolding lookup dec_text
there = refl

ann_online-IsValid : IsValid ann_online
ann_online-IsValid = record {
  opened = λ user u e. (queued, rw (only_ann user u e).1 refl, refl);
  unshared = λ a b u v e f same. (only_ann a u e).0 ∙ sym (only_ann b v f).0;
  issued = λ user u e. omega (arith, (only_ann user u e).2);
  bounded = λ ch c e. ground (arith, ap (λ d. length d.buffer) (at_zero ch c e));
}

enqueue_message_delivers_example :
    (c : Channel ℕ) × (m' : Manager ℕ) × (get_elem? ann_online.channels 0 ≡ some c)
    × (enqueue_message "ann" 7 ann_online ≡ ok (m', ltb (length c.buffer) queue_buffer_size))
    × (get_elem? m'.channels 0
        ≡ some (record c {
          buffer = if ltb (length c.buffer) queue_buffer_size then c.buffer ++ 7 ∷ [] else c.buffer;
        }))
    × ((ch : ℕ) → ◌≢◌ {A = ℕ} 0 ch → get_elem? m'.channels ch ≡ get_elem? ann_online.channels ch)
    × (m'.users ≡ ann_online.users)
enqueue_message_delivers_example =
    enqueue_message_delivers "ann" 7 (record { generation = 1; ch = 0 }) ann_online
      ann_online-IsValid there
