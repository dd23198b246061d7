-- ===== src/Sockets/Steady.antt =====
-- The pushes of handler/ws.go, and the calls that only push, never panic.
use etemsg_server.Base.{ℕ, String, Bool, Option, List, [], ◌∷◌, refl, ◌==◌}
use etemsg_server.Session.Steps.{is_online}
use etemsg_server.Session.Invariant.{IsValid}
use etemsg_server.Session.Queueing.{enqueue_message-IsValid}
use etemsg_server.Session.Connecting.{set_offline-IsValid}
use etemsg_server.Handlers.Wire.Requests.{GroupMessagePayload}
use etemsg_server.Handlers.Wire.Pushes.{Push}
use etemsg_server.Handlers.Server.{Server, Env, gets}
use etemsg_server.Handlers.Safe.{
  IsFine, IsSafe, pure-IsSafe, gets-IsSafe, if-IsSafe, bind-IsSafe, safe_steps,
}
use etemsg_server.Sockets.Sending.{enqueue}
use etemsg_server.Sockets.Presence.{
  enqueue_all, broadcast_presence, snapshot, push_snapshot, push_snapshots, push_presence_snapshots,
  go_offline, disconnect,
}
use etemsg_server.Sockets.Grouping.{fan_out, post_message, handle_group_message}

enqueue-IsSafe : (user : String) (push : Push) → IsSafe (enqueue user push)
unfolding enqueue
enqueue-IsSafe user push = record {
  at = λ s v.
      let (m, sent, e, _, kept) = enqueue_message-IsValid user push s.session v in
      rw e (record { answered = tt; valid = kept; kept = refl });
}

enqueue_all-IsSafe : (users : List String) (push : Push) → IsSafe (enqueue_all users push)
unfolding enqueue_all
enqueue_all-IsSafe [] push = pure-IsSafe tt
enqueue_all-IsSafe (user ∷ users) push =
    bind-IsSafe (enqueue user push) _ (enqueue-IsSafe user push)
      (λ _. enqueue_all-IsSafe users push)

broadcast_presence-IsSafe :
    (user : String) (online : Bool) → IsSafe (broadcast_presence user online)
unfolding broadcast_presence
broadcast_presence-IsSafe user online = search (safe_steps, enqueue_all-IsSafe)

go_offline-IsSafe : (user : String) (generation : ℕ) → IsSafe (go_offline user generation)
unfolding go_offline
go_offline-IsSafe user generation = record {
  at = λ s v.
      let (m, left, e, _, kept) = set_offline-IsValid user generation s.session v in
      rw e (record { answered = tt; valid = kept; kept = refl });
}

disconnect-IsSafe : (user : String) (generation : ℕ) → IsSafe (disconnect user generation)
unfolding disconnect
disconnect-IsSafe user generation =
    search (safe_steps, go_offline-IsSafe, broadcast_presence-IsSafe)

fan_out-IsSafe :
    (users : List String) (sender : String) (push : Push) → IsSafe (fan_out users sender push)
unfolding fan_out
fan_out-IsSafe [] sender push = pure-IsSafe tt
fan_out-IsSafe (user ∷ users) sender push =
    let rest = fan_out-IsSafe users sender push in
    let told =
      bind-IsSafe (enqueue user push) (λ _. fan_out users sender push) (enqueue-IsSafe user push)
        (λ _. rest) in
    if-IsSafe (user == sender) (fan_out users sender push) _ rest (
      bind-IsSafe (gets (λ s. is_online user s.session)) _ (gets-IsSafe _)
        (λ online. if-IsSafe online _ _ told rest))

handle_group_message-IsSafe :
    (env : Env) (sender : String) (payload : Option GroupMessagePayload)
    → IsSafe (handle_group_message env sender payload)
unfolding handle_group_message post_message
handle_group_message-IsSafe env sender payload =
    search (safe_steps, fan_out-IsSafe) depth 60 fits 20000

push_snapshot-IsSafe :
    (entries : List (String × Bool)) (user : String) → IsSafe (push_snapshot entries user)
push_snapshot-IsSafe [] user = pure-IsSafe tt
push_snapshot-IsSafe (c ∷ cs) user =
    bind-IsSafe (enqueue user _) _ (enqueue-IsSafe user _) (λ _. pure-IsSafe tt)

push_snapshots-IsSafe : (online users : List String) → IsSafe (push_snapshots online users)
unfolding push_snapshots
push_snapshots-IsSafe online [] = pure-IsSafe tt
push_snapshots-IsSafe online (user ∷ users) =
    let rest = push_snapshots-IsSafe online users in
    bind-IsSafe (gets (λ s. snapshot s.accounts online user)) _ (gets-IsSafe _) (λ entries.
      bind-IsSafe (push_snapshot entries user) _ (push_snapshot-IsSafe entries user) (λ _. rest))

push_presence_snapshots-IsSafe : IsSafe push_presence_snapshots
unfolding push_presence_snapshots
push_presence_snapshots-IsSafe = search (safe_steps, push_snapshots-IsSafe)

-- From a valid session manager a message that a frame writes to a group, the end of a connection and a
-- tick of the presence snapshots end without a panic, leave a valid manager and change no account.
pub pushes_safe :
    (env : Env) (user : String) (payload : Option GroupMessagePayload) (generation : ℕ) (s : Server)
    → IsValid s.session
    → IsFine s (handle_group_message env user payload s)
      × IsFine s (disconnect user generation s)
      × IsFine s (push_presence_snapshots s)
pushes_safe env user payload generation s v = (
  (handle_group_message-IsSafe env user payload).at s v,
  (disconnect-IsSafe user generation).at s v,
  push_presence_snapshots-IsSafe.at s v,
)
