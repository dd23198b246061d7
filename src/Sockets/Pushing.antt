-- ===== src/Sockets/Pushing.antt =====
-- The pushes of handler/ws.go: never refused, and they keep the tables and who is online.
use etemsg_server.Base.{String, Bool, List, [], ◌∷◌, Result, ok, err, ◌≡◌, refl, ◌==◌}
use etemsg_server.Session.Steps.{Manager, Panic, enqueue_message, is_online}
use etemsg_server.Handlers.Wire.Pushes.{Push}
use etemsg_server.Handlers.Server.{Server}
use etemsg_server.Handlers.Ends.{IsPush, IsUnrefused}
use etemsg_server.Handlers.Pushing.{
  enqueue_message-users, pure-IsPush, if-IsPush, bind-IsPush, gets-IsPush,
}
use etemsg_server.Sockets.Sending.{enqueue, enqueue_outcome}
use etemsg_server.Sockets.Presence.{broadcast_presence, enqueue_all}
use etemsg_server.Sockets.Grouping.{fan_out}

enqueue-IsPush : (user : String) (push : Push) → IsPush (enqueue user push)
unfolding enqueue
enqueue-IsPush user push = record {
  unrefused = λ s. unrefused (enqueue_message user push s.session) s;
  tables = λ s. tables (enqueue_message user push s.session) s;
  online = λ s. online s (enqueue_message user push s.session) refl;
}
  where
    unrefused :
        (r : Result Panic (Manager Push × Bool)) (s : Server) → IsUnrefused (enqueue_outcome s r).0
    unrefused (ok (m, sent)) s = tt
    unrefused (err p) s = tt

    tables :
        (r : Result Panic (Manager Push × Bool)) (s : Server)
        → (enqueue_outcome s r).1.groups ≡ s.groups
    tables (ok (m, sent)) s = refl
    tables (err p) s = refl

    online :
        (s : Server) (r : Result Panic (Manager Push × Bool))
        → enqueue_message user push s.session ≡ r
        → (enqueue_outcome s r).1.session.users ≡ s.session.users
    online s (ok (m, sent)) h = enqueue_message-users user push s.session m sent h
    online s (err p) h = refl

enqueue_all-IsPush : (users : List String) (push : Push) → IsPush (enqueue_all users push)
unfolding enqueue_all
enqueue_all-IsPush [] push = pure-IsPush tt
enqueue_all-IsPush (user ∷ users) push =
    bind-IsPush (enqueue user push) _ (enqueue-IsPush user push)
      (λ _. enqueue_all-IsPush users push)

pub broadcast_presence-IsPush :
    (user : String) (online : Bool) → IsPush (broadcast_presence user online)
unfolding broadcast_presence
broadcast_presence-IsPush user online = gets-IsPush _ _ (λ watchers. enqueue_all-IsPush watchers _)

pub fan_out-IsPush :
    (users : List String) (sender : String) (push : Push) → IsPush (fan_out users sender push)
unfolding fan_out
fan_out-IsPush [] sender push = pure-IsPush tt
fan_out-IsPush (user ∷ users) sender push =
    let rest = fan_out-IsPush users sender push in
    let told =
      bind-IsPush (enqueue user push) (λ _. fan_out users sender push) (enqueue-IsPush user push)
        (λ _. rest) in
    if-IsPush (user == sender) (fan_out users sender push) _ rest
      (gets-IsPush (λ s. is_online user s.session) _ (λ online. if-IsPush online _ _ told rest))
