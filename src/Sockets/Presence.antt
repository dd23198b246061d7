-- ===== src/Sockets/Presence.antt =====
-- handler/ws.go, handleConnect and handleHeartbeat, the end of a connection, and the presence that
-- contacts are shown.
use etemsg_server.Base.{
  ℕ, String, Bool, true, false, ◌||◌, ◌&&◌, not, Option, List, [], ◌∷◌, map, Result, ok, err, ◌==◌,
  ◌=ℕ◌, leb, ltb, trim_space, if◌then◌else◌,
}
use Prim.Native.Char.{code}
use Prim.Native.String.{len}
use etemsg_server.Base.Table.{any_where, select}
use etemsg_server.Errors.{Error}
use etemsg_server.Accounts.State.{Accounts}
use etemsg_server.Accounts.Users.{user_exists, get_contacts, contacts_of, mutual_contact_ids}
use etemsg_server.Accounts.Logins.{get_token}
use etemsg_server.Session.Steps.{Manager, Panic, set_online, set_offline, online_set}
use etemsg_server.Handlers.Wire.Pushes.{Push}
use etemsg_server.Handlers.Server.{
  Server, Env, Code, Outcome, Action, pure, gets, asks, or_refuse, ◌>>=◌, ◌>>◌, refuse_when,
}
use etemsg_server.Sockets.Frames.{ConnectPayload, HeartbeatPayload}
use etemsg_server.Sockets.Sending.{enqueue}

abbrev pub is_id_char : ℕ → Bool
is_id_char c =
    (leb 97 c && leb c 122) || (leb 65 c && leb c 90) || (leb 48 c && leb c 57) || c =ℕ 95

abbrev pub all_id_chars : String → Bool
all_id_chars String.[] = true
all_id_chars (String.◌∷◌ c s) = let rest = all_id_chars s in is_id_char (code c) && rest

-- `utils.IsValidUserID`
unfoldable pub is_valid_user_id : String → Bool
is_valid_user_id id = leb 3 (len id) && leb (len id) 32 && all_id_chars id

abbrev pub is_in : List String → String → Bool
is_in ids id = any_where (λ x. x == id) ids

unfoldable pub filter_mutual_contacts : Accounts → String → List String → List String
filter_mutual_contacts db user candidates = select (is_in (mutual_contact_ids db user)) candidates

-- The same push to each of the users; a full queue drops it.
unfoldable pub enqueue_all : List String → Push → Action (Unit {0})
enqueue_all [] push = pure tt
enqueue_all (user ∷ users) push = enqueue user push >>= λ _. enqueue_all users push

unfoldable pub broadcast_presence : String → Bool → Action (Unit {0})
broadcast_presence user online = do
  watchers ← gets (λ s. filter_mutual_contacts s.accounts user (contacts_of s.accounts user))
  enqueue_all watchers (Push.presence (record { user_id = user; online = online }))

-- What a contact of a user is shown as.
abbrev pub presence_entry : List String → List String → String → String × Bool
presence_entry online mutuals contact = (contact, is_in online contact && is_in mutuals contact)

-- A user without contacts gets no snapshot.
abbrev pub snapshot : Accounts → List String → String → List (String × Bool)
snapshot db online user =
    map (presence_entry online (mutual_contact_ids db user)) (get_contacts db user)

abbrev pub push_snapshot : List (String × Bool) → String → Action (Unit {0})
push_snapshot [] user = pure tt
push_snapshot (c ∷ cs) user =
    enqueue user (Push.presence_snapshot (record { contacts = c ∷ cs })) >>= λ _. pure tt

-- One tick, over the users who were online when it began.
unfoldable pub push_snapshots : List String → List String → Action (Unit {0})
push_snapshots online [] = pure tt
push_snapshots online (user ∷ users) = do
  entries ← gets (λ s. snapshot s.accounts online user)
  push_snapshot entries user
  push_snapshots online users

unfoldable pub push_presence_snapshots : Action (Unit {0})
push_presence_snapshots = do online ← gets (λ s. online_set s.session); push_snapshots online online

-- What `handleConnect` binds a connection to.
pub record Binding : Type 0 where
  pub user : String
  pub ch : ℕ
  pub generation : ℕ

abbrev pub bound : String → Server → Result Panic (Manager Push × ℕ × ℕ) → Outcome Binding × Server
bound user s (err p) = (Outcome.panicked p, s)
bound user s (ok (session, ch, generation)) = (
  Outcome.done (record { user = user; ch = ch; generation = generation }),
  record s { session = session },
)

unfoldable pub go_online : String → Action Binding
go_online user s = bound user s (set_online user s.session)

abbrev token_code : Error → Code
token_code Error.token_not_found = Code.token_invalid
token_code _ = Code.db_unavailable

-- `current` is the user that the connection is bound to already, "" before.
unfoldable pub handle_connect : Env → String → Option ConnectPayload → Action Binding
handle_connect env current payload = do
  p ← or_refuse payload Code.missing_payload
  let user = trim_space p.user_id
  refuse_when (not (is_valid_user_id user)) Code.invalid_user_id
  refuse_when (not (current == "")) Code.invalid_request
  exists ← gets (λ s. user_exists s.accounts user)
  refuse_when (not exists) Code.user_not_found
  let token = trim_space p.token
  refuse_when (token == "") Code.token_invalid
  (stored, expires_at) ← asks token_code (λ s. get_token s.accounts user)
  refuse_when (ltb expires_at env.now_s) Code.token_expired
  refuse_when (not (stored == token)) Code.token_invalid
  binding ← go_online user
  broadcast_presence user true
  pure binding

abbrev gone : Server → Result Panic (Manager Push × Bool) → Outcome Bool × Server
gone s (err p) = (Outcome.panicked p, s)
gone s (ok (session, left)) = (Outcome.done left, record s { session = session })

unfoldable pub go_offline : String → ℕ → Action Bool
go_offline user generation s = gone s (set_offline user generation s.session)

-- The deferred end of `ServeWS`, for a connection that was bound.
unfoldable pub disconnect : String → ℕ → Action (Unit {0})
disconnect user generation = do
  left ← go_offline user generation
  if left then broadcast_presence user false else pure tt

unfoldable pub handle_heartbeat : String → Action HeartbeatPayload
handle_heartbeat user = pure (record { online = not (user == "") })
