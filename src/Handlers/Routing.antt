-- ===== src/Handlers/Routing.antt =====
-- handler/http_groups.go, serve: the endpoint that a method and a path name, and its handler.
use Prim.Native.Char.{code}
use etemsg_server.Base.{
  String, Bool, true, false, ◌&&◌, not, Option, none, some, List, [], ◌∷◌, Result, ok, err, ◌==◌,
  ◌=ℕ◌, trim_space, if◌then◌else◌,
}
use etemsg_server.Handlers.Server.{Code}
use etemsg_server.Handlers.Texts.{is_group_id}

pub data Method : Type 0 where
  get post delete other_method : Method

-- `strings.TrimSuffix(path, "/")`
unfoldable pub trim_slash : String → String
trim_slash String.[] = String.[]
trim_slash (String.◌∷◌ c s) =
    let rest = trim_slash s in if code c =ℕ 47 && s == "" then String.[] else String.◌∷◌ c rest

abbrev pub cons_first : Prim.Native.Char.Char → List String → List String
cons_first c [] = String.◌∷◌ c "" ∷ []
cons_first c (s ∷ ss) = String.◌∷◌ c s ∷ ss

-- `strings.Split(s, "/")`
unfoldable pub split_slash : String → List String
split_slash String.[] = "" ∷ []
split_slash (String.◌∷◌ c s) =
    let rest = split_slash s in if code c =ℕ 47 then "" ∷ rest else cons_first c rest

-- The rest of a text after a prefix, if it starts with it.
unfoldable pub after_prefix : String → String → Option String
after_prefix String.[] s = some s
after_prefix (String.◌∷◌ p ps) String.[] = none
after_prefix (String.◌∷◌ p ps) (String.◌∷◌ c s) =
    let rest = after_prefix ps s in if code p =ℕ code c then rest else none

pub data Endpoint : Type 0 where
  create_group list_groups search_groups : Endpoint
  group_info dissolve_group upload_key_package get_key_package : String → Endpoint
  create_join_request list_join_requests : String → Endpoint
  decide_join_request : String → String → Endpoint
  create_commit list_commits create_welcome list_welcomes : String → Endpoint
  send_message list_messages ack_messages : String → Endpoint
  start_owner_transfer get_owner_transfer : String → Endpoint
  decide_owner_transfer : String → Bool → Endpoint
  leave_group list_pending_removals clear_pending_removals kick_member : String → Endpoint

abbrev pub by_method : Method → Endpoint → Endpoint → Result Code Endpoint
by_method Method.post posted got = ok posted
by_method Method.get posted got = ok got
by_method _ posted got = err Code.method_not_allowed

abbrev pub only_post : Method → Endpoint → Result Code Endpoint
only_post Method.post e = ok e
only_post _ e = err Code.method_not_allowed

-- GET and POST on /groups/{gid}/{resource}
abbrev pub pair : List String → Method → Endpoint → Endpoint → Result Code Endpoint
pair [] m posted got = by_method m posted got
pair (_ ∷ _) m posted got = err Code.not_found

abbrev pub join_requests_route : String → List String → Method → Result Code Endpoint
join_requests_route gid [] m =
    by_method m (Endpoint.create_join_request gid) (Endpoint.list_join_requests gid)
join_requests_route gid (id ∷ last ∷ []) m =
    if last == "decide"
    then only_post m (Endpoint.decide_join_request gid (trim_space id))
    else err Code.not_found
join_requests_route gid _ m = err Code.not_found

abbrev pub messages_route : String → List String → Method → Result Code Endpoint
messages_route gid [] m = by_method m (Endpoint.send_message gid) (Endpoint.list_messages gid)
messages_route gid (last ∷ []) m =
    if last == "ack" then only_post m (Endpoint.ack_messages gid) else err Code.not_found
messages_route gid _ m = err Code.not_found

abbrev pub decision_route : String → String → Result Code Endpoint
decision_route gid last =
    if last == "accept"
    then ok (Endpoint.decide_owner_transfer gid true)
    else if last == "decline"
    then ok (Endpoint.decide_owner_transfer gid false)
    else err Code.not_found

abbrev pub transfer_route : String → List String → Method → Result Code Endpoint
transfer_route gid [] m =
    by_method m (Endpoint.start_owner_transfer gid) (Endpoint.get_owner_transfer gid)
transfer_route gid (last ∷ []) Method.post = decision_route gid last
transfer_route gid _ m = err Code.not_found

abbrev pub removals_route : String → List String → Method → Result Code Endpoint
removals_route gid [] Method.get = ok (Endpoint.list_pending_removals gid)
removals_route gid (last ∷ []) Method.post =
    if last == "clear" then ok (Endpoint.clear_pending_removals gid) else err Code.not_found
removals_route gid _ m = err Code.not_found

-- `len(segs) != 2 || r.Method != POST`
abbrev pub post_only_route : List String → Method → Endpoint → Result Code Endpoint
post_only_route [] m e = only_post m e
post_only_route (_ ∷ _) m e = err Code.method_not_allowed

-- `segs[1]` with the segments after it
abbrev pub resource_route : String → String → List String → Method → Result Code Endpoint
resource_route gid resource segs m =
    if resource == "key-packages"
    then pair segs m (Endpoint.upload_key_package gid) (Endpoint.get_key_package gid)
    else if resource == "join_requests"
    then join_requests_route gid segs m
    else if resource == "commits"
    then pair segs m (Endpoint.create_commit gid) (Endpoint.list_commits gid)
    else if resource == "welcomes"
    then pair segs m (Endpoint.create_welcome gid) (Endpoint.list_welcomes gid)
    else if resource == "messages"
    then messages_route gid segs m
    else if resource == "transfer"
    then transfer_route gid segs m
    else if resource == "leave"
    then post_only_route segs m (Endpoint.leave_group gid)
    else if resource == "pending-removals"
    then removals_route gid segs m
    else if resource == "kick"
    then post_only_route segs m (Endpoint.kick_member gid)
    else err Code.not_found

abbrev pub group_route : String → List String → Method → Result Code Endpoint
group_route gid [] Method.get = ok (Endpoint.group_info gid)
group_route gid [] Method.delete = ok (Endpoint.dissolve_group gid)
group_route gid [] _ = err Code.method_not_allowed
group_route gid (resource ∷ segs) m = resource_route gid resource segs m

abbrev pub search_route : Method → Result Code Endpoint
search_route Method.get = ok Endpoint.search_groups
search_route _ = err Code.method_not_allowed

abbrev pub segments_route : List String → Method → Result Code Endpoint
segments_route [] m = err Code.not_found
segments_route (first ∷ segs) m =
    if first == "search"
    then search_route m
    else if not (is_group_id (trim_space first))
    then err Code.invalid_group_id
    else group_route (trim_space first) segs m

abbrev pub rest_route : Option String → Method → Result Code Endpoint
rest_route none m = err Code.not_found
rest_route (some rest) m =
    if rest == "" then err Code.not_found else segments_route (split_slash rest) m

unfoldable pub route : Method → String → Result Code Endpoint
route m url =
    let path = trim_slash url in
    if path == "/groups"
    then by_method m Endpoint.create_group Endpoint.list_groups
    else rest_route (after_prefix "/groups/" path) m
