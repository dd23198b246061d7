-- ===== src/Handlers/Paths.antt =====
-- The group ids that `serve` of http_groups.go hands to its handlers.
use etemsg_server.Base.{
  String, true, Option, none, some, List, [], ◌∷◌, Result, ok, err, ◌≡◌, refl, arith, Bool-cases,
  Option-cases, inl, inr, ◌==◌, trim_space,
}
use etemsg_server.Handlers.Server.{Code}
use etemsg_server.Handlers.Texts.{is_group_id}
use etemsg_server.Handlers.Routing.{
  Method, Endpoint, route, by_method, segments_route, group_route, resource_route, search_route,
  trim_slash, after_prefix, split_slash,
}

-- The group that an endpoint is on.
abbrev pub group_of : Endpoint → Option String
group_of Endpoint.create_group = none
group_of Endpoint.list_groups = none
group_of Endpoint.search_groups = none
group_of (Endpoint.group_info gid) = some gid
group_of (Endpoint.dissolve_group gid) = some gid
group_of (Endpoint.upload_key_package gid) = some gid
group_of (Endpoint.get_key_package gid) = some gid
group_of (Endpoint.create_join_request gid) = some gid
group_of (Endpoint.list_join_requests gid) = some gid
group_of (Endpoint.decide_join_request gid id) = some gid
group_of (Endpoint.create_commit gid) = some gid
group_of (Endpoint.list_commits gid) = some gid
group_of (Endpoint.create_welcome gid) = some gid
group_of (Endpoint.list_welcomes gid) = some gid
group_of (Endpoint.send_message gid) = some gid
group_of (Endpoint.list_messages gid) = some gid
group_of (Endpoint.ack_messages gid) = some gid
group_of (Endpoint.start_owner_transfer gid) = some gid
group_of (Endpoint.get_owner_transfer gid) = some gid
group_of (Endpoint.decide_owner_transfer gid accept) = some gid
group_of (Endpoint.leave_group gid) = some gid
group_of (Endpoint.list_pending_removals gid) = some gid
group_of (Endpoint.clear_pending_removals gid) = some gid
group_of (Endpoint.kick_member gid) = some gid

-- A result that, if it is an endpoint on a group, is on this one.
abbrev IsOn : String → Result Code Endpoint → Type 0
IsOn gid (err c) = Unit
IsOn gid (ok e) = group_of e ≡ some gid

resource_route-IsOn :
    (gid resource : String) (segs : List String) (m : Method)
    → IsOn gid (resource_route gid resource segs m)
resource_route-IsOn gid resource segs m = ground arith

group_route-IsOn :
    (gid : String) (segs : List String) (m : Method) → IsOn gid (group_route gid segs m)
group_route-IsOn gid [] Method.get = refl
group_route-IsOn gid [] Method.delete = refl
group_route-IsOn gid [] Method.post = tt
group_route-IsOn gid [] Method.other_method = tt
group_route-IsOn gid (resource ∷ segs) m = resource_route-IsOn gid resource segs m

on_group :
    (gid : String) (r : Result Code Endpoint) (e : Endpoint)
    → IsOn gid r
    → r ≡ ok e
    → group_of e ≡ some gid
on_group gid (err c) e on h = cc
on_group gid (ok x) e on h = ground (arith, on)

segments_route_ids :
    (segs : List String) (m : Method) (e : Endpoint) (gid : String)
    → segments_route segs m ≡ ok e
    → group_of e ≡ some gid
    → is_group_id gid ≡ true
segments_route_ids [] m e gid h on = cc
segments_route_ids (first ∷ segs) m e gid h on = elim (Bool-cases (first == "search")) [
  | inl search ↦ absurd (searched m (ground arith))
  | inr other ↦ elim (Bool-cases (is_group_id (trim_space first))) [
    | inr bad ↦ absurd (ground arith)
    | inl good ↦
        let at : group_of e ≡ some (trim_space first) =
          on_group (trim_space first) (group_route (trim_space first) segs m) e
            (group_route-IsOn (trim_space first) segs m) (ground arith) in
        ground (arith, at, on)
  ]
]
  where
    searched : (m : Method) → search_route m ≡ ok e → ⊥
    searched Method.get h = ground (arith, on)
    searched Method.post h = cc
    searched Method.delete h = cc
    searched Method.other_method h = cc

on_top :
    (m : Method) (e : Endpoint) (gid : String)
    → by_method m Endpoint.create_group Endpoint.list_groups ≡ ok e
    → group_of e ≡ some gid
    → ⊥
on_top Method.get e gid h on = ground (arith, on)
on_top Method.post e gid h on = ground (arith, on)
on_top Method.delete e gid h on = cc
on_top Method.other_method e gid h on = cc

-- Whatever the path, the group id that a handler gets is 10 characters of lowercase base36.
pub route_ids :
    (m : Method) (url : String) (e : Endpoint) (gid : String)
    → route m url ≡ ok e
    → group_of e ≡ some gid
    → is_group_id gid ≡ true
unfolding route
route_ids m url e gid h on = elim (Bool-cases (trim_slash url == "/groups")) [
  | inl top ↦ absurd (on_top m e gid (ground arith) on)
  | inr below ↦ elim (Option-cases (after_prefix "/groups/" (trim_slash url))) [
    | inl missing ↦ absurd (ground arith)
    | inr (rest, found) ↦ elim (Bool-cases (rest == "")) [
      | inl empty ↦ absurd (ground arith)
      | inr full ↦ segments_route_ids (split_slash rest) m e gid (ground arith) on
    ]
  ]
]
