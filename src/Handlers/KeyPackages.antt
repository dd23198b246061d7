-- ===== src/Handlers/KeyPackages.antt =====
-- handler/http_groups.go: searching groups, and key packages.
use etemsg_server.Base.{
  String, ◌||◌, not, List, [], ◌∷◌, ok, err, ◌==◌, ltb, trim_space, if◌then◌else◌,
}
use Prim.Native.String.{len}
use etemsg_server.Errors.{Error}
use etemsg_server.Accounts.State.{Accounts}
use etemsg_server.Accounts.Users.{get_public_key}
use etemsg_server.Groups.State.{KeyPackage}
use etemsg_server.Groups.Roster.{group_owner_id}
use etemsg_server.Groups.Searching.{FoundGroup, search_groups_by_id}
use etemsg_server.Groups.Joining.{create_key_package, get_key_package}
use etemsg_server.Handlers.Wire.Requests.{
  GroupSearchRequest, GroupKeyPackageUploadRequest, GroupKeyPackageGetRequest,
}
use etemsg_server.Handlers.Wire.Responses.{GroupSearchResult, GroupKeyPackageResponse}
use etemsg_server.Handlers.Server.{
  Server, Env, Code, Action, pure, gets, asks, ◌>>=◌, ◌>>◌, refuse_when, store, no_value,
}
use etemsg_server.Handlers.Texts.{
  is_group_id_prefix, max_key_package_len, blob_hash_matches, encode_group_name,
}
use etemsg_server.Handlers.Access.{signed, load_active_group, load_active_group_member}

-- The current owner and their public key; both are "" where either is missing.
abbrev owner_key : Accounts → String → String × String
owner_key db owner =
    if owner == ""
    then ("", "")
    else elim (get_public_key db owner) [ err e ↦ ("", "") | ok key ↦ (owner, key) ]

abbrev search_result : Env → FoundGroup → String → String × String → GroupSearchResult
search_result env g key owner = record {
  group_id = g.group_id;
  name_enc = encode_group_name env g.name_enc;
  creator = g.creator;
  creator_public_key = key;
  owner = owner.0;
  owner_public_key = owner.1;
  member_count = g.member_count;
  created_at = g.created_at;
}

-- A group whose creator has no public key is left out.
unfoldable pub found_groups : Env → Server → List FoundGroup → List GroupSearchResult
found_groups env s [] = []
found_groups env s (g ∷ gs) =
    let rest = found_groups env s gs in
    elim (get_public_key s.accounts g.creator) [
      | err e ↦ rest
      | ok key ↦
          search_result env g key (owner_key s.accounts (group_owner_id s.groups g.group_id)) ∷ rest
    ]

unfoldable pub search_groups : Env → GroupSearchRequest → Action (List GroupSearchResult)
search_groups env req = do
  let user = trim_space req.user_id
  let by = trim_space req.by
  let q = trim_space req.q
  refuse_when (user == "") Code.missing_payload
  signed env user (user ∷ by ∷ q ∷ []) req.timestamp req.nonce req.signature
  refuse_when (not (by == "id")) Code.unsupported_search_by
  refuse_when (not (is_group_id_prefix q)) Code.invalid_query
  results ← gets (λ s. search_groups_by_id s.groups q)
  gets (λ s. found_groups env s results)

abbrev upload_code : Error → Code
upload_code Error.duplicate_key_package = Code.duplicate_key_package
upload_code _ = Code.db_unavailable

-- The answer is the id.
unfoldable pub upload_key_package : Env → GroupKeyPackageUploadRequest → String → Action String
upload_key_package env req gid = do
  let user = trim_space req.user_id
  let kp_id = trim_space req.kp_id
  let kp_hash = trim_space req.kp_hash
  refuse_when (user == "" || kp_id == "" || req.kp_b64 == "" || kp_hash == "") Code.missing_payload
  signed env user (gid ∷ user ∷ kp_id ∷ kp_hash ∷ []) req.timestamp req.nonce req.signature
  refuse_when (ltb max_key_package_len (len req.kp_b64)) Code.payload_too_large
  _ ← load_active_group gid
  refuse_when (not (blob_hash_matches env req.kp_b64 kp_hash)) Code.hash_mismatch
  let kp : KeyPackage = record {
    kp_id = kp_id;
    user_id = user;
    group_id = gid;
    kp_b64 = req.kp_b64;
    kp_hash = env.to_lower kp_hash;
    created_at = 0;
  }
  store upload_code (λ db. no_value (create_key_package env.now_s db kp))
  pure kp_id

abbrev pub key_package_code : Error → Code
key_package_code Error.key_package_not_found = Code.key_package_not_found
key_package_code _ = Code.db_unavailable

unfoldable pub get_key_package_handler :
    Env → GroupKeyPackageGetRequest → String → Action GroupKeyPackageResponse
get_key_package_handler env req gid = do
  let user = trim_space req.user_id
  let kp_id = trim_space req.kp_id
  refuse_when (user == "" || kp_id == "") Code.missing_payload
  signed env user (gid ∷ user ∷ kp_id ∷ []) req.timestamp req.nonce req.signature
  _ ← load_active_group_member gid user
  kp ← asks key_package_code (λ s. get_key_package s.groups kp_id)
  refuse_when (not (kp.group_id == gid)) Code.key_package_not_found
  pure (record {
    kp_id = kp.kp_id;
    user_id = kp.user_id;
    group_id = kp.group_id;
    kp_b64 = kp.kp_b64;
    kp_hash = kp.kp_hash;
    created_at = kp.created_at;
  })
