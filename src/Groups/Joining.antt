-- ===== src/Groups/Joining.antt =====
-- store/group.go: key packages and requests to join.
use etemsg_server.Base.{
  ℕ, String, Bool, ◌&&◌, not, List, Result, ok, ◌>>=◌, ◌>>◌, refuse_if, or_fail, ◌==◌,
}
use etemsg_server.Base.Table.{select, any_where, first, update, insert, sort_by}
use etemsg_server.Errors.{
  Error, duplicate_key_package, key_package_not_found, duplicate_request_id, duplicate_join_request,
  join_request_not_found, join_request_group_mismatch, join_request_not_pending,
  foreign_key_violation,
}
use etemsg_server.Groups.State.{JoinStatus, KeyPackage, JoinRequest, Groups, is_pending}
use etemsg_server.Groups.Roster.{group_exists, by_time}

unfoldable pub create_key_package : ℕ → Groups → KeyPackage → Result Error Groups
create_key_package now db kp = do
  refuse_if (any_where (λ k. k.kp_id == kp.kp_id) db.key_packages) duplicate_key_package
  refuse_if (not (group_exists db kp.group_id)) foreign_key_violation
  ok (record db { key_packages = insert (record kp { created_at = now }) db.key_packages })

unfoldable pub get_key_package : Groups → String → Result Error KeyPackage
get_key_package db id = or_fail (first (λ k. k.kp_id == id) db.key_packages) key_package_not_found

abbrev pub is_request : String → JoinRequest → Bool
is_request id r = r.request_id == id

abbrev pub is_open_request : String → String → JoinRequest → Bool
is_open_request gid applicant r =
    r.group_id == gid && r.applicant == applicant && is_pending r.status

unfoldable pub create_join_request : ℕ → Groups → JoinRequest → Result Error Groups
create_join_request now db r = do
  refuse_if (any_where (is_request r.request_id) db.join_requests) duplicate_request_id
  refuse_if (any_where (is_open_request r.group_id r.applicant) db.join_requests)
      duplicate_join_request
  refuse_if (not (group_exists db r.group_id)) foreign_key_violation
  ok (record db {
    join_requests =
        insert
          (record r {
            status = JoinStatus.pending;
            decided_by = "";
            decided_at = 0;
            created_at = now;
          })
          db.join_requests;
  })

unfoldable pub get_join_request : Groups → String → Result Error JoinRequest
get_join_request db id = or_fail (first (is_request id) db.join_requests) join_request_not_found

unfoldable pub list_pending_join_requests : Groups → String → List JoinRequest
list_pending_join_requests db gid =
    sort_by (λ r s. by_time r.created_at r.request_id s.created_at s.request_id)
      (select (λ r. r.group_id == gid && is_pending r.status) db.join_requests)

unfoldable pub decide_join_request :
    ℕ → Groups → String → String → JoinStatus → String → Result Error Groups
decide_join_request now db gid id decision decided_by = do
  r ← or_fail (first (is_request id) db.join_requests) join_request_not_found
  refuse_if (not (r.group_id == gid)) join_request_group_mismatch
  refuse_if (not (is_pending r.status)) join_request_not_pending
  ok (record db {
    join_requests =
        update (is_request id)
          (λ r. record r { status = decision; decided_by = decided_by; decided_at = now })
          db.join_requests;
  })

unfoldable pub join_request_created_at : Groups → String → String → Result Error ℕ
join_request_created_at db gid id = do
  r ←
      or_fail (first (λ r. r.group_id == gid && r.request_id == id) db.join_requests)
        join_request_not_found
  ok r.created_at
