-- ===== src/Errors.antt =====
-- The errors that the store's methods return (store/store.go, store/group.go). `unique_violation`
-- is the driver's "UNIQUE constraint failed", which `isUniqueConstraint` recognises, and `no_rows` is `sql.ErrNoRows` where it is passed on. No other
-- failure of the database driver is modelled: its statements succeed.
pub data Error : Type 0 where
  user_not_found offline_queue_full no_challenge token_not_found file_not_found : Error
  unique_violation foreign_key_violation no_rows : Error
  group_not_found group_full successor_required invalid_successor duplicate_group : Error
  group_member_not_found duplicate_join_request duplicate_request_id join_request_not_found : Error
  join_request_group_mismatch join_request_not_pending key_package_not_found : Error
  duplicate_key_package duplicate_group_msg duplicate_commit_epoch epoch_parent_mismatch : Error
  epoch_not_monotonic transfer_not_found transfer_pending not_designee : Error
