-- ===== src/Accounts/Offline.antt =====
-- store/store.go: the queue of messages for users who are offline.
use etemsg_server.Base.{ℕ, String, Bool, List, map, Result, ok, ◌>>◌, refuse_if, ◌==◌, leb}
use etemsg_server.Base.Table.{select, delete, count_where, insert}
use etemsg_server.Errors.{Error, offline_queue_full}
use etemsg_server.Accounts.State.{OfflineMessage, OfflineRow, Accounts}

abbrev pub max_offline_messages_per_user : ℕ
max_offline_messages_per_user = 1000

abbrev pub for_user : String → OfflineRow → Bool
for_user user r = r.recipient == user

unfoldable pub push_offline_msg : ℕ → Accounts → String → OfflineMessage → Result Error Accounts
push_offline_msg now db user msg = do
  refuse_if (leb max_offline_messages_per_user (count_where (for_user user) db.offline_messages))
      offline_queue_full
  ok (record db {
    offline_messages =
        insert (record { recipient = user; message = msg; created_at = now }) db.offline_messages;
  })

-- One transaction: the rows in the order of their ids, and the rows deleted.
unfoldable pub fetch_and_clear_offline_msgs : Accounts → String → Accounts × List OfflineMessage
fetch_and_clear_offline_msgs db user = (
  record db { offline_messages = delete (for_user user) db.offline_messages },
  map (λ r. r.message) (select (for_user user) db.offline_messages),
)
