-- ===== src/Accounts/State.antt =====
-- store/store.go: the tables of users, contacts, offline messages, logins and files.
-- Tables are lists of rows in insertion order, so an AUTOINCREMENT id is the place in the list.
-- A float64 is its bit pattern: the store only copies it.
use Prim.Native.String.{compare}
use Prim.Native.Nat.{Ordering}
use etemsg_server.Base.{ℕ, String, Bool, true, false, List, []}

-- ORDER BY over TEXT: SQLite compares bytes, which for UTF-8 is the order of code points.
abbrev pub text_leb : String → String → Bool
text_leb a b = elim (compare a b) [ Ordering.gt ↦ false | _ ↦ true ]

pub record User : Type 0 where
  pub user_id : String
  pub public_key : String
  pub created_at : ℕ

pub record Contact : Type 0 where
  pub user_id : String
  pub contact_id : String

pub record OfflineMessage : Type 0 where
  pub from : String
  pub ciphertext : String
  pub iv : String
  pub tag : String
  pub msg_id : String
  pub timestamp : ℕ  -- float64
  pub msg_type : String
  pub file_id : String
  pub filename : String
  pub size : ℕ
  pub sha256 : String
  pub wrapped_key : String
  pub signature : String

pub record OfflineRow : Type 0 where
  pub recipient : String
  pub message : OfflineMessage
  pub created_at : ℕ

pub record Challenge : Type 0 where
  pub user_id : String
  pub challenge : String
  pub expires_at : ℕ

pub record Token : Type 0 where
  pub user_id : String
  pub token : String
  pub expires_at : ℕ

pub record FileMeta : Type 0 where
  pub file_id : String
  pub sender : String
  pub owner : String
  pub filename : String
  pub size : ℕ
  pub sha256 : String
  pub status : String
  pub created_at : ℕ

pub record Accounts : Type 0 where
  pub users : List User
  pub contacts : List Contact
  pub offline_messages : List OfflineRow
  pub login_challenges : List Challenge
  pub auth_tokens : List Token
  pub files : List FileMeta

abbrev pub no_accounts : Accounts
no_accounts = record {
  users = [];
  contacts = [];
  offline_messages = [];
  login_challenges = [];
  auth_tokens = [];
  files = [];
}
