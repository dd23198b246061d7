-- ===== src/Handlers/Server.antt =====
-- What a handler of package handler runs on: the stores, the nonces and the session manager, with a
-- request answered, refused by a code, or stopped by a panic. What was written before stays written.
use etemsg_server.Base.{ℕ, String, Bool, true, false, Option, none, some, List, Result, ok, err}
use etemsg_server.Base.Map.{Map}
use etemsg_server.Errors.{Error}
use etemsg_server.Accounts.State.{Accounts}
use etemsg_server.Groups.State.{Groups}
use etemsg_server.Session.Steps.{Manager, Panic}
use etemsg_server.Auth.Nonces.{Pick}
use etemsg_server.Auth.Signed.{Crypto}
use etemsg_server.Handlers.Wire.Pushes.{Push}

-- `seen` holds the used nonces of package auth, and `replay` the message ids of handler/ws.go.
pub record Server : Type 0 where
  pub accounts : Accounts
  pub groups : Groups
  pub seen : Map (Map ℕ)
  pub replay : Map (Map ℕ)
  pub session : Manager Push

-- The clocks (monotonic nanoseconds, Unix milliseconds and seconds) and the calls of Go's packages:
-- crypto/*, encoding/base64, encoding/hex and strings.
pub record Env : Type 0 where
  pub crypto : Crypto
  pub pick : Pick
  pub now : ℕ
  pub now_ms : ℕ
  pub now_s : ℕ
  pub decode_base64 : String → Option (List ℕ)
  pub encode_base64 : List ℕ → String
  pub sha256_hex : List ℕ → String
  pub equal_fold : String → String → Bool
  pub to_lower : String → String

-- The codes of `writeError`.
pub data Code : Type 0 where
  invalid_json missing_payload invalid_group_id invalid_name_enc payload_too_large : Code
  signature_required user_not_found signature_invalid duplicate_request : Code
  duplicate_group_id db_unavailable group_not_found group_dissolved not_group_member : Code
  unsupported_search_by invalid_query hash_mismatch duplicate_key_package : Code
  key_package_not_found key_package_hash_mismatch applicant_mismatch group_owner_updating : Code
  already_member duplicate_join_request duplicate_request_id forbidden invalid_decision : Code
  join_request_not_found request_group_mismatch request_not_pending : Code
  duplicate_commit_epoch epoch_mismatch epoch_not_monotonic group_full epoch_before_join : Code
  duplicate_msg_id invalid_last_seq seq_out_of_range successor_required invalid_successor : Code
  not_owner transfer_pending transfer_not_found not_designee invalid_target : Code
  method_not_allowed not_found : Code
  unauthorized invalid_contact internal_error not_mutual message_not_encrypted : Code
  offline_queue_full invalid_user_id invalid_request token_invalid token_expired : Code

pub data Outcome (A : Type 0) : Type 0 where
  done : A → Outcome A
  refused : Code → Outcome A
  panicked : Panic → Outcome A

abbrev pub Action : Type 0 → Type 0
Action A = Server → Outcome A × Server

module _ {A : Type 0} where
  -- `writeOK(w, a)`
  unfoldable pub pure : A → Action A
  pure a s = (Outcome.done a, s)

  -- `writeError(w, code, msg)`
  unfoldable pub refuse : Code → Action A
  refuse c s = (Outcome.refused c, s)

  -- A query, which cannot fail here.
  unfoldable pub gets : (Server → A) → Action A
  gets f s = (Outcome.done (f s), s)

  abbrev pub answer : (Error → Code) → Result Error A → Outcome A
  answer code (ok a) = Outcome.done a
  answer code (err e) = Outcome.refused (code e)

  -- A query that returns an error, and the code that each error is reported as.
  unfoldable pub asks : (Error → Code) → (Server → Result Error A) → Action A
  asks code f s = (answer code (f s), s)

  abbrev answer_option : Option A → Code → Outcome A
  answer_option none c = Outcome.refused c
  answer_option (some a) c = Outcome.done a

  unfoldable pub or_refuse : Option A → Code → Action A
  or_refuse o c s = (answer_option o c, s)

module _ {A B : Type 0} where
  abbrev pub continue : Outcome A → (A → Action B) → Action B
  continue (Outcome.done a) f s = f a s
  continue (Outcome.refused c) f s = (Outcome.refused c, s)
  continue (Outcome.panicked p) f s = (Outcome.panicked p, s)

  infixl 5 ◌>>=◌
  unfoldable pub ◌>>=◌ : Action A → (A → Action B) → Action B
  unfolding pure refuse gets asks or_refuse
  ◌>>=◌ m f s = let (r, s') = m s in continue r f s'

module _ {B : Type 0} where
  infixl 5 ◌>>◌
  abbrev pub ◌>>◌ : Action (Unit {0}) → Action B → Action B
  m >> k = m >>= λ _. k

abbrev refused_if : Bool → Code → Outcome (Unit {0})
refused_if true c = Outcome.refused c
refused_if false c = Outcome.done tt

-- `if bad { writeError(w, code, msg); return }`
unfoldable pub refuse_when : Bool → Code → Action (Unit {0})
refuse_when b c s = (refused_if b c, s)

abbrev pub written : {A : Type 0} → (Error → Code) → Result Error (Groups × A) → Action A
written code (err e) s = (Outcome.refused (code e), s)
written code (ok (db, a)) s = (Outcome.done a, record s { groups = db })

-- A transaction on the group tables: on an error it is rolled back.
unfoldable pub store :
    {A : Type 0} → (Error → Code) → (Groups → Result Error (Groups × A)) → Action A
store code f s = written code (f s.groups) s

-- The result of a statement without a value.
abbrev pub no_value : Result Error Groups → Result Error (Groups × Unit {0})
no_value (ok db) = ok (db, tt)
no_value (err e) = err e
