-- ===== src/Auth/Signed.antt =====
-- auth/signed_request.go, auth/message_sign.go and handler/signed.go: the checks of a signed request.
-- SHA-256 and the verification of a signature by a public key are arguments: they are crypto
-- packages of Go. An int64 is its bit pattern, below 2^64.
use Prim.Native.Char.{code}
use Prim.Native.Nat.{◌*◌}
use etemsg_server.Base.{
  ℕ, ◌+◌, ◌-◌, ◌%◌, ◌^◌, String, Bool, true, false, not, ◌||◌, Option, none, some, List, [], ◌∷◌,
  ◌++◌, Result, ok, err, ◌>>=◌, ◌>>◌, refuse_if, or_fail, ltb, leb, ◌&&◌, ◌==◌, ◌=ℕ◌, if◌then◌else◌,
}
use etemsg_server.Base.Map.{Map}
use etemsg_server.Accounts.State.{Accounts}
use etemsg_server.Accounts.Users.{get_public_key}
use etemsg_server.Auth.Nonces.{Pick, check_nonce}

-- `strconv.ParseInt(s, 10, 64)`
unfoldable pub parse_digits : ℕ → String → Option ℕ
parse_digits acc String.[] = some acc
parse_digits acc (String.◌∷◌ c s) =
    let rest = parse_digits (acc * 10 + (code c - 48)) s in
    if leb 48 (code c) && leb (code c) 57 then rest else none

abbrev pub to_int64 : Bool → Option ℕ → Option ℕ
to_int64 negative none = none
to_int64 false (some n) = if ltb n (2 ^ 63) then some n else none
to_int64 true (some n) = if leb n (2 ^ 63) then some ((2 ^ 64 - n) % 2 ^ 64) else none

unfoldable pub parse_unsigned : Bool → String → Option ℕ
unfolding parse_digits
parse_unsigned negative String.[] = none
parse_unsigned negative (String.◌∷◌ c s) = to_int64 negative (parse_digits 0 (String.◌∷◌ c s))

unfoldable pub parse_int64 : String → Option ℕ
unfolding parse_unsigned
parse_int64 String.[] = none
parse_int64 (String.◌∷◌ c s) =
    if code c =ℕ 45
    then parse_unsigned true s
    else if code c =ℕ 43
    then parse_unsigned false s
    else parse_unsigned false (String.◌∷◌ c s)

abbrev pub is_negative : ℕ → Bool
is_negative x = leb (2 ^ 63) x

-- `diff := now - ts; if diff < 0 { diff = -diff }`
unfoldable pub time_diff : ℕ → ℕ → ℕ
time_diff now_ms ts =
    let diff = (now_ms + (2 ^ 64 - ts)) % 2 ^ 64 in
    if is_negative diff then (2 ^ 64 - diff) % 2 ^ 64 else diff

-- 5 minutes in milliseconds
abbrev pub window_ms : ℕ
window_ms = 300000

-- not `diff > SignedRequestWindow.Milliseconds()`, a comparison of signed numbers
unfoldable pub in_window : ℕ → ℕ → Bool
unfolding time_diff
in_window now_ms ts = let diff = time_diff now_ms ts in is_negative diff || leb diff window_ms

abbrev pub append_text : String → String → String
append_text String.[] t = t
append_text (String.◌∷◌ c s) t = String.◌∷◌ c (append_text s t)

-- The text that `MessageDigest` hashes: the fields with a newline between them.
abbrev pub join_fields : List String → String
join_fields [] = ""
join_fields (f ∷ []) = f
join_fields (f ∷ g ∷ fs) = append_text f (append_text "\n" (join_fields (g ∷ fs)))

pub data Refusal : Type 0 where
  parts_required invalid_timestamp outside_window signature_failed : Refusal

-- `sha256` and `is_signed key digest signature`
pub record Crypto : Type 0 where
  pub sha256 : String → String
  pub is_signed : String → String → String → Bool

unfoldable pub message_digest : Crypto → List String → String
message_digest crypto fields = crypto.sha256 (join_fields fields)

unfoldable pub verify_signed_request :
    Crypto → ℕ → String → List String → String → String → String → Result Refusal (Unit {0})
unfolding in_window message_digest parse_int64
verify_signed_request crypto now_ms key fields timestamp nonce signature = do
  refuse_if (timestamp == "" || nonce == "" || signature == "") parts_required
  ts ← or_fail (parse_int64 timestamp) invalid_timestamp
  refuse_if (not (in_window now_ms ts)) outside_window
  let digest = message_digest crypto (fields ++ timestamp ∷ nonce ∷ [])
  refuse_if (not (crypto.is_signed key digest signature)) signature_failed
  ok tt

-- The codes of handler/signed.go; `accepted` is its empty code.
pub data Verdict : Type 0 where
  accepted signature_required user_not_registered signature_invalid duplicate_request : Verdict

-- A request as the handlers pass it on.
pub record SignedRequest : Type 0 where
  pub user : String
  pub fields : List String
  pub timestamp : String
  pub nonce : String
  pub signature : String

abbrev pub verdict_of : Bool → Verdict
verdict_of true = duplicate_request
verdict_of false = accepted

-- `now` is the monotonic clock and `now_ms` the wall clock. The nonce is used up only when all else
-- is right.
unfoldable pub handle_signed_request :
    Crypto → Pick → ℕ → ℕ → Accounts → Map (Map ℕ) → SignedRequest → Map (Map ℕ) × Verdict
unfolding get_public_key verify_signed_request
handle_signed_request crypto pick now now_ms db seen r =
    if r.signature == "" then (seen, signature_required) else elim (get_public_key db r.user) [
      | err e ↦ (seen, user_not_registered)
      | ok key ↦
          elim (verify_signed_request crypto now_ms key r.fields r.timestamp r.nonce r.signature) [
            | err e ↦ (seen, signature_invalid)
            | ok _ ↦
                let (seen', replay) = check_nonce pick now seen r.user r.nonce in
                (seen', verdict_of replay)
          ]
    ]
