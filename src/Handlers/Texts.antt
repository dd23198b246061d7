-- ===== src/Handlers/Texts.antt =====
-- The texts of handler/http_groups.go and utils/utils.go: group ids, decimal numbers, hashes.
use Prim.Native.Char.{Char, code}
use Prim.Native.String.{len}
use Prim.Native.Nat.{◌/◌}
use etemsg_server.Base.{
  ℕ, zero, suc, ◌%◌, ℤ, pos, negsuc, String, Bool, true, false, ◌&&◌, ◌||◌, Option, none, some,
  List, [], ◌∷◌, leb, ltb, ◌==◌, ◌=ℕ◌, if◌then◌else◌,
}
use etemsg_server.Base.{◌≡◌, refl}
use etemsg_server.Handlers.Server.{Env}

abbrev pub group_id_len : ℕ
group_id_len = 10

abbrev pub max_group_name_enc : ℕ
max_group_name_enc = 4096

abbrev pub max_key_package_len : ℕ
max_key_package_len = 262144

abbrev pub max_mls_blob_len : ℕ
max_mls_blob_len = 4194304

abbrev pub max_group_msg_len : ℕ
max_group_msg_len = 4194304

abbrev pub default_message_page : ℕ
default_message_page = 200

abbrev pub max_message_page : ℕ
max_message_page = 500

-- The code tests bytes: a character that is not ASCII has only bytes from 128 on.
abbrev pub is_base36_char : ℕ → Bool
is_base36_char c = (leb 48 c && leb c 57) || (leb 97 c && leb c 122)

unfoldable pub is_base36_lower : String → Bool
is_base36_lower String.[] = true
is_base36_lower (String.◌∷◌ c s) =
    let rest = is_base36_lower s in if is_base36_char (code c) then rest else false

-- `len(s)` counts bytes of UTF-8.
unfoldable pub is_group_id : String → Bool
unfolding is_base36_lower
is_group_id s = len s =ℕ group_id_len && is_base36_lower s

unfoldable pub is_group_id_prefix : String → Bool
unfolding is_base36_lower
is_group_id_prefix s = ltb 0 (len s) && leb (len s) group_id_len && is_base36_lower s

abbrev pub digit_char : ℕ → Char
digit_char zero = "0"
digit_char (suc zero) = "1"
digit_char (suc (suc zero)) = "2"
digit_char (suc (suc (suc zero))) = "3"
digit_char (suc (suc (suc (suc zero)))) = "4"
digit_char (suc (suc (suc (suc (suc zero))))) = "5"
digit_char (suc (suc (suc (suc (suc (suc zero)))))) = "6"
digit_char (suc (suc (suc (suc (suc (suc (suc zero))))))) = "7"
digit_char (suc (suc (suc (suc (suc (suc (suc (suc zero)))))))) = "8"
digit_char _ = "9"

-- The digits of `n` before `acc`; the fuel is at least their number.
unfoldable pub digits : ℕ → ℕ → String → String
digits zero n acc = acc
digits (suc fuel) n acc =
    let shown = String.◌∷◌ (digit_char (n % 10)) acc in
    elim (n / 10) [ zero ↦ shown | suc m ↦ digits fuel (suc m) shown ]

-- `strconv.FormatInt(i, 10)`: an int64 has at most 19 digits.
unfoldable pub format_int : ℤ → String
format_int (pos n) = digits 20 n ""
format_int (negsuc n) = String.◌∷◌ "-" (digits 20 (suc n) "")

abbrev hash_matches : Env → Option (List ℕ) → String → Bool
hash_matches env none claimed = false
hash_matches env (some raw) claimed = env.equal_fold (env.sha256_hex raw) claimed

unfoldable pub blob_hash_matches : Env → String → String → Bool
blob_hash_matches env b64 claimed =
    if claimed == "" then false else hash_matches env (env.decode_base64 b64) claimed

unfoldable pub encode_group_name : Env → List ℕ → String
encode_group_name env [] = ""
encode_group_name env (b ∷ bs) = env.encode_base64 (b ∷ bs)

format_example : format_int (negsuc 120) ≡ "-121"
unfolding format_int digits
format_example = refl
