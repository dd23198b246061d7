-- ===== src/Auth/Tests.antt =====
-- Tests of signed requests: a first use, a replay, and a replay after the window.
use etemsg_server.Base.{
  ℕ, ◌+◌, ◌^◌, ◌<◌, ◌≡◌, refl, true, false, some, List, [], ◌∷◌, length, leb, ltb, if◌then◌else◌,
  ◌=ℕ◌, ◌&&◌, ◌||◌, arith, dec_text, ◌==◌,
}
use etemsg_server.Base.Map.{Map, lookup, put, erase}
use etemsg_server.Accounts.State.{Accounts, no_accounts}
use etemsg_server.Accounts.Users.{get_public_key}
use etemsg_server.Auth.Nonces.{
  Pick, FindsKey, nonce_max_per_user, nonces_of, check_nonce, NonceCall, run_checks,
}
use etemsg_server.Auth.Signed.{
  Crypto, SignedRequest, accepted, handle_signed_request, verify_signed_request, in_window,
  time_diff, parse_int64, parse_unsigned, parse_digits, message_digest,
}
use etemsg_server.Auth.Replay.{check_nonce_replay}
use etemsg_server.Auth.Bounds.{IsBounded, run_checks-IsBounded}
use etemsg_server.Auth.Window.{in_window_lem}
use etemsg_server.Auth.Expiry.{handle_signed_request_replay}

-- The key of the first entry.
abbrev pick_first : Pick
pick_first [] = ""
pick_first ((n, t) ∷ m) = n

pick_first-FindsKey : FindsKey pick_first
unfolding lookup
pick_first-FindsKey [] h = absurd (h refl)
pick_first-FindsKey ((n, t) ∷ m) h = (t, ground arith)

abbrev used_once : Map (Map ℕ)
used_once = ("ann", ("n1", 5) ∷ []) ∷ []

first_use : check_nonce pick_first 5 [] "ann" "n1" ≡ (used_once, false)
unfolding check_nonce lookup put erase dec_text
first_use = refl

abbrev between : List NonceCall
between =
    record { time = 6; user = "bob"; nonce = "n1" }
    ∷ record { time = 7; user = "ann"; nonce = "n2" }
    ∷ []

room : length (nonces_of "ann" used_once) + length between < nonce_max_per_user
unfolding lookup dec_text
room = omega arith

check_nonce_replay_example :
    (check_nonce pick_first 8 (run_checks pick_first used_once between) "ann" "n1").1 ≡ true
check_nonce_replay_example =
    check_nonce_replay pick_first 5 8 [] used_once "ann" "n1" between first_use
      (omega arith, (omega arith, tt)) (omega arith) room

run_checks-IsBounded_example : IsBounded (run_checks pick_first [] between)
run_checks-IsBounded_example = run_checks-IsBounded pick_first between pick_first-FindsKey

in_window_lem_example : in_window 1000000 1400000 ≡ (
    if ltb 1400000 (2 ^ 63)
    then leb 1000000 (1400000 + 300000) && leb 1400000 (1000000 + 300000)
    else leb (1000000 + 2 ^ 64) (1400000 + 300000) || 1400000 =ℕ 1000000 + 2 ^ 63)
in_window_lem_example = in_window_lem 1000000 1400000 (omega arith) (omega arith)

-- A signature is the digest itself, signed with the key "k".
abbrev toy : Crypto
toy = record { sha256 = λ x. x; is_signed = λ k d s. k == "k" && s == d }

abbrev db : Accounts
db = record no_accounts {
  users = record { user_id = "ann"; public_key = "k"; created_at = 1 } ∷ [];
}

-- Ann's clock is 4 minutes ahead of the server's, which shows 1000000 ms.
abbrev ahead : SignedRequest
ahead = record {
  user = "ann";
  fields = "bob" ∷ [];
  timestamp = "1240000";
  nonce = "n1";
  signature = "bob\n1240000\nn1";
}

timestamp_read : parse_int64 "1240000" ≡ some 1240000
unfolding parse_int64 parse_unsigned parse_digits
timestamp_read = refl

first_time : handle_signed_request toy pick_first 5 1000000 db [] ahead ≡ (used_once, accepted)
unfolding handle_signed_request verify_signed_request get_public_key message_digest in_window
    time_diff parse_int64 parse_unsigned parse_digits check_nonce lookup put erase dec_text
first_time = refl

-- 5 minutes and a nanosecond later the server's clock shows 1300000 ms.
inside : in_window 1300000 1240000 ≡ true
unfolding in_window time_diff
inside = refl

handle_signed_request_replay_example :
    (handle_signed_request toy pick_first 300000000006 1300000 db used_once ahead).1 ≡ accepted
handle_signed_request_replay_example =
    handle_signed_request_replay toy pick_first 5 300000000006 1000000 1300000 db [] used_once ahead
      1240000 first_time (omega arith) timestamp_read inside
