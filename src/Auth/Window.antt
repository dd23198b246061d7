-- ===== src/Auth/Window.antt =====
-- The time window of a signed request (auth/signed_request.go, VerifySignedRequest).
use etemsg_server.Base.{ℕ, ◌+◌, ◌^◌, ◌<◌, ◌≡◌, ◌||◌, ◌&&◌, ◌=ℕ◌, leb, ltb, if◌then◌else◌, arith}
use etemsg_server.Auth.Signed.{in_window, time_diff}

-- For a clock before 2^62 ms: a timestamp of at least 0 is accepted exactly within 300000 ms of the
-- clock, on either side; and of the negative ones, with bit patterns from 2^63 up, exactly those
-- within 300000 ms before the clock's time, and the one that is 2^63 ms in the past, where the
-- difference overflows.
pub in_window_lem :
    (now ts : ℕ)
    → now < 2 ^ 62
    → ts < 2 ^ 64
    → in_window now ts ≡ (
        if ltb ts (2 ^ 63)
        then leb now (ts + 300000) && leb ts (now + 300000)
        else leb (now + 2 ^ 64) (ts + 300000) || ts =ℕ now + 2 ^ 63)
unfolding in_window time_diff
in_window_lem now ts h k = ground arith
