-- ===== src/Handlers/Timely.antt =====
-- The timestamp that a handler takes from a request as an int64, writes out for the signature and has
-- read back by package auth.
use etemsg_server.Base.{
  ℕ, ◌+◌, ◌^◌, ◌<◌, ◌≤◌, pos, String, true, List, some, ◌≡◌, sym, ◌∙◌, ap, arith, inl, inr,
}
use etemsg_server.Auth.Signed.{handle_signed_request, in_window}
use etemsg_server.Auth.Window.{in_window_lem}
use etemsg_server.Handlers.Server.{Server, Env, Outcome}
use etemsg_server.Handlers.Access.{signed}
use etemsg_server.Handlers.Guards.{IsAccepted, accepted-IsAccepted, verdict-cases, as_request}
use etemsg_server.Handlers.Numbers.{parse-format_int}

signed_accepted :
    (env : Env) (user : String) (fields : List String) (n : ℕ) (nonce signature : String)
    (s s' : Server)
    → signed env user fields (pos n) nonce signature s ≡ (Outcome.done tt, s')
    → IsAccepted env s (as_request user fields (pos n) nonce signature)
unfolding signed
signed_accepted env user fields n nonce signature s s' h =
    elim (verdict-cases
      (handle_signed_request env.crypto env.pick env.now env.now_ms s.accounts s.seen
        (as_request user fields (pos n) nonce signature)).1) [
          | inl e ↦ accepted-IsAccepted env s user fields (pos n) nonce signature e
          | inr (c, e) ↦ absurd (cc (e, h))
        ]

-- A request with a timestamp of at least 0 passes the check of its signature only within 300000 ms of
-- the server's clock, on either side, for a clock before 2^62 ms: the timestamp is the number of the
-- request, written out for the signature and read back.
pub signed_timely :
    (env : Env) (user : String) (fields : List String) (n : ℕ) (nonce signature : String)
    (s s' : Server)
    → n < 2 ^ 63
    → env.now_ms < 2 ^ 62
    → signed env user fields (pos n) nonce signature s ≡ (Outcome.done tt, s')
    → (env.now_ms ≤ n + 300000) × (n ≤ env.now_ms + 300000)
signed_timely env user fields n nonce signature s s' small clock h =
    let a = signed_accepted env user fields n nonce signature s s' h in
    let (read, _) = parse-format_int n small in
    let same : some a.bits ≡ some n = sym a.parsed ∙ read in
    let bits : a.bits ≡ n = cc same in
    let timely : in_window env.now_ms n ≡ true = ap (in_window env.now_ms) (sym bits) ∙ a.timely in
    let exact = in_window_lem env.now_ms n clock (omega arith) in
    (ground (arith, exact, timely), ground (arith, exact, timely))
