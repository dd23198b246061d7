-- ===== src/Handlers/Acks.antt =====
-- What an acknowledgement that is answered has checked and written.
use etemsg_server.Base.{
  ℕ, ℤ, pos, negsuc, ◌≤◌, String, false, ◌&&◌, ok, ◌≡◌, refl, sym, ◌∙◌, ap, arith, ◌==◌, int_ltb,
  if◌then◌else◌, inl, inr, trim_space, ltb,
}
use etemsg_server.Groups.State.{Groups}
use etemsg_server.Groups.Messages.{max_group_message_seq, get_group_cursor, upsert_group_cursor}
use etemsg_server.Groups.Cursors.{upsert_group_cursor_forward}
use etemsg_server.Handlers.Wire.Requests.{GroupMessageAckRequest}
use etemsg_server.Handlers.Wire.Responses.{GroupMessageAckResponse}
use etemsg_server.Handlers.Server.{Server, Env, Outcome}
use etemsg_server.Handlers.Done.{
  gets_done, store_done, pure_done, refuse_when_done, signed_done, load_active_group_member_done,
  no_value_done,
}
use etemsg_server.Handlers.Messages.{ack_messages, as_seq}

acked_position :
    (i : ℤ) (max_seq : ℕ)
    → int_ltb i (pos 0) ≡ false
    → int_ltb (pos max_seq) i ≡ false
    → (n : ℕ) × (i ≡ pos n) × (n ≤ max_seq) × (as_seq i ≡ n)
acked_position (pos n) max_seq h k = (n, refl, ground arith, refl)
acked_position (negsuc n) max_seq h k = cc

acked :
    (now : ℕ) (db db' : Groups) (user gid : String) (n : ℕ)
    → upsert_group_cursor now db user gid n ≡ ok db'
    → (u g : String)
    → get_group_cursor db' u g ≡ (
        let old = get_group_cursor db u g in
        if user == u && gid == g then (if ltb old n then n else old) else old)
acked now db db' user gid n h u g = elim (upsert_group_cursor_forward now db user gid n) [
  | inl (_, _, e) ↦ absurd (cc (e, h))
  | inr (after, e, moved) ↦
      let same : after ≡ db' = ground (arith, e, h) in
      ap (λ d. get_group_cursor d u g) (sym same) ∙ moved u g
]

-- An acknowledgement is answered only for a position from 0 to the last number of the queue; the cursor
-- of the signer moves to the larger of the old and the new position, which is the answer, and no other
-- cursor changes.
pub ack_messages_done :
    (env : Env) (req : GroupMessageAckRequest) (gid : String) (s s' : Server)
    (resp : GroupMessageAckResponse)
    → ack_messages env req gid s ≡ (Outcome.done resp, s')
    → (n : ℕ) × (req.last_seq ≡ pos n)
      × (n ≤ max_group_message_seq s.groups gid)
      × (resp.last_seq ≡ get_group_cursor s'.groups (trim_space req.user_id) gid)
      × ((u g : String)
          → get_group_cursor s'.groups u g ≡ (
              let old = get_group_cursor s.groups u g in
              if trim_space req.user_id == u && gid == g
              then (if ltb old n then n else old)
              else old))
unfolding ack_messages
ack_messages_done env req gid s s' resp h =
    let user = trim_space req.user_id in
    let (_, h1) = refuse_when_done _ _ _ s s' resp h in
    let (sig, (seen, h2)) = signed_done env _ _ _ _ _ _ s s' resp h1 in
    let (g, m, found, active, joined, h3) = load_active_group_member_done gid _ _ _ s' resp h2 in
    let (not_negative, h4) = refuse_when_done _ _ _ _ s' resp h3 in
    let h5 = gets_done _ _ _ s' resp h4 in
    let (in_range, h6) = refuse_when_done _ _ _ _ s' resp h5 in
    let (_, db, changed, h7) = store_done _ _ _ _ s' resp h6 in
    let h8 = gets_done _ _ _ s' resp h7 in
    let (answer, last) = pure_done _ resp _ s' h8 in
    let (n, is_n, bound, is_seq) =
      acked_position req.last_seq (max_group_message_seq s.groups gid) not_negative in_range in
    let stored : upsert_group_cursor env.now_s s.groups user gid n ≡ ok db =
      ap (upsert_group_cursor env.now_s s.groups user gid) (sym is_seq)
      ∙ no_value_done _ db _ changed in
    let tables : db ≡ s'.groups = ap (λ z. z.groups) last in
    (
      n,
      is_n,
      bound,
      cc (answer, tables),
      λ u g.
          ap (λ d. get_group_cursor d u g) (sym tables)
          ∙ acked env.now_s s.groups db user gid n stored u g,
    )
