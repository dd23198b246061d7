-- ===== src/Handlers/Reading.antt =====
-- A message that was sent is on the pages of the queue (http_groups.go, sendMessage and listMessages).
use etemsg_server.Base.{◌<◌, String, [], ◌∷◌, ◌++◌, map, ◌≡◌, ◌∙◌, ap, length}
use etemsg_server.Groups.Messages.{list_group_messages}
use etemsg_server.Groups.Sequence.{list-append_group_message, appended}
use etemsg_server.Handlers.Wire.Requests.{GroupMessageSendRequest, GroupMessageListRequest}
use etemsg_server.Handlers.Wire.Responses.{GroupMessageResponse, GroupMessagesResponse}
use etemsg_server.Handlers.Server.{Server, Env, Outcome}
use etemsg_server.Handlers.Done.{
  gets_done, pure_done, refuse_when_done, signed_done, load_active_group_member_done,
}
use etemsg_server.Handlers.Messages.{
  send_message, new_message, list_messages, message_out, page_size, resume_from,
}
use etemsg_server.Handlers.Ends.{Ends-done}
use etemsg_server.Handlers.Effects.{IsSent, send_message-Ends}

listed :
    (env : Env) (req : GroupMessageListRequest) (gid : String) (s s' : Server)
    (page : GroupMessagesResponse)
    → list_messages env req gid s ≡ (Outcome.done page, s')
    → page.messages
      ≡ map message_out (
          list_group_messages s.groups gid
            (resume_from req.since_seq page.min_seq)
            (page_size req.limit))
unfolding list_messages
listed env req gid s s' page h =
    let (_, h1) = refuse_when_done _ _ _ s s' page h in
    let (sig, (seen, h2)) = signed_done env _ _ _ _ _ _ s s' page h1 in
    let (g, m, found, active, joined, h3) = load_active_group_member_done gid _ _ _ s' page h2 in
    let h4 = gets_done _ _ _ s' page h3 in
    let (answer, last) = pure_done _ page _ s' h4 in cc answer

-- After a message is sent, a page of the queue that starts below its number and has room for it ends
-- with it, behind what the page would have held before.
pub list_messages-send_message :
    (env env' : Env) (req : GroupMessageSendRequest) (list : GroupMessageListRequest) (gid : String)
    (s s' t : Server) (sent : GroupMessageResponse) (page : GroupMessagesResponse)
    → send_message env req gid s ≡ (Outcome.done sent, s')
    → list_messages env' list gid s' ≡ (Outcome.done page, t)
    → resume_from list.since_seq page.min_seq < sent.seq
    → length (
        list_group_messages s.groups gid
          (resume_from list.since_seq page.min_seq)
          (page_size list.limit))
      < page_size list.limit
    → page.messages
      ≡ map message_out (
          list_group_messages s.groups gid
            (resume_from list.since_seq page.min_seq)
            (page_size list.limit)
          ++ appended env.now_s (new_message req gid) sent.seq ∷ [])
list_messages-send_message env env' req list gid s s' t sent page h k below room =
    let stored =
      (Ends-done s.groups (IsSent env req gid s) (λ z. z.groups) _ sent s' h
        (send_message-Ends env req gid s)).appended in
    listed env' list gid s' t page k
    ∙ ap (map message_out) (
        list-append_group_message env.now_s s.groups s'.groups (new_message req gid) sent.seq _ _
          stored below room)
