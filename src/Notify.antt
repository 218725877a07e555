-- ===== src/Notify.antt =====
-- util/notify/chatwork.go
pub mod Effects
use kibertas.Prelude.{
  String, ◌<>◌, is_set, if◌then◌else◌, Option, none, some, List, [], ◌∷◌, ◌++◌, concat,
}
use kibertas.Go.Errors.{Error}
use kibertas.Api.{Call, Request, PostReply}
use kibertas.Run.{Action, ok, pure, panic, ◌>>=◌, deferred, ask, call, deref}

-- `Logger` is left out, and `Messages` is in the state of a run.
pub record Chatwork : Type 0 where
  pub api_token : String
  pub room_id : String
  pub site : String

-- `NewChatwork`
unfoldable pub new_chatwork : String → String → Action Chatwork
new_chatwork api_token room_id = do
  site ← ask (λ env. env.getenv "CHATWORK_SITE")
  pure (record {
    api_token = api_token;
    room_id = room_id;
    site = if is_set site then site else "api.chatwork.com";
  })

-- `AddMessage`; `strings.Builder.WriteString` returns no error.
unfoldable pub add_message : String → Action (Unit {0})
add_message message env s = (ok tt, record s { messages = s.messages ++ message ∷ [] })

-- `Messages.Reset`
unfoldable pub reset : Action (Unit {0})
reset env s = (ok tt, record s { messages = [] })

abbrev pub api_url : Chatwork → String
api_url c = "https://api.chatwork.com/v2/rooms/" <> c.room_id <> "/messages"

-- The request that `Send` makes of the messages.
unfoldable pub send_request : Chatwork → List String → Request
send_request c messages = record {
  method = "POST";
  url = api_url c;
  headers =
      ("X-ChatWorkToken", c.api_token) ∷ ("Content-Type", "application/x-www-form-urlencoded") ∷ [];
  form = ("body", concat messages) ∷ [];
}

-- From the request on. `http.NewRequest` gives a nil request with its error, and an error of
-- `client.Do` is logged: the function goes on in both cases, to `req.Header` and to `resp.Status`.
unfoldable pub post_request : Chatwork → Action (Unit {0})
unfolding send_request
post_request c env s = elim (env.bad_url (api_url c)) [
  | some e ↦ panic env s
  | none ↦
      (do
        reply ← call (λ env. env.post) (Call.post_message (send_request c s.messages))
        status ← deref reply.status
        pure tt)
        env s
]

-- `Send`
unfoldable pub send : Chatwork → Action (Unit {0})
unfolding post_request reset
send c = deferred reset (post_request c)
