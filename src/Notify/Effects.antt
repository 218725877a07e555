-- ===== src/Notify/Effects.antt =====
-- What the methods of `Chatwork` do: to the state, and to a run around them.
use kibertas.Prelude.{
  String, Bool, true, false, none, some, List, [], ◌∷◌, ◌≡◌, arith, refl, Option-cases, inl, inr,
  if◌then◌else◌,
}
use kibertas.Api.{Call, Request}
use kibertas.Run.{State, ok, panicked, Env, ◌>>=◌}
use kibertas.Run.Adds.{Adds}
use kibertas.Run.Trace.{Runs, stay, say}
use kibertas.Run.Lives.{Lives}
use kibertas.Notify.{Chatwork, add_message, reset, api_url, send_request, post_request, send}

module _ {P : Call → Type 0} where
  pub Adds-add_message : (m : String) → Adds P (add_message m)
  unfolding add_message
  Adds-add_message m = record { at = λ env l s. say m stay }

pub Lives-add_message : (m : String) → Lives (add_message m)
unfolding add_message
Lives-add_message m = record { at = λ env l s. tt }

-- The response of a POST has a status: the request is well-formed, and there is a response.
unfoldable pub is_delivered : Env → Chatwork → State → Bool
is_delivered env c s = elim (env.bad_url (api_url c)) [
  | some e ↦ false
  | none ↦ elim (env.post s.calls (Call.post_message (send_request c s.messages))).status [
    | none ↦ false
    | some status ↦ true
  ]
]

-- The calls of a run after `send`: the POST is made if its URL is well-formed.
unfoldable pub calls_after_send : Env → Chatwork → State → List Call
calls_after_send env c s = elim (env.bad_url (api_url c)) [
  | some e ↦ s.calls
  | none ↦ Call.post_message (send_request c s.messages) ∷ s.calls
]

-- Send empties the messages whatever happens, makes at most one call, the POST of the messages
-- that had gathered, and panics exactly when no response with a status comes back.
pub send_lem :
    (env : Env) (c : Chatwork) (s : State)
    → send c env s ≡ (
      if is_delivered env c s then ok tt else panicked,
      record { messages = []; calls = calls_after_send env c s },
    )
unfolding send post_request reset is_delivered calls_after_send ◌>>=◌
send_lem env c s = ground arith

module _ {P : Call → Type 0} (c : Chatwork)
    (p : (r : Request) → r.url ≡ api_url c → P (Call.post_message r)) where
  sent-Runs :
      (s : State) (env : Env)
      → Runs env P s (record { messages = []; calls = calls_after_send env c s })
  unfolding calls_after_send send_request
  sent-Runs s env = elim (Option-cases (env.bad_url (api_url c))) [
    | inl h ↦ rw (h, calls_after_send) (Runs.send (p (send_request c s.messages) refl) refl stay)
    | inr (e, h) ↦
        rw (h, calls_after_send)
          (Runs.lose {r = send_request c s.messages} (p (send_request c s.messages) refl) h stay)
  ]

  pub Adds-send : Adds P (send c)
  Adds-send = record { at = λ env l s. rw send_lem (sent-Runs s env) }

-- The calls after a message to a well-formed URL.
pub calls_sent :
    (env : Env) (c : Chatwork) (s : State)
    → env.bad_url (api_url c) ≡ none
    → calls_after_send env c s ≡ Call.post_message (send_request c s.messages) ∷ s.calls
unfolding calls_after_send
calls_sent env c s h = rw (h, calls_after_send)
