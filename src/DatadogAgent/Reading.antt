-- ===== src/DatadogAgent/Reading.antt =====
-- How the check reads the reply to a metrics query.
use kibertas.Prelude.{
  ℕ, String, ◌<>◌, Bool, true, false, Option, none, some, List, [], ◌∷◌, ◌++◌, ◌≡◌, refl, arith,
  ◌==◌, if◌then◌else◌,
}
use kibertas.Go.Errors.{Error, plain}
use kibertas.Api.{MetricsReply}
use kibertas.Run.{State, Outcome, ok, fail, panicked, Env, ◌>>=◌}
use kibertas.Notify.{add_message}
use kibertas.DatadogAgent.Check.{read_metrics}

-- What is to come of a reply: the poll ends with success, ends with an error, goes on, or the program
-- crashes.
pub data Verdict : Type 0 where
  arrived retry crash : Verdict
  stop : Error → Verdict

-- An error under a status code: 403 and 401 have an error of their own.
stop_by_code : ℕ → Error → Verdict
stop_by_code code e =
    if code == 403
    then stop (plain "403 Forbidden")
    else if code == 401
    then stop (plain "401 Unauthorized")
    else stop e

-- An API error under a status code: 200 stops the poll.
refused_by_code : ℕ → String → Verdict
refused_by_code code m =
    if code == 200
    then stop (plain ("HTTP status was 200 OK but got Datadog API error: " <> m))
    else retry

-- The verdict on the error, the status code, the API error and the series.
verdict_on : Option Error → Option ℕ → Option String → List String → Verdict
unfolding stop_by_code refused_by_code
verdict_on (some e) none a l = stop e
verdict_on (some e) (some code) a l = stop_by_code code e
verdict_on none none (some m) l = crash
verdict_on none (some code) (some m) l = refused_by_code code m
verdict_on none c none [] = retry
verdict_on none c none (x ∷ l) = arrived

unfoldable pub verdict : MetricsReply → Verdict
unfolding verdict_on
verdict reply = verdict_on reply.error reply.status_code reply.api_error reply.series

-- The end of the condition that a verdict stands for, and its state.
abbrev pub carried_out : Verdict → State → Outcome Bool × State
carried_out arrived s = (
  ok true,
  record s { messages = s.messages ++ "Response from `MetricsApi.QueryMetrics`\n" ∷ [] },
)
carried_out retry s = (ok false, s)
carried_out crash s = (panicked, s)
carried_out (stop e) s = (fail e, s)

module _ (env : Env) (s : State) where
  reading :
      (e : Option Error) (c : Option ℕ) (a : Option String) (l : List String)
      → let reply : MetricsReply = record {
        error = e;
        status_code = c;
        api_error = a;
        series = l;
      } in
        read_metrics reply env s ≡ carried_out (verdict reply) s
  unfolding read_metrics verdict add_message ◌>>=◌ verdict_on stop_by_code refused_by_code
  reading (some e) none a l = refl
  reading (some e) (some code) a l = ground arith
  reading none none (some m) l = refl
  reading none (some code) (some m) l = ground arith
  reading none none none [] = refl
  reading none none none (x ∷ l) = refl
  reading none (some code) none [] = refl
  reading none (some code) none (x ∷ l) = refl

-- Every reply to a metrics query is read as its verdict says: a failed query stops the poll, with
-- an error of its own under the codes 403 and 401; an API error stops it under 200, is retried
-- under another code, and crashes the program without a response; an empty list of series is
-- retried, and any other one is success.
pub read_metrics-verdict :
    (reply : MetricsReply) (env : Env) (s : State)
    → read_metrics reply env s ≡ carried_out (verdict reply) s
read_metrics-verdict reply env s =
    reading env s reply.error reply.status_code reply.api_error reply.series
