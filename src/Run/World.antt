-- ===== src/Run/World.antt =====
-- The state of a run, and the environment: everything outside the repository that answers a call.
use kibertas.Prelude.{◌<◌, ℕ, String, Bool, true, false, Option, none, List, [], ◌≡◌, ◌≢◌}
use kibertas.Go.Errors.{Error, IsContextError}
use kibertas.Api.{
  Call, Reply, DeploymentStatus, Rr, S3Object, MetricsReply, PostReply, Time, AwsConfig,
}

-- The writes to `Chatwork.Messages`, oldest first, and the calls that have left the program, newest
-- first. There is one `Chatwork`, which `main` makes and every check shares.
pub record State : Type 0 where
  pub messages : List String
  pub calls : List Call

-- How a Go function ends whose last result is an `error`: with a nil error, with an error, by a
-- panic, or with its process (`os.Exit`), which runs no deferred function.
pub data Outcome (A : Type 0) : Type 0 where
  ok : A → Outcome A
  fail : Error → Outcome A
  panicked exited : Outcome A

-- The answer to a call may depend on all the calls before it, so an environment may change over time
-- in any way.
pub record Env : Type 0 where
  -- a call that returns an error alone, or a value that is not read
  pub issue : List Call → Call → Option Error
  pub deployment : List Call → Call → Reply DeploymentStatus
  -- the host names of `ingress.Status.LoadBalancer.Ingress`
  pub hostnames : List Call → Call → Reply (List String)
  -- the names of the nodes
  pub nodes : List Call → Call → Reply (List String)
  pub records : List Call → Call → Reply (List Rr)
  -- the status code of the response
  pub response : List Call → Call → Reply ℕ
  pub objects : List Call → Call → Reply (List S3Object)
  pub metrics : List Call → Call → MetricsReply
  pub clock : List Call → Call → Time
  pub intn : List Call → ℕ → ℕ
  pub aws : List Call → Call → Reply AwsConfig
  pub post : List Call → Call → PostReply
  -- `os.Getenv`
  pub getenv : String → String
  -- what `http.NewRequest` says of a URL
  pub bad_url : String → Option Error
  -- `logrus.ParseLevel`, and `logrus.DebugLevel`
  pub parse_level : String → Reply ℕ
  pub debug_level : ℕ
  -- whether `time.LoadLocation` finds Asia/Tokyo
  pub knows_tokyo : Bool
  -- `dns.Fqdn`
  pub fqdn : String → String
  -- `kerrors.IsAlreadyExists`
  pub is_already_exists : Error → Bool
  -- `ErrorOrNil` of a `multierror.Error` with these errors appended
  pub error_or_nil : List Error → Option Error
  -- `wait.PollUntilContextTimeout`: the interval, the timeout, whether to start at once, and the
  -- condition
  pub poll_until :
      ℕ → ℕ → Bool → (State → Outcome Bool × State) → State → Outcome (Unit {0}) × State

abbrev pub Ended : Type 0
Ended = Outcome (Unit {0}) × State

-- What a poll may do. It runs the condition again and again, until that says true, fails or panics;
-- or the context ends. `first` says that the condition has to run before the context may end the
-- poll.
pub data Polls (c : State → Outcome Bool × State) : Bool → State → Ended → Type 0 where
  expired : {s : State} {e : Error} → IsContextError e → Polls c false s (fail e, s)
  satisfied : {first : Bool} {s s' : State} → c s ≡ (ok true, s') → Polls c first s (ok tt, s')
  refused :
      {first : Bool} {s s' : State} {e : Error} → c s ≡ (fail e, s') → Polls c first s (fail e, s')
  crashed : {first : Bool} {s s' : State} → c s ≡ (panicked, s') → Polls c first s (panicked, s')
  stopped : {first : Bool} {s s' : State} → c s ≡ (exited, s') → Polls c first s (exited, s')
  again :
      {first : Bool} {s s' : State} {r : Outcome (Unit {0}) × State}
      → c s ≡ (ok false, s')
      → Polls c false s' r
      → Polls c first s r

-- The documented behaviour of the libraries that the theorems rely on.
pub record IsLawful (env : Env) : Type 0 where
  pub polls :
      (interval timeout : ℕ) (immediate : Bool) (c : State → Outcome Bool × State) (s : State)
      → Polls c immediate s (env.poll_until interval timeout immediate c s)
  pub no_errors : env.error_or_nil [] ≡ none
  pub some_errors : (es : List Error) → es ≢ [] → env.error_or_nil es ≢ none
  pub intn_lt : (calls : List Call) (n : ℕ) → 0 < n → env.intn calls n < n
