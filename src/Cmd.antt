-- ===== src/Cmd.antt =====
-- cmd/checker.go, and the steps that the constructors of all checks share.
pub mod Effects
pub mod Labels
use kibertas.Prelude.{ℕ, String, ◌<>◌, Bool, if◌then◌else◌, text_or}
use kibertas.Go.Format.{decimal, decimal_02}
use kibertas.Api.{Call, Time}
use kibertas.Run.{Action, panic, ◌>>=◌, ask, call}
use kibertas.Notify.{Chatwork, add_message}

-- `Checker`. `Ctx` and `Logger` are left out: the environment says when the context ends.
pub record Checker : Type 0 where
  pub debug : Bool
  pub chatwork : Chatwork
  pub cluster_name : String
  pub timeout : ℕ

-- `NewChecker`
unfoldable pub new_checker : Bool → Chatwork → String → ℕ → Checker
new_checker debug chatwork cluster_name timeout = record {
  debug = debug;
  chatwork = chatwork;
  cluster_name = cluster_name;
  timeout = timeout;
}

-- `time.Now()`
abbrev pub now : Action Time
now = call (λ env. env.clock) Call.now

-- `fmt.Sprintf("<prefix>-test-%d%02d%02d-%s", t.Year(), t.Month(), t.Day(), suffix)`
unfoldable pub test_namespace : String → Time → String → String
unfolding decimal decimal_02
test_namespace prefix t suffix =
    prefix
    <> ("-test-"
        <> (decimal t.year <> (decimal_02 t.month <> (decimal_02 t.day <> ("-" <> suffix)))))

-- The message "Start in … at …". `Time.In` panics at the nil location that a failed
-- `time.LoadLocation` gives.
unfoldable pub announce_start : String → Action (Unit {0})
unfolding add_message
announce_start cluster_name = do
  known ← ask (λ env. env.knows_tokyo)
  t ← now
  if known
      then add_message ("Start in " <> (cluster_name <> (" at " <> (t.tokyo <> "\n"))))
      else panic

-- `v := os.Getenv(name); v != ""`, and a default where it is empty
abbrev pub getenv_or : String → String → Action String
getenv_or name default = ask (λ env. text_or (env.getenv name) default)
