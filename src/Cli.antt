-- ===== src/Cli.antt =====
-- main.go: the commands, and how the program ends.
pub mod Commands
pub mod Effects
pub mod Outcomes
pub mod Scope
pub mod Names
pub mod Debug
pub mod Cleared
pub mod Cluster
pub mod Housed
pub mod Observed
pub mod Evidence
pub mod Cancelled
pub mod Says
pub mod Sent
pub mod Success
pub mod Signals
pub mod Timeout
pub mod Tree
use kibertas.Prelude.{ℕ, ◌*◌, ◌%◌, ◌^◌, String, ◌<>◌, Bool, false}
use kibertas.Go.Errors.{Error, text}
use kibertas.Logger.{init_logger}
use kibertas.Run.{Action, panic, exit, ◌>>=◌, ◌>>◌, on_error, ask}
use kibertas.Notify.{Chatwork, new_chatwork, add_message, send}
use kibertas.Cmd.{Checker, new_checker}
use kibertas.K8s.{second}
use kibertas.Ingress.Objects.{new_ingress}
use kibertas.Ingress.Check as Ingress
use kibertas.Fluent.Objects.{new_fluent}
use kibertas.Fluent.Check as Fluent
use kibertas.ClusterAutoscaler.Objects.{new_cluster_autoscaler}
use kibertas.ClusterAutoscaler.Check as ClusterAutoscaler
use kibertas.CertManager.Objects.{new_cert_manager}
use kibertas.CertManager.Check as CertManager
use kibertas.DatadogAgent.Check as DatadogAgent

-- The subcommands of `test`.
pub data Command : Type 0 where
  cluster_autoscaler ingress fluent datadog_agent cert_manager all : Command

-- The variables that the flags set. The timeout is in minutes, the bit pattern of an `int`.
pub record Flags : Type 0 where
  pub debug : Bool
  pub timeout : ℕ
  pub no_dns_check : Bool

-- The defaults of those flags.
abbrev pub default_flags : Flags
default_flags = record { debug = false; timeout = 15; no_dns_check = false }

-- `time.Duration(timeout)*time.Minute` in nanoseconds, the bit pattern of an `int64`
unfoldable pub timeout_duration : ℕ → ℕ
timeout_duration minutes = minutes * (60 * second) % 2 ^ 64

unfoldable pub checker_of : Flags → Chatwork → String → Checker
unfolding new_checker timeout_duration
checker_of flags chatwork cluster_name =
    new_checker flags.debug chatwork cluster_name (timeout_duration flags.timeout)

-- The `RunE` of each command but `all`: the check is made, and run.
unfoldable pub run_cluster_autoscaler : Checker → Action (Unit {0})
run_cluster_autoscaler checker = new_cluster_autoscaler checker >>= ClusterAutoscaler.check

unfoldable pub run_ingress : Checker → Bool → Action (Unit {0})
run_ingress checker no_dns_check = new_ingress checker no_dns_check >>= Ingress.check

unfoldable pub run_fluent : Checker → Action (Unit {0})
run_fluent checker = new_fluent checker >>= Fluent.check

unfoldable pub run_datadog_agent : Checker → Action (Unit {0})
run_datadog_agent checker = DatadogAgent.new_datadog_agent checker >>= DatadogAgent.check

unfoldable pub run_cert_manager : Checker → Action (Unit {0})
run_cert_manager checker = new_cert_manager checker >>= CertManager.check

-- `test all`: every check in turn, up to the first that fails; `--no-dns-check` is not passed on.
unfoldable pub run_all : Checker → Action (Unit {0})
run_all checker = do
  run_cluster_autoscaler checker
  run_ingress checker false
  run_fluent checker
  run_datadog_agent checker
  run_cert_manager checker

unfoldable pub run_command : Command → Flags → Checker → Action (Unit {0})
run_command cluster_autoscaler flags checker = run_cluster_autoscaler checker
run_command ingress flags checker = run_ingress checker flags.no_dns_check
run_command fluent flags checker = run_fluent checker
run_command datadog_agent flags checker = run_datadog_agent checker
run_command cert_manager flags checker = run_cert_manager checker
run_command all flags checker = run_all checker

-- `initChatwork`
unfoldable pub init_chatwork : Action Chatwork
unfolding new_chatwork
init_chatwork = do
  api_token ← ask (λ env. env.getenv "CHATWORK_API_TOKEN")
  room_id ← ask (λ env. env.getenv "CHATWORK_ROOM_ID")
  new_chatwork api_token room_id

-- What `main` does with an error of `rootCmd.Execute`; `Fatal` ends the process with status 1.
unfoldable pub report_error : Chatwork → Error → Action (Unit {0})
report_error chatwork e = do add_message ("Error: " <> (text e <> "\n")); send chatwork; exit

-- The defaults that the flags `--log-level` and `--debug` set when they are declared. `main` makes the
-- logger before it parses the command line, so the logger never has other values.
abbrev pub initial_log_level : String
initial_log_level = "info"

abbrev pub initial_debug : Bool
initial_debug = false

-- `main`, where the command line names a command and its flags.
unfoldable pub main : Command → Flags → Action (Unit {0})
unfolding init_chatwork run_command report_error init_logger
main command flags = do
  cluster_name ← ask (λ env. env.getenv "CLUSTER_NAME")
  logger ← on_error (init_logger initial_log_level initial_debug) (λ e. panic)
  chatwork ← init_chatwork
  on_error (run_command command flags (checker_of flags chatwork cluster_name))
      (report_error chatwork)
