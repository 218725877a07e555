-- ===== src/Lib.antt =====
-- kibertas: end-to-end checks of the add-ons of a Kubernetes cluster.
--
-- The program runs one of five checks, or all of them in turn. Each creates resources in a namespace,
-- waits until the cluster has reacted, deletes what it created, and sends the messages that it
-- gathered on the way to Chatwork. The parts and the files that model them:
--
--   main.go                     Cli: the commands, flags and `main`; Cli/Tree: the tree that cobra is
--                               given; Cli/Signals: `newSignalContext`; Logger: `initLogger`
--   cmd/checker.go              Cmd: `Checker`, and what the constructors of the checks share
--   cmd/ingress                 Ingress: Objects (constructor and objects), Check (the methods)
--   cmd/fluent                  Fluent, in the same way
--   cmd/cluster-autoscaler      ClusterAutoscaler, in the same way
--   cmd/cert-manager            CertManager, in the same way
--   cmd/datadog-agent           DatadogAgent: Client (client.go), Check (datadog-agent.go)
--   config/config.go            Config
--   util/k8s/resources.go       K8s
--   util/notify/chatwork.go     Notify
--   util/util.go                Util
--   internal/ktesting           Ktesting
--
-- Go and Prelude hold what is used of Go itself (errors, number formats, hex digits) and shared
-- notation; Util/Texts, texts by their
-- characters; Cmd/Labels, the names that Kubernetes accepts; Steps, the pieces that the methods
-- of every check are made of; Scope, what a call does outside the program: which namespace,
-- deployment, service, ingress, certificate or issuer it creates, updates or deletes, or where it
-- posts; Tests, runs at concrete inputs. Run holds the actions and predicates on them with a rule for
-- each way to build an action: Adds (by which steps an action runs, on the step relation of Trace),
-- Lives (it does not end the process), Makes (what holds of the values it returns), Returns (it returns
-- a value), Left (what it leaves in the cluster), Goes (whether each call may be made after the calls
-- before it), Housed (whether it is made in a namespace that is there), Seen and Shows (what has been
-- observed when it succeeds), Says (which messages it has gathered or posted then), Cluster (what is in the cluster, by the answers to the calls), Cancelled
-- (what a cancelled context refuses). In each component, Effects, Owns, Debug, New, Success, Cleared,
-- Housed, Cancelled and Evidence apply them to its definitions, and CleanUp says what a check leaves
-- behind. Steps/Plan is the shape of a check without its deferred calls, and Plan in a component is
-- the plan that its `check` carries out.
-- Cli/Commands takes a property that passes from the parts of a sequence to the sequence, and from
-- the constructors and checks to every command and to `main`; the files beside it apply it. Healthy
-- says when all that is checked is in order.
--
-- A Go function that acts is an `Action` (Run): it takes an environment and a state, and returns an
-- outcome and a state. The state has the messages of the shared `Chatwork` and all the calls that left
-- the program, newest first. An outcome is a value with a nil error, an error, a panic, or the end of
-- the process; `deferred` runs a deferred call after a return and after a panic. Methods have the names
-- of the source in snake case: `cleanUpResources` is `clean_up_resources`. `Check` is split at its
-- deferred calls: `run_checks` is the part behind them.
--
-- Everything outside the repository is the environment `Env`: client-go, controller-runtime, DNS, HTTP,
-- S3, Datadog, the clock, random numbers and `os.Getenv` answer each call by a function of all the calls
-- before it, so a cluster may change in any way. `wait.PollUntilContextTimeout` and
-- `multierror.ErrorOrNil` are functions of the environment too; `IsLawful` states what their
-- documentation promises, and Tests/World has an environment that meets it.
--
-- No loop of the model needs fuel but that of the decimal digits of a number, where the number itself
-- and one are enough, since a number has no more digits than that. Polls are not run by the model: a
-- poll may run its condition any finite number of times. An `int32` is a bit pattern.
--
-- `main` starts where the command line has been parsed by cobra, with a command and flags, except that
-- the logger is made before, as in the source. The goroutine for signals is a list of steps that
-- interleave with the steps of a run in any order, also between the reading of the messages in `Send`,
-- the request, and the deferred `Reset`; in the actions, where `Send` is whole, its effect is that a
-- poll or a sleep may end with the error of a cancelled context at any time, and that requests are refused. Which
-- requests these are is told by `context_of` (Api/Contexts), which says of each whether it is made with
-- the context that a signal cancels, or with one of its own, as the deletions are.
--
-- Not modelled: what is logged; the fields of objects that hold clients; how cobra parses a command
-- line and prints its help; the two writers of the messages are never in the middle of a write.
pub mod Prelude
pub mod Go
pub mod Api
pub mod Run
pub mod Util
pub mod Logger
pub mod Notify
pub mod Cmd
pub mod Config
pub mod K8s
pub mod Steps
pub mod Ingress
pub mod Fluent
pub mod ClusterAutoscaler
pub mod CertManager
pub mod DatadogAgent
pub mod Cli
pub mod Ktesting
pub mod Scope
pub mod Healthy
pub mod Tests
