-- ===== src/Cli/Commands.antt =====
-- What holds of every command: of the five checks that it may make and run, and of `main` around it.
use kibertas.Prelude.{Bool, false, ◌⊎◌, inl, inr, ◌≡◌, ◌≢◌, refl}
use kibertas.Go.Errors.{Error}
use kibertas.Api.{Call, Request, Reply, answer, refused}
use kibertas.Logger.{init_logger}
use kibertas.Run.{State, exit, ok, Outcome, panicked, Env, IsLawful, Action, ◌>>=◌, on_error}
use kibertas.Run.Adds.{Adds, Adds-bind, Adds-exit}
use kibertas.Run.Success.{>>=-ok, on_error-ok}
use kibertas.Run.Makes.{Makes, Walks, Walks-made}
use kibertas.Notify.{add_message, send, Chatwork, new_chatwork, api_url}
use kibertas.Notify.Effects.{Adds-send, Adds-add_message}
use kibertas.Cmd.{Checker}
use kibertas.Ingress.Objects.{Ingress, new_ingress}
use kibertas.Ingress.New.{MadeIngress, new_ingress-Makes}
use kibertas.Ingress.Check as Ingress
use kibertas.Fluent.Objects.{Fluent, new_fluent}
use kibertas.Fluent.New.{MadeFluent, new_fluent-Makes}
use kibertas.Fluent.Check as Fluent
use kibertas.ClusterAutoscaler.Objects.{ClusterAutoscaler, new_cluster_autoscaler}
use kibertas.ClusterAutoscaler.New.{MadeClusterAutoscaler, new_cluster_autoscaler-Makes}
use kibertas.ClusterAutoscaler.Check as ClusterAutoscaler
use kibertas.CertManager.Objects.{CertManager, new_cert_manager}
use kibertas.CertManager.New.{MadeCertManager, new_cert_manager-Makes}
use kibertas.CertManager.Check as CertManager
use kibertas.DatadogAgent.New.{MadeDatadogAgent, new_datadog_agent-Makes}
use kibertas.DatadogAgent.Check as DatadogAgent
use kibertas.Cli.{
  Command, cluster_autoscaler, ingress, fluent, datadog_agent, cert_manager, all, Flags, checker_of,
  run_command, run_cluster_autoscaler, run_ingress, run_fluent, run_datadog_agent, run_cert_manager,
  run_all, init_chatwork, report_error, main,
}
use kibertas.Cli.Outcomes.{chatwork_of}

-- A property of actions that passes from the parts of a sequence to the sequence, where the second part
-- may count on what holds of the values of the first.
pub record IsSequential (env : Env) (R : (A : Type 0) → Action A → Type 0) : Type 1 where
  pub made :
      {A B : Type 0} {Q : A → Type 0} (m : Action A) (f : A → Action B)
      → Makes env Q m
      → R A m
      → ((a : A) → Q a → R B (f a))
      → R B (m >>= f)

pub Walks-sequential : {env : Env} {P : Call → Type 0} → IsSequential env (λ A. Walks {A = A} env P)
Walks-sequential = record { made = λ m f makes h k. Walks-made m f makes h k }

-- A property holds of the constructors, and of the checks that they make.
pub record OfChecks (env : Env) (checker : Checker) (R : (A : Type 0) → Action A → Type 0)
    : Type 0 where
  pub new_scaler : R _ (new_cluster_autoscaler checker)
  pub scaler :
      (c : ClusterAutoscaler)
      → MadeClusterAutoscaler env checker c
      → R _ (ClusterAutoscaler.check c)
  pub new_ingress : (no_dns_check : Bool) → R _ (new_ingress checker no_dns_check)
  pub ingress : (i : Ingress) → MadeIngress env checker i → R _ (Ingress.check i)
  pub new_fluent : R _ (new_fluent checker)
  pub fluent : (f : Fluent) → MadeFluent env checker f → R _ (Fluent.check f)
  pub new_agent : R _ (DatadogAgent.new_datadog_agent checker)
  pub agent :
      (d : DatadogAgent.DatadogAgent) → MadeDatadogAgent env checker d → R _ (DatadogAgent.check d)
  pub new_certs : R _ (new_cert_manager checker)
  pub certs : (c : CertManager) → MadeCertManager env checker c → R _ (CertManager.check c)

module _ {env : Env} (l : IsLawful env) {checker : Checker} {R : (A : Type 0) → Action A → Type 0}
    (seq : IsSequential env R) (checks : OfChecks env checker R) where
  run_cluster_autoscaler-holds : R _ (run_cluster_autoscaler checker)
  unfolding run_cluster_autoscaler
  run_cluster_autoscaler-holds =
      seq.made _ _ (new_cluster_autoscaler-Makes checker env l) checks.new_scaler checks.scaler

  run_ingress-holds : (no_dns_check : Bool) → R _ (run_ingress checker no_dns_check)
  unfolding run_ingress
  run_ingress-holds no_dns_check =
      seq.made _ _ (new_ingress-Makes checker no_dns_check env l) (checks.new_ingress no_dns_check)
        checks.ingress

  run_fluent-holds : R _ (run_fluent checker)
  unfolding run_fluent
  run_fluent-holds = seq.made _ _ (new_fluent-Makes checker env l) checks.new_fluent checks.fluent

  run_datadog_agent-holds : R _ (run_datadog_agent checker)
  unfolding run_datadog_agent
  run_datadog_agent-holds =
      seq.made _ _ (new_datadog_agent-Makes checker env) checks.new_agent checks.agent

  run_cert_manager-holds : R _ (run_cert_manager checker)
  unfolding run_cert_manager
  run_cert_manager-holds =
      seq.made _ _ (new_cert_manager-Makes checker env l) checks.new_certs checks.certs

  -- one after the other
  then : (m k : Action (Unit {0})) → R (Unit {0}) m → R (Unit {0}) k → R (Unit {0}) (m >>= λ u. k)
  then m k hm hk =
      seq.made {Q = λ u. Unit {0}} m (λ u. k) (record { at = λ s h. tt }) hm (λ u v. hk)

  pub run_command-holds :
      (command : Command) (flags : Flags) → R _ (run_command command flags checker)
  unfolding run_command run_all
  run_command-holds cluster_autoscaler flags = run_cluster_autoscaler-holds
  run_command-holds ingress flags = run_ingress-holds flags.no_dns_check
  run_command-holds fluent flags = run_fluent-holds
  run_command-holds datadog_agent flags = run_datadog_agent-holds
  run_command-holds cert_manager flags = run_cert_manager-holds
  run_command-holds all flags = then _ _ run_cluster_autoscaler-holds (
      then _ _ (run_ingress-holds false)
        (then _ _ run_fluent-holds (then _ _ run_datadog_agent-holds run_cert_manager-holds)))

pub Adds-report_error :
    {P : Call → Type 0} (c : Chatwork)
    → ((r : Request) → r.url ≡ api_url c → P (Call.post_message r))
    → (e : Error) → Adds P (report_error c e)
unfolding report_error
Adds-report_error c message e =
    Adds-bind _ _ (Adds-add_message _) (λ u. Adds-bind _ _ (Adds-send c message) (λ v. Adds-exit))

Reply-cases :
    {A : Type 0} (r : Reply A) → ((a : A) × (r ≡ answer a)) ⊎ ((e : Error) × (r ≡ refused e))
Reply-cases (answer a) = inl (a, refl)
Reply-cases (refused e) = inr (e, refl)

-- The checker of a run.
abbrev pub main_checker : Flags → Env → Checker
main_checker flags env = checker_of flags (chatwork_of env) (env.getenv "CLUSTER_NAME")

-- `main` panics at once, where the logger cannot be made, or else runs the command and reports its
-- error.
pub main-from :
    (command : Command) (flags : Flags) (env : Env) (s : State)
    (Q : Outcome (Unit {0}) × State → Type 0)
    → Q (panicked, s)
    → Q (
        on_error
          (run_command command flags (main_checker flags env))
          (report_error (chatwork_of env))
          env
          s)
    → Q (main command flags env s)
unfolding main init_logger init_chatwork new_chatwork ◌>>=◌
main-from command flags env s Q panics runs = elim (Reply-cases (env.parse_level "info")) [
  | inl (level, p) ↦ rw p runs
  | inr (e, p) ↦ rw p panics
]

report_error-fails :
    (c : Chatwork) (e : Error) (env : Env) (s : State) {t : State}
    → report_error c e env s ≢ (ok tt, t)
unfolding report_error exit
report_error-fails c e env s h =
    let (u1, s1, p1, h1) = >>=-ok (add_message _) _ env s h in
    let (u2, s2, p2, h2) = >>=-ok (send c) _ env s1 h1 in cc h2

-- `main` returns only when the command has returned no error.
pub main-ok :
    (command : Command) (flags : Flags) (env : Env) (s : State) {t : State}
    → main command flags env s ≡ (ok tt, t)
    → run_command command flags (main_checker flags env) env s ≡ (ok tt, t)
main-ok command flags env s {t} =
    let runs = run_command command flags (main_checker flags env) in
    main-from command flags env s (λ p. p ≡ (ok tt, t) → runs env s ≡ (ok tt, t)) (λ h. cc h)
      (λ h. elim (on_error-ok runs (report_error (chatwork_of env)) env s h) [
        | inl e ↦ e
        | inr (e, s', q, r) ↦ absurd (report_error-fails (chatwork_of env) e env s' r)
      ])
