-- ===== src/Cli/Sent.antt =====
-- What a command says, and that it is sent by the time it succeeds.
use text.Mathlib.TextLemmas.{append-nil as text_nil}
use mathlib.Core.Path.{subst}
use kibertas.Scope.{effect_of, reads}
use kibertas.Run.Adds.{Adds}
use kibertas.Run.Log.{log, posted_text}
use kibertas.Run.Says.{Reports, Says, Says-nothing, Says-made, Says-then}
use kibertas.Cli.Says.{
  ingress-Says, fluent-Says, cluster_autoscaler-Says, cert_manager-Says, datadog_agent-Says,
}
use kibertas.Ingress.New.{Adds-new_ingress, new_ingress-Makes}
use kibertas.Fluent.New.{Adds-new_fluent, new_fluent-Makes}
use kibertas.ClusterAutoscaler.New.{Adds-new_cluster_autoscaler, new_cluster_autoscaler-Makes}
use kibertas.CertManager.New.{Adds-new_cert_manager, new_cert_manager-Makes}
use kibertas.DatadogAgent.New.{Adds-new_datadog_agent, new_datadog_agent-Makes}
use kibertas.Cli.Outcomes.{chatwork_of}
use kibertas.Prelude.{
  false, Bool, none, String, ◌<>◌, List, ◌∷◌, refl, concat, [], ◌≡◌, sym, ap, ◌∙◌,
}
use kibertas.Run.{IsLawful, State, Outcome, ok, Env, Action, ◌>>=◌, deferred}
use kibertas.Run.Success.{>>=-ok, deferred-ok}
use kibertas.Notify.{Chatwork, api_url, send}
use kibertas.Notify.Effects.{send_lem}
use kibertas.Cmd.{Checker, new_checker}
use kibertas.Ingress.Check as Ingress
use kibertas.Fluent.Check as Fluent
use kibertas.ClusterAutoscaler.Check as ClusterAutoscaler
use kibertas.CertManager.Check as CertManager
use kibertas.DatadogAgent.Check as DatadogAgent
use kibertas.Cli.{
  Command, cluster_autoscaler, ingress, fluent, datadog_agent, cert_manager, all, Flags,
  run_command, run_cluster_autoscaler, run_ingress, run_fluent, run_datadog_agent, run_cert_manager,
  run_all, checker_of, main,
}
use kibertas.Cli.Commands.{main_checker, main-ok}

-- When `m` returns a value, no message is left.
record Sends {A : Type 0} (env : Env) (m : Action A) : Type 0 where
  at : (s : State) {a : A} {t : State} → m env s ≡ (ok a, t) → t.messages ≡ []

send-messages : (c : Chatwork) (env : Env) (s : State) → (send c env s).1.messages ≡ []
send-messages c env s = ap (λ (p : Outcome (Unit {0}) × State). p.1.messages) (send_lem env c s)

module _ {env : Env} where
  Sends-deferred : {A : Type 0} (c : Chatwork) (m : Action A) → Sends env (deferred (send c) m)
  Sends-deferred c m = record {
    at = λ s h.
        let (s', p, q) = deferred-ok (send c) m env s h in
        ap (λ (x : State). x.messages) (sym q) ∙ send-messages c env s';
  }

  Sends-bind :
      {A B : Type 0} (m : Action A) (f : A → Action B)
      → ((a : A) → Sends env (f a))
      → Sends env (m >>= f)
  Sends-bind m f k = record { at = λ s h. let (a, s', p, q) = >>=-ok m f env s h in (k a).at s' q }

  Sends-run_ingress : (checker : Checker) (b : Bool) → Sends env (run_ingress checker b)
  unfolding run_ingress Ingress.check
  Sends-run_ingress checker b = Sends-bind _ _ (λ i. Sends-bind _ _ (λ u. Sends-deferred _ _))

  Sends-run_fluent : (checker : Checker) → Sends env (run_fluent checker)
  unfolding run_fluent Fluent.check
  Sends-run_fluent checker = Sends-bind _ _ (λ f. Sends-bind _ _ (λ u. Sends-deferred _ _))

  Sends-run_cluster_autoscaler : (checker : Checker) → Sends env (run_cluster_autoscaler checker)
  unfolding run_cluster_autoscaler ClusterAutoscaler.check
  Sends-run_cluster_autoscaler checker =
      Sends-bind _ _ (λ c. Sends-bind _ _ (λ u. Sends-deferred _ _))

  Sends-run_datadog_agent : (checker : Checker) → Sends env (run_datadog_agent checker)
  unfolding run_datadog_agent DatadogAgent.check
  Sends-run_datadog_agent checker = Sends-bind _ _ (λ d. Sends-deferred _ _)

  Sends-run_cert_manager : (checker : Checker) → Sends env (run_cert_manager checker)
  unfolding run_cert_manager CertManager.check
  Sends-run_cert_manager checker = Sends-bind _ _ (λ c. Sends-bind _ _ (λ u. Sends-deferred _ _))

  Sends-run_command :
      (command : Command) (flags : Flags) (checker : Checker)
      → Sends env (run_command command flags checker)
  unfolding run_command run_all
  Sends-run_command cluster_autoscaler flags checker = Sends-run_cluster_autoscaler checker
  Sends-run_command ingress flags checker = Sends-run_ingress checker flags.no_dns_check
  Sends-run_command fluent flags checker = Sends-run_fluent checker
  Sends-run_command datadog_agent flags checker = Sends-run_datadog_agent checker
  Sends-run_command cert_manager flags checker = Sends-run_cert_manager checker
  Sends-run_command all flags checker = Sends-bind _ _ (λ u1.
      Sends-bind _ _
        (λ u2. Sends-bind _ _ (λ u3. Sends-bind _ _ (λ u4. Sends-run_cert_manager checker))))

-- What a command says on the way to success.
abbrev pub texts : Command → List String
texts cluster_autoscaler =
    "cluster-autoscaler check start\n" ∷ "cluster-autoscaler check finished\n" ∷ []
texts ingress = "Ingress check start\n" ∷ "Ingress check finished\n" ∷ []
texts fluent = "fluent check start\n" ∷ "fluent check finished\n" ∷ []
texts datadog_agent = "datadog-agent check start\n" ∷ "datadog-agent check finished\n" ∷ []
texts cert_manager = "cert-manager check start\n" ∷ "cert-manager check finished\n" ∷ []
texts all =
    "cluster-autoscaler check start\n" ∷ "cluster-autoscaler check finished\n"
    ∷ "Ingress check start\n" ∷ "Ingress check finished\n" ∷ "fluent check start\n"
    ∷ "fluent check finished\n" ∷ "datadog-agent check start\n" ∷ "datadog-agent check finished\n"
    ∷ "cert-manager check start\n" ∷ "cert-manager check finished\n" ∷ []

module _ {env : Env} (l : IsLawful env) (checker : Checker)
    (good : env.bad_url (api_url checker.chatwork) ≡ none) where
  -- a constructor posts nothing
  made : {A : Type 0} {m : Action A} → Adds (λ c. effect_of c ≡ reads) m → Says env [] m
  made k = Says-nothing l (λ c. effect_of c ≡ reads) (λ r same. cc same) k

  room : {c : Chatwork} → c ≡ checker.chatwork → env.bad_url (api_url c) ≡ none
  room same = ap (λ x. env.bad_url (api_url x)) same ∙ good

  run_cluster_autoscaler-Says : Says env (texts cluster_autoscaler) (run_cluster_autoscaler checker)
  unfolding run_cluster_autoscaler
  run_cluster_autoscaler-Says =
      Says-made _ _ (new_cluster_autoscaler-Makes checker env l)
        (made (Adds-new_cluster_autoscaler (λ c e. e) checker))
        (λ c (same, named, mode, timely, set). cluster_autoscaler-Says l c (room same))

  run_ingress-Says : (b : Bool) → Says env (texts ingress) (run_ingress checker b)
  unfolding run_ingress
  run_ingress-Says b =
      Says-made _ _ (new_ingress-Makes checker b env l)
        (made (Adds-new_ingress (λ c e. e) checker b))
        (λ i (same, named, mode, timely, set). ingress-Says l i (room same))

  run_fluent-Says : Says env (texts fluent) (run_fluent checker)
  unfolding run_fluent
  run_fluent-Says =
      Says-made _ _ (new_fluent-Makes checker env l) (made (Adds-new_fluent (λ c e. e) checker))
        (λ f (same, ours, mode, timely, set). fluent-Says l f (room same))

  run_datadog_agent-Says : Says env (texts datadog_agent) (run_datadog_agent checker)
  unfolding run_datadog_agent
  run_datadog_agent-Says =
      Says-made _ _ (new_datadog_agent-Makes checker env)
        (made (Adds-new_datadog_agent refl checker))
        (λ d (same, (client, keys, asks), timely, query).
          subst (λ x. Says env (texts datadog_agent) (DatadogAgent.check x)) (sym asks)
            (datadog_agent-Says l d client (room same)))

  run_cert_manager-Says : Says env (texts cert_manager) (run_cert_manager checker)
  unfolding run_cert_manager
  run_cert_manager-Says =
      Says-made _ _ (new_cert_manager-Makes checker env l)
        (made (Adds-new_cert_manager (λ c e. e) checker))
        (λ c (same, named, mode, timely, set). cert_manager-Says l c (room same))

  run_command-Says :
      (command : Command) (flags : Flags)
      → Says env (texts command) (run_command command flags checker)
  unfolding run_command run_all
  run_command-Says cluster_autoscaler flags = run_cluster_autoscaler-Says
  run_command-Says ingress flags = run_ingress-Says flags.no_dns_check
  run_command-Says fluent flags = run_fluent-Says
  run_command-Says datadog_agent flags = run_datadog_agent-Says
  run_command-Says cert_manager flags = run_cert_manager-Says
  run_command-Says all flags = Says-then _ _ run_cluster_autoscaler-Says (λ u1.
      Says-then _ _ (run_ingress-Says false) (λ u2.
        Says-then _ _ run_fluent-Says
          (λ u3. Says-then _ _ run_datadog_agent-Says (λ u4. run_cert_manager-Says))))

-- In a lawful environment where the URL of the room is well-formed, if a command ends without an
-- error, no message is left unsent, and the text of all posts begins with what had been posted or
-- gathered before the run, and has after that, in this order, the messages about the start and the
-- finish of each check of the command: those of its one check, or for test all those of the five
-- checks in turn.
pub main_sent :
    (command : Command) (flags : Flags) (env : Env) (s : State) {t : State}
    → IsLawful env
    → env.bad_url (api_url (chatwork_of env)) ≡ none
    → main command flags env s ≡ (ok tt, t)
    → (t.messages ≡ []) × Reports (texts command) (log s) (posted_text t.calls)
unfolding checker_of new_checker
main_sent command flags env s {t} l good h =
    let ran = main-ok command flags env s h in
    let empty = (Sends-run_command command flags (main_checker flags env)).at s ran in
    let said = (run_command-Says l (main_checker flags env) good command flags).at s ran in
    (
      empty,
      subst (Reports (texts command) (log s))
          (ap (λ (ms : List String). posted_text t.calls <> concat ms) empty
            ∙ text_nil (posted_text t.calls))
          said,
    )
