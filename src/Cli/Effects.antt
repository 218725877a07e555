-- ===== src/Cli/Effects.antt =====
-- What the commands do outside the program: what they change, and where they send messages.
use mathlib.Core.Path.{subst}
use kibertas.Prelude.{String, inl, inr, ◌≡◌, refl, sym, ap, ◌∙◌}
use kibertas.Api.{Call}
use kibertas.Scope.{
  Effect, reads, creates, updates, deletes, home, posts, effect_of, Allowed, Within,
}
use kibertas.Run.{Env, IsLawful, Action}
use kibertas.Run.Trace.{Runs-map}
use kibertas.Run.Adds.{Adds}
use kibertas.Run.Makes.{Walks}
use kibertas.Cli.Commands.{OfChecks, run_command-holds, Walks-sequential}
use kibertas.Notify.{api_url}
use kibertas.Cmd.{Checker}
use kibertas.Cmd.Effects.{IsOurs}
use kibertas.Ingress.New.{Adds-new_ingress}
use kibertas.Ingress.Effects as Ingress
use kibertas.Fluent.New.{Adds-new_fluent}
use kibertas.Fluent.Effects as Fluent
use kibertas.ClusterAutoscaler.New.{Adds-new_cluster_autoscaler}
use kibertas.ClusterAutoscaler.Effects as ClusterAutoscaler
use kibertas.CertManager.New.{Adds-new_cert_manager}
use kibertas.CertManager.Effects as CertManager
use kibertas.DatadogAgent.New.{Adds-new_datadog_agent}
use kibertas.DatadogAgent.Effects as DatadogAgent
use kibertas.DatadogAgent.Check as Datadog
use kibertas.Cli.{Command, Flags, run_command}

-- Changes stay in namespaces for tests or the one of the environment variable, and messages go to
-- a URL.
abbrev pub Permitted : Env → String → Effect → Type 0
Permitted env url reads = Unit
Permitted env url (creates o) = IsOurs env (home o)
Permitted env url (updates o) = IsOurs env (home o)
Permitted env url (deletes o) = IsOurs env (home o)
Permitted env url (posts r) = r.url ≡ url

-- A call that creates, updates or deletes does so in a namespace that is named for a test or that
-- `RESOURCE_NAMESPACE` gives, and a message is sent to this URL.
abbrev pub Ours : Env → String → Call → Type 0
Ours env url c = Permitted env url (effect_of c)

Permitted-reads : (env : Env) (url : String) (e : Effect) → e ≡ reads → Permitted env url e
Permitted-reads env url e h = subst (Permitted env url) (sym h) tt

-- The calls of a check whose namespace is ours.
Allowed-Permitted :
    (env : Env) (url url' ns : String)
    → url ≡ url'
    → IsOurs env ns
    → (e : Effect) → Allowed url ns e
    → Permitted env url' e
Allowed-Permitted env url url' ns same ours reads h = tt
Allowed-Permitted env url url' ns same ours (creates o) h = subst (IsOurs env) (sym h) ours
Allowed-Permitted env url url' ns same ours (updates o) h = subst (IsOurs env) (sym h) ours
Allowed-Permitted env url url' ns same ours (deletes o) h = subst (IsOurs env) (sym h) ours
Allowed-Permitted env url url' ns same ours (posts r) h = h ∙ same

module _ (env : Env) (l : IsLawful env) (checker : Checker) where
  abbrev OurCalls : Call → Type 0
  OurCalls = Ours env (api_url checker.chatwork)

  quiet : (c : Call) → effect_of c ≡ reads → OurCalls c
  quiet c = Permitted-reads env (api_url checker.chatwork) (effect_of c)

  -- the calls of a check that was made for this checker
  checks :
      {A : Type 0} {url ns : String} {m : Action A}
      → url ≡ api_url checker.chatwork
      → IsOurs env ns
      → Adds (Within url ns) m
      → Walks env OurCalls m
  checks {url} {ns} same ours k t =
      Runs-map
        (λ c. Allowed-Permitted env url (api_url checker.chatwork) ns same ours (effect_of c))
        (k.at env l t)

  -- the datadog-agent check makes no change, so every namespace will do
  checks-Ours : OfChecks env checker (λ A. Walks {A = A} env OurCalls)
  checks-Ours = record {
    new_scaler = (Adds-new_cluster_autoscaler quiet checker).at env l;
    scaler = λ c (same, named, mode, timely, set).
        checks (ap api_url same) (inl named) (ClusterAutoscaler.check-Within c);
    new_ingress = λ no_dns_check. (Adds-new_ingress quiet checker no_dns_check).at env l;
    ingress = λ i (same, named, mode, timely, set).
        checks (ap api_url same) (inl named) (Ingress.check-Within i);
    new_fluent = (Adds-new_fluent quiet checker).at env l;
    fluent =
        λ f (same, ours, mode, timely, set). checks (ap api_url same) ours (Fluent.check-Within f);
    new_agent = (Adds-new_datadog_agent (quiet Call.now refl) checker).at env l;
    agent = λ d (same, (client, keys, asks), timely, query). checks (ap api_url same) (inr refl) (
        subst
          (λ x.
            Adds (Within (api_url d.chatwork) (env.getenv "RESOURCE_NAMESPACE")) (Datadog.check x))
          (sym asks) (DatadogAgent.check-Within (env.getenv "RESOURCE_NAMESPACE") d client));
    new_certs = (Adds-new_cert_manager quiet checker).at env l;
    certs = λ c (same, named, mode, timely, set).
        checks (ap api_url same) (inl named) (CertManager.check-Within c);
  }

  pub run_command-Ours :
      (command : Command) (flags : Flags) → Walks env OurCalls (run_command command flags checker)
  run_command-Ours = run_command-holds l Walks-sequential checks-Ours
