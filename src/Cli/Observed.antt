-- ===== src/Cli/Observed.antt =====
-- What each command tests, as what is observed in a run.
use kibertas.Prelude.{text_or, ◌<>◌, Bool, true, false, List}
use kibertas.Api.{Call}
use kibertas.Run.{Env}
use kibertas.Run.Seen.{Seen}
use kibertas.Run.Shows.{
  IsObservation, Seen-IsObservation, Both, Both-IsObservation, Some, Some-IsObservation,
}
use kibertas.Cmd.Effects.{IsTestNamespace, IsOurs}
use kibertas.K8s.Ready.{Ready}
use kibertas.Ingress.Objects.{Ingress}
use kibertas.Ingress.Replies.{Resolved, Served}
use kibertas.Fluent.Objects.{Fluent}
use kibertas.Fluent.Shipped.{Shipped}
use kibertas.ClusterAutoscaler.Objects.{ClusterAutoscaler}
use kibertas.CertManager.Objects.{CertManager}
use kibertas.DatadogAgent.Client.{DatadogClient}
use kibertas.Ingress.New as IngressNew
use kibertas.Fluent.New as FluentNew
use kibertas.ClusterAutoscaler.New as ScalerNew
use kibertas.CertManager.New as CertsNew
use kibertas.CertManager.Evidence.{Present}
use kibertas.DatadogAgent.New.{HasKeys}
use kibertas.DatadogAgent.Evidence.{Arrived}
use kibertas.Cli.{
  Flags, Command, cluster_autoscaler, ingress, fluent, datadog_agent, cert_manager, all,
}

-- The deployment of a cluster-autoscaler check was ready.
abbrev pub Scaled : Env → List Call → List Call → Type 0
Scaled env =
    Some ClusterAutoscaler (λ c. IsTestNamespace env c.namespace × ScalerNew.IsConfigured env c)
      (λ c. Seen (Ready env c.namespace c.resource_name))

-- An observation of a part that may be skipped.
abbrev pub Unless : Bool → (List Call → List Call → Type 0) → List Call → List Call → Type 0
Unless true R old new = Unit
Unless false R old new = R old new

-- The deployment of an ingress check was ready, its host name had an address, unless that check is
-- skipped, and its endpoint answered 200.
abbrev pub Routed : Env → Bool → List Call → List Call → Type 0
Routed env no_dns_check =
    Some Ingress (λ i. IsTestNamespace env i.namespace × IngressNew.IsConfigured env i)
      (λ i.
        Both (Seen (Ready env i.namespace i.resource_name))
          (Both (Unless no_dns_check (Seen (Resolved env i))) (Seen (Served env i))))

-- The deployment of a fluent check was ready, and its logs arrived.
abbrev pub Collected : Env → List Call → List Call → Type 0
Collected env =
    Some Fluent (λ f. IsOurs env f.namespace × FluentNew.IsConfigured env f) (Shipped env)

-- A query with the two keys of the environment was answered with a series.
abbrev pub Measured : Env → List Call → List Call → Type 0
Measured env = Some DatadogClient (HasKeys env) (λ client.
    Seen (
      Arrived env client (text_or (env.getenv "QUERY_METRICS") "avg:kubernetes.cpu.user.total{*}")))

-- The secrets of both certificates of a cert-manager check were there.
abbrev pub Certified : Env → List Call → List Call → Type 0
Certified env =
    Some CertManager (λ c. IsTestNamespace env c.namespace × CertsNew.IsConfigured env c)
      (λ c.
        Both (Seen (Present env c.namespace (c.resource_name <> "-tls")))
          (Seen (Present env c.namespace (c.resource_name <> "-cert"))))

-- All of these, in the order of the five checks.
abbrev pub All : Env → List Call → List Call → Type 0
All env =
    Both (Scaled env)
      (Both (Routed env false) (Both (Collected env) (Both (Measured env) (Certified env))))

-- What a command tests.
abbrev pub Evidence : Env → Flags → Command → List Call → List Call → Type 0
Evidence env flags cluster_autoscaler = Scaled env
Evidence env flags ingress = Routed env flags.no_dns_check
Evidence env flags fluent = Collected env
Evidence env flags datadog_agent = Measured env
Evidence env flags cert_manager = Certified env
Evidence env flags all = All env

pub Unless-IsObservation :
    {R : List Call → List Call → Type 0} (b : Bool) → IsObservation R → IsObservation (Unless b R)
Unless-IsObservation true o = record { before = λ h p. tt; after = λ h p. tt }
Unless-IsObservation false o = o

pub Routed-IsObservation :
    (env : Env) (no_dns_check : Bool) → IsObservation (Routed env no_dns_check)
Routed-IsObservation env no_dns_check = Some-IsObservation (λ i.
    Both-IsObservation Seen-IsObservation (
      Both-IsObservation (Unless-IsObservation no_dns_check Seen-IsObservation) Seen-IsObservation))

pub Measured-IsObservation : (env : Env) → IsObservation (Measured env)
Measured-IsObservation env = Some-IsObservation (λ client. Seen-IsObservation)

pub Certified-IsObservation : (env : Env) → IsObservation (Certified env)
Certified-IsObservation env =
    Some-IsObservation (λ c. Both-IsObservation Seen-IsObservation Seen-IsObservation)
