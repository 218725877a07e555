-- ===== src/CertManager/Objects.antt =====
-- `CertManager`, its constructor and the certificates that it creates.
use kibertas.Prelude.{String, ◌<>◌, true, false, none, some, [], ◌∷◌}
use kibertas.Go.Errors.{plain, text}
use kibertas.Api.{Certificate, Issuer}
use kibertas.Run.{Action, pure, throw, ◌>>=◌, ◌>>◌, on_error}
use kibertas.Util.{generate_random_string}
use kibertas.Notify.{add_message}
use kibertas.Config.{new_k8s_clientset, new_k8s_client}
use kibertas.Cmd.{Checker, now, test_namespace, announce_start, getenv_or}

-- `Clientset` and `Client` are left out.
pub record CertManager : Type 0 where
  pub checker : Checker
  pub open checker use *
  pub namespace : String
  pub resource_name : String

-- `certificates`
pub record Certificates : Type 0 where
  pub root_ca : Certificate
  pub issuer : Issuer
  pub certificate : Certificate

-- `NewCertManager`
unfoldable pub new_cert_manager : Checker → Action CertManager
new_cert_manager checker = do
  t ← now
  suffix ← generate_random_string 5
  let namespace = test_namespace "cert-manager" t suffix
  resource_name ← getenv_or "RESOURCE_NAME" "sample"
  announce_start checker.cluster_name
  add_message ("cert-manager check application Namespace: " <> (namespace <> "\n"))
  on_error new_k8s_clientset (λ e. throw (plain ("error NewK8sClientset: " <> text e)))
  on_error new_k8s_client (λ e. throw (plain ("error NewK8sClient: " <> text e)))
  pure (record { checker = checker; namespace = namespace; resource_name = resource_name })

unfoldable pub create_certificate_object : CertManager → Certificates
create_certificate_object c =
    let ca_name = c.resource_name <> "-ca" in
    let ca_secret_name = c.resource_name <> "-tls" in
    let issuer_name = c.resource_name <> "-issuer" in
    let certificate_name = c.resource_name <> "-cert" in
    let certificate_secret_name = certificate_name in
    record {
      root_ca = record {
        name = ca_name;
        namespace = c.namespace;
        secret_name = ca_secret_name;
        common_name = ca_secret_name;
        is_ca = true;
        private_key = some (record { algorithm = "ECDSA"; size = 256 });
        issuer_ref = record {
          name = "selfsigned-issuer";
          kind = "ClusterIssuer";
          group = "cert-manager.io";
        };
        dns_names = [];
      };
      issuer = record {
        name = issuer_name;
        namespace = c.namespace;
        ca_secret_name = ca_secret_name;
      };
      certificate = record {
        name = certificate_name;
        namespace = c.namespace;
        secret_name = certificate_secret_name;
        common_name = "";
        is_ca = false;
        private_key = none;
        issuer_ref = record { name = issuer_name; kind = "Issuer"; group = "" };
        dns_names =
            c.resource_name
            ∷ (c.resource_name <> ("." <> (c.namespace <> ".svc")))
            ∷ (c.resource_name <> ("." <> (c.namespace <> ".svc.cluster.local")))
            ∷ [];
      };
    }
