-- ===== src/Fluent/Objects.antt =====
-- `Fluent`, its constructor and the deployment that it creates.
use kibertas.Prelude.{
  ℕ, String, ◌<>◌, Bool, true, false, Option, none, some, [], ◌∷◌, is_set, str_eq, any,
  if◌then◌else◌,
}
use kibertas.Go.Errors.{plain, text}
use kibertas.Go.Format.{decimal, decimal_02}
use kibertas.Api.{AwsConfig, Time, Deployment, apart_from}
use kibertas.Run.{Action, pure, throw, ◌>>=◌, ◌>>◌, on_error, ask}
use kibertas.Util.{int32, int32_ptr, generate_random_string}
use kibertas.Notify.{add_message}
use kibertas.Config.{new_k8s_clientset, new_aws_config}
use kibertas.Cmd.{Checker, now, test_namespace, announce_start, getenv_or}

-- `Clientset` is left out.
pub record Fluent : Type 0 where
  pub checker : Checker
  pub open checker use *
  pub namespace : String
  pub log_bucket_name : String
  pub log_path : String
  pub use_path_style : Bool
  pub resource_name : String
  pub replica_count : ℕ
  pub awscfg : AwsConfig

-- `strconv.ParseBool`; `none` is its error.
unfoldable pub parse_bool : String → Option Bool
parse_bool v =
    if any (str_eq v) ("1" ∷ "t" ∷ "T" ∷ "TRUE" ∷ "true" ∷ "True" ∷ [])
    then some true
    else if any (str_eq v) ("0" ∷ "f" ∷ "F" ∷ "FALSE" ∷ "false" ∷ "False" ∷ [])
    then some false
    else none

-- What `USE_PATH_STYLE` says; the default is false, also where the text is no Boolean.
unfoldable pub path_style : String → Bool
unfolding parse_bool
path_style v = if is_set v then elim (parse_bool v) [ none ↦ false | some b ↦ b ] else false

-- `fluentd/<env>/<namespace>/dt=<date in UTC>`
unfoldable pub default_log_path : String → String → Time → String
unfolding decimal decimal_02
default_log_path env namespace t =
    "fluentd/"
    <> (env
        <> ("/"
            <> (namespace
                <> ("/dt="
                    <> (decimal t.utc_year <> (decimal_02 t.utc_month <> decimal_02 t.utc_day))))))

-- `NewFluent`
unfoldable pub new_fluent : Checker → Action Fluent
new_fluent checker = do
  t ← now
  suffix ← generate_random_string 5
  namespace ← getenv_or "RESOURCE_NAMESPACE" (test_namespace "fluent" t suffix)
  announce_start checker.cluster_name
  add_message ("fluent check application Namespace: " <> (namespace <> "\n"))
  resource_name ← getenv_or "RESOURCE_NAME" "burst-log-generator"
  environment ← getenv_or "ENV" "test"
  log_bucket_name ← getenv_or "LOG_BUCKET_NAME" "kubernetes-logs"
  style ← ask (λ env. env.getenv "USE_PATH_STYLE")
  log_path ← getenv_or "LOG_PATH" (default_log_path environment namespace t)
  on_error new_k8s_clientset (λ e. throw (plain ("NewK8sClientset: " <> text e)))
  aws_config ← on_error new_aws_config (λ e. throw (plain ("NewAwsConfig: " <> text e)))
  pure (record {
    checker = checker;
    namespace = namespace;
    log_bucket_name = log_bucket_name;
    log_path = log_path;
    use_path_style = path_style style;
    resource_name = resource_name;
    replica_count = 0;
    awscfg = aws_config;
  })

unfoldable pub create_deployment_object : Fluent → Deployment
unfolding int32_ptr
create_deployment_object f = record {
  name = f.resource_name;
  replicas = int32_ptr (int32 f.replica_count);
  match_labels = ("app", f.resource_name) ∷ [];
  template = record {
    labels = ("app", f.resource_name) ∷ [];
    tolerations = [];
    affinity = some (record {
      node_selector_terms = [];
      anti_required = [];
      anti_preferred =
          record {
            weight = 10;
            pod_affinity_term = apart_from "app.kubernetes.io/instance" ("fluentd" ∷ []);
          }
          ∷ record { weight = 1; pod_affinity_term = apart_from "app" (f.resource_name ∷ []) }
          ∷ [];
    });
    containers =
        record {
          name = "ubuntu";
          image = "ubuntu";
          args =
              "sh" ∷ "-c"
              ∷ "while true; do cat /dev/urandom | tr -dc 'a-zA-Z0-9' | fold -w 128; echo; sleep 2; done"
              ∷ [];
          ports = [];
        }
        ∷ [];
  };
}
