-- ===== src/Api/Calls.antt =====
-- The calls that leave the program, and the answers as far as the program reads them.
use kibertas.Prelude.{ℕ, String, Bool, Option, List}
use kibertas.Go.Errors.{Error}
use kibertas.Prelude.Int.{ℤ}
use kibertas.Api.Objects.{Labels, Deployment, Service, IngressObject, Certificate, Issuer}

-- A request to the Chatwork API: its method, URL, headers and form.
pub record Request : Type 0 where
  pub method : String
  pub url : String
  pub headers : List (String × String)
  pub form : List (String × String)

pub data Call : Type 0 where
  -- client-go: the namespace of the client first, where it has one
  create_namespace update_namespace delete_namespace : String → Call
  create_deployment update_deployment : String → Deployment → Call
  get_deployment delete_deployment : String → String → Call
  create_service update_service : String → Service → Call
  delete_service : String → String → Call
  create_ingress update_ingress : String → IngressObject → Call
  get_ingress delete_ingress : String → String → Call
  list_nodes : String → Call
  get_secret : String → String → Call
  -- controller-runtime
  create_certificate delete_certificate : Certificate → Call
  create_issuer delete_issuer : Issuer → Call
  -- DNS: the name and the server; HTTP: the endpoint and the `Host`
  exchange : String → String → Call
  http_get : String → String → Call
  -- S3: the bucket, the prefix and `UsePathStyle`
  list_objects : String → String → Bool → Call
  -- Datadog: the keys that replace those of the environment, from, to and the query
  query_metrics : Option Labels → ℤ → ℤ → String → Call
  post_message : Request → Call
  -- the clock, the random numbers, and a wait that ends with the context
  now : Call
  random : ℕ → Call
  sleep : ℕ → Call
  -- the clients' configuration
  load_kubeconfig new_clientset new_client load_aws_config : Call

-- What a call that returns a value and an error returns.
pub data Reply (A : Type 0) : Type 0 where
  answer : A → Reply A
  refused : Error → Reply A

-- `deployment.Status.ReadyReplicas` and `deployment.Spec.Replicas`
pub record DeploymentStatus : Type 0 where
  pub ready_replicas : ℕ
  pub replicas : Option ℕ

-- A resource record: the address of a `*dns.A`, or one of another type.
pub data Rr : Type 0 where
  a_record : String → Rr
  other_record : Rr

-- `item.Key` and `item.LastModified`, an instant of the clock
pub record S3Object : Type 0 where
  pub key : Option String
  pub last_modified : Option ℕ

-- `resp, r, err` of a metrics query: `err`, `r.StatusCode` (if `r` is not nil), `resp.Error` and the
-- series.
pub record MetricsReply : Type 0 where
  pub error : Option Error
  pub status_code : Option ℕ
  pub api_error : Option String
  pub series : List String

-- `resp, err` of a POST: `err`, and `resp.Status` if `resp` is not nil.
pub record PostReply : Type 0 where
  pub error : Option Error
  pub status : Option String

-- A `time.Time` by what the program reads of it: an instant to compare, the Unix time, the date here
-- and in UTC, and the text of the time in Tokyo.
pub record Time : Type 0 where
  pub instant : ℕ
  pub unix : ℤ
  pub year : ℕ
  pub month : ℕ
  pub day : ℕ
  pub utc_year : ℕ
  pub utc_month : ℕ
  pub utc_day : ℕ
  pub tokyo : String

-- `aws.Config`, by the field that the program reads.
pub record AwsConfig : Type 0 where
  pub region : String
