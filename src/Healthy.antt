-- ===== src/Healthy.antt =====
-- An environment in which all that the program checks is in order.
use kibertas.K8s.{second}
use kibertas.Prelude.{◌*◌, ◌^◌, ℕ, ◌≤◌, ◌<◌, String, true, none, some, List, ◌∷◌, ◌≡◌, any, is_set}
use kibertas.Api.{Call, answer, Rr, a_record, AwsConfig}
use kibertas.Run.{Env}
use kibertas.Run.Returns.{IsPatient}

-- A timeout is longer than a minute, the longest interval of a poll, and not negative as an `int64`.
pub record IsLong (timeout : ℕ) : Type 0 where
  pub minute_lt : 60 * second < timeout
  pub bounded : timeout < 2 ^ 63

-- Among the records of an answer is an address.
pub data HasAddress : List Rr → Type 0 where
  here : {a : String} {rs : List Rr} → HasAddress (a_record a ∷ rs)
  later : {r : Rr} {rs : List Rr} → HasAddress rs → HasAddress (r ∷ rs)

pub record IsHealthy (env : Env) : Type 0 where
  -- polls with such a timeout run their condition at least once, and the libraries know Asia/Tokyo and the level "info"
  pub patient : IsPatient env
  pub tokyo : env.knows_tokyo ≡ true
  pub parses_level : (level : ℕ) × (env.parse_level "info" ≡ answer level)
  -- no URL is ill-formed, and every POST has a response
  pub urls : (url : String) → env.bad_url url ≡ none
  pub posts :
      (calls : List Call) (c : Call) → (status : String) × ((env.post calls c).status ≡ some status)
  -- the cluster: calls succeed, deployments are ready, load balancers have names, nodes are listed
  pub issues : (calls : List Call) (c : Call) → env.issue calls c ≡ none
  pub ready :
      (calls : List Call) (c : Call)
      → (n : ℕ) × (env.deployment calls c
          ≡ answer (record { ready_replicas = n; replicas = some n }))
  pub available :
      (calls : List Call) (c : Call)
      → (names : List String) × (env.hostnames calls c ≡ answer names) × (any is_set names ≡ true)
  pub lists_nodes :
      (calls : List Call) (c : Call) → (names : List String) × (env.nodes calls c ≡ answer names)
  -- DNS has addresses, and HTTP requests are answered with the status 200
  pub resolves :
      (calls : List Call) (c : Call)
      → (rs : List Rr) × (env.records calls c ≡ answer rs) × HasAddress rs
  pub responds : (calls : List Call) (c : Call) → env.response calls c ≡ answer 200
  -- the bucket lists an object that is newer than every time on the clock
  pub aws_config :
      (calls : List Call) (c : Call)
      → (cfg : AwsConfig) × (env.aws calls c ≡ answer cfg) × (is_set cfg.region ≡ true)
  pub latest : ℕ
  pub clock_le : (calls : List Call) (c : Call) → (env.clock calls c).instant ≤ latest
  pub logged :
      (calls : List Call) (c : Call)
      → (key : String) × (modified : ℕ) × (items : List _) × (env.objects calls c
          ≡ answer (record { key = some key; last_modified = some modified } ∷ items))
        × (latest < modified)
  -- the keys of Datadog are set, and it has metrics
  pub api_key : is_set (env.getenv "DD_API_KEY") ≡ true
  pub app_key : is_set (env.getenv "DD_APP_KEY") ≡ true
  pub measured :
      (calls : List Call) (c : Call)
      → ((env.metrics calls c).error ≡ none)
        × ((env.metrics calls c).api_error ≡ none)
        × ((first : String) × (rest : List String) × ((env.metrics calls c).series ≡ first ∷ rest))
