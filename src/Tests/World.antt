-- ===== src/Tests/World.antt =====
-- An environment in which everything works, and the values that the tests run with.
use kibertas.Prelude.{
  str_eq, if◌then◌else◌, Bool, true, false, Option, none, some, List, [], ◌∷◌, ◌≡◌, refl, ◌≢◌,
}
use kibertas.Prelude.Int.{pos}
use kibertas.Go.Errors.{Error, plain, deadline_exceeded, by_deadline}
use kibertas.Api.{answer, refused as refuse, a_record, other_record, Time}
use kibertas.Run.{
  State, Outcome, ok, fail, panicked, exited, Env, IsLawful, Polls, expired, satisfied, refused,
  crashed, stopped, again, Ended,
}
use kibertas.Notify.{Chatwork}
use kibertas.Cmd.{Checker}
use kibertas.Fluent.Objects.{Fluent}
use kibertas.ClusterAutoscaler.Objects.{ClusterAutoscaler}
use kibertas.CertManager.Objects.{CertManager}

-- What a poll that runs its condition once makes of it.
abbrev pub polled : Outcome Bool × State → Ended
polled (ok true, s) = (ok tt, s)
polled (ok false, s) = (fail deadline_exceeded, s)
polled (fail e, s) = (fail e, s)
polled (panicked, s) = (panicked, s)
polled (exited, s) = (exited, s)

abbrev pub first_error : List Error → Option Error
first_error [] = none
first_error (e ∷ es) = some e

abbrev pub noon : Time
noon = record {
  instant = 100;
  unix = pos 1700000000;
  year = 2023;
  month = 11;
  day = 14;
  utc_year = 2023;
  utc_month = 11;
  utc_day = 14;
  tokyo = "2023-11-15 07:13:20";
}

abbrev pub calm : Env
calm = record {
  issue = λ calls c. none;
  deployment = λ calls c. answer (record { ready_replicas = 1; replicas = some 1 });
  hostnames = λ calls c. answer ("lb.example" ∷ []);
  nodes = λ calls c. answer ("node-a" ∷ "node-b" ∷ []);
  records = λ calls c. answer (other_record ∷ a_record "192.0.2.1" ∷ []);
  response = λ calls c. answer 200;
  objects = λ calls c. answer (record { key = some "new"; last_modified = some 200 } ∷ []);
  metrics = λ calls c. record {
    error = none;
    status_code = some 200;
    api_error = none;
    series = "cpu" ∷ [];
  };
  clock = λ calls c. noon;
  intn = λ calls n. 0;
  aws = λ calls c. answer (record { region = "eu" });
  post = λ calls c. record { error = none; status = some "200 OK" };
  getenv = λ name. "";
  bad_url = λ url. none;
  parse_level = λ name. if str_eq name "info" then answer 4 else refuse (plain "not a level");
  debug_level = 5;
  knows_tokyo = true;
  fqdn = λ name. name;
  is_already_exists = λ e. true;
  error_or_nil = first_error;
  poll_until = λ interval timeout immediate c s. polled (c s);
}

polled-Polls :
    (c : State → Outcome Bool × State) (b : Bool) (s : State) (r : Outcome Bool × State)
    → c s ≡ r
    → Polls c b s (polled r)
polled-Polls c b s (ok true, t) h = satisfied h
polled-Polls c b s (ok false, t) h = again h (expired by_deadline)
polled-Polls c b s (fail e, t) h = refused h
polled-Polls c b s (panicked, t) h = crashed h
polled-Polls c b s (exited, t) h = stopped h

some_error : (es : List Error) → es ≢ [] → first_error es ≢ none
some_error [] h = absurd (h refl)
some_error (e ∷ es) h = λ q. cc q

pub calm-IsLawful : IsLawful calm
calm-IsLawful = record {
  polls = λ interval timeout immediate c s. polled-Polls c immediate s (c s) refl;
  no_errors = refl;
  some_errors = some_error;
  intn_lt = λ calls n h. h;
}

abbrev pub start : State
start = record { messages = []; calls = [] }

abbrev pub chatwork : Chatwork
chatwork = record { api_token = "token"; room_id = "1"; site = "" }

abbrev pub checker : Checker
checker = record { debug = false; chatwork = chatwork; cluster_name = "test"; timeout = 20 }

abbrev pub fluent : Fluent
fluent = record {
  checker = checker;
  namespace = "ns";
  log_bucket_name = "logs";
  log_path = "fluentd/test";
  use_path_style = false;
  resource_name = "burst";
  replica_count = 0;
  awscfg = record { region = "" };
}

abbrev pub scaler : ClusterAutoscaler
scaler = record {
  checker = checker;
  namespace = "ns";
  resource_name = "sample-for-scale";
  replica_count = 0;
  node_label_key = "capacity";
  node_label_value = "SPOT";
  deployment_option = record { tolerations = [] };
}

abbrev pub certs : CertManager
certs = record { checker = checker; namespace = "ns"; resource_name = "sample" }
