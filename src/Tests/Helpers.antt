-- ===== src/Tests/Helpers.antt =====
-- Tests of the helpers.
use kibertas.Prelude.{if◌then◌else◌, String, Bool, true, none, some, [], ◌∷◌, ◌≡◌, refl}
use kibertas.Go.Errors.{library}
use kibertas.Go.Format.{decimal, decimal_02}
use kibertas.Api.{Call, Deployment}
use kibertas.Run.{State, ok, Env, panicked, issue, ◌>>=◌}
use kibertas.Util.{byte_at, generate_random_string}
use kibertas.Util.Random.{Drawn, size, generate_random_string_lem}
use kibertas.Notify.{send, post_request, reset}
use kibertas.Notify.Effects.{is_delivered, calls_after_send, send_lem}
use kibertas.K8s.{K8s, create_or_update, create_deployment}
use kibertas.K8s.Ready.{Ready, create_deployment-Seen}
use kibertas.K8s.Apply.{already_exists}
use kibertas.Run.Seen.{Seen}
use kibertas.Cmd.{test_namespace}
use kibertas.Tests.World.{calm, calm-IsLawful, start, noon, chatwork}

decimal_2023 : decimal 2023 ≡ "2023"
unfolding decimal
decimal_2023 = refl

padded : decimal_02 7 ≡ "07"
unfolding decimal_02
padded = refl

namespace_of_noon : test_namespace "ingress" noon "abcde" ≡ "ingress-test-20231114-abcde"
unfolding test_namespace
namespace_of_noon = refl

drawn_five : (generate_random_string 5 calm start).0 ≡ ok "aaaaa"
unfolding generate_random_string byte_at ◌>>=◌
drawn_five = refl

generate_random_string_lem_example :
    (str : String) × (t : State) × (generate_random_string 5 calm start ≡ (ok str, t))
    × (size str ≡ 5)
    × Drawn str
generate_random_string_lem_example = generate_random_string_lem calm 5 start calm-IsLawful

abbrev deployment : Deployment
deployment = record {
  name = "sample";
  replicas = some 1;
  match_labels = [];
  template = record { labels = []; tolerations = []; affinity = none; containers = [] };
}

-- no response comes to a message
abbrev unanswered : Env
unanswered = record calm {
  post = λ calls c. record { error = some (library 0 "EOF"); status = none };
}

abbrev waiting : State
waiting = record { messages = "hello\n" ∷ []; calls = [] }

send_lem_example : send chatwork unanswered waiting ≡ (
  if is_delivered unanswered chatwork waiting then ok tt else panicked,
  record { messages = []; calls = calls_after_send unanswered chatwork waiting },
)
send_lem_example = send_lem unanswered chatwork waiting

-- the message is lost, and the program crashes
crashed_send : (send chatwork unanswered waiting).0 ≡ panicked
unfolding send ◌>>=◌ post_request reset
crashed_send = refl

abbrev cluster : K8s
cluster = record { namespace = "ns" }

created :
    create_deployment cluster deployment 20 calm start
    ≡ (ok tt, (create_deployment cluster deployment 20 calm start).1)
unfolding create_deployment ◌>>=◌
created = refl

create_deployment-Seen_example :
    Seen (Ready calm "ns" "sample") [] (create_deployment cluster deployment 20 calm start).1.calls
create_deployment-Seen_example =
    create_deployment-Seen cluster deployment 20 calm calm-IsLawful start created

-- every call is refused, and the objects are there or not
abbrev refusing : Bool → Env
refusing there = record calm {
  issue = λ calls c. some (library 1 "refused");
  is_already_exists = λ e. there;
}

already_exists_example :
    create_or_update (Call.create_namespace "ns") (Call.update_namespace "ns") (refusing true) start
    ≡ issue
        (Call.update_namespace "ns")
        (refusing true)
        (record { messages = []; calls = Call.create_namespace "ns" ∷ [] })
already_exists_example =
    already_exists (refusing true) start (library 1 "refused") (Call.create_namespace "ns")
      (Call.update_namespace "ns") refl refl
