-- ===== src/Fluent/Check.antt =====
-- The methods of `Fluent` that act: `Check`, and what it calls.
use kibertas.Prelude.{
  ℕ, ◌+◌, ◌*◌, ◌/◌, String, ◌<>◌, Bool, true, false, List, [], ◌∷◌, length, ltb, if◌then◌else◌,
}
use kibertas.Go.Errors.{wrapped}
use kibertas.Go.Format.{decimal}
use kibertas.Api.{Call, Reply, answer, refused, S3Object}
use kibertas.Run.{Action, pure, throw, ◌>>=◌, ◌>>◌, on_error, deferred, call, or_throw, deref, poll}
use kibertas.Notify.{add_message, send}
use kibertas.K8s
use kibertas.K8s.{second, new_k8s}
use kibertas.Cmd.{now}
use kibertas.Steps.{report_nodes, or_report, attempt, error_or_nil, report_clean_up}
use kibertas.Fluent.Objects.{Fluent, create_deployment_object}

unfoldable pub create_resources : Fluent → Action (Unit {0})
unfolding new_k8s
create_resources f = do
  let k = new_k8s f.namespace
  or_report "Error Create Namespace: " "\n" (K8s.create_namespace f.namespace)
  or_report "Error Create Deployment: " "\n"
      (K8s.create_deployment k (create_deployment_object f) f.timeout)

unfoldable pub clean_up_resources : Fluent → Action (Unit {0})
unfolding new_k8s
clean_up_resources f = if f.debug then add_message "Skip Delete Resources\n" else do
  let k = new_k8s f.namespace
  r ← attempt "Error Delete Deployment: " "" (K8s.delete_deployment k f.resource_name) []
  r ← attempt "Error Delete Namespace: " "" (K8s.delete_namespace k) r
  error_or_nil r

-- What the loop over the objects says of one of them; a nil pointer is followed.
unfoldable pub new_object : Fluent → ℕ → S3Object → Action Bool
new_object f since item = do
  modified ← deref item.last_modified
  if ltb since modified
      then (do
        key ← deref item.key
        add_message (
            "fluentd output to s3://"
            <> (f.log_bucket_name <> ("/" <> (f.log_path <> ("/" <> (key <> "\n"))))))
        pure true)
      else pure false

-- The loop: the first object that is new ends it.
unfoldable pub find_new_object : Fluent → ℕ → List S3Object → Action Bool
find_new_object f since [] = pure false
find_new_object f since (item ∷ items) = do
  found ← new_object f since item
  if found then pure true else find_new_object f since items

unfoldable pub read_objects : Fluent → ℕ → Reply (List S3Object) → Action Bool
read_objects f since (refused e) = pure false
read_objects f since (answer items) = find_new_object f since items

-- The condition of `checkS3Object`, where `since` is the time at which that began.
unfoldable pub object_available : Fluent → ℕ → Action Bool
object_available f since = do
  reply ←
      call (λ env. env.objects) (Call.list_objects f.log_bucket_name f.log_path f.use_path_style)
  read_objects f since reply

unfoldable pub check_s3_object : Fluent → Action (Unit {0})
check_s3_object f = do
  t ← now
  on_error (poll (60 * second) f.timeout false (object_available f t.instant))
      (λ e. throw (wrapped "error waiting for S3 objects to be ready: " e))

-- `f.ReplicaCount = (len(nodes.Items) / 3) + 1`
unfoldable pub replicas_for : List String → ℕ
replicas_for nodes = length nodes / 3 + 1

unfoldable pub set_replicas : Fluent → List String → Fluent
unfolding replicas_for
set_replicas f nodes = record f { replica_count = replicas_for nodes }

unfoldable pub list_nodes : Action (List String)
list_nodes = do
  reply ← call (λ env. env.nodes) (Call.list_nodes "eks.amazonaws.com/capacityType=SPOT")
  or_throw reply

-- `Check`, from the clean-up that it defers on.
unfoldable pub run_checks : Fluent → Action (Unit {0})
run_checks f =
    deferred (report_clean_up (clean_up_resources f))
      (do create_resources f; check_s3_object f; add_message "fluent check finished\n")

unfoldable pub check : Fluent → Action (Unit {0})
check f = do
  add_message "fluent check start\n"
  deferred (send f.chatwork) (do
    nodes ← report_nodes list_nodes
    let f' = set_replicas f nodes
    add_message (f'.resource_name <> (" replica counts: " <> (decimal f'.replica_count <> "\n")))
    run_checks f')
