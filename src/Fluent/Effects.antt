-- ===== src/Fluent/Effects.antt =====
-- What the fluent check does to the cluster.
use kibertas.Prelude.{ℕ, String, List, [], ◌∷◌, true, if◌then◌else◌}
use kibertas.Api.{Call, Reply, answer, refused, S3Object}
use kibertas.Run.{State, Env, IsLawful, pure}
use kibertas.Run.Adds.{Adds-Since, Adds, Adds-pure, Adds-bind, Adds-if, adds_rules}
use kibertas.Run.Trace.{Since}
use kibertas.Run.Lives.{Lives, Lives-pure, Lives-bind, Lives-if, lives_rules}
use kibertas.Notify.{api_url}
use kibertas.Scope.{Within}
use kibertas.K8s.Effects.{k8s_within, k8s_lives}
use kibertas.Notify.Effects.{Adds-send}
use kibertas.Steps.Effects.{steps_adds, steps_lives}
use kibertas.Fluent.Objects.{Fluent}
use kibertas.Fluent.Check.{
  create_resources, clean_up_resources, new_object, find_new_object, read_objects, object_available,
  check_s3_object, set_replicas, list_nodes, run_checks, check,
}

module _ (P : Call → Type 0) (f : Fluent) (since : ℕ) where
  Adds-new_object : (item : S3Object) → Adds P (new_object f since item)
  unfolding new_object
  Adds-new_object item = search (adds_rules, steps_adds) depth 8

  Adds-find_new_object : (items : List S3Object) → Adds P (find_new_object f since items)
  unfolding find_new_object
  Adds-find_new_object [] = search adds_rules
  Adds-find_new_object (item ∷ items) =
      Adds-bind (new_object f since item)
        (λ found. if found then pure true else find_new_object f since items) (Adds-new_object item)
        (λ found.
          Adds-if found (pure true) (find_new_object f since items) (Adds-pure true)
            (Adds-find_new_object items))

  pub Adds-read_objects : (r : Reply (List S3Object)) → Adds P (read_objects f since r)
  unfolding read_objects
  Adds-read_objects (refused e) = search adds_rules
  Adds-read_objects (answer items) = Adds-find_new_object items

module _ (f : Fluent) (since : ℕ) where
  Lives-new_object : (item : S3Object) → Lives (new_object f since item)
  unfolding new_object
  Lives-new_object item = search (lives_rules, steps_lives) depth 8

  Lives-find_new_object : (items : List S3Object) → Lives (find_new_object f since items)
  unfolding find_new_object
  Lives-find_new_object [] = search lives_rules
  Lives-find_new_object (item ∷ items) =
      Lives-bind (new_object f since item)
        (λ found. if found then pure true else find_new_object f since items)
        (Lives-new_object item)
        (λ found.
          Lives-if found (pure true) (find_new_object f since items) (Lives-pure true)
            (Lives-find_new_object items))

  Lives-read_objects : (r : Reply (List S3Object)) → Lives (read_objects f since r)
  unfolding read_objects
  Lives-read_objects (refused e) = search lives_rules
  Lives-read_objects (answer items) = Lives-find_new_object items

module _ (f : Fluent) where
  pub create_resources-Within : Adds (Within (api_url f.chatwork) f.namespace) (create_resources f)
  unfolding create_resources
  create_resources-Within = search (adds_rules, steps_adds, k8s_within) depth 9

  pub clean_up-Within : Adds (Within (api_url f.chatwork) f.namespace) (clean_up_resources f)
  unfolding clean_up_resources
  clean_up-Within = search (adds_rules, steps_adds, k8s_within) depth 9

  pub object_available-Within :
      (since : ℕ) → Adds (Within (api_url f.chatwork) f.namespace) (object_available f since)
  unfolding object_available
  object_available-Within since =
      search (adds_rules, Adds-read_objects (Within (api_url f.chatwork) f.namespace) f since, tt)
        depth 6

  pub check_s3_object-Within : Adds (Within (api_url f.chatwork) f.namespace) (check_s3_object f)
  unfolding check_s3_object
  check_s3_object-Within = search (adds_rules, object_available-Within, tt) depth 7

  pub run_checks-Within : Adds (Within (api_url f.chatwork) f.namespace) (run_checks f)
  unfolding run_checks
  run_checks-Within =
      search
        (adds_rules, steps_adds, create_resources-Within, clean_up-Within, check_s3_object-Within)
        depth 8

  pub Lives-create_resources : Lives (create_resources f)
  unfolding create_resources
  Lives-create_resources = search (lives_rules, steps_lives, k8s_lives) depth 9

  pub Lives-clean_up_resources : Lives (clean_up_resources f)
  unfolding clean_up_resources
  Lives-clean_up_resources = search (lives_rules, steps_lives, k8s_lives) depth 9

  Lives-object_available : (since : ℕ) → Lives (object_available f since)
  unfolding object_available
  Lives-object_available since = search (lives_rules, Lives-read_objects f since) depth 6

  pub Lives-check_s3_object : Lives (check_s3_object f)
  unfolding check_s3_object
  Lives-check_s3_object = search (lives_rules, Lives-object_available) depth 7

  pub Lives-run_checks : Lives (run_checks f)
  unfolding run_checks
  Lives-run_checks =
      search
        (
          lives_rules, steps_lives, Lives-create_resources, Lives-clean_up_resources,
          Lives-check_s3_object,
        )
        depth 8

pub list_nodes-Within : (url ns : String) → Adds (Within url ns) list_nodes
unfolding list_nodes
list_nodes-Within url ns = search (adds_rules, tt)

run_sized-Within :
    (f : Fluent) (nodes : List String)
    → Adds (Within (api_url f.chatwork) f.namespace) (run_checks (set_replicas f nodes))
unfolding set_replicas
run_sized-Within f nodes = run_checks-Within (set_replicas f nodes)

pub check-Within : (f : Fluent) → Adds (Within (api_url f.chatwork) f.namespace) (check f)
unfolding check
check-Within f =
    search (adds_rules, steps_adds, Adds-send, list_nodes-Within, run_sized-Within f) depth 9

-- In a lawful environment, whatever the fluent check creates, updates or deletes, in whatever way
-- it ends, is in its own namespace, or is that namespace, and every message goes to the room of
-- its Chatwork.
fluent_in_namespace :
    (f : Fluent) (env : Env) (s : State)
    → IsLawful env
    → Since (Within (api_url f.chatwork) f.namespace) s.calls (check f env s).1.calls
fluent_in_namespace f env s l = Adds-Since (check-Within f) env l s
