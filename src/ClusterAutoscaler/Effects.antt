-- ===== src/ClusterAutoscaler/Effects.antt =====
-- What the cluster-autoscaler check does to the cluster.
use kibertas.Prelude.{String, List}
use kibertas.Run.{State, Env, IsLawful}
use kibertas.Run.Adds.{Adds-Since, Adds, adds_rules}
use kibertas.Run.Trace.{Since}
use kibertas.Run.Lives.{Lives, lives_rules}
use kibertas.Notify.{api_url}
use kibertas.Scope.{Within}
use kibertas.K8s.Effects.{k8s_within, k8s_lives}
use kibertas.Notify.Effects.{Adds-send}
use kibertas.Steps.Effects.{steps_adds, steps_lives}
use kibertas.ClusterAutoscaler.Objects.{ClusterAutoscaler}
use kibertas.ClusterAutoscaler.Check.{
  create_resources, clean_up_resources, set_replicas, list_nodes, run_checks, check,
}

module _ (c : ClusterAutoscaler) where
  pub create_resources-Within : Adds (Within (api_url c.chatwork) c.namespace) (create_resources c)
  unfolding create_resources
  create_resources-Within = search (adds_rules, steps_adds, k8s_within) depth 9

  pub clean_up-Within : Adds (Within (api_url c.chatwork) c.namespace) (clean_up_resources c)
  unfolding clean_up_resources
  clean_up-Within = search (adds_rules, steps_adds, k8s_within) depth 9

  pub run_checks-Within : Adds (Within (api_url c.chatwork) c.namespace) (run_checks c)
  unfolding run_checks
  run_checks-Within =
      search (adds_rules, steps_adds, create_resources-Within, clean_up-Within) depth 8

  pub Lives-create_resources : Lives (create_resources c)
  unfolding create_resources
  Lives-create_resources = search (lives_rules, steps_lives, k8s_lives) depth 9

  pub Lives-clean_up_resources : Lives (clean_up_resources c)
  unfolding clean_up_resources
  Lives-clean_up_resources = search (lives_rules, steps_lives, k8s_lives) depth 9

  pub Lives-run_checks : Lives (run_checks c)
  unfolding run_checks
  Lives-run_checks =
      search (lives_rules, steps_lives, Lives-create_resources, Lives-clean_up_resources) depth 8

pub list_nodes-Within :
    (url ns : String) (c : ClusterAutoscaler) → Adds (Within url ns) (list_nodes c)
unfolding list_nodes
list_nodes-Within url ns c = search (adds_rules, tt)

run_sized-Within :
    (c : ClusterAutoscaler) (nodes : List String)
    → Adds (Within (api_url c.chatwork) c.namespace) (run_checks (set_replicas c nodes))
unfolding set_replicas
run_sized-Within c nodes = run_checks-Within (set_replicas c nodes)

pub check-Within :
    (c : ClusterAutoscaler) → Adds (Within (api_url c.chatwork) c.namespace) (check c)
unfolding check
check-Within c =
    search (adds_rules, steps_adds, Adds-send, list_nodes-Within, run_sized-Within c) depth 9

-- In a lawful environment, whatever the cluster-autoscaler check creates, updates or deletes, in
-- whatever way it ends, is in its own namespace, or is that namespace, and every message goes to
-- the room of its Chatwork.
cluster_autoscaler_in_namespace :
    (c : ClusterAutoscaler) (env : Env) (s : State)
    → IsLawful env
    → Since (Within (api_url c.chatwork) c.namespace) s.calls (check c env s).1.calls
cluster_autoscaler_in_namespace c env s l = Adds-Since (check-Within c) env l s
