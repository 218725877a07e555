-- ===== src/Cli/Tree.antt =====
-- main.go: the tree of the commands, as it is given to cobra.
use kibertas.Prelude.{String, List, [], ◌∷◌, str_eq, if◌then◌else◌, ◌≡◌, refl, map}
use kibertas.Cli.{Command, cluster_autoscaler, ingress, fluent, datadog_agent, cert_manager, all}

-- The `RunE` of a command of the tree: its help text, or what it runs.
pub data RunE : Type 0 where
  help : RunE
  runs : Command → RunE

-- What the program sets of a `cobra.Command`.
pub record CobraCommand : Type 0 where
  pub use_line : String
  pub short : String
  pub long : String
  pub run_e : RunE

-- `cmdTest`
unfoldable pub cmd_test : CobraCommand
cmd_test = record { use_line = "test"; short = "test"; long = "test"; run_e = help }

-- `cmdClusterAutoscaler` and the like
unfoldable pub cobra_command : Command → CobraCommand
cobra_command cluster_autoscaler = record {
  use_line = "cluster-autoscaler";
  short = "test cluster-autoscaler";
  long = "test cluster-autoscaler";
  run_e = runs cluster_autoscaler;
}
cobra_command ingress = record {
  use_line = "ingress";
  short = "test ingress";
  long = "test ingress(ingress-controller, external-dns)";
  run_e = runs ingress;
}
cobra_command fluent = record {
  use_line = "fluent";
  short = "test fluent(fluent-bit, fluentd)";
  long = "test fluent(fluent-bit, fluentd)";
  run_e = runs fluent;
}
cobra_command datadog_agent = record {
  use_line = "datadog-agent";
  short = "test datadog-agent";
  long = "test datadog-agent";
  run_e = runs datadog_agent;
}
cobra_command cert_manager = record {
  use_line = "cert-manager";
  short = "test cert-manager";
  long = "test cert-manager";
  run_e = runs cert_manager;
}
cobra_command all = record {
  use_line = "all";
  short = "test all application";
  long = "test all application";
  run_e = runs all;
}

-- The commands below `test`, in the order of `AddCommand`.
unfoldable pub test_commands : List CobraCommand
unfolding cobra_command
test_commands =
    map cobra_command
      (all ∷ fluent ∷ cluster_autoscaler ∷ ingress ∷ cert_manager ∷ datadog_agent ∷ [])

-- the commands of a list that the same word of the command line names
abbrev pub named : String → List CobraCommand → List CobraCommand
named word [] = []
named word (c ∷ cs) = if str_eq c.use_line word then c ∷ named word cs else named word cs

-- Every command of the program stands below test, and no other command there has its name.
pub test_commands-named :
    (command : Command)
    → named (cobra_command command).use_line test_commands ≡ cobra_command command ∷ []
unfolding test_commands cobra_command
test_commands-named cluster_autoscaler = refl
test_commands-named ingress = refl
test_commands-named fluent = refl
test_commands-named datadog_agent = refl
test_commands-named cert_manager = refl
test_commands-named all = refl
