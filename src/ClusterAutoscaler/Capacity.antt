-- ===== src/ClusterAutoscaler/Capacity.antt =====
-- Why the number of replicas makes the cluster grow.
use mathlib.Core.List as Lists
use mathlib.Core.List.{Mem, Nodup, Subset, Subperm}
use mathlib.Core.Option.{some-injective}
use mathlib.Core.List.Nodup
use mathlib.Core.List.Subperm
use native.Mathlib.Bridge.{from_ℕ, from_le}
use text.Mathlib.TextPositions.{eq_refl}
use kibertas.Prelude.{
  ℕ, suc, ◌+◌, ◌^◌, ◌≤◌, ◌<◌, String, Bool, true, Option, none, some, List, [], ◌∷◌, ◌≡◌, refl, sym,
  ◌∙◌, ap, ◌&&◌, any, length, arith, str_eq,
}
use kibertas.Api.{Labels, Affinity, PodAffinityTerm, Requirement, Deployment}
use kibertas.ClusterAutoscaler.Objects.{ClusterAutoscaler, create_deployment_object}
use kibertas.ClusterAutoscaler.Check.{set_replicas}

-- A requirement with the operator `In` holds of labels.
abbrev pub holds_of : Labels → Requirement → Bool
holds_of labels r =
    str_eq r.operator "In"
    && any (λ (l : String × String). str_eq l.0 r.key && any (str_eq l.1) r.values) labels

abbrev pub all_hold : Labels → List Requirement → Bool
all_hold labels [] = true
all_hold labels (r ∷ rs) = holds_of labels r && all_hold labels rs

abbrev pub terms_of : Option Affinity → List PodAffinityTerm
terms_of none = []
terms_of (some a) = a.anti_required

-- The pods of a deployment may not share a node: a required term on the host name matches them.
abbrev pub keeps_apart : Deployment → Bool
keeps_apart d =
    any
      (λ (t : PodAffinityTerm).
        str_eq t.topology_key "kubernetes.io/hostname"
        && all_hold d.template.labels t.match_expressions)
      (terms_of d.template.affinity)

-- The replicas of a deployment all run: each on a node, and no two on one if they are kept apart.
pub record RunsOn (d : Deployment) (hosts : List String) : Type 0 where
  pub one_each : d.replicas ≡ some (length hosts)
  pub apart : keeps_apart d ≡ true → Nodup hosts

from_ℕ-length : (xs : List String) → from_ℕ (Lists.length xs) ≡ length xs
from_ℕ-length [] = refl
from_ℕ-length (x ∷ xs) = ap suc (from_ℕ-length xs)

length_le_of_Subset :
    (hosts nodes : List String) → Nodup hosts → Subset hosts nodes → length hosts ≤ length nodes
length_le_of_Subset hosts nodes n sub = omega (
  arith,
  from_le (Subperm.length-le (Nodup.subperm n sub)),
  from_ℕ-length hosts,
  from_ℕ-length nodes,
)

kept_apart : (c : ClusterAutoscaler) → keeps_apart (create_deployment_object c) ≡ true
unfolding create_deployment_object
kept_apart c = simp eq_refl

replicas_of :
    (c : ClusterAutoscaler) (nodes : List String)
    → length nodes + 1 < 2 ^ 31
    → (create_deployment_object (set_replicas c nodes)).replicas ≡ some (length nodes + 1)
unfolding create_deployment_object set_replicas
replicas_of c nodes h = ap {B = Option ℕ} some (omega arith)

-- The deployment that is made for a list of nodes, shorter than an int32 can count, cannot run on
-- these alone: wherever all its replicas run, one of them is on a node that is not in the list.
pub needs_new_node :
    (c : ClusterAutoscaler) (nodes hosts : List String)
    → length nodes + 1 < 2 ^ 31
    → RunsOn (create_deployment_object (set_replicas c nodes)) hosts
    → ¬ (Subset hosts nodes)
needs_new_node c nodes hosts small runs sub =
    let size : some (length nodes + 1) ≡ some (length hosts) =
      sym (replicas_of c nodes small) ∙ runs.one_each in
    omega (
      arith,
      length_le_of_Subset hosts nodes (runs.apart (kept_apart (set_replicas c nodes))) sub,
      some-injective _ _ size,
    )
